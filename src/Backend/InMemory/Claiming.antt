-- ===== src/Backend/InMemory/Claiming.antt =====
-- src/TaskQueue/backends/memory_backend.py, `claim`, as src/TaskQueue/backends/interface.py describes
-- it.
use task_queue.Base.{
  ◌⊎◌, sym, ap, ◌∙◌, ◌≡◌, ◌≢◌, true, suc, List, [], ◌∷◌, ℕ, String, eq_refl, ne-eq_false, refl,
  Option, none, some, arith, inl, inr, Option-cases,
}
use task_queue.Base.Dict.{lookup, insert, lookup-insert, lookup-insert_other}
use task_queue.Python.{Error, Result, ok, err, Value, str, bytes, Record}
use task_queue.Redis.View.{incremented, field_of}
use task_queue.Redis.Effects.{is_present}
use task_queue.Memory.{Memory, claim, claim_from}
use task_queue.Memory.Life.{Inv}
use task_queue.Job.Record.{int_or_zero}
use task_queue.Base.Decimal.{to_text, of_text}
use task_queue.Backend.{Tells, Claims}
use task_queue.Backend.InMemory.{memory_backend, memory_stored, fields}

result_cases : (x : Result ℕ) → ((e : Error) × (x ≡ err e)) ⊎ ((n : ℕ) × (x ≡ ok n))
result_cases (err e) = inl (e, refl)
result_cases (ok n) = inr (n, refl)

counted :
    (v : Option Value) (n : ℕ) → int_or_zero v ≡ ok n → incremented v ≡ some (str (to_text (suc n)))
counted none n h = ground arith
counted (some (bytes b)) n h = absurd (ground arith)
counted (some (str t)) n h = elim (Option-cases (of_text t)) [
  | inl bad ↦ absurd (ground arith)
  | inr (k, good) ↦ ground arith
]

pub memory_backend-Claims : Claims memory_backend memory_stored Inv
unfolding claim
memory_backend-Claims = record {
  claim_some = λ m m' r e. some_by m m' r m.queue e;
  claim_none = λ m m' e id. none_by m m' m.queue e id;
}
  where
    some_by :
        (m m' : Memory) (r : Record) (q : List String)
        → claim_from q m ≡ (m', ok (some r))
        → (id : String) × (is_present (memory_stored id m) ≡ true)
          × (field_of (memory_stored id m') "status" ≡ some (str "running"))
          × (incremented (field_of (memory_stored id m) "attempts")
              ≡ field_of (memory_stored id m') "attempts")
          × ((k : String)
              → k ≢ "status"
              → k ≢ "attempts"
              → field_of (memory_stored id m') k ≡ field_of (memory_stored id m) k)
          × Tells memory_backend memory_stored Inv r id m'
          × ((j : String) → id ≢ j → memory_stored j m' ≡ memory_stored j m)
    some_by m m' r [] e = absurd (ground arith)
    some_by m m' r (id ∷ q) e = elim (Option-cases (lookup id m.jobs)) [
      | inl missing ↦ absurd (ground arith)
      | inr (old, found) ↦ elim (result_cases (int_or_zero (lookup "attempts" old))) [
        | inl (x, bad) ↦ absurd (ground arith)
        | inr (n, good) ↦
            let r₁ = insert "status" (str "running") old in
            let r₂ = insert "attempts" (str (to_text (suc n))) r₁ in
            let jobs : m'.jobs ≡ insert id r₂ m.jobs = ground arith in
            let given : r₂ ≡ r = ground arith in
            let own : memory_stored id m' ≡ some (λ k. lookup k r₂) =
              ground (arith, jobs, lookup-insert id id r₂ m.jobs, eq_refl id) in
            (
              id,
              ground arith,
              ap (λ o. field_of o "status") own
                  ∙ lookup-insert "attempts" "status" (str (to_text (suc n))) r₁
                  ∙ lookup-insert "status" "status" (str "running") old,
              ap (λ o. incremented (field_of (fields o) "attempts")) found
                  ∙ counted (lookup "attempts" old) n good
                  ∙ sym (
                      ap (λ o. field_of o "attempts") own
                      ∙ lookup-insert "attempts" "attempts" (str (to_text (suc n))) r₁),
              λ k no_status no_attempts.
                  ap (λ o. field_of o k) own
                  ∙ lookup-insert_other "attempts" k (str (to_text (suc n))) r₁ no_attempts
                  ∙ lookup-insert_other "status" k (str "running") old no_status
                  ∙ ap (λ o. field_of (fields o) k) (sym found),
              λ k is_in plain. ap (lookup k) (sym given) ∙ sym (ap (λ o. field_of o k) own),
              λ j differ.
                  ground (arith, jobs, lookup-insert id j r₂ m.jobs, ne-eq_false id j differ),
            )
      ]
    ]

    none_by :
        (m m' : Memory) (q : List String)
        → claim_from q m ≡ (m', ok none)
        → (id : String) → memory_stored id m' ≡ memory_stored id m
    none_by m m' [] e id = ground arith
    none_by m m' (x ∷ q) e id = elim (Option-cases (lookup x m.jobs)) [
      | inl missing ↦ absurd (ground arith)
      | inr (r, found) ↦ elim (result_cases (int_or_zero (lookup "attempts" r))) [
        | inl (err_, bad) ↦ absurd (ground arith)
        | inr (n, good) ↦ absurd (ground arith)
      ]
    ]
