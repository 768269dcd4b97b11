-- ===== src/Memory/Lifecycle/Moves.antt =====
-- src/TaskQueue/backends/memory_backend.py: what each method does to the life of a job.
use task_queue.Base.{
  String, eq_refl, text_cases, ◌≡◌, refl, ◌∙◌, ap, true, false, Option, none, some, List, [], ◌∷◌,
  arith, inl, inr, Option-cases, Bool-cases,
}
use task_queue.Base.Dict.{lookup, insert, lookup-insert, lookup-erase}
use task_queue.Python.{Result, ok, err, Value, str, Record}
use task_queue.Job.Record.{int_or_zero}
use task_queue.Memory.{
  Memory, empty, enqueue, claim, claim_from, save, release, take_record, request_cancel,
  request_cancel_many, unless_raised, cancel_if, is_terminal_value,
}
use task_queue.Memory.Delivery.{Delivery, status_is, head_queued, count_attempt_effect}
use task_queue.Memory.Waiting.{is_pending}
use task_queue.Memory.Life.{
  Step, enqueues, claims, finishes, releases, cancels, takes, Reach, here, next, Inv, Reach-Inv,
  take_result_inv,
}
use task_queue.Memory.Lifecycle.{
  Phase, absent, phase_of, phase, phase_in, follows, stays, waiting-phase, leased-phase,
  settled-phase, Follows, kept, inserted, marked, unmarked, is_stray,
}

enqueue-Follows : (id : String) (r : Record) (m : Memory) → Follows m (enqueue id r m)
unfolding enqueue
enqueue-Follows id r m = elim (Option-cases (lookup id m.jobs)) [
  | inr (old, known) ↦ kept m (enqueue id r m) (λ j. ground arith)
  | inl new ↦
      let r' = insert "status" (str "queued") r in
      inserted id r' m (enqueue id r m) (ground arith) (rw (new, marked "queued" r) refl)
]

claim-Follows : (m : Memory) → Delivery m → Follows m (claim m).0
unfolding claim
claim-Follows m h = by_queue m.queue refl
  where
    by_queue : (q : List String) → m.queue ≡ q → Follows m (claim_from q m).0
    by_queue [] e = kept m m (λ j. refl)
    by_queue (id ∷ queue) e = elim (Option-cases (lookup id m.jobs)) [
      | inl missing ↦ absurd (ground (arith, head_queued id queue m e h))
      | inr (r, found) ↦
          let (r', effect, running, _) =
            count_attempt_effect id r (record m { queue = queue })
              (int_or_zero (lookup "attempts" r)) in
          inserted id r' m (claim_from (id ∷ queue) m).0 (ground (arith, effect)) (
            rw (waiting-phase (lookup id m.jobs) (head_queued id queue m e h), ap phase_of running)
              refl)
    ]

save-Follows :
    (id : String) (r : Record) (m : Memory)
    → status_is "running" (lookup id m.jobs) ≡ true
    → is_pending (some r) ≡ false
    → Follows m (save id r true m).0
unfolding save
save-Follows id r m leased_ over =
    inserted id r m (save id r true m).0 (ground arith)
      (rw (leased-phase (lookup id m.jobs) leased_, settled-phase r over) refl)

release-Follows : (id : String) (m : Memory) → Follows m (release id m).0
unfolding release
release-Follows id m = elim (Bool-cases (status_is "running" (lookup id m.jobs))) [
  | inr idle ↦ kept m (release id m).0 (λ j. ground arith)
  | inl busy ↦ elim (Option-cases (lookup id m.jobs)) [
    | inl missing ↦ absurd (ground arith)
    | inr (r, found) ↦
        inserted id (insert "status" (str "queued") r) m (release id m).0 (ground arith)
          (rw (leased-phase (lookup id m.jobs) busy, marked "queued" r) refl)
  ]
]

abbrev Same : Memory → Memory → Type 0
Same m m' = (j : String) → phase_in j m' ≡ phase_in j m

flag_keeps :
    (id : String) (r : Record) (m : Memory)
    → lookup id m.jobs ≡ some r
    → (j : String)
    → phase (lookup j (insert id (insert "request_cancel" (str "1") r) m.jobs)) ≡ phase_in j m
flag_keeps id r m found j = elim (text_cases id j) [
  | inl (same, hit) ↦
      rw
        (
          ← same,
          lookup-insert id id (insert "request_cancel" (str "1") r) m.jobs,
          eq_refl id,
          found,
        )
        (unmarked "request_cancel" (str "1") r refl)
  | inr (differ, miss) ↦
      rw (lookup-insert id j (insert "request_cancel" (str "1") r) m.jobs, miss) refl
]

request_cancel-Same : (id : String) (m : Memory) → Same m (request_cancel id m).0
unfolding request_cancel
request_cancel-Same id m j = elim (Option-cases (lookup id m.jobs)) [
  | inl missing ↦ ap (λ x. phase_in j x) {x = (request_cancel id m).0} {y = m} (ground arith)
  | inr (r, found) ↦
      ap (λ x. phase_in j x) {x = (request_cancel id m).0}
        {y = (cancel_if id r (lookup "status" r) m).0} (ground arith)
      ∙ by_status r (lookup "status" r) found
]
  where
    by_status :
        (r : Record) (v : Option Value)
        → lookup id m.jobs ≡ some r
        → phase_in j (cancel_if id r v m).0 ≡ phase_in j m
    by_status r none found = refl
    by_status r (some v) found = elim (Bool-cases (is_terminal_value v)) [
      | inl over ↦ rw over refl
      | inr live ↦ rw live (flag_keeps id r m found j)
    ]

unless_raised-Same :
    (m : Memory) (x rest : Memory × Result (Unit {0}))
    → Same m x.0
    → Same m rest.0
    → Same m (unless_raised x rest).0
unless_raised-Same m (m', ok u) rest v v' = v'
unless_raised-Same m (m', err e) rest v v' = v

request_cancel_many-Same : (ids : List String) (m : Memory) → Same m (request_cancel_many ids m).0
unfolding request_cancel_many
request_cancel_many-Same [] m = λ j. refl
request_cancel_many-Same (id ∷ ids) m =
    let m' = (request_cancel id m).0 in
    unless_raised-Same m (request_cancel id m) (request_cancel_many ids m')
      (request_cancel-Same id m)
      (λ j. request_cancel_many-Same ids m' j ∙ request_cancel-Same id m j)

take_record-Follows :
    (id : String) (m : Memory)
    → is_pending (lookup id m.jobs) ≡ false
    → Follows m (take_record id m).0
unfolding take_record
take_record-Follows id m over j = elim (text_cases id j) [
  | inr (differ, miss) ↦ rw (lookup-erase id j m.jobs, miss) (stays (phase_in j m))
  | inl (same, hit) ↦
      rw (← same, lookup-erase id id m.jobs, eq_refl id) (frees (lookup id m.jobs) over)
]
  where
    frees : (o : Option Record) → is_pending o ≡ false → follows (phase o) absent ≡ true
    frees none h = refl
    frees (some r) h = rw (settled-phase r h) refl

Step-Follows : {m m' : Memory} → Step m m' → Inv m → Follows m m'
Step-Follows {m} (enqueues id r) v = enqueue-Follows id r m
Step-Follows {m} claims v = claim-Follows m v.delivery
Step-Follows {m} (finishes id r busy over) v = save-Follows id r m busy over
Step-Follows {m} (releases id) v = release-Follows id m
Step-Follows {m} (cancels ids) v = λ j. rw (request_cancel_many-Same ids m j) (stays (phase_in j m))
Step-Follows {m} (takes id {m'} {res} e) v =
    let (settled_, taken) = take_result_inv id m m' res e v.waiting in
    rw (← ap (λ p. p.0) taken) (take_record-Follows id m settled_)

not_stray_next : (p q : Phase) → follows p q ≡ true → is_stray p ≡ false → is_stray q ≡ false
not_stray_next p q h s = ground arith

Reach-regular : {m : Memory} → Reach empty m → (j : String) → is_stray (phase_in j m) ≡ false
unfolding lookup
Reach-regular here j = refl
Reach-regular (next {m'} {m''} r st) j =
    not_stray_next (phase_in j m') (phase_in j m'') (Step-Follows st (Reach-Inv r) j)
      (Reach-regular r j)

-- The life of a job is the one that the interface describes: in a store that the steps lead to from the
-- empty one, no job has a status but QUEUED, RUNNING or a terminal one, and every further step leaves
-- it as it is or enqueues an unknown job, claims a QUEUED one, releases or finishes a RUNNING one, or
-- takes a terminal one, which is unknown again.
pub Step-lifecycle :
    {m m' : Memory}
    → Reach empty m
    → Step m m'
    → (j : String)
    → (is_stray (phase_in j m) ≡ false) × (follows (phase_in j m) (phase_in j m') ≡ true)
Step-lifecycle r st j = (Reach-regular r j, Step-Follows st (Reach-Inv r) j)
