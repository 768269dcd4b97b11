-- ===== src/Memory/Lease.antt =====
-- src/TaskQueue/backends/memory_backend.py: `claim` and `release`, the two ends of a lease.
use task_queue.Base.{
  ℕ, suc, String, ◌==◌, eq_iff, eq_refl, ◌≡◌, refl, ◌≢◌, false, Option, none, some, List, [], ◌∷◌,
  arith, inl, inr, Option-cases, if◌then◌else◌, ◌∙◌,
}
use task_queue.Base.Dict.{lookup, insert, lookup-insert}
use task_queue.Base.Decimal.{to_text}
use task_queue.Python.{key_error, Result, ok, err, Value, str, bytes, Record}
use task_queue.Job.Record.{int_or_zero}
use task_queue.Memory.{Memory, claim, claim_from, lease, count_attempt, release}
use task_queue.Memory.Delivery.{status_is, head_queued}
use task_queue.Memory.Life.{Inv}

-- What a claim hands out: the stored record, RUNNING and with one more attempt.
abbrev pub leased : ℕ → Record → Record
leased n r = insert "attempts" (str (to_text (suc n))) (insert "status" (str "running") r)

-- With a readable count of attempts, a claim takes the head of the queue: it removes that id, marks
-- the job RUNNING and counts the attempt in the stored record, and returns the same record; its other
-- fields stay, and so does every other job.
pub claim_leases :
    (id : String) (queue : List String) (r : Record) (n : ℕ) (m : Memory)
    → m.queue ≡ id ∷ queue
    → lookup id m.jobs ≡ some r
    → int_or_zero (lookup "attempts" r) ≡ ok n
    → let m' = (claim m).0 in
      ((claim m).1 ≡ ok (some (leased n r)))
      × (m'.queue ≡ queue)
      × ((j : String) → lookup j m'.jobs ≡ (if id == j then some (leased n r) else lookup j m.jobs))
      × (lookup "status" (leased n r) ≡ some (str "running"))
      × (lookup "attempts" (leased n r) ≡ some (str (to_text (suc n))))
      × ((k : String)
          → (k == "status") ≡ false
          → (k == "attempts") ≡ false
          → lookup k (leased n r) ≡ lookup k r)
unfolding claim
claim_leases id queue r n m e found count = (
  ground arith,
  ground arith,
  λ j. ground (arith, lookup-insert id j (leased n r) m.jobs),
  lookup-insert "attempts" "status" (str (to_text (suc n))) (insert "status" (str "running") r)
      ∙ lookup-insert "status" "status" (str "running") r,
  lookup-insert "attempts" "attempts" (str (to_text (suc n))) (insert "status" (str "running") r),
  λ k h h'. ground (
    arith,
    eq_iff k "status",
    eq_iff "status" k,
    eq_iff k "attempts",
    eq_iff "attempts" k,
    lookup-insert "status" k (str "running") r,
    lookup-insert "attempts" k (str (to_text (suc n))) (insert "status" (str "running") r),
  ),
)

int_or_zero-ne-key_error : (v : Option Value) → int_or_zero v ≢ err key_error
int_or_zero-ne-key_error none e = cc
int_or_zero-ne-key_error (some (str s)) e = ground arith
int_or_zero-ne-key_error (some (bytes b)) e = cc

count_attempt-ne-key_error :
    (id : String) (r : Record) (m : Memory) (x : Result ℕ)
    → x ≢ err key_error
    → (count_attempt id r m x).1 ≢ err key_error
count_attempt-ne-key_error id r m (ok n) h e = cc
count_attempt-ne-key_error id r m (err x) h e = h (ground arith)

-- In a well-formed store `claim` never fails on an id whose record is gone, and comes back with None
-- exactly when the queue is empty.
pub claim_finds_record :
    (m : Memory)
    → Inv m
    → ((claim m).1 ≢ err key_error)
      × ((claim m).1 ≡ ok none → m.queue ≡ [])
      × (m.queue ≡ [] → (claim m).1 ≡ ok none)
unfolding claim
claim_finds_record m v = let (found, idle) = by_queue m.queue refl in (found, idle, λ e. rw e refl)
  where
    by_queue :
        (q : List String)
        → m.queue ≡ q
        → ((claim_from q m).1 ≢ err key_error) × ((claim_from q m).1 ≡ ok none → q ≡ [])
    by_queue [] e = (λ h. cc, λ h. refl)
    by_queue (id ∷ queue) e = elim (Option-cases (lookup id m.jobs)) [
      | inl missing ↦ absurd (ground (arith, head_queued id queue m e v.delivery))
      | inr (r, found) ↦
          rw (found, lease)
            (
              count_attempt-ne-key_error id (insert "status" (str "running") r)
                  (record m { queue = queue }) (int_or_zero (lookup "attempts" r))
                  (int_or_zero-ne-key_error (lookup "attempts" r)),
              by_count r (int_or_zero (lookup "attempts" r)),
            )
    ]
      where
        by_count :
            (r : Record) (x : Result ℕ)
            → (count_attempt id
                (insert "status" (str "running") r)
                (record m { queue = queue })
                x).1
              ≡ ok none
            → id ∷ queue ≡ []
        by_count r (ok n) h = cc
        by_count r (err x) h = cc

-- A job that is not RUNNING is not released.
release_idle :
    (id : String) (m : Memory)
    → status_is "running" (lookup id m.jobs) ≡ false
    → (release id m).0 ≡ m
unfolding release
release_idle id m h = ground arith

release-not_running :
    (id : String) (m : Memory) → status_is "running" (lookup id (release id m).0.jobs) ≡ false
unfolding release
release-not_running id m = elim (Option-cases (lookup id m.jobs)) [
  | inl missing ↦ ground arith
  | inr (r, found) ↦ ground (
    arith,
    eq_refl id,
    lookup-insert id id (insert "status" (str "queued") r) m.jobs,
    lookup-insert "status" "status" (str "queued") r,
  )
]

-- A second release of the same job changes nothing, whatever the store: a double release is harmless.
pub release_twice : (id : String) (m : Memory) → (release id (release id m).0).0 ≡ (release id m).0
release_twice id m = release_idle id (release id m).0 (release-not_running id m)
