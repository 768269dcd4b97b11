-- ===== src/Memory/Stated.antt =====
-- src/TaskQueue/backends/memory_backend.py: every stored record has a status, so that the methods
-- that read `record["status"]` do not raise on a known job.
use task_queue.Base.{
  String, ◌≡◌, Bool, true, false, Option, none, some, List, [], ◌∷◌, arith, inl, inr, Option-cases,
}
use task_queue.Base.Dict.{lookup, insert, lookup-insert, lookup-erase}
use task_queue.Python.{str, Record}
use task_queue.Job.Record.{int_or_zero}
use task_queue.Memory.{
  Memory, enqueue, claim, claim_from, lease, save, release, take_record, request_cancel,
}
use task_queue.Memory.Delivery.{count_attempt_effect}
use task_queue.Memory.Waiting.{is_pending, is_some}

abbrev pub is_stated : Option Record → Bool
is_stated none = true
is_stated (some r) = is_some (lookup "status" r)

abbrev pub Stated : Memory → Type 0
Stated m = (id : String) → is_stated (lookup id m.jobs) ≡ true

pub enqueue-Stated : (id : String) (r : Record) (m : Memory) → Stated m → Stated (enqueue id r m)
unfolding enqueue
enqueue-Stated id r m h j = ground (
  arith,
  h j,
  lookup-insert id j (insert "status" (str "queued") r) m.jobs,
  lookup-insert "status" "status" (str "queued") r,
)

pub claim-Stated : (m : Memory) → Stated m → Stated (claim m).0
unfolding claim
claim-Stated m h j = by_queue m.queue
  where
    by_queue : (q : List String) → is_stated (lookup j (claim_from q m).0.jobs) ≡ true
    by_queue [] = h j
    by_queue (id ∷ queue) = elim (Option-cases (lookup id m.jobs)) [
      | inl missing ↦ rw (missing, lease) (h j)
      | inr (r, found) ↦
          let (r', effect, running, _) =
            count_attempt_effect id r (record m { queue = queue })
              (int_or_zero (lookup "attempts" r)) in
          ground (arith, effect, running, h j, lookup-insert id j r' m.jobs)
    ]

pub save-Stated :
    (id : String) (r : Record) (m : Memory)
    → is_pending (some r) ≡ false
    → Stated m
    → Stated (save id r true m).0
unfolding save
save-Stated id r m settled h j = ground (arith, h j, lookup-insert id j r m.jobs)

pub release-Stated : (id : String) (m : Memory) → Stated m → Stated (release id m).0
unfolding release
release-Stated id m h j = elim (Option-cases (lookup id m.jobs)) [
  | inl missing ↦ ground (arith, h j)
  | inr (r, found) ↦ ground (
    arith,
    h j,
    lookup-insert id j (insert "status" (str "queued") r) m.jobs,
    lookup-insert "status" "status" (str "queued") r,
  )
]

pub take_record-Stated : (id : String) (m : Memory) → Stated m → Stated (take_record id m).0
unfolding take_record
take_record-Stated id m h j = ground (arith, h j, lookup-erase id j m.jobs)

pub request_cancel-Stated : (id : String) (m : Memory) → Stated m → Stated (request_cancel id m).0
unfolding request_cancel
request_cancel-Stated id m h j = elim (Option-cases (lookup id m.jobs)) [
  | inl missing ↦ ground (arith, h j)
  | inr (r, found) ↦ ground (
    arith,
    h j,
    h id,
    lookup-insert id j (insert "request_cancel" (str "1") r) m.jobs,
    lookup-insert "request_cancel" "status" (str "1") r,
  )
]
