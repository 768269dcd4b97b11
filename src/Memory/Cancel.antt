-- ===== src/Memory/Cancel.antt =====
-- src/TaskQueue/backends/memory_backend.py: `request_cancel`, `request_cancel_many`, `wait_cancel`.
use task_queue.Base.{
  member, ℕ, String, ◌==◌, eq_iff, eq_refl, ◌≡◌, refl, true, false, some, arith, inl, inr,
  Option-cases, get_or, get_or-set_self, List, [], ◌∷◌, ◌||◌, ◌&&◌,
}
use task_queue.Base.Dict.{lookup, insert, lookup-insert}
use task_queue.Python.{ok, Record, str}
use task_queue.Memory.{Memory, request_cancel, request_cancel_many, wait_cancel}
use task_queue.Memory.Waiting.{is_pending, is_requested, cancel}
use task_queue.Memory.Stated.{Stated, request_cancel-Stated}
use task_queue.Memory.Life.{Inv}

-- Completion wins: cancelling a job that is terminal or unknown changes nothing and raises nothing.
pub request_cancel_settled :
    (id : String) (m : Memory)
    → is_pending (lookup id m.jobs) ≡ false
    → request_cancel id m ≡ (m, ok tt)
unfolding request_cancel
request_cancel_settled id m h = elim (Option-cases (lookup id m.jobs)) [
  | inl missing ↦ ground arith
  | inr (r, found) ↦ ground arith
]

-- In a well-formed store `request_cancel` raises for no id.
request_cancel_total : (id : String) (m : Memory) → Stated m → (request_cancel id m).1 ≡ ok tt
unfolding request_cancel
request_cancel_total id m h = ground (arith, h id)

-- A pending job is flagged in its record, which keeps its status and its other fields; the event that
-- `wait_cancel` had handed out before, and hands out now, is set, so that a running worker wakes.
pub request_cancel_pending :
    (id : String) (r : Record) (m : Memory)
    → Inv m
    → lookup id m.jobs ≡ some r
    → is_pending (some r) ≡ true
    → let m' = (request_cancel id m).0 in
      (e : ℕ) × (wait_cancel id m ≡ ok e)
      × (wait_cancel id m' ≡ ok e)
      × (get_or m'.flags e false ≡ true)
      × (lookup id m'.jobs ≡ some (insert "request_cancel" (str "1") r))
      × (m'.queue ≡ m.queue)
unfolding request_cancel wait_cancel
request_cancel_pending id r m v found pending = elim (Option-cases (lookup id m.cancels)) [
  | inl missing ↦ absurd (ground (arith, v.waiting.owned cancel id))
  | inr (e, event) ↦ (
    e,
    ground arith,
    ground (arith, v.stated id),
    ground
        (arith, v.stated id, v.waiting.bounded cancel id e, get_or-set_self m.flags e true false),
    ground (
      arith,
      v.stated id,
      eq_refl id,
      lookup-insert id id (insert "request_cancel" (str "1") r) m.jobs,
    ),
    ground (arith, v.stated id),
  )
]

-- The durable flag and the status under one request.
cancel_flag :
    (id j : String) (m : Memory)
    → Stated m
    → is_requested (lookup j (request_cancel id m).0.jobs)
      ≡ (is_requested (lookup j m.jobs) || (id == j && is_pending (lookup j m.jobs)))
unfolding request_cancel
cancel_flag id j m h = elim (Option-cases (lookup id m.jobs)) [
  | inl missing ↦ ground (arith, eq_iff id j)
  | inr (r, found) ↦ ground (
    arith,
    h id,
    eq_iff id j,
    lookup-insert id j (insert "request_cancel" (str "1") r) m.jobs,
    lookup-insert "request_cancel" "request_cancel" (str "1") r,
  )
]

cancel_keeps :
    (id j : String) (m : Memory)
    → (is_pending (lookup j (request_cancel id m).0.jobs) ≡ is_pending (lookup j m.jobs))
      × ((request_cancel id m).0.queue ≡ m.queue)
unfolding request_cancel
cancel_keeps id j m = elim (Option-cases (lookup id m.jobs)) [
  | inl missing ↦ ground arith
  | inr (r, found) ↦ ground (
    arith,
    eq_iff id j,
    lookup-insert id j (insert "request_cancel" (str "1") r) m.jobs,
    lookup-insert "request_cancel" "status" (str "1") r,
  )
]

-- In a store where every record has a status the batch raises nothing and reaches every id of the
-- list: afterwards a job's durable flag is set exactly if it was set before, or the job is pending and
-- listed. No job becomes terminal or pending by it, and the queue stays as it is.
pub request_cancel_many_flags :
    (ids : List String) (m : Memory)
    → Stated m
    → let m' = (request_cancel_many ids m).0 in
      ((request_cancel_many ids m).1 ≡ ok tt)
      × ((j : String)
          → is_requested (lookup j m'.jobs)
            ≡ (is_requested (lookup j m.jobs) || (member j ids && is_pending (lookup j m.jobs))))
      × ((j : String) → is_pending (lookup j m'.jobs) ≡ is_pending (lookup j m.jobs))
      × (m'.queue ≡ m.queue)
unfolding request_cancel_many
request_cancel_many_flags [] m h = (refl, λ j. ground arith, λ j. refl, refl)
request_cancel_many_flags (id ∷ ids) m h =
    let first = (request_cancel id m).0 in
    let (total, flags, pendings, queue) =
      request_cancel_many_flags ids first (request_cancel-Stated id m h) in
    (
      ground (arith, request_cancel_total id m h, total),
      λ j.
          ground (
            arith,
            request_cancel_total id m h,
            flags j,
            cancel_flag id j m h,
            cancel_keeps id j m,
          ),
      λ j. ground (arith, request_cancel_total id m h, pendings j, cancel_keeps id j m),
      ground (arith, request_cancel_total id m h, queue, cancel_keeps id id m),
    )
