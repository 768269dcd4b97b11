-- ===== src/Memory/Results.antt =====
-- src/TaskQueue/backends/memory_backend.py: `save(done=True)` and `take_result`, the hand-over of a
-- finished job to whoever waits for it.
use task_queue.Base.{
  String, ◌==◌, eq_iff, eq_refl, ◌≡◌, Bool, true, false, not, Option, none, some, arith, inl, inr,
  Option-cases, if◌then◌else◌, get_or-set_self,
}
use task_queue.Base.Dict.{lookup, lookup-insert, lookup-erase}
use task_queue.Python.{key_error, Result, ok, err, Record}
use task_queue.Memory.{Memory, is_set, get_job, save, take_record, take_resumed, take_result}
use task_queue.Memory.Waiting.{Waiting, is_pending, done}
use task_queue.Memory.Waiting.Settle.{take_ready, save-Waiting, save_known, get_or-set_event_ne}

-- Some waiter has been let through.
abbrev pub is_woken : Option (Memory × Result Record) → Bool
is_woken none = false
is_woken (some x) = true

-- `take_result` waits exactly while its job is known and not terminal.
pub take_result_waits :
    (id : String) (m : Memory)
    → Waiting m
    → is_woken (take_result id m) ≡ not (is_pending (lookup id m.jobs))
unfolding take_result
take_result_waits id m w = ground (arith, take_ready id m w)

-- The terminal write of a pending job.
module _ (id : String) (r old : Record) (m : Memory) (w : Waiting m)
    (found : lookup id m.jobs ≡ some old) (pending : is_pending (some old) ≡ true)
    (settled : is_pending (some r) ≡ false) where
  abbrev pub saved : Memory
  saved = (save id r true m).0

  saved_record : (j : String) → lookup j saved.jobs ≡ (if id == j then some r else lookup j m.jobs)
  saved_record j = ground (arith, save_known id r old m found, lookup-insert id j r m.jobs)

  -- The event that a waiter looked up before the write is set by it.
  saved_event : is_set (lookup id m.events) saved ≡ true
  saved_event = elim (Option-cases (lookup id m.events)) [
    | inl missing ↦ ground arith
    | inr (e, event) ↦ ground (
      arith,
      save_known id r old m found,
      w.bounded done id e event,
      get_or-set_self m.flags e true false,
    )
  ]

  -- A waiter that called `take_result` before the terminal write, and one that calls it afterwards,
  -- are let through by it and given the record that was written.
  pub take_result_after_save :
      (take_resumed (lookup id m.events) id saved ≡ some ((take_record id saved).0, ok r))
      × (take_result id saved ≡ some ((take_record id saved).0, ok r))
  unfolding take_result take_record
  take_result_after_save = (
    ground (arith, saved_event, saved_record id, eq_refl id),
    ground
        (arith, saved_record id, eq_refl id, take_ready id saved (save-Waiting id r m settled w)),
  )

  -- A waiter of another pending job is not let through by the write, even if it is resumed.
  pub take_resumed_other :
      (j : String)
      → (id == j) ≡ false
      → is_pending (lookup j m.jobs) ≡ true
      → take_resumed (lookup j m.events) j saved ≡ none
  unfolding take_resumed
  take_resumed_other j other waits = elim (Option-cases (lookup j m.events)) [
    | inl missing ↦ absurd (ground (arith, w.owned done j))
    | inr (e, event) ↦ ground (
      arith,
      save_known id r old m found,
      eq_iff id j,
      w.unset j e,
      w.one_owner done done id j e,
      get_or-set_event_ne (lookup id m.events) m.flags e,
    )
  ]

-- Once a result was taken the job is gone: a second `take_result` and a `get_job` raise KeyError, and
-- no other job has changed.
pub take_record_frees :
    (id : String) (m : Memory)
    → let m' = (take_record id m).0 in
      (take_result id m' ≡ some ((take_record id m').0, err key_error))
      × (get_job id m' ≡ err key_error)
      × ((j : String) → (id == j) ≡ false → get_job j m' ≡ get_job j m)
unfolding take_result take_record get_job
take_record_frees id m = (
  ground (arith, eq_refl id, lookup-erase id id m.events, lookup-erase id id m.jobs),
  ground (arith, eq_refl id, lookup-erase id id m.jobs),
  λ j other. ground (arith, lookup-erase id j m.jobs),
)
