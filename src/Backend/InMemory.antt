-- ===== src/Backend/InMemory.antt =====
-- src/TaskQueue/backends/memory_backend.py as a backend of src/TaskQueue/backends/interface.py.
pub mod Writing
pub mod Claiming
pub mod Reading
use task_queue.Base.{
  ◌⊎◌, sym, ap, ◌∙◌, ◌≡◌, ◌≢◌, true, suc, List, [], ◌∷◌, ℕ, String, eq_refl, ne-eq_false, refl,
  Option, none, some, arith, inl, inr, Option-cases, if◌then◌else◌,
}
use task_queue.Base.Dict.{lookup, insert, lookup-insert, lookup-insert_other, lookup-erase}
use task_queue.Python.{Error, Result, ok, err, Value, str, bytes, Record}
use task_queue.Redis.View.{incremented, Hash, field_of}
use task_queue.Redis.Effects.{is_present}
use task_queue.Memory.{
  Memory, enqueue, claim, claim_from, get_job, save, release, take_result, take_resumed,
  take_record, request_cancel, request_cancel_many, wait_cancel, heartbeat, deregister, reap,
  is_set,
}
use task_queue.Memory.Waiting.Settle.{take_ready}
use task_queue.Memory.Life.{Inv, Step-Inv, enqueues, claims, finishes, releases, request_cancel-Inv}
use task_queue.Job.Record.{int_or_zero}
use task_queue.Base.Decimal.{to_text, of_text}
use task_queue.Backend.{Backend, Tells, Claims, Writes, Reads, Keeps, Contract}

-- `wait_cancel`, as to whether it returns at once.
abbrev awaited : Memory → Result ℕ → Option (Result (Unit {0}))
awaited m (err e) = some (err e)
awaited m (ok e) = if is_set (some e) m then some (ok tt) else none

abbrev pub memory_backend : Backend
memory_backend = record {
  State = Memory;
  enqueue = enqueue;
  claim = claim;
  get_job = get_job;
  save = save;
  release = release;
  take_result = take_result;
  request_cancel = request_cancel;
  request_cancel_many = request_cancel_many;
  wait_cancel = λ id m. awaited m (wait_cancel id m);
  heartbeat = heartbeat;
  deregister = deregister;
  reap = reap;
}

abbrev pub fields : Option Record → Option Hash
fields none = none
fields (some r) = some (λ k. lookup k r)

abbrev pub memory_stored : String → Memory → Option Hash
memory_stored id m = fields (lookup id m.jobs)
