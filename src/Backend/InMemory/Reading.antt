-- ===== src/Backend/InMemory/Reading.antt =====
-- src/TaskQueue/backends/memory_backend.py keeps the contract of
-- src/TaskQueue/backends/interface.py.
use task_queue.Base.{sym, ap, eq_refl, ne-eq_false, refl, arith, inl, inr, Option-cases}
use task_queue.Base.Dict.{lookup, lookup-erase}
use task_queue.Redis.View.{field_of}
use task_queue.Memory.{get_job, take_result, take_resumed, take_record}
use task_queue.Memory.Waiting.Settle.{take_ready}
use task_queue.Memory.Life.{Inv, Step-Inv, enqueues, claims, finishes, releases, request_cancel-Inv}
use task_queue.Backend.{Reads, Keeps, Contract}
use task_queue.Backend.InMemory.Writing.{memory_backend-Writes}
use task_queue.Backend.InMemory.Claiming.{memory_backend-Claims}
use task_queue.Backend.InMemory.{memory_backend, memory_stored, fields}

memory_backend-Reads : Reads memory_backend memory_stored Inv
unfolding take_result take_resumed take_record get_job
memory_backend-Reads = record {
  get_known = λ id m known. elim (Option-cases (lookup id m.jobs)) [
    | inl missing ↦ absurd (ground arith)
    | inr (r, found) ↦
        (r, ground arith, λ k is_in plain. ap (λ o. field_of (fields o) k) (sym found))
  ];
  get_unknown = λ id m missing. ground arith;
  take_unknown =
      λ id m good missing. ((take_record id m).0, ground (arith, take_ready id m good.waiting));
  take_live = λ id t m good status live. ground (arith, take_ready id m good.waiting);
  take_terminal = λ id m good over. elim (Option-cases (lookup id m.jobs)) [
    | inl missing ↦ absurd (ground arith)
    | inr (r, found) ↦ (
      (take_record id m).0,
      r,
      ground (arith, take_ready id m good.waiting),
      λ k is_in plain. ap (λ o. field_of (fields o) k) (sym found),
      ground (arith, lookup-erase id id m.jobs, eq_refl id),
      λ j differ. ground (arith, lookup-erase id j m.jobs, ne-eq_false id j differ),
    )
  ];
  heartbeat_keeps = λ id m. refl;
  deregister_keeps = λ id m. refl;
  reap_keeps = λ id m. refl;
}

memory_backend-Keeps : Keeps memory_backend memory_stored Inv
memory_backend-Keeps = record {
  enqueue_good = λ id r m good. Step-Inv (enqueues id r) good;
  claim_good = λ m good. Step-Inv claims good;
  finish_good =
      λ id r m good leased over. Step-Inv (finishes id r (ground arith) (ground arith)) good;
  release_good = λ id m good. Step-Inv (releases id) good;
  cancel_good = λ id m good. request_cancel-Inv id m good;
}

-- The memory backend keeps these laws of the interface. In every state: enqueueing makes an
-- unknown job QUEUED, with the other fields of its record, and leaves a known one alone; a save of a
-- known job writes the record's fields and adds no other; a release puts a RUNNING job back to
-- QUEUED with its other fields; saving, releasing or reading an unknown job raises KeyError; a claim
-- that returns a record marks a known job RUNNING, counts its attempt and keeps its other fields,
-- and one that returns none changes no record. In a state that satisfies the invariant, a release of
-- any other known job is a no-op, a request to cancel flags a job that is not terminal, with its
-- other fields kept, and is a no-op on any other, a batch of requests asks for each job in turn as
-- long as none raises, and `take_result` waits for a job that is not
-- terminal, returns a terminal one and frees it. The record that a claim, `get_job` or `take_result`
-- returns has the fields that are stored. All of these leave the records of other jobs alone;
-- `heartbeat`, `deregister` and `reap` change no record. Enqueueing, claiming, releasing, cancelling
-- and the terminal save of a RUNNING job keep the invariant. The records that are written are dicts,
-- with no key twice.
pub memory_backend-Contract : Contract memory_backend memory_stored Inv
memory_backend-Contract = record {
  keeps = memory_backend-Keeps;
  writes = memory_backend-Writes;
  claims = memory_backend-Claims;
  reads = memory_backend-Reads;
}
