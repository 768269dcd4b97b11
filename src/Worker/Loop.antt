-- ===== src/Worker/Loop.antt =====
-- src/TaskQueue/worker.py, `_worker_loop`: one round, over any backend.
use task_queue.Base.{String, Bool, Option, none, some}
use task_queue.Python.{Error, cancelled_error, Result, ok, err, Record}
use task_queue.Job.Codec.{Serializer, DateTime}
use task_queue.Job.Record.{text_at}
use task_queue.Worker.Run.{Awaits, process}

-- Whether the loop goes on, or its task ends.
pub data Next : Type 0 where
  again stops : Next

module _ {S : Type 0} (claim : S → S × Result (Option Record))
    (release : String → S → S × Result (Unit {0}))
    (save : String → Record → S → S × Result (Unit {0})) (serializer : Serializer)
    (datetime : DateTime) (repr : String → String) (message : Error → String) where
  -- `asyncio.shield(self._backend.release(record["id"]))`, whose own exceptions are logged
  abbrev pub hand_back : Result String → S → S
  hand_back (ok id) s = (release id s).0
  hand_back (err e) s = s

  -- The handlers around `_process`: a CancelledError hands the lease back and ends the task, and any
  -- other exception is logged.
  abbrev pub after_process : Record → S × Result (Unit {0}) → S × Next
  after_process r (s, ok u) = (s, again)
  after_process r (s, err cancelled_error) = (hand_back (text_at "id" r) s, stops)
  after_process r (s, err e) = (s, again)

  abbrev pub after_claim : (String → Bool) → Awaits → S × Result (Option Record) → S × Next
  after_claim registered a (s, err cancelled_error) = (s, stops)
  after_claim registered a (s, err e) = (s, again)
  after_claim registered a (s, ok none) = (s, again)
  after_claim registered a (s, ok (some r)) =
      after_process r (process save serializer datetime repr message registered a r s)

  -- One round of the `while`.
  unfoldable pub round : (String → Bool) → Awaits → S → S × Next
  round registered a s = after_claim registered a (claim s)
