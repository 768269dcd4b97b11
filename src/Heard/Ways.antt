-- ===== src/Heard/Ways.antt =====
-- src/TaskQueue/worker.py, `_run`: the ways in which a run can end, as its job's caller hears of them.
use Prim.Native.String.{◌++◌ as concat}
use task_queue.Base.{String, ◌≡◌, Bool, true, Option, none, some, ◌⊎◌, if◌then◌else◌}
use task_queue.Python.{Error, job_cancelled, runtime_error, cancelled_error, Result, ok, err, Any}
use task_queue.Job.Record.{Job}
use task_queue.Worker.Run.{Awaits, Outcome, returned, raised, Watch, cancel_seen, watch_failed}

-- What the caller hears: the task's value, its exception's text, or that the job was cancelled; `none`
-- if the run is interrupted, or its body raises a CancelledError, and nothing is heard yet.
module _ (repr : String → String) (message : Error → String) where
  abbrev pub failure : Job → String → Result Any
  failure job text =
      err (runtime_error (concat "job " (concat (repr job.id) (concat " failed: " text))))

  abbrev pub heard_error : Job → Error → Option (Result Any)
  heard_error job cancelled_error = none
  heard_error job e = some (failure job (message e))

  abbrev pub heard_outcome : Job → Outcome → Option (Result Any)
  heard_outcome job (returned v) = some (ok v)
  heard_outcome job (raised e) = heard_error job e

  abbrev pub heard_cancel : Bool → Option (Result Any)
  heard_cancel interrupted = if interrupted then none else some (err job_cancelled)

  abbrev pub heard_unwatched : Job → Option Outcome → Option (Result Any)
  heard_unwatched job none = none
  heard_unwatched job (some o) = heard_outcome job o

  abbrev pub heard_body : Job → Awaits → Option Outcome → Option Watch → Option (Result Any)
  heard_body job a (some o) watch = heard_outcome job o
  heard_body job a none (some (watch_failed e)) = heard_unwatched job a.unwatched
  heard_body job a none (some cancel_seen) = heard_cancel a.unwind_interrupted
  heard_body job a none none = heard_cancel a.unwind_interrupted

  abbrev pub heard : (String → Bool) → Awaits → Job → Option (Result Any)
  heard registered a job =
      if job.request_cancel
      then some (err job_cancelled)
      else if registered job.task_name
      then (if a.interrupted then none else heard_body job a a.job a.watch)
      else some (failure job (concat "no task is registered under the name " (repr job.task_name)))

-- The values that the body may return fit the codec.
abbrev pub ReturnsFit : (Any → Bool) → Awaits → Type 0
ReturnsFit fits a =
    (v : Any) → (a.job ≡ some (returned v)) ⊎ (a.unwatched ≡ some (returned v)) → fits v ≡ true
