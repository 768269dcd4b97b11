-- ===== src/Worker/Run.antt =====
-- src/TaskQueue/worker.py, `Worker._run`, `_save` and `_process`.
use Prim.Native.String.{◌++◌ as concat}
use task_queue.Base.{String, Bool, true, false, Option, none, some, if◌then◌else◌}
use task_queue.Python.{Error, cancelled_error, Result, ok, err, Any, Record}
use task_queue.Job.Status.{completed, failed, cancelled}
use task_queue.Job.Codec.{Serializer, DateTime}
use task_queue.Job.Record.{Job, to_record, from_record}

-- How a task body ended.
pub data Outcome : Type 0 where
  returned : Any → Outcome
  raised : Error → Outcome

-- How `wait_cancel` ended.
pub data Watch : Type 0 where
  cancel_seen : Watch
  watch_failed : Error → Watch

-- What the awaits of `_run` come back with. `job` and `watch` are the tasks that `asyncio.wait` found
-- done; `unwatched` is how the body ends when it is awaited on its own; `none` there, `interrupted` and
-- `unwind_interrupted` are a shutdown that cancels the await.
pub record Awaits : Type 0 where
  pub interrupted : Bool
  pub job : Option Outcome
  pub watch : Option Watch
  pub unwatched : Option Outcome
  pub unwind_interrupted : Bool

-- `job.result = job_task.result()`
abbrev pub finish : Job → Outcome → Result Job
finish job (returned v) = ok (record job { result = v; status = completed })
finish job (raised e) = err e

abbrev pub finish_unwatched : Job → Option Outcome → Result Job
finish_unwatched job none = err cancelled_error
finish_unwatched job (some o) = finish job o

-- `job_task.cancel()` and the wait for it to unwind
abbrev pub cancel_body : Job → Bool → Result Job
cancel_body job true = err cancelled_error
cancel_body job false = ok (record job { status = cancelled })

abbrev pub settle_by : Job → Option Outcome → Option Watch → Awaits → Result Job
settle_by job (some o) watch a = finish job o
settle_by job none (some (watch_failed e)) a = finish_unwatched job a.unwatched
settle_by job none (some cancel_seen) a = cancel_body job a.unwind_interrupted
settle_by job none none a = cancel_body job a.unwind_interrupted

-- The `try` block of `_run` up to its `_save`.
unfoldable pub settle : Job → Awaits → Result Job
settle job a = if a.interrupted then err cancelled_error else settle_by job a.job a.watch a

-- The backend is what `_save` writes to; `repr` is Python's, and `message` is `str` of an exception.
module _ {S : Type 0} (save : String → Record → S → S × Result (Unit {0})) (serializer : Serializer)
    (datetime : DateTime) (repr : String → String) (message : Error → String) where
  -- `_save`
  abbrev pub save_record : Job → Result Record → S → S × Result (Unit {0})
  save_record job (ok r) s = save job.id r s
  save_record job (err e) s = (s, err e)

  unfoldable pub save_job : Job → S → S × Result (Unit {0})
  save_job job s = save_record job (to_record serializer datetime job) s

  -- `except Exception as e`; a CancelledError is raised on.
  abbrev pub fail : Job → Error → S → S × Result (Unit {0})
  fail job cancelled_error s = (s, err cancelled_error)
  fail job e s = save_job (record job { error = some (message e); status = failed }) s

  abbrev pub or_fail : Job → S × Result (Unit {0}) → S × Result (Unit {0})
  or_fail job (s, ok u) = (s, ok u)
  or_fail job (s, err e) = fail job e s

  abbrev pub save_settled : Job → Result Job → S → S × Result (Unit {0})
  save_settled job (ok job') s = or_fail job' (save_job job' s)
  save_settled job (err e) s = fail job e s

  unfoldable pub run : (String → Bool) → Awaits → Job → S → S × Result (Unit {0})
  run registered a job s =
      if job.request_cancel
      then save_job (record job { status = cancelled }) s
      else if registered job.task_name
      then save_settled job (settle job a) s
      else save_job
          (record job {
            error = some (concat "no task is registered under the name " (repr job.task_name));
            status = failed;
          })
          s

  abbrev pub run_read : (String → Bool) → Awaits → Result Job → S → S × Result (Unit {0})
  run_read registered a (ok job) s = run registered a job s
  run_read registered a (err e) s = (s, err e)

  -- `_process`
  unfoldable pub process : (String → Bool) → Awaits → Record → S → S × Result (Unit {0})
  process registered a r s = run_read registered a (from_record serializer datetime r) s
