-- ===== src/Client/Handle.antt =====
-- src/TaskQueue/handle.py: `JobHandle`, over any backend. The lock makes the callers of `_consume`
-- take turns, so that each call is one step once its job is terminal.
use Prim.Native.String.{◌++◌ as concat}
use task_queue.Base.{String, ◌≡◌, Option, none, some, arith, Option-cases, inl, inr}
use task_queue.Python.{
  value_error, job_cancelled, runtime_error, Result, ok, err, ◌>>=◌, or_raise, Any, Record,
}
use task_queue.Job.Status.{JobStatus, failed, cancelled, of_value}
use task_queue.Job.Codec.{Serializer, DateTime}
use task_queue.Job.Record.{Job, text_at, from_record}

-- `job` is the cached terminal job.
pub record Handle : Type 0 where
  pub job_id : String
  pub job : Option Job

-- `JobHandle(job_id, …)`
abbrev pub new_handle : String → Handle
new_handle id = record { job_id = id; job = none }

-- An f-string's text of an error that may be None.
abbrev pub error_text : Option String → String
error_text none = "None"
error_text (some e) = e

-- `result`, of the consumed job; `repr` is Python's.
abbrev pub result_by : JobStatus → (String → String) → String → Job → Result Any
result_by failed repr id job =
    err
      (runtime_error (concat "job " (concat (repr id) (concat " failed: " (error_text job.error)))))
result_by cancelled repr id job = err job_cancelled
result_by _ repr id job = ok job.result

unfoldable pub result_of : (String → String) → String → Result Job → Result Any
result_of repr id (err e) = err e
result_of repr id (ok job) = result_by job.status repr id job

-- `cancel`, over the backend's `request_cancel`
unfoldable pub cancel :
    {S : Type 0} → (String → S → S × Result (Unit {0})) → Handle → S → S × Result (Unit {0})
cancel request_cancel h s = request_cancel h.job_id s

-- `take` is the backend's `take_result`, which gives `none` while it waits, and `get` its `get_job`.
module _ {S : Type 0} (take : String → S → Option (S × Result Record))
    (get : String → S → Result Record) (serializer : Serializer) (datetime : DateTime) where
  abbrev pub cache : Handle → S → Result Job → S × Handle × Result Job
  cache h s (ok job) = (s, record h { job = some job }, ok job)
  cache h s (err e) = (s, h, err e)

  abbrev pub took : Handle → Option (S × Result Record) → Option (S × Handle × Result Job)
  took h none = none
  took h (some (s, err e)) = some (s, h, err e)
  took h (some (s, ok r)) = some (cache h s (from_record serializer datetime r))

  -- `_consume`
  unfoldable pub consume : Handle → S → Option (S × Handle × Result Job)
  consume h s = elim h.job [ none ↦ took h (take h.job_id s) | some job ↦ some (s, h, ok job) ]

  abbrev pub resulted :
      (String → String)
      → String
      → Option (S × Handle × Result Job)
      → Option (S × Handle × Result Any)
  resulted repr id none = none
  resulted repr id (some (s, h, job)) = some (s, h, result_of repr id job)

  -- `result`
  unfoldable pub result : (String → String) → Handle → S → Option (S × Handle × Result Any)
  result repr h s = resulted repr h.job_id (consume h s)

  -- `status`
  unfoldable pub status : Handle → S → Result JobStatus
  status h s = elim h.job [
    | none ↦ get h.job_id s >>= λ r. text_at "status" r >>= λ t. or_raise (of_value t) value_error
    | some job ↦ ok job.status
  ]

  cached :
      (h h' : Handle) (s s' : S) (x : Result Job) (job : Job)
      → cache h s x ≡ (s', h', ok job)
      → h'.job ≡ some job
  cached h h' s s' (ok j) job e = ground arith
  cached h h' s s' (err x) job e = cc

  took-cached :
      (h h' : Handle) (s' : S) (o : Option (S × Result Record)) (job : Job)
      → took h o ≡ some (s', h', ok job)
      → h'.job ≡ some job
  took-cached h h' s' none job e = cc
  took-cached h h' s' (some (s, err x)) job e = cc
  took-cached h h' s' (some (s, ok r)) job e =
      cached h h' s s' (from_record serializer datetime r) job (ground arith)

  consumed :
      (h h' : Handle) (s s' : S) (job : Job)
      → consume h s ≡ some (s', h', ok job)
      → h'.job ≡ some job
  unfolding consume
  consumed h h' s s' job e = elim (Option-cases h.job) [
    | inl missing ↦ took-cached h h' s' (take h.job_id s) job (ground arith)
    | inr (j, found) ↦ ground arith
  ]

  -- Once a handle has consumed its job, every later call on it, whatever has become of the backend,
  -- gives the same result and the job's status, and leaves the backend and the handle alone.
  pub result_again :
      (repr : String → String) (h h' : Handle) (s s' later : S) (job : Job)
      → consume h s ≡ some (s', h', ok job)
      → (result repr h' later ≡ some (later, h', result_of repr h'.job_id (ok job)))
        × (status h' later ≡ ok job.status)
  unfolding result consume status
  result_again repr h h' s s' later job e =
      (ground (arith, consumed h h' s s' job e), ground (arith, consumed h h' s s' job e))
