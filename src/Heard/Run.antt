-- ===== src/Heard/Run.antt =====
-- src/TaskQueue/worker.py, `_run` and `_process`, and src/TaskQueue/handle.py, `result`, over any
-- backend: what the caller of a job hears of each way that its run ends.
use task_queue.Base.{
  String, ◌≡◌, refl, ap, ◌∙◌, Bool, true, false, Option, none, some, arith, inl, inr, if◌then◌else◌,
}
use task_queue.Python.{
  Error, key_error, value_error, type_error, job_cancelled, task_name_error, config_error,
  runtime_error, foreign, cancelled_error, Result, ok, err, Any, null, Bytes,
}
use task_queue.Job.Status.{running, completed, failed, cancelled, is_terminal}
use task_queue.Job.Codec.{Serializer, DateTime}
use task_queue.Job.Record.{Job, payload_of}
use task_queue.Redis.View.{Hash}
use task_queue.Backend.{Backend, Contract}
use task_queue.Worker.Run.{
  Awaits, Outcome, returned, raised, Watch, cancel_seen, watch_failed, settle, run, fail, or_fail,
  save_settled, finish, finish_unwatched, cancel_body, settle_by,
}
use task_queue.Client.Handle.{result_of}
use task_queue.Heard.Saved.{save_done, saves, Holds, Hears, saves-Hears}
use task_queue.Heard.Ways.{
  failure, heard_error, heard_outcome, heard_cancel, heard_unwatched, heard_body, heard, ReturnsFit,
}

module _ (b : Backend) (stored_at : String → b.State → Option Hash) (Good : b.State → Type 0)
    (contract : Contract b stored_at Good) (serializer : Serializer) (datetime : DateTime)
    (repr : String → String) (message : Error → String) where
  open b use {State}

  -- The run ends with what its caller hears, or by a CancelledError with nothing written.
  abbrev pub Ends : String → State → Option (Result Any) → State × Result (Unit {0}) → Type 0
  Ends id s none (s', res) = (res ≡ err cancelled_error) × (s' ≡ s)
  Ends id s (some out) (s', res) =
      (res ≡ ok tt) × Hears b stored_at Good contract serializer datetime repr message id s' out

  -- A job that a worker holds, and of which nothing is known yet but how it was submitted.
  pub record Held (job : Job) (p : Bytes) (s : State) : Type 0 where
    pub good : Good s
    pub holds : Holds b stored_at Good contract serializer datetime repr message job p none s
    pub busy : job.status ≡ running
    pub no_error : job.error ≡ none
    pub no_result : job.result ≡ null
    pub fits : serializer.fits (payload_of job) ≡ true

  abbrev finished : Job → State → State × Result (Unit {0})
  finished = saves b stored_at Good contract serializer datetime repr message

  -- The terminal jobs that `_run` writes.
  failed-Ends :
      (job : Job) (text : String) (p : Bytes) (s : State)
      → Held job p s
      → Ends job.id s
          (some (failure repr message job text))
          (finished (record job { error = some text; status = failed }) s)
  unfolding result_of is_terminal
  failed-Ends job text p s held =
      saves-Hears b stored_at Good contract serializer datetime repr message job
        (record job { error = some text; status = failed }) p s held.good held.holds held.busy
        held.no_error refl refl refl held.fits (λ e. cc) (λ _. held.no_result)

  dropped-Ends :
      (job : Job) (p : Bytes) (s : State)
      → Held job p s
      → Ends job.id s (some (err job_cancelled)) (finished (record job { status = cancelled }) s)
  unfolding result_of is_terminal
  dropped-Ends job p s held =
      saves-Hears b stored_at Good contract serializer datetime repr message job
        (record job { status = cancelled }) p s held.good held.holds held.busy held.no_error refl
        refl refl held.fits (λ e. cc) (λ _. held.no_result)

  completed-Ends :
      (job : Job) (v : Any) (p : Bytes) (s : State)
      → Held job p s
      → serializer.fits v ≡ true
      → Ends job.id s (some (ok v)) (finished (record job { result = v; status = completed }) s)
  unfolding result_of is_terminal
  completed-Ends job v p s held fits =
      saves-Hears b stored_at Good contract serializer datetime repr message job
        (record job { result = v; status = completed }) p s held.good held.holds held.busy
        held.no_error refl refl refl held.fits (λ _. fits) (λ differ. absurd (differ refl))

  fail-Ends :
      (job : Job) (e : Error) (p : Bytes) (s : State)
      → Held job p s
      → Ends job.id s (heard_error repr message job e) (
          fail
            (save_done b stored_at Good contract serializer datetime repr message)
            serializer
            datetime
            repr
            message
            job
            e
            s)
  fail-Ends job cancelled_error p s held = (refl, refl)
  fail-Ends job key_error p s held = failed-Ends job (message key_error) p s held
  fail-Ends job value_error p s held = failed-Ends job (message value_error) p s held
  fail-Ends job type_error p s held = failed-Ends job (message type_error) p s held
  fail-Ends job job_cancelled p s held = failed-Ends job (message job_cancelled) p s held
  fail-Ends job task_name_error p s held = failed-Ends job (message task_name_error) p s held
  fail-Ends job config_error p s held = failed-Ends job (message config_error) p s held
  fail-Ends job (runtime_error t) p s held = failed-Ends job (message (runtime_error t)) p s held
  fail-Ends job (foreign t) p s held = failed-Ends job (message (foreign t)) p s held

  abbrev settles : Job → Result Job → State → State × Result (Unit {0})
  settles =
      save_settled (save_done b stored_at Good contract serializer datetime repr message) serializer
        datetime repr message

  -- A save that goes through is not followed by another.
  through :
      (job : Job) (id : String) (s : State) (out : Result Any) (q : State × Result (Unit {0}))
      → Ends id s (some out) q
      → Ends id s (some out) (
          or_fail
            (save_done b stored_at Good contract serializer datetime repr message)
            serializer
            datetime
            repr
            message
            job
            q)
  through job id s out (s', ok u) h = h
  through job id s out (s', err e) h = absurd (ground arith)

  outcome-Ends :
      (job : Job) (o : Outcome) (p : Bytes) (s : State)
      → Held job p s
      → ((v : Any) → o ≡ returned v → serializer.fits v ≡ true)
      → Ends job.id s (heard_outcome repr message job o) (settles job (finish job o) s)
  outcome-Ends job (returned v) p s held fits =
      let job' = record job { result = v; status = completed } in
      through job' job.id s (ok v) (finished job' s) (completed-Ends job v p s held (fits v refl))
  outcome-Ends job (raised e) p s held fits = fail-Ends job e p s held

  cancel-Ends :
      (job : Job) (interrupted : Bool) (p : Bytes) (s : State)
      → Held job p s
      → Ends job.id s
          (heard_cancel repr message interrupted)
          (settles job (cancel_body job interrupted) s)
  cancel-Ends job true p s held = (refl, refl)
  cancel-Ends job false p s held =
      let job' = record job { status = cancelled } in
      through job' job.id s (err job_cancelled) (finished job' s) (dropped-Ends job p s held)

  unwatched-Ends :
      (job : Job) (a : Awaits) (o : Option Outcome) (p : Bytes) (s : State)
      → a.unwatched ≡ o
      → Held job p s
      → ReturnsFit serializer.fits a
      → Ends job.id s (heard_unwatched repr message job o) (settles job (finish_unwatched job o) s)
  unwatched-Ends job a none p s e held fits = (refl, refl)
  unwatched-Ends job a (some o) p s e held fits =
      outcome-Ends job o p s held (λ v same. fits v (inr (e ∙ ap some same)))

  body-Ends :
      (job : Job) (a : Awaits) (o : Option Outcome) (watch : Option Watch) (p : Bytes) (s : State)
      → a.job ≡ o
      → Held job p s
      → ReturnsFit serializer.fits a
      → Ends job.id s
          (heard_body repr message job a o watch)
          (settles job (settle_by job o watch a) s)
  body-Ends job a (some o) watch p s e held fits =
      outcome-Ends job o p s held (λ v same. fits v (inl (e ∙ ap some same)))
  body-Ends job a none (some (watch_failed x)) p s e held fits =
      unwatched-Ends job a a.unwatched p s refl held fits
  body-Ends job a none (some cancel_seen) p s e held fits =
      cancel-Ends job a.unwind_interrupted p s held
  body-Ends job a none none p s e held fits = cancel-Ends job a.unwind_interrupted p s held

  settle-Ends :
      (job : Job) (a : Awaits) (stopped : Bool) (p : Bytes) (s : State)
      → Held job p s
      → ReturnsFit serializer.fits a
      → Ends job.id s
          (if stopped then none else heard_body repr message job a a.job a.watch)
          (settles job (if stopped then err cancelled_error else settle_by job a.job a.watch a) s)
  settle-Ends job a true p s held fits = (refl, refl)
  settle-Ends job a false p s held fits = body-Ends job a a.job a.watch p s refl held fits

  by_test :
      (c : Bool) (id : String) (s : State) (x y : Option (Result Any))
      (q q' : State × Result (Unit {0}))
      → (c ≡ true → Ends id s x q)
      → (c ≡ false → Ends id s y q')
      → Ends id s (if c then x else y) (if c then q else q')
  by_test true id s x y q q' passed refused = passed refl
  by_test false id s x y q q' passed refused = refused refl

  -- `_run`, whatever the backend, of a job that the worker holds.
  pub run-heard :
      (registered : String → Bool) (a : Awaits) (job : Job) (p : Bytes) (s : State)
      → Held job p s
      → (job.request_cancel ≡ false → ReturnsFit serializer.fits a)
      → Ends job.id s (heard repr message registered a job) (
          run
            (save_done b stored_at Good contract serializer datetime repr message)
            serializer
            datetime
            repr
            message
            registered
            a
            job
            s)
  unfolding run settle
  run-heard registered a job p s held fits =
      by_test job.request_cancel job.id s _ _ _ _ (λ dropped. dropped-Ends job p s held)
        (λ wanted.
          by_test (registered job.task_name) job.id s _ _ _ _
            (λ known. settle-Ends job a a.interrupted p s held (fits wanted))
            (λ unknown. failed-Ends job _ p s held))
