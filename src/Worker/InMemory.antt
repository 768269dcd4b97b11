-- ===== src/Worker/InMemory.antt =====
-- src/TaskQueue/worker.py over src/TaskQueue/backends/memory_backend.py: what becomes of a claimed job.
use Prim.Native.String.{◌++◌ as concat}
use task_queue.Base.{
  String, eq_refl, ◌≡◌, refl, ◌≢◌, subst, Bool, true, false, some, arith, ◌⊎◌, inl, inr,
  if◌then◌else◌,
}
use task_queue.Base.Dict.{lookup, lookup-insert}
use task_queue.Python.{
  Error, key_error, value_error, type_error, job_cancelled, task_name_error, config_error,
  runtime_error, foreign, cancelled_error, Result-cases, Result, ok, err, Record,
}
use task_queue.Job.Status.{JobStatus, completed, failed, cancelled, value, is_terminal}
use task_queue.Job.Codec.{Serializer, DateTime}
use task_queue.Job.Stored.{to_record-status, to_record_total}
use task_queue.Memory.Waiting.{is_pending}
use task_queue.Memory.Waiting.Settle.{save_known}
use task_queue.Job.Record.{Job, payload_of, to_record}
use task_queue.Memory.{Memory, save}
use task_queue.Worker.Run.{Awaits, settle, save_job, run, fail, or_fail, save_settled}

-- The backend's terminal write, as `_save` calls it.
abbrev pub save_done : String → Record → Memory → Memory × Result (Unit {0})
save_done id r m = save id r true m

-- The job is stored, in a terminal status.
abbrev pub IsSettled : String → Memory → Type 0
IsSettled id m = (r : Record) × (lookup id m.jobs ≡ some r) × (is_pending (some r) ≡ false)

module _ (serializer : Serializer) (datetime : DateTime) (repr : String → String)
    (message : Error → String) where
  abbrev saves : Job → Memory → Memory × Result (Unit {0})
  saves = save_job save_done serializer datetime repr message

  -- A terminal job that can be written is written.
  save_job-settles :
      (job : Job) (r old : Record) (m : Memory)
      → lookup job.id m.jobs ≡ some old
      → to_record serializer datetime job ≡ ok r
      → is_terminal (value job.status) ≡ true
      → ((saves job m).1 ≡ ok tt) × IsSettled job.id (saves job m).0
  unfolding save_job
  save_job-settles job r old m found written terminal =
      rw (written, save_known job.id r old m found)
        (
          refl,
          (
            r,
            rw (lookup-insert job.id job.id r m.jobs, eq_refl job.id),
            rw (to_record-status serializer datetime job r written, terminal),
          ),
        )

  -- How a run ends: with the job settled, or by a CancelledError with nothing written.
  abbrev pub Ends : String → Memory → Memory × Result (Unit {0}) → Type 0
  Ends id m p = ((p.1 ≡ ok tt) × IsSettled id p.0) ⊎ ((p.1 ≡ err cancelled_error) × (p.0 ≡ m))

  fail-Ends :
      (job : Job) (e : Error) (old : Record) (m : Memory)
      → serializer.fits (payload_of job) ≡ true
      → lookup job.id m.jobs ≡ some old
      → Ends job.id m (fail save_done serializer datetime repr message job e m)
  unfolding is_terminal
  fail-Ends job e old m fits found = by_error e
    where
      job' : Error → Job
      job' e = record job { error = some (message e); status = failed }

      ends : (e : Error) → Ends job.id m (saves (job' e) m)
      ends e =
          let (r, written) = to_record_total serializer datetime (job' e) fits (λ h. cc) in
          inl (save_job-settles (job' e) r old m found written refl)

      by_error :
          (e : Error) → Ends job.id m (fail save_done serializer datetime repr message job e m)
      by_error cancelled_error = inr (refl, refl)
      by_error key_error = ends key_error
      by_error value_error = ends value_error
      by_error type_error = ends type_error
      by_error job_cancelled = ends job_cancelled
      by_error task_name_error = ends task_name_error
      by_error config_error = ends config_error
      by_error (runtime_error s) = ends (runtime_error s)
      by_error (foreign s) = ends (foreign s)

  -- What the awaits settle is the same job, COMPLETED or CANCELLED.
  settle_inv :
      (job job' : Job) (a : Awaits)
      → settle job a ≡ ok job'
      → (job'.id ≡ job.id)
        × (payload_of job' ≡ payload_of job)
        × ((job'.status ≡ completed) ⊎ (job'.status ≡ cancelled))
  unfolding settle
  settle_inv job job' a h = ground arith

  ended_terminal :
      (s : JobStatus) → (s ≡ completed) ⊎ (s ≡ cancelled) → is_terminal (value s) ≡ true
  unfolding is_terminal
  ended_terminal s (inl e) = rw e
  ended_terminal s (inr e) = rw e

  or_fail-ok :
      (job : Job) (p : Memory × Result (Unit {0}))
      → p.1 ≡ ok tt
      → or_fail save_done serializer datetime repr message job p ≡ p
  or_fail-ok job (m, ok u) h = refl
  or_fail-ok job (m, err e) h = cc

  saves_refused :
      (job : Job) (e : Error) (m : Memory)
      → to_record serializer datetime job ≡ err e
      → saves job m ≡ (m, err e)
  unfolding save_job
  saves_refused job e m h = rw h

  or_fail-Ends :
      (job : Job) (old : Record) (m : Memory)
      → serializer.fits (payload_of job) ≡ true
      → lookup job.id m.jobs ≡ some old
      → is_terminal (value job.status) ≡ true
      → Ends job.id m (or_fail save_done serializer datetime repr message job (saves job m))
  or_fail-Ends job old m fits found terminal =
      elim (Result-cases (to_record serializer datetime job)) [
        | inl (r, written) ↦
            let (good, done) = save_job-settles job r old m found written terminal in
            rw (or_fail-ok job (saves job m) good) (inl (good, done))
        | inr (e, refused) ↦ rw (saves_refused job e m refused) (fail-Ends job e old m fits found)
      ]

  settled-Ends :
      (job : Job) (a : Awaits) (old : Record) (m : Memory) (x : Result Job)
      → settle job a ≡ x
      → serializer.fits (payload_of job) ≡ true
      → lookup job.id m.jobs ≡ some old
      → Ends job.id m (save_settled save_done serializer datetime repr message job x m)
  settled-Ends job a old m (err e) h fits found = fail-Ends job e old m fits found
  settled-Ends job a old m (ok job') h fits found =
      let (same, payload, ended) = settle_inv job job' a h in
      subst
        (λ id. Ends id m (save_settled save_done serializer datetime repr message job (ok job') m))
        same
        (or_fail-Ends job' old m (rw payload fits) (rw same found)
          (ended_terminal job'.status ended))

  if-Ends :
      (id : String) (m : Memory) (b : Bool) (x y : Memory × Result (Unit {0}))
      → (b ≡ true → Ends id m x)
      → (b ≡ false → Ends id m y)
      → Ends id m (if b then x else y)
  if-Ends id m true x y f g = f refl
  if-Ends id m false x y f g = g refl

  -- One run of a stored job whose arguments the codec can write: either the call returns and the job is
  -- stored in a terminal status, or a CancelledError comes out and nothing was written. This covers a
  -- job cancelled before it ran, an unknown task, every outcome of the body and of the cancel watcher,
  -- and a result that cannot be written.
  pub run_settles :
      (registered : String → Bool) (a : Awaits) (job : Job) (old : Record) (m : Memory)
      → serializer.fits (payload_of job) ≡ true
      → lookup job.id m.jobs ≡ some old
      → Ends job.id m (run save_done serializer datetime repr message registered a job m)
  unfolding run is_terminal
  run_settles registered a job old m fits found =
      if-Ends job.id m job.request_cancel _ _ (λ _. settles dropped fits found refl (λ h. cc))
        (λ _.
          if-Ends job.id m (registered job.task_name) _ _
            (λ _. settled-Ends job a old m (settle job a) refl fits found)
            (λ _. settles unknown fits found refl (λ h. cc)))
    where
      dropped : Job
      dropped = record job { status = cancelled }

      unknown : Job
      unknown = record job {
        error = some (concat "no task is registered under the name " (repr job.task_name));
        status = failed;
      }

      settles :
          (job' : Job)
          → serializer.fits (payload_of job') ≡ true
          → lookup job'.id m.jobs ≡ some old
          → is_terminal (value job'.status) ≡ true
          → job'.status ≢ completed
          → Ends job'.id m (saves job' m)
      settles job' fits found terminal open_status =
          let (r, written) = to_record_total serializer datetime job' fits open_status in
          inl (save_job-settles job' r old m found written terminal)
