-- ===== src/Client/Outcome.antt =====
-- src/TaskQueue/task.py, worker.py, handle.py and backends/memory_backend.py together: what a caller
-- gets back for a job that it submits.
use task_queue.Base.{
  String, ℕ, eq_refl, ◌≡◌, refl, ◌∙◌, ap, Bool, true, false, Option, none, some, [], ◌∷◌, arith,
}
use task_queue.Base.Dict.{lookup, insert, lookup-insert, lookup-erase}
use task_queue.Base.Decimal.{to_text, of_text}
use task_queue.Python.{
  Error, key_error, ok, err, Any, null, Items, Fields, Bytes, str, bytes, Record,
}
use task_queue.Job.Status.{running, completed}
use task_queue.Job.Codec.{Serializer, DateTime}
use task_queue.Job.Record.{Job, payload_of, new_job, to_record, from_record, int_or_zero}
use task_queue.Job.Stored.{stored}
use task_queue.Job.RoundTrip.{from_record-stored}
use task_queue.Memory.{
  Memory, enqueue, claim, get_job, save, release, take_record, take_resumed, take_result,
}
use task_queue.Memory.Waiting.Methods.{enqueue_fresh}
use task_queue.Memory.Waiting.Settle.{save_known}
use task_queue.Memory.Lease.{leased, claim_leases}
use task_queue.Memory.Results.{take_record_frees}
use task_queue.Worker.Run.{Awaits, returned, settle, run, process, save_job}
use task_queue.Worker.Loop.{again, round}
use task_queue.Worker.InMemory.{save_done}
use task_queue.Client.Handle.{Handle, new_handle, consume, result, result_of}
use task_queue.Client.Task.{submit}

module _ (serializer : Serializer) (datetime : DateTime) (repr : String → String)
    (message : Error → String) where
  -- The job that a claim hands to the worker.
  abbrev leased_job : Job → Job
  leased_job job = record job { status = running; attempts = 1 }

  abbrev finished_job : Job → Any → Job
  finished_job job v = record (leased_job job) { result = v; status = completed }

  -- What a claim hands out of a job that was just submitted.
  leased-stored :
      (name : String) (id : Option String) (args : Items) (kwargs : Fields) (group : Option String)
      (fresh : String) (now : ℕ) (payload : Bytes)
      → let job = new_job name id args kwargs group fresh now in
        leased 0 (insert "status" (str "queued") (stored serializer datetime job payload none))
        ≡ stored serializer datetime (leased_job job) payload none
  unfolding new_job insert
  leased-stored name id args kwargs none fresh now payload = refl
  leased-stored name id args kwargs (some g) fresh now payload = refl

  -- What the worker's loop gives to `_run`.
  leased-read :
      (job : Job) (payload : Bytes)
      → serializer.loads (bytes payload) ≡ ok (payload_of job)
      → job.result ≡ null
      → from_record serializer datetime (stored serializer datetime (leased_job job) payload none)
        ≡ ok (leased_job job)
  leased-read job payload read none_yet =
      from_record-stored serializer datetime (leased_job job) payload none read (rw none_yet)

  finished-written :
      (job : Job) (v : Any) (payload b : Bytes)
      → serializer.dumps (payload_of job) ≡ ok payload
      → serializer.dumps v ≡ ok b
      → to_record serializer datetime (finished_job job v)
        ≡ ok (stored serializer datetime (finished_job job v) payload (some (bytes b)))
  unfolding to_record
  finished-written job v payload b good written = rw (good, written) refl

  run_returned :
      (registered : String → Bool) (a : Awaits) (job : Job) (v : Any) (r old : Record) (m : Memory)
      → registered job.task_name ≡ true
      → job.request_cancel ≡ false
      → a.interrupted ≡ false
      → a.job ≡ some (returned v)
      → to_record serializer datetime (record job { result = v; status = completed }) ≡ ok r
      → lookup job.id m.jobs ≡ some old
      → run save_done serializer datetime repr message registered a job m ≡ save job.id r true m
  unfolding run settle save_job
  run_returned registered a job v r old m known wanted quiet done_ written found =
      ground (arith, save_known job.id r old m found)

  round_finishes :
      (registered : String → Bool) (a : Awaits) (m m' : Memory) (r : Record) (job : Job)
      → (claim m).1 ≡ ok (some r)
      → from_record serializer datetime r ≡ ok job
      → run save_done serializer datetime repr message registered a job (claim m).0 ≡ (m', ok tt)
      → round claim release save_done serializer datetime repr message registered a m ≡ (m', again)
  unfolding round process
  round_finishes registered a m m' r job got read ran = ground arith

  -- A caller after the terminal write.
  result_saved :
      (id : String) (r old : Record) (job : Job) (v : Any) (m : Memory)
      → lookup id m.jobs ≡ some old
      → from_record serializer datetime r ≡ ok job
      → job.status ≡ completed
      → job.result ≡ v
      → let saved = (save id r true m).0 in
        result take_result get_job serializer datetime repr (new_handle id) saved
        ≡ some ((take_record id saved).0, record { job_id = id; job = some job }, ok v)
  unfolding result consume result_of take_result take_resumed take_record
  result_saved id r old job v m found read status got = ground (
    arith,
    save_known id r old m found,
    lookup-erase id id m.events,
    lookup-insert id id r m.jobs,
    eq_refl id,
  )

  attempts_zero :
      (name : String) (id : Option String) (args : Items) (kwargs : Fields) (group : Option String)
      (fresh : String) (now : ℕ) (payload : Bytes)
      → lookup "attempts"
          (stored serializer datetime (new_job name id args kwargs group fresh now) payload none)
        ≡ some (str "0")
  unfolding new_job lookup insert to_text
  attempts_zero name id args kwargs none fresh now payload = refl
  attempts_zero name id args kwargs (some g) fresh now payload = refl

  zero_read : int_or_zero (some (str "0")) ≡ ok 0
  unfolding of_text
  zero_read = refl

  claim_enqueued :
      (id : String) (r : Record) (m : Memory)
      → m.queue ≡ []
      → lookup id m.jobs ≡ none
      → lookup "attempts" r ≡ some (str "0")
      → let queued = leased 0 (insert "status" (str "queued") r) in
        let m' = enqueue id r m in
        ((claim m').1 ≡ ok (some queued)) × (lookup id (claim m').0.jobs ≡ some queued)
  claim_enqueued id r m idle fresh none_yet =
      let m' = enqueue id r m in
      let r' = insert "status" (str "queued") r in
      let queue : m'.queue ≡ id ∷ [] = rw (enqueue_fresh id r m fresh, idle) refl in
      let stored_ : lookup id m'.jobs ≡ some r' =
        rw (enqueue_fresh id r m fresh, lookup-insert id id r' m.jobs, eq_refl id) refl in
      let count : int_or_zero (lookup "attempts" r') ≡ ok 0 =
        rw (lookup-insert "status" "attempts" (str "queued") r, none_yet) zero_read in
      let (got, _, jobs, _, _, _) = claim_leases id [] r' 0 m' queue stored_ count in
      (got, jobs id ∙ rw (eq_refl id) refl)

  save_ok :
      (id : String) (r old : Record) (m : Memory)
      → lookup id m.jobs ≡ some old
      → save id r true m ≡ ((save id r true m).0, ok tt)
  save_ok id r old m found = rw (save_known id r old m found) refl

  submit_new :
      (name : String) (given : Option String) (args : Items) (kwargs : Fields)
      (group : Option String) (fresh : String) (now : ℕ) (payload : Bytes) (m : Memory)
      → let job = new_job name given args kwargs group fresh now in
        serializer.dumps (payload_of job) ≡ ok payload
        → submit enqueue serializer datetime name group given args kwargs fresh now m
          ≡ (enqueue job.id (stored serializer datetime job payload none) m, ok (new_handle job.id))
  unfolding submit to_record new_job
  submit_new name given args kwargs group fresh now payload m good = rw good refl

  module _ (name : String) (given : Option String) (args : Items) (kwargs : Fields)
      (group : Option String) (fresh : String) (now : ℕ) where
    abbrev pub submitted : Job
    submitted = new_job name given args kwargs group fresh now

    -- A submitted job that runs and returns `v` gives `v` to its caller: on a store with an empty queue
    -- that does not know the id, with arguments and a result that the codec can write and a registered
    -- task, `submit` returns a handle, one round of a worker's loop claims and finishes the job and goes
    -- on, and `result` on the handle does not wait, returns `v`, and frees the record.
    pub submit_work_result :
        (registered : String → Bool) (a : Awaits) (v : Any) (m : Memory)
        → serializer.fits (payload_of submitted) ≡ true
        → serializer.fits v ≡ true
        → registered name ≡ true
        → a.interrupted ≡ false
        → a.job ≡ some (returned v)
        → m.queue ≡ []
        → lookup submitted.id m.jobs ≡ none
        → let (m₁, handle) =
            submit enqueue serializer datetime name group given args kwargs fresh now m in
          let (m₂, after) =
            round claim release save_done serializer datetime repr message registered a m₁ in
          (handle ≡ ok (new_handle submitted.id))
          × (after ≡ again)
          × ((m₃ : Memory) × (h : Handle) × (result take_result get_job serializer datetime repr
                  (new_handle submitted.id)
                  m₂
                ≡ some (m₃, h, ok v))
              × (get_job submitted.id m₃ ≡ err key_error))
    unfolding new_job
    submit_work_result registered a v m fits fits_v known quiet ended idle unknown =
        let job = submitted in
        let (payload, good) = serializer.dumps_total (payload_of job) fits in
        let (b, written) = serializer.dumps_total v fits_v in
        let r = stored serializer datetime job payload none in
        let r' = stored serializer datetime (leased_job job) payload none in
        let r'' = stored serializer datetime (finished_job job v) payload (some (bytes b)) in
        let read = serializer.loads-dumps (payload_of job) payload fits good in
        let (got, found) =
          claim_enqueued job.id r m idle unknown
            (attempts_zero name given args kwargs group fresh now payload) in
        let same = leased-stored name given args kwargs group fresh now payload in
        let m₁ = enqueue job.id r m in
        let held = (claim m₁).0 in
        let here = found ∙ ap some same in
        let ran =
          run_returned registered a (leased_job job) v r'' r' held known refl quiet ended
            (finished-written job v payload b good written) here
          ∙ save_ok job.id r'' r' held here in
        let worked =
          round_finishes registered a m₁ (save job.id r'' true held).0 r' (leased_job job)
            (got ∙ ap (λ x. ok (some x)) same) (leased-read job payload read refl) ran in
        let again_read =
          from_record-stored serializer datetime (finished_job job v) payload (some (bytes b)) read
            (serializer.loads-dumps v b fits_v written) in
        rw (submit_new name given args kwargs group fresh now payload m good, worked)
          (
            refl,
            refl,
            (
              (take_record job.id (save job.id r'' true held).0).0,
              record { job_id = job.id; job = some (finished_job job v) },
              result_saved job.id r'' r' (finished_job job v) v held here again_read refl refl,
              (take_record_frees job.id (save job.id r'' true held).0).1,
            ),
          )
