-- ===== src/Heard/Saved.antt =====
-- src/TaskQueue/worker.py, `_save`, and src/TaskQueue/handle.py, `result`, over any backend: a job
-- that was saved in a terminal status is what `result` gives back.
use task_queue.Base.{
  String, ◌≡◌, ◌≢◌, refl, ap, sym, ◌∙◌, member, true, Option, none, some, arith, inl, inr,
  Option-cases,
}
use task_queue.Base.Dict.{lookup}
use task_queue.Python.{Error, Result, ok, Any, null, Bytes, Value, str, Record}
use task_queue.Job.Status.{
  JobStatus, created, queued, failed, cancelled, running, completed, value, is_terminal,
}
use task_queue.Job.Codec.{Serializer, DateTime}
use task_queue.Job.Record.{Job, job_fields, payload_of, to_record, from_record, result_blob}
use task_queue.Job.Stored.{stored, stored-status}
use task_queue.Job.RoundTrip.{from_record-stored, blob_read}
use task_queue.Redis.View.{Hash, field_of}
use task_queue.Redis.Effects.{is_present}
use task_queue.Redis.Scripts.{holds_text}
use task_queue.Backend.{Backend, Contract, Tells, field, is_plain}
use task_queue.Heard.Stored.{stored-is_dict, stored-plain, stored-absent, from_record-agree}
use task_queue.Worker.Run.{save_job}
use task_queue.Client.Handle.{Handle, new_handle, consume, result, result_of}

module _ (b : Backend) (stored_at : String → b.State → Option Hash) (Good : b.State → Type 0)
    (contract : Contract b stored_at Good) (serializer : Serializer) (datetime : DateTime)
    (repr : String → String) (message : Error → String) where
  open b use {State}

  -- The terminal write, as `_save` calls it.
  abbrev pub save_done : String → Record → State → State × Result (Unit {0})
  save_done id r s = b.save id r true s

  abbrev pub saves : Job → State → State × Result (Unit {0})
  saves = save_job save_done serializer datetime repr message

  -- The backend keeps the record of the job, with these blobs.
  abbrev pub Holds : Job → Bytes → Option Value → State → Type 0
  Holds job payload blob s =
      (k : String)
      → member k job_fields ≡ true
      → field b stored_at Good k job.id s ≡ lookup k (stored serializer datetime job payload blob)

  -- A caller that asks for the result of the job is given it at once, and the record is freed.
  abbrev pub Hears : String → State → Result Any → Type 0
  Hears id s out =
      (s' : State) × (h : Handle) × (result b.take_result b.get_job serializer datetime repr
          (new_handle id) s
        ≡ some (s', h, out))
      × (stored_at id s' ≡ none)

  present : (o : Option Hash) (k : String) (v : Value) → field_of o k ≡ some v → is_present o ≡ true
  present o k v h = ground arith

  pub Holds-status :
      (job : Job) (p : Bytes) (blob : Option Value) (s : State)
      → Holds job p blob s
      → field b stored_at Good "status" job.id s ≡ some (str (value job.status))
  Holds-status job p blob s holds =
      holds "status" refl ∙ stored-status serializer datetime job p blob

  pub Holds-known :
      (job : Job) (p : Bytes) (blob : Option Value) (s : State)
      → Holds job p blob s
      → is_present (stored_at job.id s) ≡ true
  Holds-known job p blob s holds =
      present (stored_at job.id s) "status" (str (value job.status))
        (Holds-status job p blob s holds)

  -- A record that is written over an earlier record of the same job, one without an error and a
  -- result, is what the backend then holds.
  write-Holds :
      (job job' : Job) (p p' : Bytes) (blob : Option Value) (s : State)
      → Holds job p none s
      → job.error ≡ none
      → job'.id ≡ job.id
      → job'.group_id ≡ job.group_id
      → let (s', res) = save_done job'.id (stored serializer datetime job' p' blob) s in
        (res ≡ ok tt) × Holds job' p' blob s'
  write-Holds job job' p p' blob s holds no_error same_id same_group =
      let r = stored serializer datetime job' p' blob in
      let (total, says, absent, others) =
        contract.writes.save_known job'.id r true s
          (stored-is_dict serializer datetime job' p' blob)
          (ap (λ i. is_present (stored_at i s)) same_id ∙ Holds-known job p none s holds) in
      (
        total,
        λ k is_in. elim (Option-cases (lookup k r)) [
          | inr (x, found) ↦ says k x found ∙ sym found
          | inl missing ↦
              absent k missing (
                ap (λ i. field b stored_at Good k i s) same_id
                ∙ holds k is_in
                ∙ stored-absent serializer datetime job job' p p' blob k no_error same_group
                    missing)
              ∙ sym missing
        ],
      )

  -- A record that tells the job's fields reads as the record that is kept.
  pub read_back :
      (job : Job) (p : Bytes) (blob : Option Value) (s : State) (r : Record)
      → is_plain "result" blob ≡ true
      → Holds job p blob s
      → Tells b stored_at Good r job.id s
      → from_record serializer datetime r
        ≡ from_record serializer datetime (stored serializer datetime job p blob)
  read_back job p blob s r raw holds tells =
      from_record-agree serializer datetime r (stored serializer datetime job p blob) (λ k is_in.
        tells k is_in
          (ap (is_plain k) (holds k is_in) ∙ stored-plain serializer datetime job p blob k raw)
        ∙ holds k is_in)

  blob_plain :
      (status : JobStatus) (res : Any) (blob : Option Value)
      → result_blob serializer datetime status res ≡ ok blob
      → is_plain "result" blob ≡ true
  blob_plain completed res blob e = ground arith
  blob_plain created res blob e = ground arith
  blob_plain queued res blob e = ground arith
  blob_plain running res blob e = ground arith
  blob_plain failed res blob e = ground arith
  blob_plain cancelled res blob e = ground arith

  -- The record of a terminal job is taken and read back by a new handle.
  held-Hears :
      (job : Job) (p : Bytes) (blob : Option Value) (s : State)
      → Good s
      → is_plain "result" blob ≡ true
      → Holds job p blob s
      → is_terminal (value job.status) ≡ true
      → from_record serializer datetime (stored serializer datetime job p blob) ≡ ok job
      → Hears job.id s (result_of repr job.id (ok job))
  unfolding result consume
  held-Hears job p blob s good raw holds over reads =
      let (s', r, taken, tells, freed, others) =
        contract.reads.take_terminal job.id s good (rw (Holds-status job p blob s holds) over) in
      let read = read_back job p blob s r raw holds tells ∙ reads in
      (s', record { job_id = job.id; job = some job }, rw (taken, read) refl, freed)

  -- A terminal job that can be written, of the job that the worker holds, is what its caller hears.
  pub saves-Hears :
      (job job' : Job) (p : Bytes) (s : State)
      → Good s
      → Holds job p none s
      → job.status ≡ running
      → job.error ≡ none
      → job'.id ≡ job.id
      → job'.group_id ≡ job.group_id
      → is_terminal (value job'.status) ≡ true
      → serializer.fits (payload_of job') ≡ true
      → (job'.status ≡ completed → serializer.fits job'.result ≡ true)
      → (job'.status ≢ completed → job'.result ≡ null)
      → let (s', res) = saves job' s in
        (res ≡ ok tt) × Hears job'.id s' (result_of repr job'.id (ok job'))
  unfolding save_job to_record
  saves-Hears job job' p s good holds busy no_error same_id same_group over fits result_fits
        absent =
      let (p', dumped) = serializer.dumps_total (payload_of job') fits in
      let (blob, written, read) =
        blob_read serializer datetime job'.status job'.result result_fits absent in
      let r = stored serializer datetime job' p' blob in
      let (total, held) = write-Holds job job' p p' blob s holds no_error same_id same_group in
      let leased : holds_text "running" (field b stored_at Good "status" job'.id s) ≡ true =
        ap (λ i. holds_text "running" (field b stored_at Good "status" i s)) same_id
        ∙ ap (holds_text "running") (Holds-status job p none s holds)
        ∙ rw busy refl in
      let good' =
        contract.keeps.finish_good job'.id r s good leased
          (rw (stored-status serializer datetime job' p' blob) over) in
      rw (dumped, written)
        (
          total,
          held-Hears job' p' blob (save_done job'.id r s).0 good'
              (blob_plain job'.status job'.result blob written) held over
              (from_record-stored serializer datetime job' p' blob
                (serializer.loads-dumps (payload_of job') p' fits dumped) read),
        )
