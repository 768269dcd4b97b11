-- ===== src/Job/Stored.antt =====
-- src/TaskQueue/job.py, `to_record`: the shape of what it writes, and when it writes.
use task_queue.Base.{◌≡◌, refl, ◌≢◌, true, Option, none, some, ◌∷◌, [], arith}
use task_queue.Base.Dict.{lookup, insert}
use task_queue.Base.Decimal.{to_text}
use task_queue.Python.{ok, Any, Value, Bytes, str, bytes, Record}
use task_queue.Job.Status.{JobStatus, created, queued, running, completed, failed, cancelled, value}
use task_queue.Job.Codec.{Serializer, DateTime}
use task_queue.Job.Record.{
  Job, payload_of, insert_some, text_value, flag_text, result_blob, to_record,
}
use task_queue.Base.{inl, inr, ◌≢◌}
use task_queue.Python.{err, Result-cases, cancelled_error}

module _ (serializer : Serializer) (datetime : DateTime) where
  -- The record of a job, with its two blobs.
  abbrev pub stored : Job → Bytes → Option Value → Record
  stored job payload result = insert_some "result" result (
      insert_some "error" (text_value job.error) (
        insert_some "group_id" (text_value job.group_id) (
          ("id", str job.id)
          ∷ ("task_name", str job.task_name)
          ∷ ("created_at", str (datetime.isoformat job.created_at))
          ∷ ("status", str (value job.status))
          ∷ ("attempts", str (to_text job.attempts))
          ∷ ("request_cancel", str (flag_text job.request_cancel))
          ∷ ("payload", bytes payload)
          ∷ [])))

  pub stored-status :
      (job : Job) (payload : Bytes) (blob : Option Value)
      → lookup "status" (stored job payload blob) ≡ some (str (value job.status))
  unfolding lookup insert
  stored-status job payload blob = ground arith

  -- What is written is written under the job's status.
  pub to_record-status :
      (job : Job) (r : Record)
      → to_record serializer datetime job ≡ ok r
      → lookup "status" r ≡ some (str (value job.status))
  unfolding to_record
  to_record-status job r h = elim (Result-cases (serializer.dumps (payload_of job))) [
    | inr (e, bad) ↦ ground arith
    | inl (payload, good) ↦
        elim (Result-cases (result_blob serializer datetime job.status job.result)) [
          | inr (e, bad) ↦ ground arith
          | inl (blob, written) ↦ ground (arith, stored-status job payload blob)
        ]
  ]

  no_result :
      (status : JobStatus) (result : Any)
      → status ≢ completed
      → result_blob serializer datetime status result ≡ ok none
  no_result completed result h = absurd (h refl)
  no_result created result h = refl
  no_result queued result h = refl
  no_result running result h = refl
  no_result failed result h = refl
  no_result cancelled result h = refl

  -- A job whose payload fits is written in any status but COMPLETED.
  pub to_record_total :
      (job : Job)
      → serializer.fits (payload_of job) ≡ true
      → job.status ≢ completed
      → (r : Record) × (to_record serializer datetime job ≡ ok r)
  unfolding to_record
  to_record_total job fits open_status =
      let (payload, good) = serializer.dumps_total (payload_of job) fits in
      (stored job payload none, rw (good, no_result job.status job.result open_status))

  blob_clean :
      (status : JobStatus) (result : Any)
      → ((x : Any) → serializer.dumps x ≢ err cancelled_error)
      → result_blob serializer datetime status result ≢ err cancelled_error
  blob_clean completed result clean e = ground (arith, clean result)
  blob_clean created result clean e = cc
  blob_clean queued result clean e = cc
  blob_clean running result clean e = cc
  blob_clean failed result clean e = cc
  blob_clean cancelled result clean e = cc

  -- In no status does it raise a CancelledError, if the serializer raises none.
  pub to_record-ne-cancelled :
      (job : Job)
      → ((x : Any) → serializer.dumps x ≢ err cancelled_error)
      → to_record serializer datetime job ≢ err cancelled_error
  unfolding to_record
  to_record-ne-cancelled job clean h = elim (Result-cases (serializer.dumps (payload_of job))) [
    | inr (e, bad) ↦ ground (arith, clean (payload_of job))
    | inl (payload, good) ↦ blob_clean job.status job.result clean (ground arith)
  ]
