-- ===== src/Job/RoundTrip.antt =====
-- src/TaskQueue/job.py: `from_record` reads back what `to_record` wrote.
use task_queue.Base.{ℕ, ◌≡◌, refl, ◌≢◌, Bool, true, false, not, Option, none, some, arith, nat_eq}
use task_queue.Base.Dict.{lookup, insert}
use task_queue.Base.Decimal.{of_text, of_text-to_text}
use task_queue.Python.{ok, ◌>>=◌, Any, null, Value, Bytes, bytes, get_field}
use task_queue.Job.Status.{
  JobStatus, created, queued, running, completed, failed, cancelled, of_value-value,
}
use task_queue.Job.Stored.{stored}
use task_queue.Job.Codec.{Serializer, DateTime}
use task_queue.Job.Record.{
  Job, payload_of, flag_text, result_blob, loads_or_null, to_record, from_record,
}

module _ (serializer : Serializer) (datetime : DateTime) where
  flag_read : (b : Bool) → (n : ℕ) × (of_text (flag_text b) ≡ some n) × (not (nat_eq n 0) ≡ b)
  unfolding of_text
  flag_read true = (1, refl, refl)
  flag_read false = (0, refl, refl)

  -- A record is read back if its blobs are.
  pub from_record-stored :
      (job : Job) (payload : Bytes) (blob : Option Value)
      → serializer.loads (bytes payload) ≡ ok (payload_of job)
      → loads_or_null serializer datetime blob ≡ ok job.result
      → from_record serializer datetime (stored serializer datetime job payload blob) ≡ ok job
  unfolding from_record lookup insert get_field
  from_record-stored job payload blob p h = ground (
    arith,
    of_text-to_text job.attempts,
    of_value-value job.status,
    flag_read job.request_cancel,
    datetime.fromisoformat-isoformat job.created_at,
  )

  -- What the result field holds: the dumped result of a COMPLETED job, and nothing of another.
  pub blob_read :
      (status : JobStatus) (result : Any)
      → (status ≡ completed → serializer.fits result ≡ true)
      → (status ≢ completed → result ≡ null)
      → (blob : Option Value) × (result_blob serializer datetime status result ≡ ok blob)
        × (loads_or_null serializer datetime blob ≡ ok result)
  blob_read completed result fits absent =
      let (b, e) = serializer.dumps_total result (fits refl) in
      (some (bytes b), rw e, serializer.loads-dumps result b (fits refl) e)
  blob_read created result fits absent = (none, refl, ground (arith, absent (λ e. cc)))
  blob_read queued result fits absent = (none, refl, ground (arith, absent (λ e. cc)))
  blob_read running result fits absent = (none, refl, ground (arith, absent (λ e. cc)))
  blob_read failed result fits absent = (none, refl, ground (arith, absent (λ e. cc)))
  blob_read cancelled result fits absent = (none, refl, ground (arith, absent (λ e. cc)))

  -- A job whose arguments fit the codec, whose result fits it once the job is COMPLETED and is None
  -- before that, is written without an exception, and reading the record gives the same job back,
  -- field by field.
  pub from_record-to_record :
      (job : Job)
      → serializer.fits (payload_of job) ≡ true
      → (job.status ≡ completed → serializer.fits job.result ≡ true)
      → (job.status ≢ completed → job.result ≡ null)
      → (to_record serializer datetime job >>= from_record serializer datetime) ≡ ok job
  unfolding to_record
  from_record-to_record job fits result_fits absent =
      let (b, e) = serializer.dumps_total (payload_of job) fits in
      let (blob, written, read) = blob_read job.status job.result result_fits absent in
      rw (e, written)
        (from_record-stored job b blob (serializer.loads-dumps (payload_of job) b fits e) read)
