-- ===== src/Heard/Written.antt =====
-- src/TaskQueue/job.py, `to_record`: the types of what it writes, `dict[str, str | bytes]`.
use task_queue.Base.{
  String, member, eq_iff, ◌==◌, ◌≡◌, refl, subst, Bool, true, not, ◌&&◌, Option, none, some, arith,
  inl, inr, Bool-cases,
}
use task_queue.Base.Dict.{lookup}
use task_queue.Base.Decimal.{to_text}
use task_queue.Python.{Result-cases, ok, Any, Bytes, Value, str, bytes, Record}
use task_queue.Job.Status.{JobStatus, value, created, queued, running, completed, failed, cancelled}
use task_queue.Job.Codec.{Serializer, DateTime}
use task_queue.Job.Record.{
  Job, job_fields, payload_of, flag_text, text_value, result_blob, to_record,
}
use task_queue.Job.Stored.{stored}
use task_queue.Redis.Backend.{is_blob}
use task_queue.Backend.{is_dict}
use task_queue.Heard.Stored.{over, base, stored-lookup, stored-is_dict}

-- The payload and the result are bytes, and every other field is text.
abbrev pub has_type : String → Value → Bool
has_type k (str t) = not (is_blob k)
has_type k (bytes b) = is_blob k

-- A field is absent, or one of a job's fields with its type.
abbrev pub is_typed : String → Option Value → Bool
is_typed k none = true
is_typed k (some x) = member k job_fields && has_type k x

module _ (serializer : Serializer) (datetime : DateTime) where
  over-typed :
      (f k : String) (v o : Option Value)
      → is_typed f v ≡ true
      → is_typed k o ≡ true
      → is_typed k (over f k v o) ≡ true
  over-typed f k none o here there = ground arith
  over-typed f k (some x) o here there = elim (Bool-cases (f == k)) [
    | inl same ↦
        rw same (
          subst (λ g. is_typed g (some x) ≡ true) {x = f} {y = k} (ground (arith, eq_iff f k)) here)
    | inr other ↦ rw other there
  ]

  base-typed :
      (job : Job) (p : Bytes) (k : String)
      → is_typed k (lookup k (base serializer datetime job p)) ≡ true
  unfolding lookup
  base-typed job p k = over-typed "id" k (some (str job.id)) _ refl (
      over-typed "task_name" k (some (str job.task_name)) _ refl (
        over-typed "created_at" k (some (str (datetime.isoformat job.created_at))) _ refl (
          over-typed "status" k (some (str (value job.status))) _ refl (
            over-typed "attempts" k (some (str (to_text job.attempts))) _ refl (
              over-typed "request_cancel" k (some (str (flag_text job.request_cancel))) _ refl
                (over-typed "payload" k (some (bytes p)) none refl refl))))))

  text_typed :
      (f : String) (t : Option String)
      → is_typed f (some (str "")) ≡ true
      → is_typed f (text_value t) ≡ true
  text_typed f none h = refl
  text_typed f (some t) h = h

  blob_bytes :
      (status : JobStatus) (result : Any) (blob : Option Value)
      → result_blob serializer datetime status result ≡ ok blob
      → is_typed "result" blob ≡ true
  blob_bytes completed result blob e = elim (Result-cases (serializer.dumps result)) [
    | inl (b, good) ↦ ground arith
    | inr (x, bad) ↦ ground arith
  ]
  blob_bytes created result blob e = ground arith
  blob_bytes queued result blob e = ground arith
  blob_bytes running result blob e = ground arith
  blob_bytes failed result blob e = ground arith
  blob_bytes cancelled result blob e = ground arith

  stored-typed :
      (job : Job) (p : Bytes) (blob : Option Value) (k : String)
      → is_typed "result" blob ≡ true
      → is_typed k (lookup k (stored serializer datetime job p blob)) ≡ true
  stored-typed job p blob k plain = rw (stored-lookup serializer datetime job p blob k) (
      over-typed "result" k blob _ plain (
        over-typed "error" k (text_value job.error) _ (text_typed "error" job.error refl) (
          over-typed "group_id" k (text_value job.group_id) _
            (text_typed "group_id" job.group_id refl) (base-typed job p k))))

  -- What `to_record` returns is a dict, with no key twice. Whatever it holds under a key is one of a
  -- job's fields, bytes for the payload and the result and text for any other.
  pub to_record-typed :
      (job : Job) (r : Record)
      → to_record serializer datetime job ≡ ok r
      → (is_dict r ≡ true) × ((k : String) → is_typed k (lookup k r) ≡ true)
  unfolding to_record
  to_record-typed job r e = elim (Result-cases (serializer.dumps (payload_of job))) [
    | inr (x, bad) ↦ absurd (ground arith)
    | inl (p, good) ↦ elim (Result-cases (result_blob serializer datetime job.status job.result)) [
      | inr (x, bad) ↦ absurd (ground arith)
      | inl (blob, written) ↦
          let same : stored serializer datetime job p blob ≡ r = ground arith in
          rw (← same) (
            stored-is_dict serializer datetime job p blob,
            λ k. stored-typed job p blob k (blob_bytes job.status job.result blob written),
          )
    ]
  ]
