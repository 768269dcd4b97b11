-- ===== src/Heard/Stored.antt =====
-- src/TaskQueue/job.py: the fields of a record that `to_record` wrote, one by one, and that
-- `from_record` reads nothing else.
use task_queue.Base.{
  Bool, String, member, eq_iff, ◌==◌, ◌≡◌, ◌≢◌, ℕ, refl, ap, subst, sym, ◌∙◌, true, Option, none,
  some, [], ◌∷◌, arith, if◌then◌else◌, inl, inr, Bool-cases,
}
use task_queue.Base.Dict.{lookup, lookup-insert}
use task_queue.Base.Decimal.{to_text}
use task_queue.Python.{Value, Bytes, str, bytes, Record}
use task_queue.Job.Status.{JobStatus, value}
use task_queue.Job.Codec.{Serializer, DateTime}
use task_queue.Job.Record.{Job, job_fields, insert_some, text_value, flag_text, from_record}
use task_queue.Job.Stored.{stored}
use task_queue.Backend.{is_plain, is_dict, insert-is_dict}

-- What a field is after an optional insertion.
abbrev or_before : Option Value → Option Value → Option Value
or_before none o = o
or_before (some v) o = some v

abbrev pub over : String → String → Option Value → Option Value → Option Value
over k j v o = if k == j then or_before v o else o

lookup-insert_some :
    (k j : String) (v : Option Value) (r : Record)
    → lookup j (insert_some k v r) ≡ over k j v (lookup j r)
lookup-insert_some k j none r = ground arith
lookup-insert_some k j (some v) r = lookup-insert k j v r

insert_some-is_dict :
    (k : String) (v : Option Value) (r : Record)
    → is_dict r ≡ true
    → is_dict (insert_some k v r) ≡ true
insert_some-is_dict k none r dict = dict
insert_some-is_dict k (some v) r dict = insert-is_dict k v r dict

module _ (serializer : Serializer) (datetime : DateTime) where
  -- The fields that every record has.
  abbrev pub base : Job → Bytes → Record
  base job payload =
      ("id", str job.id)
      ∷ ("task_name", str job.task_name)
      ∷ ("created_at", str (datetime.isoformat job.created_at))
      ∷ ("status", str (value job.status))
      ∷ ("attempts", str (to_text job.attempts))
      ∷ ("request_cancel", str (flag_text job.request_cancel))
      ∷ ("payload", bytes payload)
      ∷ []

  pub stored-lookup :
      (job : Job) (payload : Bytes) (blob : Option Value) (k : String)
      → lookup k (stored serializer datetime job payload blob)
        ≡ over "result" k blob (
            over "error" k
              (text_value job.error)
              (over "group_id" k (text_value job.group_id) (lookup k (base job payload))))
  stored-lookup job payload blob k =
      lookup-insert_some "result" k blob _
      ∙ ap (over "result" k blob) (
          lookup-insert_some "error" k (text_value job.error) _
          ∙ ap (over "error" k (text_value job.error))
              (lookup-insert_some "group_id" k (text_value job.group_id) (base job payload)))

  pub stored-is_dict :
      (job : Job) (payload : Bytes) (blob : Option Value)
      → is_dict (stored serializer datetime job payload blob) ≡ true
  unfolding lookup
  stored-is_dict job payload blob = insert_some-is_dict "result" blob _ (
      insert_some-is_dict "error" (text_value job.error) _
        (insert_some-is_dict "group_id" (text_value job.group_id) (base job payload) refl))

  base_has :
      (job job' : Job) (p p' : Bytes) (k : String)
      → lookup k (base job p) ≡ none
      → lookup k (base job' p') ≡ none
  unfolding lookup
  base_has job job' p p' k absent = ground arith

  over-plain :
      (f k : String) (v o : Option Value)
      → is_plain f v ≡ true
      → is_plain k o ≡ true
      → is_plain k (over f k v o) ≡ true
  over-plain f k none o here there = ground arith
  over-plain f k (some x) o here there = elim (Bool-cases (f == k)) [
    | inl same ↦
        rw same (
          subst (λ g. is_plain g (some x) ≡ true) {x = f} {y = k} (ground (arith, eq_iff f k)) here)
    | inr other ↦ rw other there
  ]

  base_plain : (job : Job) (p : Bytes) (k : String) → is_plain k (lookup k (base job p)) ≡ true
  unfolding lookup
  base_plain job p k = over-plain "id" k (some (str job.id)) _ refl (
      over-plain "task_name" k (some (str job.task_name)) _ refl (
        over-plain "created_at" k (some (str (datetime.isoformat job.created_at))) _ refl (
          over-plain "status" k (some (str (value job.status))) _ refl (
            over-plain "attempts" k (some (str (to_text job.attempts))) _ refl (
              over-plain "request_cancel" k (some (str (flag_text job.request_cancel))) _ refl
                (over-plain "payload" k (some (bytes p)) none refl refl))))))

  error_plain : (t : Option String) → is_plain "error" (text_value t) ≡ true
  error_plain none = refl
  error_plain (some t) = refl

  group_plain : (t : Option String) → is_plain "group_id" (text_value t) ≡ true
  group_plain none = refl
  group_plain (some t) = refl

  -- The payload and the result are kept as bytes, and all other fields as text.
  pub stored-plain :
      (job : Job) (payload : Bytes) (blob : Option Value) (k : String)
      → is_plain "result" blob ≡ true
      → is_plain k (lookup k (stored serializer datetime job payload blob)) ≡ true
  stored-plain job payload blob k raw = rw (stored-lookup job payload blob k) (
      over-plain "result" k blob _ raw (
        over-plain "error" k (text_value job.error) _ (error_plain job.error) (
          over-plain "group_id" k (text_value job.group_id) _ (group_plain job.group_id)
            (base_plain job payload k))))

  over-absent : (k f : String) (v o : Option Value) → over k f v o ≡ none → o ≡ none
  over-absent k f none o h = ground arith
  over-absent k f (some x) o h = ground arith

  over-none : (k f : String) (o : Option Value) → over k f none o ≡ o
  over-none k f o = ground arith

  over-still :
      (k f : String) (v o o' : Option Value)
      → over k f v o ≡ none
      → o' ≡ none
      → over k f v o' ≡ none
  over-still k f none o o' h h' = ground arith
  over-still k f (some x) o o' h h' = ground arith

  -- A field that a later record of a job lacks was not there before.
  pub stored-absent :
      (job job' : Job) (p p' : Bytes) (blob : Option Value) (k : String)
      → job.error ≡ none
      → job'.group_id ≡ job.group_id
      → lookup k (stored serializer datetime job' p' blob) ≡ none
      → lookup k (stored serializer datetime job p none) ≡ none
  stored-absent job job' p p' blob k no_error same_group absent =
      let o' = over "group_id" k (text_value job'.group_id) (lookup k (base job' p')) in
      let gone : o' ≡ none = over-absent "error" k (text_value job'.error) o' (
        over-absent "result" k blob (over "error" k (text_value job'.error) o')
          (sym (stored-lookup job' p' blob k) ∙ absent)) in
      let o = over "group_id" k (text_value job.group_id) (lookup k (base job p)) in
      let kept : o ≡ none =
        over-still "group_id" k (text_value job.group_id) (lookup k (base job' p')) _
          (ap (λ g. over "group_id" k (text_value g) (lookup k (base job' p'))) (sym same_group)
            ∙ gone)
          (base_has job' job p' p k (over-absent "group_id" k (text_value job'.group_id) _ gone)) in
      stored-lookup job p none k
      ∙ over-none "result" k _
      ∙ ap (λ e. over "error" k (text_value e) o) no_error
      ∙ over-none "error" k _
      ∙ kept

  base_kept :
      (job job' : Job) (p : Bytes) (k : String)
      → job'.id ≡ job.id
      → job'.task_name ≡ job.task_name
      → job'.created_at ≡ job.created_at
      → job'.request_cancel ≡ job.request_cancel
      → k ≢ "status"
      → (k ≡ "attempts" → job'.attempts ≡ job.attempts)
      → lookup k (base job p) ≡ lookup k (base job' p)
  unfolding lookup
  base_kept job job' p k id name created flag no_status counted =
      rw (id, name, created, flag) (ground (arith, eq_iff "status" k, eq_iff "attempts" k))

  -- Records of one job in two statuses.
  pub stored-moved :
      (job : Job) (p : Bytes) (status : JobStatus) (n : ℕ) (k : String)
      → k ≢ "status"
      → (k ≡ "attempts" → n ≡ job.attempts)
      → lookup k (stored serializer datetime job p none)
        ≡ lookup k
            (stored serializer datetime (record job { status = status; attempts = n }) p none)
  stored-moved job p status n k no_status counted =
      let job' = record job { status = status; attempts = n } in
      stored-lookup job p none k
      ∙ ap
          (λ o.
            over "result" k none (
              over "error" k (text_value job.error)
                (over "group_id" k (text_value job.group_id) o)))
          (base_kept job job' p k refl refl refl refl no_status counted)
      ∙ sym (stored-lookup job' p none k)

  flag_kept :
      (job : Job) (flag : Bool) (p : Bytes) (k : String)
      → k ≢ "request_cancel"
      → lookup k (base job p) ≡ lookup k (base (record job { request_cancel = flag }) p)
  unfolding lookup
  flag_kept job flag p k differ = ground (arith, eq_iff "request_cancel" k)

  -- Records of one job with and without its cancel flag.
  pub stored-flagged :
      (job : Job) (flag : Bool) (p : Bytes) (k : String)
      → k ≢ "request_cancel"
      → lookup k (stored serializer datetime job p none)
        ≡ lookup k (stored serializer datetime (record job { request_cancel = flag }) p none)
  stored-flagged job flag p k differ =
      stored-lookup job p none k
      ∙ ap
          (λ o.
            over "result" k none (
              over "error" k (text_value job.error)
                (over "group_id" k (text_value job.group_id) o)))
          (flag_kept job flag p k differ)
      ∙ sym (stored-lookup (record job { request_cancel = flag }) p none k)

  pub stored-flag :
      (job : Job) (p : Bytes)
      → lookup "request_cancel" (stored serializer datetime job p none)
        ≡ some (str (flag_text job.request_cancel))
  unfolding lookup
  stored-flag job p = stored-lookup job p none "request_cancel"

  pub stored-attempts :
      (job : Job) (p : Bytes)
      → lookup "attempts" (stored serializer datetime job p none)
        ≡ some (str (to_text job.attempts))
  unfolding lookup
  stored-attempts job p = stored-lookup job p none "attempts"

  pub stored-id :
      (job : Job) (p : Bytes)
      → lookup "id" (stored serializer datetime job p none) ≡ some (str job.id)
  unfolding lookup
  stored-id job p = stored-lookup job p none "id"

  -- `from_record` reads the job's fields and nothing else.
  pub from_record-agree :
      (r r' : Record)
      → ((k : String) → member k job_fields ≡ true → lookup k r ≡ lookup k r')
      → from_record serializer datetime r ≡ from_record serializer datetime r'
  unfolding from_record
  from_record-agree r r' same =
      rw
        (
          same "payload" refl,
          same "result" refl,
          same "id" refl,
          same "task_name" refl,
          same "created_at" refl,
          same "status" refl,
          same "error" refl,
          same "request_cancel" refl,
          same "attempts" refl,
          same "group_id" refl,
        )
        refl
