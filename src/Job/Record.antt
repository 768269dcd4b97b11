-- ===== src/Job/Record.antt =====
-- src/TaskQueue/job.py, `Job.__init__`, `to_record` and `from_record`.
use task_queue.Base.{
  ℕ, String, ◌==◌, Bool, true, false, not, Option, none, some, List, [], ◌∷◌, if◌then◌else◌, nat_eq,
}
use task_queue.Base.Dict.{lookup, insert}
use task_queue.Base.Decimal.{to_text, of_text}
use task_queue.Python.{
  key_error, value_error, type_error, Result, ok, err, ◌>>=◌, or_raise, Any, null, list, tuple,
  dict, Items, nil, Fields, end, field, get_field, Value, str, bytes, Record,
}
use task_queue.Job.Status.{JobStatus, created, completed, value, of_value}
use task_queue.Job.Codec.{Serializer, DateTime}

pub record Job : Type 0 where
  pub id : String
  pub task_name : String
  pub created_at : ℕ
  pub args : Items
  pub kwargs : Fields
  pub status : JobStatus
  pub result : Any
  pub error : Option String
  pub attempts : ℕ
  pub request_cancel : Bool
  pub group_id : Option String

-- `id or uuid4().hex`: no id, and the empty one, are replaced by the fresh one.
abbrev pub id_or : Option String → String → String
id_or none fresh = fresh
id_or (some id) fresh = if id == "" then fresh else id

-- `Job(task_name, id=…, args=…, kwargs=…, group_id=…)` with the other arguments left out; `fresh` is
-- what `uuid4().hex` returns and `now` what `datetime.now(UTC)` does.
unfoldable pub new_job : String → Option String → Items → Fields → Option String → String → ℕ → Job
new_job task_name id args kwargs group_id fresh now = record {
  id = id_or id fresh;
  task_name = task_name;
  created_at = now;
  args = args;
  kwargs = kwargs;
  status = created;
  result = null;
  error = none;
  attempts = 0;
  request_cancel = false;
  group_id = group_id;
}

-- `str(int(flag))`
abbrev pub flag_text : Bool → String
flag_text true = "1"
flag_text false = "0"

-- `if v is not None: record[k] = v`
abbrev pub insert_some : String → Option Value → Record → Record
insert_some k none r = r
insert_some k (some v) r = insert k v r

abbrev pub text_value : Option String → Option Value
text_value none = none
text_value (some s) = some (str s)

-- `{"args": list(self.args), "kwargs": self.kwargs}`
abbrev pub payload_of : Job → Any
payload_of job = dict (field "args" (list job.args) (field "kwargs" (dict job.kwargs) end))

-- The keys that `to_record` writes.
abbrev pub job_fields : List String
job_fields =
    "id" ∷ "task_name" ∷ "created_at" ∷ "status" ∷ "attempts" ∷ "request_cancel" ∷ "payload"
    ∷ "group_id" ∷ "error" ∷ "result" ∷ []

module _ (serializer : Serializer) (datetime : DateTime) where
  -- `serializer.dumps(self.result)` once the job is COMPLETED
  abbrev pub result_blob : JobStatus → Any → Result (Option Value)
  result_blob completed result = serializer.dumps result >>= λ b. ok (some (bytes b))
  result_blob _ result = ok none

  unfoldable pub to_record : Job → Result Record
  to_record job = do
    payload ← serializer.dumps (payload_of job)
    result ← result_blob job.status job.result
    ok (
        insert_some "result" result (
          insert_some "error" (text_value job.error) (
            insert_some "group_id" (text_value job.group_id) (
              ("id", str job.id)
              ∷ ("task_name", str job.task_name)
              ∷ ("created_at", str (datetime.isoformat job.created_at))
              ∷ ("status", str (value job.status))
              ∷ ("attempts", str (to_text job.attempts))
              ∷ ("request_cancel", str (flag_text job.request_cancel))
              ∷ ("payload", bytes payload)
              ∷ []))))

  -- `serializer.loads(raw) if raw is not None else None`
  abbrev pub loads_or_null : Option Value → Result Any
  loads_or_null none = ok null
  loads_or_null (some raw) = serializer.loads raw

-- The text of an envelope field. Both backends keep text there: bytes are refused at this point.
abbrev pub as_text : Value → Result String
as_text (str s) = ok s
as_text (bytes b) = err type_error

-- `record[k]`, an envelope field
abbrev pub text_at : String → Record → Result String
text_at k r = or_raise (lookup k r) key_error >>= as_text

-- `record.get(k)`, an envelope field
abbrev pub optional_text : Option Value → Result (Option String)
optional_text none = ok none
optional_text (some v) = as_text v >>= λ s. ok (some s)

-- `int(record.get(k, 0))`
abbrev pub int_or_zero : Option Value → Result ℕ
int_or_zero none = ok 0
int_or_zero (some v) = as_text v >>= λ s. or_raise (of_text s) value_error

-- `payload[k]`
abbrev pub index : Any → String → Result Any
index (dict fs) k = or_raise (get_field k fs) key_error
index _ k = err type_error

-- `tuple(x)` and `dict(x)`, of the lists and dicts that `to_record` writes; other values are refused.
abbrev pub as_items : Any → Result Items
as_items (list xs) = ok xs
as_items (tuple xs) = ok xs
as_items _ = err type_error

abbrev pub as_fields : Any → Result Fields
as_fields (dict fs) = ok fs
as_fields _ = err type_error

abbrev pub args_of : Any → Result Items
args_of null = ok nil
args_of payload = index payload "args" >>= as_items

abbrev pub kwargs_of : Any → Result Fields
kwargs_of null = ok end
kwargs_of payload = index payload "kwargs" >>= as_fields

module _ (serializer : Serializer) (datetime : DateTime) where
  unfoldable pub from_record : Record → Result Job
  from_record r = do
    payload ← loads_or_null serializer datetime (lookup "payload" r)
    result ← loads_or_null serializer datetime (lookup "result" r)
    id ← text_at "id" r
    task_name ← text_at "task_name" r
    created_text ← text_at "created_at" r
    created_at ← datetime.fromisoformat created_text
    status_text ← text_at "status" r
    status ← or_raise (of_value status_text) value_error
    error ← optional_text (lookup "error" r)
    args ← args_of payload
    kwargs ← kwargs_of payload
    cancel ← int_or_zero (lookup "request_cancel" r)
    attempts ← int_or_zero (lookup "attempts" r)
    group_id ← optional_text (lookup "group_id" r)
    ok (record {
      id = id;
      task_name = task_name;
      created_at = created_at;
      args = args;
      kwargs = kwargs;
      status = status;
      result = result;
      error = error;
      attempts = attempts;
      request_cancel = not (nat_eq cancel 0);
      group_id = group_id;
    })
