-- ===== src/Redis/Backend.antt =====
-- src/TaskQueue/backends/redis_backend.py: the methods of `RedisBackend`, over the scripts. Each
-- `await` of a script or a command is one step of the server; `take_result` and `wait_cancel` are
-- given as the reads and writes between their waits.
use task_queue.Base.{
  ℕ, String, ◌==◌, ◌||◌, Bool, true, false, not, Option, none, some, List, [], ◌∷◌, if◌then◌else◌,
  nat_eq,
}
use task_queue.Base.Dict.{insert}
use task_queue.Base.Decimal.{of_text}
use task_queue.Python.{
  key_error, value_error, foreign, Result, ok, err, ◌>>=◌, or_raise, Value, str, Record,
}
use task_queue.Job.Status.{is_terminal}
use task_queue.Redis.Keys.{
  queue_key, workers_key, job_key, processing_key, done_channel, cancel_channel,
}
use task_queue.Redis.Interface.{Redis, text_of}
use task_queue.Redis.Scripts.{
  Reply, missing, unchanged, enqueue_script, claim_script, save_script, release_script,
  request_cancel_script, heartbeat_script, deregister_script, reaper_script,
}

pub record Config : Type 0 where
  pub instance_id : String
  pub result_ttl : ℕ
  pub worker_ttl : ℕ

-- The settings of a `RedisBackend` that is given none.
abbrev pub default_result_ttl : ℕ
default_result_ttl = 86400

abbrev pub default_worker_ttl : ℕ
default_worker_ttl = 30

-- `RedisBackend(client, result_ttl, worker_ttl)`, for settings that are not negative; `instance_id` is
-- what `uuid4().hex` returns.
unfoldable pub new_backend : String → ℕ → ℕ → Result Config
new_backend instance_id result_ttl worker_ttl =
    if nat_eq result_ttl 0
    then err value_error
    else if nat_eq worker_ttl 0
    then err value_error
    else ok (record { instance_id = instance_id; result_ttl = result_ttl; worker_ttl = worker_ttl })

-- `return_value == 0` raises in `save`, and -1 in `release`.
abbrev pub raise_unchanged : Reply → Result (Unit {0})
raise_unchanged unchanged = err key_error
raise_unchanged _ = ok tt

abbrev pub raise_missing : Reply → Result (Unit {0})
raise_missing missing = err key_error
raise_missing _ = ok tt

-- `k in self._BLOBS`
abbrev pub is_blob : String → Bool
is_blob k = k == "payload" || k == "result"

module _ (redis : Redis) (self : Config) where
  open redis use {Db, rpush, lrem, blmove, hget_reply, hgetall, delete, decode}

  abbrev pub decode_text : Value → String
  decode_text = text_of decode

  abbrev pub decode_value : String → Value → Value
  decode_value k v = if is_blob k then v else str (decode_text v)

  -- `_decode`, onto the record so far: of two pairs with one key the later wins, and a pair with the
  -- empty key is left out.
  unfoldable pub decode_pairs : List (Value × Value) → Record → Record
  decode_pairs [] r = r
  decode_pairs ((kb, v) ∷ raw) r =
      let k = decode_text kb in
      decode_pairs raw (if k == "" then r else insert k (decode_value k v) r)

  unfoldable pub enqueue : String → Record → Db → Db
  enqueue job_id record_ db =
      (enqueue_script redis (job_key job_id) queue_key job_id
        (insert "status" (str "queued") record_) db).0

  -- The handler of `claim`: the two commands of the pipeline, or nothing if they fail as well.
  abbrev pub give_back : Bool → String → Db → Db
  give_back true job_id db =
      rpush queue_key job_id (lrem (processing_key self.instance_id) job_id db)
  give_back false job_id db = db

  abbrev pub read_claim :
      Bool → String → Db × Result (Option (List (Value × Value))) → Db × Result (Option Record)
  read_claim cleanup job_id (db, err e) = (give_back cleanup job_id db, err e)
  read_claim cleanup job_id (db, ok none) =
      (lrem (processing_key self.instance_id) job_id db, ok none)
  read_claim cleanup job_id (db, ok (some [])) =
      (lrem (processing_key self.instance_id) job_id db, ok none)
  read_claim cleanup job_id (db, ok (some (pair ∷ raw))) =
      (db, ok (some (decode_pairs (pair ∷ raw) [])))

  -- The script call, which a lost connection may keep from the server.
  abbrev pub call_claim : Bool → String → Db → Db × Result (Option (List (Value × Value)))
  call_claim true job_id db = claim_script redis (job_key job_id) "running" db
  call_claim false job_id db = (db, err (foreign "ConnectionError"))

  abbrev pub claim_popped : Bool → Bool → Option Value × Db → Db × Result (Option Record)
  claim_popped reached cleanup (none, db) = (db, ok none)
  claim_popped reached cleanup (some raw_job_id, db) =
      let job_id = decode_text raw_job_id in
      read_claim cleanup job_id (call_claim reached job_id db)

  -- `claim`: `reached` tells whether the script call reaches the server, and `cleanup` whether the
  -- handler's pipeline does. BLMOVE on an empty queue is its timeout.
  unfoldable pub claim : Bool → Bool → Db → Db × Result (Option Record)
  claim reached cleanup db =
      claim_popped reached cleanup (blmove queue_key (processing_key self.instance_id) db)

  unfoldable pub get_job : String → Db → Result Record
  get_job job_id db = elim (hgetall (job_key job_id) db) [
    | [] ↦ err key_error
    | pair ∷ raw ↦ ok (decode_pairs (pair ∷ raw) [])
  ]

  unfoldable pub save : String → Record → Bool → Db → Db × Result (Unit {0})
  save job_id record_ done db =
      let (db', reply) =
        save_script redis (job_key job_id) (processing_key self.instance_id) (done_channel job_id)
          done job_id self.result_ttl record_ db in
      (db', raise_unchanged reply)

  unfoldable pub release : String → Db → Db × Result (Unit {0})
  release job_id db =
      let (db', reply) =
        release_script redis (job_key job_id) (processing_key self.instance_id) queue_key job_id
          "running" "queued" db in
      (db', raise_missing reply)

  -- `_is_terminal`, which `take_result` polls
  unfoldable pub is_terminal_job : String → Db → Result Bool
  is_terminal_job job_id db = elim (hget_reply (job_key job_id) "status" db) [
    | none ↦ err key_error
    | some raw ↦ ok (is_terminal (decode_text raw))
  ]

  -- The transaction at the end of `take_result`.
  unfoldable pub take_record : String → Db → Db × Result Record
  unfolding get_job
  take_record job_id db = (delete (job_key job_id) db, get_job job_id db)

  unfoldable pub request_cancel : String → Db → Db
  request_cancel job_id db =
      (request_cancel_script redis (job_key job_id) (cancel_channel job_id) db).0

  unfoldable pub request_cancel_many : List String → Db → Db
  request_cancel_many [] db = db
  request_cancel_many (job_id ∷ job_ids) db = request_cancel_many job_ids (request_cancel job_id db)

  -- `bool(int(raw))`
  abbrev pub flag_value : Value → Result Bool
  flag_value v = or_raise (of_text (decode_text v)) value_error >>= λ n. ok (not (nat_eq n 0))

  -- The first read of `wait_cancel`, and `_cancel_requested`, which it polls afterwards.
  unfoldable pub wait_cancel_start : String → Db → Result Bool
  wait_cancel_start job_id db = elim (hget_reply (job_key job_id) "request_cancel" db) [
    | none ↦ err key_error
    | some raw ↦ flag_value raw
  ]

  unfoldable pub cancel_requested : String → Db → Result Bool
  cancel_requested job_id db = elim (hget_reply (job_key job_id) "request_cancel" db) [
    | none ↦ ok false
    | some raw ↦ flag_value raw
  ]

  unfoldable pub heartbeat : Db → Db
  heartbeat db = heartbeat_script redis workers_key self.instance_id db

  unfoldable pub deregister : Db → Db
  deregister db =
      deregister_script redis workers_key (processing_key self.instance_id) self.instance_id db

  unfoldable pub reap : Db → Db × ℕ
  reap db =
      let s = reaper_script redis workers_key queue_key self.worker_ttl "queued" "running" db in
      (s.db, s.reclaimed)
