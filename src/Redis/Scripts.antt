-- ===== src/Redis/Scripts.antt =====
-- src/TaskQueue/backends/redis_backend.py: the Lua scripts, command by command. The server runs a
-- script as one atomic step. The keys that a method passes as KEYS are arguments here.
use task_queue.Base.{
  ℕ, zero, suc, ◌-◌, String, ◌==◌, Bool, false, Option, none, some, List, [], ◌∷◌, if◌then◌else◌,
  ltb,
}
use task_queue.Python.{foreign, Result, ok, err, Value, str, bytes, Record}
use task_queue.Job.Status.{is_terminal}
use task_queue.Redis.Keys.{job_key, processing_key}
use task_queue.Redis.Interface.{Redis}

-- The integer replies -1, 0 and 1.
pub data Reply : Type 0 where
  missing unchanged changed : Reply

-- `redis.call('HGET', …) == text`
abbrev pub holds_text : String → Option Value → Bool
holds_text s none = false
holds_text s (some (bytes b)) = false
holds_text s (some (str t)) = t == s

-- `terminals[redis.call('HGET', …)]`
abbrev pub holds_terminal : Option Value → Bool
holds_terminal none = false
holds_terminal (some (bytes b)) = false
holds_terminal (some (str t)) = is_terminal t

-- The state of the reaper's loops: the database, `reclaimed` and `dropped`.
pub record Reaping (Db : Type 0) : Type 0 where
  pub db : Db
  pub reclaimed : ℕ
  pub dropped : ℕ

module _ (redis : Redis) where
  open redis use {
    Db, hset, hincrby, rpush, lpop, lrem, zadd, zrem, expire, publish, key_exists, hget, hgetall,
    llen, zrange_until, time,
  }

  unfoldable pub enqueue_script : String → String → String → Record → Db → Db × Reply
  enqueue_script job queue job_id fields db =
      if key_exists job db
      then (db, unchanged)
      else (rpush queue job_id (hset job fields db), changed)

  -- A value of `attempts` that is no integer makes HINCRBY, and so the script, fail; what was written
  -- before that stays.
  abbrev pub claimed : String → Db → Option Db → Db × Result (Option (List (Value × Value)))
  claimed job db none = (db, err (foreign "hash value is not an integer"))
  claimed job db (some db') = (db', ok (some (hgetall job db')))

  unfoldable pub claim_script : String → String → Db → Db × Result (Option (List (Value × Value)))
  claim_script job running db =
      if key_exists job db
      then (let db' = hset job (("status", str running) ∷ []) db in
          claimed job db' (hincrby job "attempts" db'))
      else (db, ok none)

  unfoldable pub save_script :
      String → String → String → Bool → String → ℕ → Record → Db → Db × Reply
  save_script job processing channel done job_id result_ttl fields db =
      if key_exists job db
      then (let db' = hset job fields db in
          (
            (if done
                then publish channel (expire job result_ttl (lrem processing job_id db'))
                else db'),
            changed,
          ))
      else (db, unchanged)

  unfoldable pub release_script :
      String → String → String → String → String → String → Db → Db × Reply
  release_script job processing queue job_id running queued db =
      if key_exists job db
      then (if holds_text running (hget job "status" db)
          then (
            rpush queue job_id (lrem processing job_id (hset job (("status", str queued) ∷ []) db)),
            changed,
          )
          else (db, unchanged))
      else (db, missing)

  unfoldable pub request_cancel_script : String → String → Db → Db × Reply
  request_cancel_script job channel db =
      if key_exists job db
      then (if holds_terminal (hget job "status" db)
          then (db, unchanged)
          else (publish channel (hset job (("request_cancel", str "1") ∷ []) db), changed))
      else (db, unchanged)

  unfoldable pub heartbeat_script : String → String → Db → Db
  heartbeat_script workers worker db = zadd workers (time db) worker db

  -- The reply of ZREM is read for a log line alone.
  unfoldable pub deregister_script : String → String → String → Db → Db
  deregister_script workers processing worker db =
      if ltb 0 (llen processing db) then db else zrem workers worker db

  -- One job id that was popped from a dead worker's list.
  unfoldable pub reap_job : String → String → String → String → Reaping Db → Reaping Db
  reap_job queue queued running job_id s =
      let job = job_key job_id in
      if key_exists job s.db
      then record s {
        db = rpush queue job_id (
            if holds_text running (hget job "status" s.db)
            then hset job (("status", str queued) ∷ []) s.db
            else s.db);
        reclaimed = suc s.reclaimed;
      }
      else record s { dropped = suc s.dropped }

  -- `while true do … LPOP … end`; the fuel is one more than the length of the list.
  unfoldable pub drain : ℕ → String → String → String → String → Reaping Db → Reaping Db
  drain zero processing queue queued running s = s
  drain (suc fuel) processing queue queued running s =
      let popped = lpop processing s.db in
      let s' : Reaping Db = record s { db = popped.1 } in
      elim popped.0 [
        | none ↦ s'
        | some job_id ↦
            drain fuel processing queue queued running (reap_job queue queued running job_id s')
      ]

  unfoldable pub reap_worker : String → String → String → String → String → Reaping Db → Reaping Db
  reap_worker workers queue queued running worker s =
      let processing = processing_key worker in
      let s' = drain (suc (llen processing s.db)) processing queue queued running s in
      record s' { db = zrem workers worker s'.db }

  unfoldable pub reap_workers :
      String → String → String → String → List String → Reaping Db → Reaping Db
  reap_workers workers queue queued running [] s = s
  reap_workers workers queue queued running (worker ∷ rest) s =
      reap_workers workers queue queued running rest
        (reap_worker workers queue queued running worker s)

  -- `ZRANGE workers -inf (now - ttl) BYSCORE`. A bound below 0 reaches no score, as these are times.
  abbrev pub stale_workers : String → ℕ → ℕ → Db → List String
  stale_workers workers now ttl db = if ltb now ttl then [] else zrange_until workers (now - ttl) db

  unfoldable pub reaper_script : String → String → ℕ → String → String → Db → Reaping Db
  reaper_script workers queue ttl queued running db =
      reap_workers workers queue queued running (stale_workers workers (time db) ttl db)
        (record { db = db; reclaimed = 0; dropped = 0 })
