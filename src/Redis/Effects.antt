-- ===== src/Redis/Effects.antt =====
-- src/TaskQueue/backends/redis_backend.py: what each method does to the database, read off its script
-- by the laws of the commands.
use task_queue.Base.{
  String, ◌≡◌, Bool, true, false, Option, none, some, [], ◌∷◌, arith, inl, inr, Option-cases,
  if◌then◌else◌, ltb, length,
}
use task_queue.Base.Dict.{insert}
use task_queue.Python.{key_error, ok, err, str, Record}
use task_queue.Redis.Keys.{
  queue_key, workers_key, job_key, processing_key, done_channel, cancel_channel,
}
use task_queue.Redis.View.{View, Hash, field_of}
use task_queue.Redis.Effect
use task_queue.Redis.Interface.{Redis}
use task_queue.Redis.Scripts.{
  holds_text, holds_terminal, enqueue_script, save_script, release_script, request_cancel_script,
  heartbeat_script, deregister_script,
}
use task_queue.Redis.Backend.{Config, enqueue, save, release, request_cancel, heartbeat, deregister}

-- Whether a key exists.
abbrev pub is_present : Option Hash → Bool
is_present none = false
is_present (some h) = true

module _ (redis : Redis) (self : Config) where
  open redis use {Db, view, hset, rpush, lrem, expire, publish}

  -- `enqueue` on both branches. A job that is already known is left as it is and not queued again. A new
  -- one is stored as QUEUED, whatever status its record arrived with, and its id goes to the end of the
  -- queue.
  pub enqueue-view :
      (id : String) (r : Record) (db : Db)
      → let v = view db in
        view (enqueue redis self id r db) ≡ (
          if is_present (v.hash (job_key id))
          then v
          else Effect.rpush queue_key id
              (Effect.hset (job_key id) (insert "status" (str "queued") r) v))
  unfolding enqueue enqueue_script
  enqueue-view id r db =
      let record_ = insert "status" (str "queued") r in
      let stored = hset (job_key id) record_ db in
      let known = redis.key_exists-view (job_key id) db (redis.job_kind id) in
      elim (Option-cases ((view db).hash (job_key id))) [
        | inl missing ↦ ground (
          arith,
          known,
          redis.rpush-view queue_key id stored redis.queue_kind,
          redis.hset-view (job_key id) record_ db (redis.job_kind id),
        )
        | inr (h, found) ↦ ground (arith, known)
      ]

  abbrev pub written : String → Record → Bool → View → View
  written id r true v = Effect.publish (done_channel id) (
      Effect.expire (job_key id) self.result_ttl
        (Effect.lrem (processing_key self.instance_id) id (Effect.hset (job_key id) r v)))
  written id r false v = Effect.hset (job_key id) r v

  save_present :
      (id : String) (r : Record) (done : Bool) (h : Hash) (db : Db)
      → (view db).hash (job_key id) ≡ some h
      → (view (save redis self id r done db).0 ≡ written id r done (view db))
        × ((save redis self id r done db).1 ≡ ok tt)
  unfolding save save_script
  save_present id r true h db found =
      let db₁ = hset (job_key id) r db in
      let db₂ = lrem (processing_key self.instance_id) id db₁ in
      let db₃ = expire (job_key id) self.result_ttl db₂ in
      ground (
        arith,
        redis.key_exists-view (job_key id) db (redis.job_kind id),
        redis.publish-view (done_channel id) db₃,
        redis.expire-view (job_key id) self.result_ttl db₂ (redis.job_kind id),
        redis.lrem-view (processing_key self.instance_id) id db₁
            (redis.processing_kind self.instance_id),
        redis.hset-view (job_key id) r db (redis.job_kind id),
      )
  save_present id r false h db found = ground (
    arith,
    redis.key_exists-view (job_key id) db (redis.job_kind id),
    redis.hset-view (job_key id) r db (redis.job_kind id),
  )

  pub save_missing :
      (id : String) (r : Record) (done : Bool) (db : Db)
      → (view db).hash (job_key id) ≡ none
      → save redis self id r done db ≡ (db, err key_error)
  unfolding save save_script
  save_missing id r done db missing =
      ground (arith, redis.key_exists-view (job_key id) db (redis.job_kind id))

  -- `save` on every branch. An unknown job raises KeyError and nothing is written. A known job's fields
  -- are merged into its hash; with `done` its lease is dropped from this worker's own list, the record
  -- is given the result TTL and the done channel is published to, and without it none of these happens.
  pub save-view :
      (id : String) (r : Record) (done : Bool) (db : Db)
      → let v = view db in
        let (db', res) = save redis self id r done db in
        (view db' ≡ (if is_present (v.hash (job_key id)) then written id r done v else v))
        × (res ≡ (if is_present (v.hash (job_key id)) then ok tt else err key_error))
  save-view id r done db = elim (Option-cases ((view db).hash (job_key id))) [
    | inl missing ↦ ground (arith, save_missing id r done db missing)
    | inr (h, found) ↦ ground (arith, save_present id r done h db found)
  ]

  abbrev pub requeued : String → View → View
  requeued id v = Effect.rpush queue_key id (
      Effect.lrem (processing_key self.instance_id) id
        (Effect.hset (job_key id) (("status", str "queued") ∷ []) v))

  -- `release` on every branch. An unknown job raises KeyError; a job that is not RUNNING is left alone;
  -- a RUNNING one is marked QUEUED, leaves this worker's list and goes to the end of the queue.
  pub release-view :
      (id : String) (db : Db)
      → let v = view db in
        let (db', res) = release redis self id db in
        let h = v.hash (job_key id) in
        (view db' ≡ (if holds_text "running" (field_of h "status") then requeued id v else v))
        × (res ≡ (if is_present h then ok tt else err key_error))
  unfolding release release_script
  release-view id db =
      let db₁ = hset (job_key id) (("status", str "queued") ∷ []) db in
      let db₂ = lrem (processing_key self.instance_id) id db₁ in
      ground (
        arith,
        redis.key_exists-view (job_key id) db (redis.job_kind id),
        redis.hget-view (job_key id) "status" db (redis.job_kind id),
        redis.rpush-view queue_key id db₂ redis.queue_kind,
        redis.lrem-view (processing_key self.instance_id) id db₁
            (redis.processing_kind self.instance_id),
        redis.hset-view (job_key id) (("status", str "queued") ∷ []) db (redis.job_kind id),
      )

  abbrev pub cancelled : String → View → View
  cancelled id v =
      Effect.publish (cancel_channel id)
        (Effect.hset (job_key id) (("request_cancel", str "1") ∷ []) v)

  -- `request_cancel` on every branch. Completion wins: a job that is unknown or terminal is left alone.
  -- Any other is flagged in its record, and its cancel channel is published to.
  pub request_cancel-view :
      (id : String) (db : Db)
      → let v = view db in
        let h = v.hash (job_key id) in
        view (request_cancel redis self id db) ≡ (
          if is_present h
          then (if holds_terminal (field_of h "status") then v else cancelled id v)
          else v)
  unfolding request_cancel request_cancel_script
  request_cancel-view id db =
      let db₁ = hset (job_key id) (("request_cancel", str "1") ∷ []) db in
      ground (
        arith,
        redis.key_exists-view (job_key id) db (redis.job_kind id),
        redis.hget-view (job_key id) "status" db (redis.job_kind id),
        redis.publish-view (cancel_channel id) db₁,
        redis.hset-view (job_key id) (("request_cancel", str "1") ∷ []) db (redis.job_kind id),
      )

  -- `heartbeat` writes the server's time as this worker's last beat.
  pub heartbeat-view :
      (db : Db)
      → view (heartbeat redis self db)
        ≡ Effect.zadd workers_key (view db).clock self.instance_id (view db)
  unfolding heartbeat heartbeat_script
  heartbeat-view db = ground (
    arith,
    redis.time-view db,
    redis.zadd-view workers_key (redis.time db) self.instance_id db redis.workers_kind,
  )

  -- `deregister` withdraws the worker from the liveness set exactly when it holds no lease.
  pub deregister-view :
      (db : Db)
      → let v = view db in
        view (deregister redis self db) ≡ (
          if ltb 0 (length (v.list (processing_key self.instance_id)))
          then v
          else Effect.zrem workers_key self.instance_id v)
  unfolding deregister deregister_script
  deregister-view db = ground (
    arith,
    redis.llen-view (processing_key self.instance_id) db (redis.processing_kind self.instance_id),
    redis.zrem-view workers_key self.instance_id db redis.workers_kind,
  )
