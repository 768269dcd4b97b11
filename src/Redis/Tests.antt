-- ===== src/Redis/Tests.antt =====
-- Runs of src/TaskQueue/backends/redis_backend.py on a small server: job `a` is leased by worker `w1`,
-- whose last beat is 70 seconds old, and job `b` is queued.
pub mod Server
pub mod Text
mod Fleet
use task_queue.Base.{
  ℕ, ◌+◌, ◌<◌, String, ◌≡◌, refl, ◌≢◌, true, false, Option, none, some, List, arith, [], ◌∷◌, ◌++◌,
  length, ◌⊎◌,
}
use task_queue.Base.Dict.{insert, lookup}
use task_queue.Base.Decimal.{to_text, of_text}
use task_queue.Python.{key_error, ok, err, str, Record}
use task_queue.Job.Status.{is_terminal}
use task_queue.Redis.Keys.{
  queue_key, workers_key, job_key, processing_key, processing_key-ne-queue, done_channel,
  cancel_channel, keys_injective,
}
use task_queue.Redis.View.{View, field_of}
use task_queue.Redis.Race.{release_of_reclaimed}
use task_queue.Redis.Effect
use task_queue.Redis.Scripts.{
  Reaping, drain, reap_job, reap_worker, reap_workers, reaper_script, claim_script, holds_text,
}
use task_queue.Redis.Effects.{
  is_present, written, requeued, cancelled, enqueue-view, save-view, release-view,
  request_cancel-view, deregister-view,
}
use task_queue.Redis.Backend.{
  Config, decode_pairs, enqueue, claim, save, release, request_cancel, deregister, reap,
}
use task_queue.Redis.Reclaim.{Reclaims, status_at, present_ids}
use task_queue.Redis.Reaper.{drain-Reclaims, reap_worker_reclaims}
use task_queue.Redis.Reap.{leases, beat, reap_decides, reap_again}
use task_queue.Redis.Lease.{deliveries, claim_keeps_deliveries}
use task_queue.Redis.Tests.Server.{server, processing_kind}

abbrev pub config : Config
config = record { instance_id = "w1"; result_ttl = 3600; worker_ttl = 60 }

-- Another worker with the same TTL.
abbrev pub second : Config
second = record { instance_id = "w2"; result_ttl = 3600; worker_ttl = 60 }

abbrev pub blank : View
blank = record {
  hash = λ k. none;
  list = λ k. [];
  zset = λ k. [];
  expiry = λ k. none;
  published = [];
  clock = 100;
}

abbrev stored : String → Record
stored status = ("id", str "x") ∷ ("status", str status) ∷ ("attempts", str "1") ∷ []

abbrev pub busy : View
busy = Effect.zadd workers_key 30 "w1" (
    Effect.zadd workers_key 90 "w2" (
      Effect.rpush queue_key "b" (
        Effect.rpush (processing_key "w1") "a" (
          Effect.hset (job_key "b") (stored "queued")
            (Effect.hset (job_key "a") (stored "running") blank)))))

abbrev start : Reaping View
start = record { db = busy; reclaimed = 0; dropped = 0 }

-- What the server answers.
claim_run :
    (claim server config true true busy).1
    ≡ ok (some (("id", str "x") ∷ ("status", str "running") ∷ ("attempts", str "2") ∷ []))
unfolding claim claim_script decode_pairs of_text to_text job_key processing_key insert
claim_run = refl

reap_run : (reap server config busy).1 ≡ 1
unfolding reap reaper_script reap_workers reap_worker drain reap_job job_key processing_key lookup
    insert
reap_run = refl

claim_keeps_deliveries_example :
    deliveries server config "b" (claim server config false true busy).0
    ≡ deliveries server config "b" busy
unfolding job_key processing_key
claim_keeps_deliveries_example = claim_keeps_deliveries server config false true "b" busy refl

abbrev reaped_worker : Config
reaped_worker = record config { instance_id = "w2" }

release_of_reclaimed_example :
    let v' = (release server reaped_worker "a" busy).0 in
    (field_of (v'.hash (job_key "a")) "status" ≡ some (str "queued"))
    × (v'.list queue_key ≡ busy.list queue_key ++ "a" ∷ [])
    × ((worker : String) → leases worker v' ≡ leases worker busy)
unfolding job_key processing_key
release_of_reclaimed_example = release_of_reclaimed server reaped_worker "a" busy refl refl

reap_worker_reclaims_example :
    let s = reap_worker server workers_key queue_key "queued" "running" "w1" start in
    (s.db.list (processing_key "w1") ≡ [])
    × (s.db.list queue_key
        ≡ busy.list queue_key ++ present_ids busy (busy.list (processing_key "w1")))
    × ((other : String)
        → other ≢ "w1"
        → s.db.list (processing_key other) ≡ busy.list (processing_key other))
    × ((k : String)
        → (status_at k s.db ≡ status_at k busy)
          ⊎ ((holds_text "running" (status_at k busy) ≡ true)
              × (status_at k s.db ≡ some (str "queued"))))
    × (lookup "w1" (s.db.zset workers_key) ≡ none)
    × ((other : String)
        → other ≢ "w1"
        → lookup other (s.db.zset workers_key) ≡ lookup other (busy.zset workers_key))
    × (s.reclaimed ≡ length (present_ids busy (busy.list (processing_key "w1"))))
    × (s.reclaimed + s.dropped ≡ length (busy.list (processing_key "w1")))
    × (s.db.clock ≡ 100)
    × ((k : String) → is_present (s.db.hash k) ≡ is_present (busy.hash k))
unfolding job_key processing_key
reap_worker_reclaims_example = reap_worker_reclaims server "w1" start

reap_decides_example :
    (true ≡ true
      → (leases "w1" (reap server config busy).0 ≡ [])
        × (beat "w1" (reap server config busy).0 ≡ none))
    × (true ≡ false
        → (leases "w1" (reap server config busy).0 ≡ leases "w1" busy)
          × (beat "w1" (reap server config busy).0 ≡ beat "w1" busy))
unfolding lookup insert
reap_decides_example = reap_decides server config "w1" busy

reap_again_example :
    reap server second (reap server config busy).0 ≡ ((reap server config busy).0, 0)
reap_again_example = reap_again server config second busy refl
