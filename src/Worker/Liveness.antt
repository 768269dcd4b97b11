-- ===== src/Worker/Liveness.antt =====
-- src/TaskQueue/worker.py, `check_liveness`. The interval, a float of seconds in the source, is a
-- number of milliseconds here.
use task_queue.Base.{
  String, ℕ, ◌+◌, ◌*◌, ◌/◌, ◌≤◌, ◌≡◌, false, Option, none, some, arith, ltb, if◌then◌else◌,
}
use task_queue.Python.{config_error, Result, ok, err}
use task_queue.Redis.View.{is_expired}
use task_queue.Redis.Interface.{Redis}
use task_queue.Redis.Backend.{Config, reap}
use task_queue.Redis.Reap.{leases, beat, reap_decides}

abbrev pub min_beats_per_ttl : ℕ
min_beats_per_ttl = 3

-- A backend with no integer `worker_ttl` is not checked.
unfoldable pub check_liveness : Option ℕ → ℕ → Result (Unit {0})
check_liveness none interval_ms = ok tt
check_liveness (some worker_ttl) interval_ms =
    if ltb (worker_ttl * 1000) (interval_ms * min_beats_per_ttl) then err config_error else ok tt

not_expired :
    (worker_ttl interval_ms beat_ms now_ms : ℕ)
    → check_liveness (some worker_ttl) interval_ms ≡ ok tt
    → 1000 ≤ interval_ms
    → now_ms ≤ beat_ms + 2 * interval_ms
    → is_expired (now_ms / 1000) worker_ttl (some (beat_ms / 1000)) ≡ false
unfolding check_liveness
not_expired worker_ttl interval_ms beat_ms now_ms ok_ h late = ground arith

-- A worker whose settings pass the check, with an interval of a second or more, may miss a beat: as
-- long as its last beat, at `beat_ms`, is at most two intervals old on the server's clock, which counts
-- whole seconds, no peer with the same TTL reaps it, and it keeps its leases and its entry.
pub checked_worker_is_spared :
    (redis : Redis) (self : Config) (worker : String) (interval_ms beat_ms now_ms : ℕ)
    (db : redis.Db)
    → check_liveness (some self.worker_ttl) interval_ms ≡ ok tt
    → 1000 ≤ interval_ms
    → now_ms ≤ beat_ms + 2 * interval_ms
    → (redis.view db).clock ≡ now_ms / 1000
    → beat worker (redis.view db) ≡ some (beat_ms / 1000)
    → let v = redis.view db in
      let v' = redis.view (reap redis self db).0 in
      (leases worker v' ≡ leases worker v) × (beat worker v' ≡ beat worker v)
checked_worker_is_spared redis self worker interval_ms beat_ms now_ms db passed h late clock last =
    (reap_decides redis self worker db).1
      (rw (clock, last) (not_expired self.worker_ttl interval_ms beat_ms now_ms passed h late))
