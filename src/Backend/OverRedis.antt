-- ===== src/Backend/OverRedis.antt =====
-- src/TaskQueue/backends/redis_backend.py as a backend of src/TaskQueue/backends/interface.py, for
-- calls that reach the server.
pub mod Decoding
pub mod Writing
pub mod Claiming
pub mod Reading
pub mod Taking
use task_queue.Base.{
  ℕ, String, eq_iff, eq_refl, ne-eq_false, ◌≡◌, ◌≢◌, refl, sym, ◌∙◌, Bool, true, false, ◌⊎◌, not,
  ◌&&◌, ◌||◌, if◌then◌else◌, ◌==◌, ap, Option, none, some, List, [], ◌∷◌, arith, inl, inr,
  Option-cases, Bool-cases, length, ltb,
}
use task_queue.Base.Dict.{Dict, lookup, contains, insert, lookup-insert}
use task_queue.Python.{key_error, Result, ok, err, Value, str, bytes, Record}
use task_queue.Redis.Keys.{queue_key, workers_key, job_key, processing_key}
use task_queue.Redis.View.{View, Hash, field_of, write_fields, or_no_fields}
use task_queue.Redis.Effect
use task_queue.Redis.Interface.{Redis}
use task_queue.Redis.Scripts.{
  Reaping, holds_text, holds_terminal, enqueue_script, release_script, request_cancel_script,
  reap_worker, reap_workers, reaper_script,
}
use task_queue.Redis.Effects.{
  is_present, written, requeued, cancelled, enqueue-view, save-view, save_missing, release-view,
  request_cancel-view, heartbeat-view, deregister-view,
}
use task_queue.Redis.Reaper.{reap_worker_reclaims}
use task_queue.Redis.Backend.{
  Config, enqueue, claim, get_job, save, release, take_record, request_cancel, request_cancel_many,
  heartbeat, deregister, reap, is_terminal_job, decode_pairs,
}
use task_queue.Redis.Fleet.Leases.{last_of, write_fields-last, jobs_differ}
use task_queue.Redis.Waits.{take_result, wait_cancel, poll_terminal}
use task_queue.Backend.{Backend, is_dict}

module _ (redis : Redis) (self : Config) where
  open redis use {Db, view}

  abbrev pub redis_backend : Backend
  redis_backend = record {
    State = Db;
    enqueue = enqueue redis self;
    claim = claim redis self true true;
    get_job = get_job redis self;
    save = save redis self;
    release = release redis self;
    take_result = λ id db. take_result redis self id (db ∷ []) db;
    request_cancel = λ id db. (request_cancel redis self id db, ok tt);
    request_cancel_many = λ ids db. (request_cancel_many redis self ids db, ok tt);
    wait_cancel = λ id db. wait_cancel redis self id db [];
    heartbeat = heartbeat redis self;
    deregister = deregister redis self;
    reap = reap redis self;
  }

  abbrev pub redis_stored : String → Db → Option Hash
  redis_stored id db = (view db).hash (job_key id)

  -- The laws hold of every database.
  abbrev pub AnyState : Db → Type 0
  AnyState db = Unit {0}
