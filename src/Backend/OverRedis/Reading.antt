-- ===== src/Backend/OverRedis/Reading.antt =====
-- src/TaskQueue/backends/redis_backend.py keeps the contract of src/TaskQueue/backends/interface.py.
use task_queue.Base.{
  list_cases, String, true, Option, none, some, eq_refl, ◌≡◌, refl, ◌∙◌, ap, List, [], ◌∷◌, arith,
  inl, inr,
}
use task_queue.Python.{ok, Value, str, bytes}
use task_queue.Job.Status.{is_terminal}
use task_queue.Redis.View.{field_of}
use task_queue.Redis.Keys.{queue_key, workers_key, job_key}
use task_queue.Redis.Interface.{Redis}
use task_queue.Redis.Scripts.{
  holds_terminal, Reaping, reap_worker, reap_workers, reaper_script, stale_workers,
}
use task_queue.Redis.Effects.{is_present, heartbeat-view, deregister-view}
use task_queue.Redis.Reaper.{reap_worker_reclaims}
use task_queue.Redis.Backend.{Config, get_job, take_record, reap, is_terminal_job, decode_pairs}
use task_queue.Redis.Fleet.Leases.{jobs_differ}
use task_queue.Redis.Waits.{take_result, poll_terminal}
use task_queue.Backend.{Reads, Contract}
use task_queue.Backend.OverRedis.{redis_backend, redis_stored, AnyState}
use task_queue.Backend.OverRedis.Decoding.{decoded-Tells}
use task_queue.Backend.OverRedis.Claiming.{redis_backend-Claims}
use task_queue.Backend.OverRedis.Writing.{redis_backend-Writes}

terminal_cases :
    (o : Option Value)
    → holds_terminal o ≡ true
    → (t : String) × (o ≡ some (str t)) × (is_terminal t ≡ true)
terminal_cases none h = cc
terminal_cases (some (bytes b)) h = cc
terminal_cases (some (str t)) h = (t, refl, h)

module _ (redis : Redis) (self : Config) where
  open redis use {Db, view}

  reaped :
      (id : String) (ws : List String) (s : Reaping Db)
      → is_present (
          redis_stored redis self id
            (reap_workers redis workers_key queue_key "queued" "running" ws s).db)
        ≡ is_present (redis_stored redis self id s.db)
  unfolding reap_workers
  reaped id [] s = refl
  reaped id (w ∷ ws) s =
      let (_, _, _, _, _, _, _, _, _, present) = reap_worker_reclaims redis w s in
      reaped id ws (reap_worker redis workers_key queue_key "queued" "running" w s)
      ∙ present (job_key id)

  reap_kept :
      (id : String) (db : Db)
      → is_present (redis_stored redis self id (reap redis self db).0)
        ≡ is_present (redis_stored redis self id db)
  unfolding reap reaper_script
  reap_kept id db =
      reaped id (stale_workers redis workers_key (redis.time db) self.worker_ttl db)
        (record { db = db; reclaimed = 0; dropped = 0 })

  -- A terminal status is text, which `_is_terminal` reads in whatever form it is passed on.
  terminal_taken :
      (id : String) (pair : Value × Value) (raw : List (Value × Value)) (db : Db)
      → holds_terminal (field_of (redis_stored redis self id db) "status") ≡ true
      → redis.hgetall (job_key id) db ≡ pair ∷ raw
      → take_result redis self id (db ∷ []) db
        ≡ some (redis.delete (job_key id) db, ok (decode_pairs redis self (pair ∷ raw) []))
  unfolding take_result take_record get_job is_terminal_job poll_terminal
  terminal_taken id pair raw db over found =
      let reads = redis.hget_reply-view (job_key id) "status" db (redis.job_kind id) in
      let (t, kept, terminal) =
        terminal_cases (field_of (redis_stored redis self id db) "status") over in
      ground (arith, reads, redis.reply_text t, kept, terminal, found)

  redis_backend-Reads :
      Reads (redis_backend redis self) (redis_stored redis self) (AnyState redis self)
  unfolding take_result take_record get_job is_terminal_job poll_terminal
  redis_backend-Reads = record {
    get_known = λ id db known. elim (list_cases (redis.hgetall (job_key id) db)) [
      | inl none_left ↦
          absurd (ground (arith, redis.hgetall-view (job_key id) db (redis.job_kind id)))
      | inr (pair, raw, found) ↦ (
        decode_pairs redis self (pair ∷ raw) [],
        ground (arith, found),
        decoded-Tells redis self id (pair ∷ raw) db found,
      )
    ];
    get_unknown =
        λ id db missing. ground (arith, redis.hgetall-view (job_key id) db (redis.job_kind id));
    take_unknown = λ id db good missing.
        (db, ground (arith, redis.hget_reply-view (job_key id) "status" db (redis.job_kind id)));
    take_live = λ id t db good status live. ground (
      arith,
      redis.reply_text t,
      redis.hget_reply-view (job_key id) "status" db (redis.job_kind id),
    );
    take_terminal = λ id db good over. elim (list_cases (redis.hgetall (job_key id) db)) [
      | inl none_left ↦
          absurd (ground (arith, redis.hgetall-view (job_key id) db (redis.job_kind id)))
      | inr (pair, raw, found) ↦ (
        redis.delete (job_key id) db,
        decode_pairs redis self (pair ∷ raw) [],
        terminal_taken id pair raw db over found,
        decoded-Tells redis self id (pair ∷ raw) db found,
        ground (arith, eq_refl (job_key id), redis.delete-view (job_key id) db (redis.job_kind id)),
        λ j differ.
            ground (
              arith,
              jobs_differ id j differ,
              redis.delete-view (job_key id) db (redis.job_kind id),
            ),
      )
    ];
    heartbeat_keeps = λ id db. ap (λ v. v.hash (job_key id)) (heartbeat-view redis self db);
    deregister_keeps = λ id db. ground (arith, deregister-view redis self db);
    reap_keeps = reap_kept;
  }

  -- The Redis backend keeps these laws of the interface, whatever the database holds, for calls that
  -- reach the server, and in whatever form the driver replies with text, its bytes or the text itself,
  -- as long as it replies with bytes as they are: enqueueing makes an unknown job QUEUED, with the other fields of its
  -- record, and leaves a known one alone; a save of a known job writes the record's fields and adds
  -- no other; a release puts a RUNNING job back to QUEUED, with its other fields, and is a no-op on
  -- any other known job; a request to cancel flags a job that is not terminal, with its other fields
  -- kept, and is a no-op on any other; a batch of requests asks for each job in turn; saving, releasing or reading an unknown job raises KeyError;
  -- `take_result` waits for a job that is not terminal, returns a terminal one and frees it; a claim
  -- that returns a record marks a known job RUNNING, whatever its status was, counts its attempt and
  -- keeps its other fields, and one that returns none changes no record. The record that a claim, `get_job` or `take_result`
  -- returns has those of a job's fields that are stored as the interface has them: bytes for the
  -- payload and the result, and text for the others. Nothing is said of `wait_cancel`. All of these leave the records of other jobs
  -- alone; `heartbeat` and `deregister` change no record, and `reap` loses none. The records that
  -- are written are dicts, with no key twice.
  pub redis_backend-Contract :
      Contract (redis_backend redis self) (redis_stored redis self) (AnyState redis self)
  redis_backend-Contract = record {
    keeps = record {
      enqueue_good = λ id r db good. tt;
      claim_good = λ db good. tt;
      finish_good = λ id r db good leased over. tt;
      release_good = λ id db good. tt;
      cancel_good = λ id db good. tt;
    };
    writes = redis_backend-Writes redis self;
    claims = redis_backend-Claims redis self;
    reads = redis_backend-Reads;
  }
