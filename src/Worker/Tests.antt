-- ===== src/Worker/Tests.antt =====
-- Runs of src/TaskQueue/worker.py.
use task_queue.Base.{
  String, ◌++◌, ◌⊎◌, ◌≢◌, member, eq_iff, ◌≡◌, refl, true, false, none, some, [], ◌∷◌, arith, inl,
  inr,
}
use task_queue.Base.Dict.{lookup, insert}
use task_queue.Python.{foreign, ok, err, num, str, Record}
use task_queue.Job.Record.{Job}
use task_queue.Job.Tests.{finished}
use task_queue.Job.Status.{running}
use task_queue.Job.Tests.Codec.{codec, clock}
use task_queue.Memory.{Memory, empty}
use task_queue.Redis.Reap.{leases, beat}
use task_queue.Redis.Backend.{reap}
use task_queue.Redis.View.{View}
use task_queue.Redis.Effect
use task_queue.Redis.Tests.{busy, config}
use task_queue.Redis.Tests.Server.{server}
use task_queue.Redis.Keys.{queue_key, job_key, processing_key}
use task_queue.Worker.Pool.{Pool, going, enter, start_loops, any_going}
use task_queue.Worker.OverRedis.{beat_call, deregister_call, enter_registers}
use task_queue.Worker.Shutdown.{is_running, leave, exit_hands_back}
use task_queue.Redis.Backend.{release}
use task_queue.Worker.Liveness.{check_liveness, checked_worker_is_spared}
use task_queue.Worker.Run.{Awaits, returned, run}
use task_queue.Worker.InMemory.{save_done, Ends, run_settles}

checked_worker_is_spared_example :
    (leases "w2" (reap server config busy).0 ≡ leases "w2" busy)
    × (beat "w2" (reap server config busy).0 ≡ beat "w2" busy)
unfolding check_liveness lookup insert
checked_worker_is_spared_example =
    checked_worker_is_spared server config "w2" 5000 90000 100000 busy refl (omega arith)
      (omega arith) refl refl

abbrev job : Job
job = record finished { status = running }

abbrev returns : Awaits
returns = record {
  interrupted = false;
  job = some (returned (num 7));
  watch = none;
  unwatched = none;
  unwind_interrupted = false;
}

abbrev stored : Record
stored = ("status", str "running") ∷ []

abbrev held : Memory
held = record empty { jobs = ("a", stored) ∷ [] }

run_settles_example :
    Ends codec clock
      (λ s. s)
      (λ e. "error")
      "a"
      held
      (run save_done codec clock (λ s. s) (λ e. "error") (λ name. true) returns job held)
unfolding lookup
run_settles_example =
    run_settles codec clock (λ s. s) (λ e. "error") (λ name. true) returns job stored held refl refl

abbrev pool : Pool
pool = record {
  concurrency = 2;
  interval_ms = 10000;
  workers = [];
  running = false;
  entered = false;
  upkeep = false;
}

enter_registers_example :
    let (db', p', res) =
      enter
        (beat_call server config true)
        (deregister_call server config true)
        (λ id db. release server config id db)
        pool
        busy in
    ((p'.workers ≡ []) × (res ≡ err (foreign "ConnectionError")))
    ⊎ ((beat "w1" db' ≡ some 100) × (p'.workers ≡ start_loops 2) × (res ≡ ok tt))
enter_registers_example = enter_registers server config true pool busy refl refl

-- The second loop took its job before the first one did.
abbrev processing : Pool
processing = record pool {
  workers = going (some "c") ∷ going none ∷ going (some "a") ∷ [];
  running = true;
  entered = true;
  upkeep = true;
}

abbrev leased_twice : View
leased_twice =
    Effect.rpush (processing_key "w1") "c"
      (Effect.hset (job_key "c") (("status", str "running") ∷ []) busy)

both_run : (j : String) → member j ("c" ∷ "a" ∷ []) ≡ true → is_running j leased_twice ≡ true
unfolding job_key
both_run j h = elim (only j h) [ inl e ↦ rw e refl | inr e ↦ rw e refl ]
  where
    only : (j : String) → member j ("c" ∷ "a" ∷ []) ≡ true → (j ≡ "a") ⊎ (j ≡ "c")
    only j h = ground (arith, eq_iff "a" j, eq_iff "c" j)

exit_hands_back_example :
    let (db', p', res) = leave server config processing leased_twice in
    (leases "w1" db' ≡ [])
    × (beat "w1" db' ≡ none)
    × (db'.list queue_key ≡ leased_twice.list queue_key ++ "c" ∷ "a" ∷ [])
    × ((other : String) → other ≢ "w1" → leases other db' ≡ leases other leased_twice)
    × (any_going p'.workers ≡ false)
    × (p'.upkeep ≡ false)
    × (res ≡ ok tt)
unfolding processing_key job_key
exit_hands_back_example =
    exit_hands_back server config processing leased_twice (λ x. ground arith) refl both_run
