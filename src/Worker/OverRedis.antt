-- ===== src/Worker/OverRedis.antt =====
-- src/TaskQueue/worker.py over src/TaskQueue/backends/redis_backend.py: the pool and its upkeep. A
-- call reaches the server or raises a ConnectionError.
use task_queue.Base.{
  ℕ, String, eq_refl, ◌≡◌, refl, Bool, true, false, some, [], ◌⊎◌, inl, inr, arith,
}
use task_queue.Base.Dict.{lookup-insert}
use task_queue.Python.{foreign, Result, ok, err}
use task_queue.Redis.Keys.{workers_key}
use task_queue.Redis.Interface.{Redis}
use task_queue.Redis.Effects.{heartbeat-view}
use task_queue.Redis.Reap.{beat}
use task_queue.Redis.Backend.{Config, release, heartbeat, deregister, reap}
use task_queue.Worker.Pool.{Pool, enter, start_loops}

-- A call that a lost connection may keep from the server.
abbrev pub call {ℓ} : {S : Type 0} {A : Type ℓ} → Bool → (S → S × A) → S → S × Result A
call true f s = let (s', a) = f s in (s', ok a)
call false f s = (s, err (foreign "ConnectionError"))

module _ (redis : Redis) (self : Config) where
  open redis use {Db, view}

  abbrev me : String
  me = self.instance_id

  abbrev pub beat_call : Bool → Db → Db × Result (Unit {0})
  beat_call reached = call reached (λ db. (heartbeat redis self db, tt))

  abbrev pub deregister_call : Bool → Db → Db × Result (Unit {0})
  deregister_call reached = call reached (λ db. (deregister redis self db, tt))

  abbrev pub reap_call : Bool → Db → Db × Result ℕ
  reap_call reached = call reached (λ db. reap redis self db)

  beaten : (db : Db) → beat me (view (heartbeat redis self db)) ≡ some (view db).clock
  beaten db = ground (
    arith,
    heartbeat-view redis self db,
    lookup-insert me me (view db).clock ((view db).zset workers_key),
    eq_refl me,
  )

  -- A pool has a loop only once its worker is in the liveness set: entering a fresh pool either leaves
  -- it without loops, with the beat's exception, or with the server's time as its worker's last beat.
  pub enter_registers :
      (reached : Bool) (p : Pool) (db : Db)
      → p.entered ≡ false
      → p.workers ≡ []
      → let (db', p', res) =
          enter
            (beat_call reached)
            (deregister_call reached)
            (λ id db. release redis self id db)
            p
            db in
        ((p'.workers ≡ []) × (res ≡ err (foreign "ConnectionError")))
        ⊎ ((beat me (view db') ≡ some (view db).clock)
            × (p'.workers ≡ start_loops p.concurrency)
            × (res ≡ ok tt))
  unfolding enter
  enter_registers false p db fresh idle = inl (rw fresh idle, rw fresh refl)
  enter_registers true p db fresh idle = inr (rw fresh (beaten db), rw fresh refl, rw fresh refl)
