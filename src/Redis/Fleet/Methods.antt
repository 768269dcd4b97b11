-- ===== src/Redis/Fleet/Methods.antt =====
-- src/TaskQueue/backends/redis_backend.py: each method but `claim` and `reap` keeps the jobs held and
-- the workers that hold leases registered.
use task_queue.Base.{
  String, eq_iff, text_cases, ◌≡◌, ◌≢◌, refl, sym, ◌∙◌, true, false, Option, [], ◌∷◌, inl, inr,
  arith, Bool-cases, length, ltb,
}
use task_queue.Base.Dict.{insert, lookup-insert, lookup-erase}
use task_queue.Python.{str, Value, Record}
use task_queue.Redis.Keys.{queue_key, workers_key, job_key, processing_key}
use task_queue.Redis.View.{View, field_of}
use task_queue.Redis.Effect
use task_queue.Redis.Interface.{Redis}
use task_queue.Redis.Scripts.{holds_text, holds_terminal}
use task_queue.Redis.Effects.{
  is_present, cancelled, enqueue-view, save-view, release-view, request_cancel-view, heartbeat-view,
  deregister-view,
}
use task_queue.Redis.Reap.{leases}
use task_queue.Redis.Backend.{
  Config, enqueue, give_back, save, release, take_record, request_cancel, heartbeat, deregister,
}
use task_queue.Redis.Fleet.{is_pending}
use task_queue.Redis.Fleet.Leases.{Held-rpush, last_of}
use task_queue.Redis.Fleet.Steps.{Safe}
use task_queue.Redis.Fleet.Kept.{
  still-Safe, Held-lists, pending_other, requeue-NoneLost, drop-NoneLost, same_lists-NoneLost,
  drop-empty, queue_kept, missing-not_pending, settled, cancelled_pending, no_leases,
}

module _ (careful : String → Type 0) (redis : Redis) (self : Config) where
  open redis use {Db, view, hset, hincrby, blmove, lrem}

  abbrev me : String
  me = self.instance_id

  pub enqueue-Safe :
      (id : String) (r : Record) (db : Db)
      → Safe careful (view db)
      → Safe careful (view (enqueue redis self id r db))
  enqueue-Safe id r db safe = elim (Bool-cases (is_present ((view db).hash (job_key id)))) [
    | inl known ↦ rw (enqueue-view redis self id r db, known) safe
    | inr new ↦
        let r' = insert "status" (str "queued") r in
        let v' = Effect.hset (job_key id) r' (view db) in
        rw (enqueue-view redis self id r db, new)
          record {
            none_lost = λ j pending. elim (text_cases id j) [
              | inl (same, _) ↦ Held-rpush id j v' (inl same)
              | inr (differ, _) ↦ Held-rpush id j v' (
                  inr (
                    Held-lists j (view db) v' refl
                      (safe.none_lost j (sym (pending_other id j r' (view db) differ) ∙ pending))))
            ];
            registered = λ w cares gone. queue_kept id w v' ∙ safe.registered w cares gone;
          }
  ]

  -- A requeue by this worker.
  requeued-Safe :
      (id : String) (v v' : View)
      → v'.list ≡ v.list
      → v'.zset ≡ v.zset
      → ((j : String) → id ≢ j → is_pending j v' ≡ is_pending j v)
      → Safe careful v
      → Safe careful (Effect.rpush queue_key id (Effect.lrem (processing_key me) id v'))
  requeued-Safe id v v' lists zset others safe = record {
    none_lost = requeue-NoneLost me id v v' lists others safe.none_lost;
    registered = λ w cares gone.
        queue_kept id w (Effect.lrem (processing_key me) id v')
        ∙ drop-empty me id w v' (rw lists (safe.registered w cares (rw zset at gone)));
  }

  pub give_back-Safe :
      (id : String) (db : Db)
      → Safe careful (view db)
      → Safe careful (view (give_back redis self true id db))
  give_back-Safe id db safe =
      rw
        (
          redis.rpush-view queue_key id (lrem (processing_key me) id db) redis.queue_kind,
          redis.lrem-view (processing_key me) id db (redis.processing_kind me),
        )
        (requeued-Safe id (view db) (view db) refl refl (λ j differ. refl) safe)

  pub release-Safe :
      (id : String) (db : Db)
      → Safe careful (view db)
      → Safe careful (view (release redis self id db).0)
  release-Safe id db safe =
      let h = (view db).hash (job_key id) in
      elim (Bool-cases (holds_text "running" (field_of h "status"))) [
        | inr idle ↦ rw ((release-view redis self id db).0, idle) safe
        | inl busy ↦
            let v' = Effect.hset (job_key id) (("status", str "queued") ∷ []) (view db) in
            rw ((release-view redis self id db).0, busy)
              (requeued-Safe id (view db) v' refl refl
                (λ j differ. pending_other id j (("status", str "queued") ∷ []) (view db) differ)
                safe)
      ]

  -- A drop of an id that is not pending.
  dropped-Safe :
      (id : String) (v v' : View)
      → v'.list ≡ v.list
      → v'.zset ≡ v.zset
      → is_pending id v' ≡ false
      → ((j : String) → id ≢ j → is_pending j v' ≡ is_pending j v)
      → Safe careful v
      → Safe careful (Effect.lrem (processing_key me) id v')
  dropped-Safe id v v' lists zset settled others safe = record {
    none_lost = drop-NoneLost me id v v' lists settled others safe.none_lost;
    registered = λ w cares gone.
        drop-empty me id w v' (rw lists (safe.registered w cares (rw zset at gone)));
  }

  pub discard-Safe :
      (id : String) (db : Db)
      → is_present ((view db).hash (job_key id)) ≡ false
      → Safe careful (view db)
      → Safe careful (view (lrem (processing_key me) id db))
  discard-Safe id db missing safe =
      rw (redis.lrem-view (processing_key me) id db (redis.processing_kind me)) (
        dropped-Safe id (view db) (view db) refl refl
          (missing-not_pending ((view db).hash (job_key id)) missing) (λ j differ. refl) safe)

  pub save-Safe :
      (id : String) (r : Record) (db : Db)
      → ((old : Option Value) → holds_terminal (last_of "status" r old) ≡ true)
      → Safe careful (view db)
      → Safe careful (view (save redis self id r true db).0)
  save-Safe id r db terminal safe = elim (Bool-cases (is_present ((view db).hash (job_key id)))) [
    | inr missing ↦ rw ((save-view redis self id r true db).0, missing) safe
    | inl known ↦
        let v' = Effect.hset (job_key id) r (view db) in
        let dropped =
          dropped-Safe id (view db) v' refl refl (settled id r (view db) terminal)
            (λ j differ. pending_other id j r (view db) differ) safe in
        rw ((save-view redis self id r true db).0, known)
          record { none_lost = dropped.none_lost; registered = dropped.registered }
  ]

  pub request_cancel-Safe :
      (id : String) (db : Db)
      → Safe careful (view db)
      → Safe careful (view (request_cancel redis self id db))
  request_cancel-Safe id db safe = elim (Bool-cases (is_present ((view db).hash (job_key id)))) [
    | inr missing ↦ rw (request_cancel-view redis self id db, missing) safe
    | inl known ↦
        elim (Bool-cases (holds_terminal (field_of ((view db).hash (job_key id)) "status"))) [
          | inl over ↦ rw (request_cancel-view redis self id db, known, over) safe
          | inr live ↦
              rw (request_cancel-view redis self id db, known, live)
                (still-Safe (view db) (cancelled redis self id (view db)) refl refl
                  (λ j pending. cancelled_pending id j (view db) known pending) safe)
        ]
  ]

  pub take_record-Safe :
      (id : String) (db : Db)
      → Safe careful (view db)
      → Safe careful (view (take_record redis self id db).0)
  unfolding take_record
  take_record-Safe id db safe = rw (redis.delete-view (job_key id) db (redis.job_kind id)) (
      still-Safe (view db) (Effect.delete (job_key id) (view db)) refl refl
        (λ j pending. ground (arith, eq_iff (job_key id) (job_key j))) safe)

  pub heartbeat-Safe :
      (db : Db) → Safe careful (view db) → Safe careful (view (heartbeat redis self db))
  heartbeat-Safe db safe = rw (heartbeat-view redis self db) record {
    none_lost =
        same_lists-NoneLost (view db) (Effect.zadd workers_key (view db).clock me (view db)) refl
          (λ j pending. pending) safe.none_lost;
    registered = λ w cares gone.
        safe.registered w cares
          (ground (arith, lookup-insert me w (view db).clock ((view db).zset workers_key)));
  }

  pub deregister-Safe :
      (db : Db) → Safe careful (view db) → Safe careful (view (deregister redis self db))
  deregister-Safe db safe = elim (Bool-cases (ltb 0 (length (leases me (view db))))) [
    | inl busy ↦ rw (deregister-view redis self db, busy) safe
    | inr free ↦
        rw (deregister-view redis self db, free)
          record {
            none_lost =
                same_lists-NoneLost (view db) (Effect.zrem workers_key me (view db)) refl
                  (λ j pending. pending) safe.none_lost;
            registered = λ w cares gone. elim (text_cases me w) [
              | inl (same, _) ↦ rw (← same) (no_leases (leases me (view db)) free)
              | inr (differ, other) ↦
                  safe.registered w cares
                    (ground (arith, lookup-erase me w ((view db).zset workers_key)))
            ];
          }
  ]
