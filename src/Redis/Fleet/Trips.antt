-- ===== src/Redis/Fleet/Trips.antt =====
-- src/TaskQueue/backends/redis_backend.py, `claim`: its two trips to the server keep the jobs held and
-- the workers that hold leases registered.
use task_queue.Base.{
  String, text_cases, ◌≡◌, ◌≢◌, refl, sym, ◌∙◌, true, false, none, [], ◌∷◌, inl, inr, arith,
  Option-cases, Bool-cases,
}
use task_queue.Python.{str}
use task_queue.Redis.Keys.{queue_key, job_key, processing_key}
use task_queue.Redis.View.{field_of, incremented}
use task_queue.Redis.Interface.{Redis}
use task_queue.Redis.Scripts.{claim_script, claimed}
use task_queue.Redis.Reap.{beat}
use task_queue.Redis.Backend.{Config}
use task_queue.Redis.Fleet.{is_pending, Held}
use task_queue.Redis.Effects.{is_present}
use task_queue.Redis.Fleet.Leases.{Held-blmove, jobs_differ}
use task_queue.Redis.Fleet.Steps.{Safe}
use task_queue.Redis.Fleet.Kept.{Held-lists, blmove-rest}

module _ (careful : String → Type 0) (redis : Redis) (self : Config) where
  open redis use {Db, view, blmove}

  abbrev me : String
  me = self.instance_id

  -- The first trip of `claim`: the id goes from the queue to a worker that is registered.
  pub move-Safe :
      (db : Db)
      → (careful me → beat me (view db) ≢ none)
      → Safe careful (view db)
      → Safe careful (view (blmove queue_key (processing_key me) db).1)
  move-Safe db here safe =
      rw
        (redis.blmove-view queue_key (processing_key me) db redis.queue_kind
          (redis.processing_kind me)).1
        record {
          none_lost = λ j pending.
              Held-blmove me j (view db)
                (safe.none_lost j (rw (blmove-rest me (view db)).0 at pending));
          registered = λ w cares gone.
              let gone' = rw (blmove-rest me (view db)).1 at gone in
              elim (text_cases me w) [
                | inl (same, _) ↦ absurd (here (rw same cares) (rw same gone'))
                | inr (differ, _) ↦
                    (blmove-rest me (view db)).2 w differ ∙ safe.registered w cares gone'
              ];
        }

module _ (careful : String → Type 0) (redis : Redis) where
  open redis use {Db, view, hset, hincrby}

  incremented_rest :
      (id : String) (db : Db)
      → let db' = hset (job_key id) (("status", str "running") ∷ []) db in
        let v' = view (claimed redis (job_key id) db' (hincrby (job_key id) "attempts" db')).0 in
        (v'.list ≡ (view db).list)
        × (v'.zset ≡ (view db).zset)
        × ((j : String) → id ≢ j → is_pending j v' ≡ is_pending j (view db))
  incremented_rest id db =
      let db' = hset (job_key id) (("status", str "running") ∷ []) db in
      let key = redis.job_kind id in
      let effect = redis.hset-view (job_key id) (("status", str "running") ∷ []) db key in
      elim (Option-cases (incremented (field_of ((view db').hash (job_key id)) "attempts"))) [
        | inl bad ↦
            rw (redis.hincrby_error (job_key id) "attempts" db' key bad, effect)
              (refl, refl, λ j differ. ground (arith, jobs_differ id j differ))
        | inr (x, good) ↦
            let (db'', e, counted) = redis.hincrby-view (job_key id) "attempts" x db' key good in
            rw (e, counted, effect)
              (refl, refl, λ j differ. ground (arith, jobs_differ id j differ))
      ]

  -- The script of `claim` changes the job's own hash alone.
  marked :
      (id : String) (db : Db)
      → let v' = view (claim_script redis (job_key id) "running" db).0 in
        (v'.list ≡ (view db).list)
        × (v'.zset ≡ (view db).zset)
        × ((j : String) → id ≢ j → is_pending j v' ≡ is_pending j (view db))
  unfolding claim_script
  marked id db = elim (Bool-cases (redis.key_exists (job_key id) db)) [
    | inr missing ↦ rw missing (refl, refl, λ j differ. refl)
    | inl known ↦ rw known (incremented_rest id db)
  ]

  -- The second trip: a job that is marked is held, unless it is finished and in no list.
  pub mark-Safe :
      (id : String) (db : Db)
      → (is_present ((view db).hash (job_key id)) ≡ true
          → is_pending id (view db) ≡ false
          → Held id (view db))
      → Safe careful (view db)
      → Safe careful (view (claim_script redis (job_key id) "running" db).0)
  unfolding claim_script
  mark-Safe id db held safe = elim (Bool-cases (is_present ((view db).hash (job_key id)))) [
    | inr missing ↦
        let gone : redis.key_exists (job_key id) db ≡ false =
          ground (arith, redis.key_exists-view (job_key id) db (redis.job_kind id)) in
        rw gone safe
    | inl known ↦
        let v' = view (claim_script redis (job_key id) "running" db).0 in
        let (lists, zset, others) = marked id db in
        let here : Held id (view db) = elim (Bool-cases (is_pending id (view db))) [
          | inl pending ↦ safe.none_lost id pending
          | inr over ↦ held known over
        ] in
        record {
          none_lost = λ j pending. elim (text_cases id j) [
            | inl (same, _) ↦ Held-lists j (view db) v' lists (rw (← same) here)
            | inr (differ, _) ↦
                Held-lists j (view db) v' lists (safe.none_lost j (sym (others j differ) ∙ pending))
          ];
          registered = λ w cares gone. rw lists (safe.registered w cares (rw zset at gone));
        }
  ]
