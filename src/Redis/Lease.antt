-- ===== src/Redis/Lease.antt =====
-- src/TaskQueue/backends/redis_backend.py, `claim`: the two-step lease. Between BLMOVE and the script
-- the id stands in this worker's processing list, where a reaper finds it.
use task_queue.Base.{
  count, member, count-append_one, count-remove_one, member-append_one, ℕ, ◌+◌, String, ◌==◌,
  eq_iff, eq_refl, ne-eq_false, ◌≡◌, refl, ◌≢◌, ◌∙◌, sym, ap, Bool, true, false, Option, none, some,
  List, [], ◌∷◌, arith, inl, inr, Option-cases, if◌then◌else◌,
}
use task_queue.Python.{Result, ok, err, Value, str}
use task_queue.Redis.Keys.{queue_key, job_key, processing_key, processing_key-ne-queue}
use task_queue.Redis.View.{View, field_of, incremented, head?}
use task_queue.Redis.Effect
use task_queue.Redis.Interface.{Redis, text_of, replied_text}
use task_queue.Redis.Scripts.{claim_script, claimed}
use task_queue.Redis.Effects.{is_present}
use task_queue.Redis.Backend.{Config, claim, claim_popped, call_claim, read_claim, give_back}

module _ (redis : Redis) (self : Config) where
  open redis use {Db, view, hset, hincrby, blmove, hgetall, lrem, rpush}

  abbrev pub own : String
  own = processing_key self.instance_id

  -- How often an id is on its way: in the queue, or in this worker's processing list.
  abbrev pub deliveries : String → View → ℕ
  deliveries id v = count id (v.list queue_key) + count id (v.list own)

  queue_own : (queue_key == own) ≡ false
  queue_own = ne-eq_false queue_key own (λ e. processing_key-ne-queue self.instance_id (sym e))

  own_queue : (own == queue_key) ≡ false
  own_queue = ne-eq_false own queue_key (processing_key-ne-queue self.instance_id)

  -- The script touches no list, and no key comes or goes by it.
  claimed-lists :
      (id : String) (db : Db)
      → let db' = hset (job_key id) (("status", str "running") ∷ []) db in
        let v' = view (claimed redis (job_key id) db' (hincrby (job_key id) "attempts" db')).0 in
        (v'.list ≡ (view db).list) × (is_present (v'.hash (job_key id)) ≡ true)
  claimed-lists id db =
      let db' = hset (job_key id) (("status", str "running") ∷ []) db in
      let marked =
        redis.hset-view (job_key id) (("status", str "running") ∷ []) db (redis.job_kind id) in
      elim (Option-cases (incremented (field_of ((view db').hash (job_key id)) "attempts"))) [
        | inl bad ↦
            rw (redis.hincrby_error (job_key id) "attempts" db' (redis.job_kind id) bad, marked)
              (refl, ground (arith, eq_refl (job_key id)))
        | inr (v, good) ↦
            let (db'', e, effect) =
              redis.hincrby-view (job_key id) "attempts" v db' (redis.job_kind id) good in
            rw (e, effect, marked) (refl, ground (arith, eq_refl (job_key id)))
      ]

  pub claim_script-lists :
      (id : String) (db : Db)
      → let v' = view (claim_script redis (job_key id) "running" db).0 in
        (v'.list ≡ (view db).list)
        × (is_present (v'.hash (job_key id)) ≡ is_present ((view db).hash (job_key id)))
  unfolding claim_script
  claim_script-lists id db =
      let known = redis.key_exists-view (job_key id) db (redis.job_kind id) in
      let (lists, present) = claimed-lists id db in
      elim (Option-cases ((view db).hash (job_key id))) [
        | inl missing ↦ ground (arith, known)
        | inr (h, found) ↦ (ground (arith, known, lists), ground (arith, known, present))
      ]

  -- A known job is never reported missing.
  claim_script-found :
      (id : String) (db : Db)
      → is_present ((view db).hash (job_key id)) ≡ true
      → let reply = (claim_script redis (job_key id) "running" db).1 in
        (reply ≢ ok none) × (reply ≢ ok (some []))
  unfolding claim_script
  claim_script-found id db here =
      let known = redis.key_exists-view (job_key id) db (redis.job_kind id) in
      let db' = hset (job_key id) (("status", str "running") ∷ []) db in
      let (_, present) = claimed-lists id db in
      elim (Option-cases (hincrby (job_key id) "attempts" db')) [
        | inl bad ↦ (λ e. ground (arith, known), λ e. ground (arith, known))
        | inr (db'', good) ↦
            let reply = redis.hgetall-view (job_key id) db'' (redis.job_kind id) in
            (λ e. ground (arith, known), λ e. ground (arith, known, reply.0, present))
      ]

  -- Dropping the first `x` from this worker's list.
  lrem-deliveries :
      (id x : String) (db : Db)
      → member x ((view db).list own) ≡ true
      → deliveries id (view db) ≡ deliveries id (view (lrem own x db)) + (if x == id then 1 else 0)
  lrem-deliveries id x db h =
      rw (redis.lrem-view own x db (redis.processing_kind self.instance_id))
        (ground (arith, own_queue, eq_refl own, count-remove_one id x ((view db).list own)))

  give_back-deliveries :
      (cleanup : Bool) (id x : String) (db : Db)
      → member x ((view db).list own) ≡ true
      → deliveries id (view (give_back redis self cleanup x db)) ≡ deliveries id (view db)
  give_back-deliveries false id x db h = refl
  give_back-deliveries true id x db h =
      rw (redis.rpush-view queue_key x (lrem own x db) redis.queue_kind) (
        ground (
          arith,
          queue_own,
          lrem-deliveries id x db h,
          count-append_one id x ((view (lrem own x db)).list queue_key),
        ))

  read_claim-deliveries :
      (cleanup : Bool) (id x : String) (p : Db × Result (Option (List (Value × Value))))
      → member x ((view p.0).list own) ≡ true
      → (x ≡ id → (p.1 ≢ ok none) × (p.1 ≢ ok (some [])))
      → deliveries id (view (read_claim redis self cleanup x p).0) ≡ deliveries id (view p.0)
  read_claim-deliveries cleanup id x (db, err e) held found =
      give_back-deliveries cleanup id x db held
  read_claim-deliveries cleanup id x (db, ok none) held found =
      ground (arith, eq_iff x id, lrem-deliveries id x db held, found)
  read_claim-deliveries cleanup id x (db, ok (some [])) held found =
      ground (arith, eq_iff x id, lrem-deliveries id x db held, found)
  read_claim-deliveries cleanup id x (db, ok (some (pair ∷ raw))) held found = refl

  call_claim-lists :
      (reached : Bool) (id : String) (db : Db)
      → (view (call_claim redis self reached id db).0).list ≡ (view db).list
  call_claim-lists true id db = (claim_script-lists id db).0
  call_claim-lists false id db = refl

  call_claim-found :
      (reached : Bool) (id : String) (db : Db)
      → is_present ((view db).hash (job_key id)) ≡ true
      → let reply = (call_claim redis self reached id db).1 in
        (reply ≢ ok none) × (reply ≢ ok (some []))
  call_claim-found true id db here = claim_script-found id db here
  call_claim-found false id db here = (λ e. cc, λ e. cc)

  -- BLMOVE hands the head of the queue over to this worker's list, in one step.
  blmove-deliveries :
      (id : String) (db : Db)
      → let (popped, db') = blmove queue_key own db in
        (deliveries id (view db') ≡ deliveries id (view db))
        × ((x : Value)
            → popped ≡ some x
            → member (text_of redis.decode x) ((view db').list own) ≡ true)
        × ((view db').hash ≡ (view db).hash)
  blmove-deliveries id db = by_queue ((view db).list queue_key) refl
    where
      moved :
          ((blmove queue_key own db).0
            ≡ replied_text redis.reply (head? ((view db).list queue_key)))
          × (view (blmove queue_key own db).1 ≡ Effect.blmove queue_key own (view db))
      moved =
          redis.blmove-view queue_key own db redis.queue_kind
            (redis.processing_kind self.instance_id)

      by_queue :
          (q : List String)
          → (view db).list queue_key ≡ q
          → let (popped, db') = blmove queue_key own db in
            (deliveries id (view db') ≡ deliveries id (view db))
            × ((x : Value)
                → popped ≡ some x
                → member (text_of redis.decode x) ((view db').list own) ≡ true)
            × ((view db').hash ≡ (view db).hash)
      by_queue [] e = (ground (arith, moved), λ x h. ground (arith, moved), ground (arith, moved))
      by_queue (y ∷ q) e = (
        ground (
          arith,
          moved,
          queue_own,
          own_queue,
          eq_refl own,
          count-append_one id y ((view db).list own),
        ),
        λ x h. ground (
          arith,
          moved,
          queue_own,
          own_queue,
          eq_refl own,
          eq_refl y,
          redis.reply_text y,
          member-append_one y y ((view db).list own),
        ),
        ground (arith, moved),
      )

  claim_popped-deliveries :
      (reached cleanup : Bool) (id : String) (popped : Option Value) (db : Db)
      → is_present ((view db).hash (job_key id)) ≡ true
      → ((x : Value)
          → popped ≡ some x
          → member (text_of redis.decode x) ((view db).list own) ≡ true)
      → deliveries id (view (claim_popped redis self reached cleanup (popped, db)).0)
        ≡ deliveries id (view db)
  claim_popped-deliveries reached cleanup id none db here held = refl
  claim_popped-deliveries reached cleanup id (some v) db here held =
      let x = text_of redis.decode v in
      let lists = call_claim-lists reached x db in
      read_claim-deliveries cleanup id x (call_claim redis self reached x db)
        (rw lists (held v refl)) (λ same. call_claim-found reached x db (rw same here))
      ∙ ap (λ (l : String → List String). count id (l queue_key) + count id (l own)) lists

  -- No claim loses a job: as long as the job has a record, however often it stands in the queue and in
  -- this worker's processing list together is not changed by `claim`, whether the queue is empty or
  -- not, whether the script call reaches the server, whether the script fails, and whether the
  -- handler's pipeline that gives the id back gets through.
  pub claim_keeps_deliveries :
      (reached cleanup : Bool) (id : String) (db : Db)
      → is_present ((view db).hash (job_key id)) ≡ true
      → deliveries id (view (claim redis self reached cleanup db).0) ≡ deliveries id (view db)
  unfolding claim
  claim_keeps_deliveries reached cleanup id db here =
      let (kept, held, hash) = blmove-deliveries id db in
      claim_popped-deliveries reached cleanup id (blmove queue_key own db).0
        (blmove queue_key own db).1 (rw hash here) held
      ∙ kept
