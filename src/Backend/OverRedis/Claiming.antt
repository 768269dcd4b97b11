-- ===== src/Backend/OverRedis/Claiming.antt =====
-- src/TaskQueue/backends/redis_backend.py, `claim`, as src/TaskQueue/backends/interface.py describes it.
use task_queue.Base.{
  list_cases, String, eq_refl, eq_iff, ◌≡◌, ◌≢◌, sym, ◌∙◌, ap, true, false, Option, none, some, [],
  ◌∷◌, ◌⊎◌, arith, inl, inr, Option-cases, Bool-cases,
}
use task_queue.Python.{Result, ok, Value, str, Record}
use task_queue.Redis.Keys.{queue_key, job_key, processing_key}
use task_queue.Redis.View.{View, field_of, incremented}
use task_queue.Redis.Effect
use task_queue.Redis.Interface.{Redis, text_of}
use task_queue.Redis.Scripts.{claim_script, claimed}
use task_queue.Redis.Effects.{is_present}
use task_queue.Redis.Backend.{Config, claim, claim_popped, decode_pairs}
use task_queue.Base.Dict.{lookup}
use task_queue.Redis.Fleet.Leases.{jobs_differ}
use task_queue.Redis.Fleet.Kept.{blmove-rest}
use task_queue.Backend.{Claims, Tells}
use task_queue.Backend.OverRedis.Decoding.{decoded-Tells}
use task_queue.Backend.OverRedis.{redis_backend, redis_stored, AnyState}

some_not_none : (x : Value) → ◌≡◌ {A = Option Value} (some x) none → ⊥
some_not_none x e = cc

some_injective :
    (r r' : Record) → ◌≡◌ {A = Result (Option Record)} (ok (some r)) (ok (some r')) → r ≡ r'
some_injective r r' e = ground arith

module _ (redis : Redis) (self : Config) where
  open redis use {Db, view, hset, hincrby, hgetall, blmove, lrem}

  -- The script marked the job and counted the attempt.
  record Marked (id : String) (db db' : Db) : Type 0 where
    known : is_present (redis_stored redis self id db) ≡ true
    running : field_of (redis_stored redis self id db') "status" ≡ some (str "running")
    counted :
        incremented (field_of (redis_stored redis self id db) "attempts")
        ≡ field_of (redis_stored redis self id db') "attempts"
    kept :
        (k : String)
        → k ≢ "status"
        → k ≢ "attempts"
        → field_of (redis_stored redis self id db') k ≡ field_of (redis_stored redis self id db) k
    others : (j : String) → id ≢ j → redis_stored redis self j db' ≡ redis_stored redis self j db

  -- Writing one field leaves the others.
  untouched :
      (id f : String) (x : Value) (v : View) (k : String)
      → k ≢ f
      → field_of ((Effect.hset (job_key id) ((f, x) ∷ []) v).hash (job_key id)) k
        ≡ field_of (v.hash (job_key id)) k
  untouched id f x v k differ = elim (Option-cases (v.hash (job_key id))) [
    | inl missing ↦ ground (arith, eq_refl (job_key id), eq_iff f k)
    | inr (h, found) ↦ ground (arith, eq_refl (job_key id), eq_iff f k)
  ]

  attempts_left :
      (id : String) (db : Db)
      → incremented (
          field_of
            ((Effect.hset (job_key id) (("status", str "running") ∷ []) (view db)).hash
              (job_key id))
            "attempts")
        ≡ incremented (field_of (redis_stored redis self id db) "attempts")
  attempts_left id db = elim (Option-cases ((view db).hash (job_key id))) [
    | inl missing ↦
        ap incremented {y = field_of (redis_stored redis self id db) "attempts"}
          (ground (arith, eq_refl (job_key id)))
    | inr (h, found) ↦
        ap incremented {y = field_of (redis_stored redis self id db) "attempts"}
          (ground (arith, eq_refl (job_key id)))
  ]

  counts :
      (id : String) (db : Db)
      → is_present (redis_stored redis self id db) ≡ true
      → let db₁ = hset (job_key id) (("status", str "running") ∷ []) db in
        (hincrby (job_key id) "attempts" db₁ ≡ none)
        ⊎ ((db₂ : Db) × (hincrby (job_key id) "attempts" db₁ ≡ some db₂) × Marked id db db₂)
  counts id db known =
      let db₁ = hset (job_key id) (("status", str "running") ∷ []) db in
      let key = redis.job_kind id in
      let e₁ = redis.hset-view (job_key id) (("status", str "running") ∷ []) db key in
      elim (Option-cases (incremented (field_of ((view db₁).hash (job_key id)) "attempts"))) [
        | inl bad ↦ inl (redis.hincrby_error (job_key id) "attempts" db₁ key bad)
        | inr (x, good) ↦
            let (db₂, e, e₂) = redis.hincrby-view (job_key id) "attempts" x db₁ key good in
            let same = ap (λ v. v.hash) e₁ in
            let all = ap (λ v. v.hash) e₂ in
            inr (
              db₂,
              e,
              record {
                known = known;
                running =
                    ap (λ h. field_of (h (job_key id)) "status") all
                    ∙ ground (arith, eq_refl (job_key id), ap (λ h. h (job_key id)) same);
                counted =
                    sym (attempts_left id db)
                    ∙ sym (ap (λ h. incremented (field_of (h (job_key id)) "attempts")) same)
                    ∙ good
                    ∙ sym (
                        ap (λ h. field_of (h (job_key id)) "attempts") all
                        ∙ ground (arith, eq_refl (job_key id)));
                kept = λ k no_status no_attempts.
                    ap (λ h. field_of (h (job_key id)) k) all
                    ∙ untouched id "attempts" x (view db₁) k no_attempts
                    ∙ ap (λ h. field_of (h (job_key id)) k) same
                    ∙ untouched id "status" (str "running") (view db) k no_status;
                others = λ j differ.
                    ap (λ h. h (job_key j)) all
                    ∙ ground (arith, jobs_differ id j differ, ap (λ h. h (job_key j)) same);
              },
            )
      ]

  still_there :
      {id : String} {db db' : Db} → Marked id db db' → redis_stored redis self id db' ≡ none → ⊥
  still_there {id} {db} {db'} mark gone =
      some_not_none (str "running") (sym mark.running ∙ ap (λ o. field_of o "status") gone)

  -- How a claim over the database that BLMOVE left ends.
  abbrev Some : Db → Db × Result (Option Record) → Type 0
  Some db out =
      (r : Record)
      → out.1 ≡ ok (some r)
      → (id : String) × (is_present (redis_stored redis self id db) ≡ true)
        × (field_of (redis_stored redis self id out.0) "status" ≡ some (str "running"))
        × (incremented (field_of (redis_stored redis self id db) "attempts")
            ≡ field_of (redis_stored redis self id out.0) "attempts")
        × ((k : String)
            → k ≢ "status"
            → k ≢ "attempts"
            → field_of (redis_stored redis self id out.0) k
              ≡ field_of (redis_stored redis self id db) k)
        × Tells (redis_backend redis self) (redis_stored redis self) (AnyState redis self) r id
            out.0
        × ((j : String) → id ≢ j → redis_stored redis self j out.0 ≡ redis_stored redis self j db)

  abbrev Nothing : Db → Db × Result (Option Record) → Type 0
  Nothing db out =
      out.1 ≡ ok none
      → (id : String) → redis_stored redis self id out.0 ≡ redis_stored redis self id db

  popped :
      (v : Value) (db : Db)
      → let out = claim_popped redis self true true (some v, db) in Some db out × Nothing db out
  unfolding claim_script
  popped v db =
      let id = text_of redis.decode v in
      elim (Bool-cases (is_present (redis_stored redis self id db))) [
        | inr missing ↦
            let gone : redis.key_exists (job_key id) db ≡ false =
              ground (arith, redis.key_exists-view (job_key id) db (redis.job_kind id)) in
            rw gone (
              λ r e. absurd (ground (arith)),
              λ e j.
                  ap (λ v. v.hash (job_key j))
                    (redis.lrem-view (processing_key self.instance_id) id db
                      (redis.processing_kind self.instance_id)),
            )
        | inl known ↦
            let there : redis.key_exists (job_key id) db ≡ true =
              ground (arith, redis.key_exists-view (job_key id) db (redis.job_kind id)) in
            elim (counts id db known) [
              | inl failed ↦
                  rw (there, failed) (λ r e. absurd (ground arith), λ e j. absurd (ground arith))
              | inr (db₂, written, mark) ↦ elim (list_cases (hgetall (job_key id) db₂)) [
                | inl none_left ↦ absurd (
                    still_there mark
                      ((redis.hgetall-view (job_key id) db₂ (redis.job_kind id)).0 none_left))
                | inr (pair, raw, found) ↦
                    rw (there, written, claimed, found)
                      (
                        λ r e. (
                          id,
                          mark.known,
                          mark.running,
                          mark.counted,
                          mark.kept,
                          λ k is_in plain.
                              sym (
                                ap (lookup k)
                                  (some_injective (decode_pairs redis self (pair ∷ raw) []) r e))
                              ∙ decoded-Tells redis self id (pair ∷ raw) db₂ found k is_in plain,
                          mark.others,
                        ),
                        λ e j. absurd (ground arith),
                      )
              ]
            ]
      ]

  moved-Some :
      (db db₁ : Db) (out : Db × Result (Option Record))
      → (view db₁).hash ≡ (view db).hash
      → Some db₁ out
      → Some db out
  moved-Some db db₁ out same f r e =
      let (id, known, running, counted, kept, tells, others) = f r e in
      (
        id,
        ap (λ h. is_present (h (job_key id))) (sym same) ∙ known,
        running,
        ap (λ h. incremented (field_of (h (job_key id)) "attempts")) (sym same) ∙ counted,
        λ k no_status no_attempts.
            kept k no_status no_attempts ∙ ap (λ h. field_of (h (job_key id)) k) same,
        tells,
        λ j differ. others j differ ∙ ap (λ h. h (job_key j)) same,
      )

  by_move :
      (db : Db) (p : Option Value × Db)
      → (view p.1).hash ≡ (view db).hash
      → let out = claim_popped redis self true true p in Some db out × Nothing db out
  by_move db (none, db₁) same = (λ r e. absurd (ground arith), λ e j. ap (λ h. h (job_key j)) same)
  by_move db (some v, db₁) same =
      let (some_job, no_job) = popped v db₁ in
      (
        moved-Some db db₁ (claim_popped redis self true true (some v, db₁)) same some_job,
        λ e j. no_job e j ∙ ap (λ h. h (job_key j)) same,
      )

  claim_cases : (db : Db) → let out = claim redis self true true db in Some db out × Nothing db out
  unfolding claim
  claim_cases db =
      let own = processing_key self.instance_id in
      by_move db (blmove queue_key own db) (
        ap (λ v. v.hash)
          (redis.blmove-view queue_key own db redis.queue_kind
            (redis.processing_kind self.instance_id)).1
        ∙ (blmove-rest self.instance_id (view db)).0)

  pub redis_backend-Claims :
      Claims (redis_backend redis self) (redis_stored redis self) (AnyState redis self)
  redis_backend-Claims = record {
    claim_some = λ db db' r e. rw (← ap (λ p. p.0) e) ((claim_cases db).0 r (ap (λ p. p.1) e));
    claim_none = λ db db' e id. rw (← ap (λ p. p.0) e) ((claim_cases db).1 (ap (λ p. p.1) e) id);
  }
