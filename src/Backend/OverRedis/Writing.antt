-- ===== src/Backend/OverRedis/Writing.antt =====
-- src/TaskQueue/backends/redis_backend.py: what the writing methods promise in
-- src/TaskQueue/backends/interface.py.
use task_queue.Base.{
  String, eq_iff, eq_refl, ◌≡◌, ◌≢◌, refl, ◌∙◌, Bool, true, false, if◌then◌else◌, ◌==◌, ap, Option,
  none, some, [], ◌∷◌, arith,
}
use task_queue.Base.Dict.{lookup, insert}
use task_queue.Python.{key_error, ok, err, Value, str, Record}
use task_queue.Redis.Keys.{queue_key, job_key}
use task_queue.Redis.View.{Hash, field_of, write_fields, or_no_fields}
use task_queue.Redis.Effect
use task_queue.Redis.Interface.{Redis}
use task_queue.Redis.Scripts.{
  holds_text, holds_terminal, enqueue_script, release_script, request_cancel_script,
}
use task_queue.Redis.Effects.{
  is_present, written, requeued, cancelled, enqueue-view, save-view, save_missing, release-view,
  request_cancel-view,
}
use task_queue.Redis.Backend.{Config, enqueue, save, release, request_cancel, request_cancel_many}
use task_queue.Redis.Fleet.Leases.{last_of, write_fields-last, jobs_differ}
use task_queue.Backend.{is_dict, insert-is_dict, Writes}
use task_queue.Backend.OverRedis.{redis_backend, redis_stored, AnyState}

-- The value that a dict writes over an old one.
abbrev or_old : Option Value → Option Value → Option Value
or_old none old = old
or_old (some x) old = some x

last_of-lookup :
    (k : String) (r : Record) (old : Option Value)
    → is_dict r ≡ true
    → last_of k r old ≡ or_old (lookup k r) old
unfolding lookup
last_of-lookup k [] old dict = refl
last_of-lookup k ((f, x) ∷ r) old dict =
    ground (arith, eq_iff f k, last_of-lookup k r (if f == k then some x else old))

-- What a hash holds once a dict is written over it.
written_field :
    (k : String) (r : Record) (h : Hash)
    → is_dict r ≡ true
    → write_fields r h k ≡ or_old (lookup k r) (h k)
written_field k r h dict = write_fields-last k r h ∙ last_of-lookup k r (h k) dict

or_old-none : (o : Option Value) → or_old o none ≡ o
or_old-none none = refl
or_old-none (some x) = refl

same : (o : Option Hash) (k : String) → or_no_fields o k ≡ field_of o k
same none k = refl
same (some h) k = refl

module _ (redis : Redis) (self : Config) where
  open redis use {Db, view}

  abbrev KeepsOthers : String → Db → Db → Type 0
  KeepsOthers id db db' =
      (j : String) → id ≢ j → redis_stored redis self j db' ≡ redis_stored redis self j db

  -- The fields of one job are written, and nothing else is done to a record.
  abbrev Wrote : String → Record → Db → Db → Type 0
  Wrote id r db db' = (view db').hash ≡ (Effect.hset (job_key id) r (view db)).hash

  Wrote-fields :
      (id : String) (r : Record) (db db' : Db)
      → Wrote id r db db'
      → (k : String)
      → field_of (redis_stored redis self id db') k
        ≡ write_fields r (or_no_fields (redis_stored redis self id db)) k
  Wrote-fields id r db db' e k =
      ap (λ h. field_of (h (job_key id)) k) e ∙ ground (arith, eq_refl (job_key id))

  Wrote-others :
      (id : String) (r : Record) (db db' : Db) → Wrote id r db db' → KeepsOthers id db db'
  Wrote-others id r db db' e j differ =
      ap (λ h. h (job_key j)) e ∙ ground (arith, jobs_differ id j differ)

  or_left : {A : Type 0} (b : Bool) (x y : A) → b ≡ true → (if b then x else y) ≡ x
  or_left b x y h = ap (λ c. if c then x else y) h

  or_right : {A : Type 0} (b : Bool) (x y : A) → b ≡ false → (if b then x else y) ≡ y
  or_right b x y h = ap (λ c. if c then x else y) h

  enqueued :
      (id : String) (r : Record) (db : Db)
      → is_dict r ≡ true
      → redis_stored redis self id db ≡ none
      → let db' = enqueue redis self id r db in
        ((k : String)
          → field_of (redis_stored redis self id db') k
            ≡ lookup k (insert "status" (str "queued") r))
        × KeepsOthers id db db'
  enqueued id r db dict missing =
      let r' = insert "status" (str "queued") r in
      let db' = enqueue redis self id r db in
      let e : Wrote id r' db db' =
        ap (λ v. v.hash)
          (enqueue-view redis self id r db
            ∙ or_right (is_present (redis_stored redis self id db)) (view db)
                (Effect.rpush queue_key id (Effect.hset (job_key id) r' (view db)))
                (ap is_present missing)) in
      (
        λ k.
            Wrote-fields id r' db db' e k
            ∙ written_field k r' (or_no_fields (redis_stored redis self id db))
                (insert-is_dict "status" (str "queued") r dict)
            ∙ ap (λ o. or_old (lookup k r') (or_no_fields o k)) missing
            ∙ or_old-none (lookup k r'),
        Wrote-others id r' db db' e,
      )

  save-Wrote :
      (id : String) (r : Record) (done : Bool) (db : Db)
      → is_present (redis_stored redis self id db) ≡ true
      → Wrote id r db (save redis self id r done db).0
  save-Wrote id r true db known =
      ap (λ v. v.hash)
        ((save-view redis self id r true db).0
          ∙ or_left (is_present (redis_stored redis self id db))
              (written redis self id r true (view db)) (view db) known)
  save-Wrote id r false db known =
      ap (λ v. v.hash)
        ((save-view redis self id r false db).0
          ∙ or_left (is_present (redis_stored redis self id db))
              (written redis self id r false (view db)) (view db) known)

  saved :
      (id : String) (r : Record) (done : Bool) (db : Db)
      → is_dict r ≡ true
      → is_present (redis_stored redis self id db) ≡ true
      → let (db', res) = save redis self id r done db in
        (res ≡ ok tt)
        × ((k : String) (x : Value)
            → lookup k r ≡ some x
            → field_of (redis_stored redis self id db') k ≡ some x)
        × ((k : String)
            → lookup k r ≡ none
            → field_of (redis_stored redis self id db) k ≡ none
            → field_of (redis_stored redis self id db') k ≡ none)
        × KeepsOthers id db db'
  saved id r done db dict known =
      let db' = (save redis self id r done db).0 in
      let e = save-Wrote id r done db known in
      let says : (k : String)
          → field_of (redis_stored redis self id db') k
            ≡ or_old (lookup k r) (or_no_fields (redis_stored redis self id db) k) =
        λ k.
          Wrote-fields id r db db' e k
          ∙ written_field k r (or_no_fields (redis_stored redis self id db)) dict in
      (
        (save-view redis self id r done db).1
            ∙ or_left (is_present (redis_stored redis self id db)) (ok tt) (err key_error) known,
        λ k x found. says k ∙ rw found refl,
        λ k absent before.
            says k ∙ rw (absent, same (redis_stored redis self id db) k, before) refl,
        Wrote-others id r db db' e,
      )

  abbrev queued : Record
  queued = ("status", str "queued") ∷ []

  released :
      (id : String) (db : Db)
      → holds_text "running" (field_of (redis_stored redis self id db) "status") ≡ true
      → let (db', res) = release redis self id db in
        (res ≡ ok tt)
        × (field_of (redis_stored redis self id db') "status" ≡ some (str "queued"))
        × ((k : String)
            → k ≢ "status"
            → field_of (redis_stored redis self id db') k
              ≡ field_of (redis_stored redis self id db) k)
        × KeepsOthers id db db'
  released id db leased =
      let db' = (release redis self id db).0 in
      let (effect, total) = release-view redis self id db in
      let e : Wrote id queued db db' =
        ap (λ v. v.hash)
          (effect
            ∙ or_left (holds_text "running" (field_of (redis_stored redis self id db) "status"))
                (requeued redis self id (view db)) (view db) leased) in
      (
        total
            ∙ or_left (is_present (redis_stored redis self id db)) (ok tt) (err key_error)
                (ground arith),
        Wrote-fields id queued db db' e "status",
        λ k differ.
            Wrote-fields id queued db db' e k
            ∙ ground (arith, eq_iff "status" k)
            ∙ same (redis_stored redis self id db) k,
        Wrote-others id queued db db' e,
      )

  abbrev flag : Record
  flag = ("request_cancel", str "1") ∷ []

  flagged :
      (id : String) (db : Db)
      → is_present (redis_stored redis self id db) ≡ true
      → holds_terminal (field_of (redis_stored redis self id db) "status") ≡ false
      → let db' = request_cancel redis self id db in
        (field_of (redis_stored redis self id db') "request_cancel" ≡ some (str "1"))
        × ((k : String)
            → k ≢ "request_cancel"
            → field_of (redis_stored redis self id db') k
              ≡ field_of (redis_stored redis self id db) k)
        × KeepsOthers id db db'
  flagged id db known live =
      let db' = request_cancel redis self id db in
      let v = view db in
      let over = holds_terminal (field_of (redis_stored redis self id db) "status") in
      let e : Wrote id flag db db' =
        ap (λ v. v.hash)
          (request_cancel-view redis self id db
            ∙ or_left (is_present (redis_stored redis self id db))
                (if over then v else cancelled redis self id v) v known
            ∙ or_right over v (cancelled redis self id v) live) in
      (
        Wrote-fields id flag db db' e "request_cancel",
        λ k differ.
            Wrote-fields id flag db db' e k
            ∙ ground (arith, eq_iff "request_cancel" k)
            ∙ same (redis_stored redis self id db) k,
        Wrote-others id flag db db' e,
      )

  pub redis_backend-Writes :
      Writes (redis_backend redis self) (redis_stored redis self) (AnyState redis self)
  unfolding enqueue enqueue_script release release_script request_cancel request_cancel_script
      request_cancel_many
  redis_backend-Writes = record {
    enqueue_new = enqueued;
    enqueue_known =
        λ id r db known. ground (arith, redis.key_exists-view (job_key id) db (redis.job_kind id));
    save_unknown = save_missing redis self;
    save_known = saved;
    release_unknown =
        λ id db missing. ground (arith, redis.key_exists-view (job_key id) db (redis.job_kind id));
    release_leased = released;
    release_idle = λ id db good known idle. ground (
      arith,
      redis.key_exists-view (job_key id) db (redis.job_kind id),
      redis.hget-view (job_key id) "status" db (redis.job_kind id),
    );
    cancel_over = λ id db good over. ground (
      arith,
      redis.key_exists-view (job_key id) db (redis.job_kind id),
      redis.hget-view (job_key id) "status" db (redis.job_kind id),
    );
    cancel_live = λ id db good known live.
        let (flag, status, others) = flagged id db known live in (refl, flag, status, others);
    cancel_many_none = λ db. refl;
    cancel_many_one = λ id ids db raised. refl;
  }
