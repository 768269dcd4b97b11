-- ===== src/Redis/Fleet/Kept.antt =====
-- src/TaskQueue/backends/redis_backend.py: which changes of a view keep the jobs held and the workers
-- that hold leases registered.
use task_queue.Base.{
  String, eq_iff, eq_refl, text_cases, ◌≡◌, ◌≢◌, refl, sym, ◌∙◌, true, false, Option, none, some,
  List, [], ◌∷◌, inl, inr, arith, Option-cases, length, ltb,
}
use task_queue.Python.{str, Value, Record}
use task_queue.Redis.Keys.{queue_key, job_key, processing_key}
use task_queue.Redis.View.{View, Hash, or_no_fields}
use task_queue.Redis.Effect
use task_queue.Redis.Scripts.{holds_terminal}
use task_queue.Redis.Effects.{is_present}
use task_queue.Redis.Reap.{leases}
use task_queue.Redis.Fleet.{pending_hash, is_pending, Held, NoneLost}
use task_queue.Redis.Fleet.Leases.{
  Held-rpush, Held-lrem, last_of, write_fields-last, jobs_differ, processing_differ,
  queue_processing,
}
use task_queue.Redis.Fleet.Steps.{Safe, Later}

-- Lists that do not change keep the held ids.
pub Held-lists : (j : String) (v v' : View) → v'.list ≡ v.list → Held j v → Held j v'
Held-lists j v v' e (inl queued) = inl (rw e queued)
Held-lists j v v' e (inr (w, held)) = inr (w, rw e held)

-- Writing to one job's hash leaves the others pending or not.
pub pending_other :
    (id j : String) (ps : Record) (v : View)
    → id ≢ j
    → is_pending j (Effect.hset (job_key id) ps v) ≡ is_pending j v
pending_other id j ps v differ = ground (arith, jobs_differ id j differ)

-- An id that is requeued is held, and the others stay so.
pub requeue-NoneLost :
    (own id : String) (v v' : View)
    → v'.list ≡ v.list
    → ((j : String) → id ≢ j → is_pending j v' ≡ is_pending j v)
    → NoneLost v
    → NoneLost (Effect.rpush queue_key id (Effect.lrem (processing_key own) id v'))
requeue-NoneLost own id v v' lists others safe j pending = elim (text_cases id j) [
  | inl (same, _) ↦ Held-rpush id j (Effect.lrem (processing_key own) id v') (inl same)
  | inr (differ, _) ↦ Held-rpush id j (Effect.lrem (processing_key own) id v') (
      inr (
        Held-lrem own id j v' differ
          (Held-lists j v v' lists (safe j (sym (others j differ) ∙ pending)))))
]

-- Dropping an id that is not pending any more.
pub drop-NoneLost :
    (own id : String) (v v' : View)
    → v'.list ≡ v.list
    → is_pending id v' ≡ false
    → ((j : String) → id ≢ j → is_pending j v' ≡ is_pending j v)
    → NoneLost v
    → NoneLost (Effect.lrem (processing_key own) id v')
drop-NoneLost own id v v' lists settled others safe j pending = elim (text_cases id j) [
  | inl (same, _) ↦ absurd (ground (arith, same))
  | inr (differ, _) ↦
      Held-lrem own id j v' differ
        (Held-lists j v v' lists (safe j (sym (others j differ) ∙ pending)))
]

-- The same jobs or fewer are pending, in the same lists.
pub same_lists-NoneLost :
    (v v' : View)
    → v'.list ≡ v.list
    → ((j : String) → is_pending j v' ≡ true → is_pending j v ≡ true)
    → NoneLost v
    → NoneLost v'
same_lists-NoneLost v v' lists fewer safe j pending =
    Held-lists j v v' lists (safe j (fewer j pending))

pub drop-empty :
    (own id w : String) (v : View)
    → leases w v ≡ []
    → leases w (Effect.lrem (processing_key own) id v) ≡ []
drop-empty own id w v e = ground (arith, eq_iff (processing_key own) (processing_key w))

pub queue_kept : (id w : String) (v : View) → leases w (Effect.rpush queue_key id v) ≡ leases w v
queue_kept id w v = ground (arith, queue_processing w)

pub missing-not_pending : (o : Option Hash) → is_present o ≡ false → pending_hash o ≡ false
missing-not_pending none h = refl
missing-not_pending (some x) h = cc

-- After a terminal write the job is not pending.
pub settled :
    (id : String) (r : Record) (v : View)
    → ((old : Option Value) → holds_terminal (last_of "status" r old) ≡ true)
    → is_pending id (Effect.hset (job_key id) r v) ≡ false
settled id r v terminal = ground (
  arith,
  eq_refl (job_key id),
  write_fields-last "status" r (or_no_fields (v.hash (job_key id))),
  terminal (or_no_fields (v.hash (job_key id)) "status"),
)

-- The cancel flag is not the status.
pub cancelled_pending :
    (id j : String) (v : View)
    → is_present (v.hash (job_key id)) ≡ true
    → is_pending j (Effect.hset (job_key id) (("request_cancel", str "1") ∷ []) v) ≡ true
    → is_pending j v ≡ true
cancelled_pending id j v known pending = elim (Option-cases (v.hash (job_key id))) [
  | inl missing ↦ absurd (ground arith)
  | inr (h, found) ↦ ground (arith, eq_iff (job_key id) (job_key j))
]

pub no_leases : (xs : List String) → ltb 0 (length xs) ≡ false → xs ≡ []
no_leases [] h = refl
no_leases (x ∷ xs) h = absurd (ground arith)

pub blmove-rest :
    (own : String) (v : View)
    → let v' = Effect.blmove queue_key (processing_key own) v in
      (v'.hash ≡ v.hash) × (v'.zset ≡ v.zset) × ((w : String) → own ≢ w → leases w v' ≡ leases w v)
blmove-rest own v = by_queue (v.list queue_key)
  where
    by_queue :
        (q : List String)
        → let v' = Effect.blmove_head queue_key (processing_key own) q v in
          (v'.hash ≡ v.hash)
          × (v'.zset ≡ v.zset)
          × ((w : String) → own ≢ w → leases w v' ≡ leases w v)
    by_queue [] = (refl, refl, λ w differ. refl)
    by_queue (y ∷ q) =
        (refl, refl, λ w differ. ground (arith, processing_differ own w differ, queue_processing w))

-- Steps that change no list and make no job pending.
pub still-Safe :
    {careful : String → Type 0} (v v' : View)
    → v'.list ≡ v.list
    → v'.zset ≡ v.zset
    → ((j : String) → is_pending j v' ≡ true → is_pending j v ≡ true)
    → Safe careful v
    → Safe careful v'
still-Safe v v' lists zset fewer safe = record {
  none_lost = same_lists-NoneLost v v' lists fewer safe.none_lost;
  registered = λ w cares gone. rw lists (safe.registered w cares (rw zset at gone));
}

pub Later-Safe :
    {careful : String → Type 0} (v v' : View) → Later v v' → Safe careful v → Safe careful v'
Later-Safe v v' later safe =
    still-Safe v v' later.list later.zset
      (λ j pending. elim (later.hash (job_key j)) [
        | inl same ↦ rw (← same) pending
        | inr gone ↦ absurd (ground arith)
      ])
      safe
