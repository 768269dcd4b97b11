-- ===== src/Redis/Reclaim.antt =====
-- src/TaskQueue/backends/redis_backend.py, `_REAPER_SCRIPT`: what reclaiming the ids of one list makes of
-- a database, and one round of the loop over it.
use task_queue.Base.{
  suc, ◌+◌, String, eq_iff, eq_refl, ne-eq_false, text_cases, ◌≡◌, refl, ◌≢◌, ◌∙◌, sym, ap, true,
  Option, some, List, [], ◌∷◌, ◌++◌, arith, inl, inr, Bool-cases, if◌then◌else◌, length, ◌⊎◌,
}
use mathlib.Core.List.{append-nil, append_assoc}
use task_queue.Python.{Value, str}
use task_queue.Redis.Keys.{queue_key, job_key}
use task_queue.Redis.View.{View, field_of}
use task_queue.Redis.Effect
use task_queue.Redis.Interface.{Redis}
use task_queue.Redis.Scripts.{holds_text, Reaping, reap_job}
use task_queue.Redis.Effects.{is_present}

-- The ids of a list whose jobs still have a record.
abbrev pub present_ids : View → List String → List String
present_ids v [] = []
present_ids v (id ∷ ids) =
    let rest = present_ids v ids in if is_present (v.hash (job_key id)) then id ∷ rest else rest

-- What the reclaim of the list `ids` at the key `p` has made of a view, and the two counts. A record
-- stays in place, and its status is the old one, or QUEUED where it was RUNNING.
abbrev pub status_at : String → View → Option Value
status_at key v = field_of (v.hash key) "status"

pub record Reclaims (p : String) (ids : List String) (v v' : View) : Type 0 where
  pub emptied : v'.list p ≡ []
  pub others : (k : String) → k ≢ p → k ≢ queue_key → v'.list k ≡ v.list k
  pub requeued : v'.list queue_key ≡ v.list queue_key ++ present_ids v ids
  pub zset : v'.zset ≡ v.zset
  pub clock : v'.clock ≡ v.clock
  pub present : (k : String) → is_present (v'.hash k) ≡ is_present (v.hash k)
  pub status :
      (k : String)
      → (status_at k v' ≡ status_at k v)
        ⊎ ((holds_text "running" (status_at k v) ≡ true) × (status_at k v' ≡ some (str "queued")))

-- Presence is all that the list of ids depends on.
pub present_ids_ext :
    (v v' : View) (ids : List String)
    → ((k : String) → is_present (v'.hash k) ≡ is_present (v.hash k))
    → present_ids v' ids ≡ present_ids v ids
present_ids_ext v v' [] h = refl
present_ids_ext v v' (id ∷ ids) h = ground (arith, h (job_key id), present_ids_ext v v' ids h)

module _ (redis : Redis) where
  open redis use {Db, view, hset, rpush, lpop, hget, key_exists}

  abbrev requeue : String → View → View
  requeue id v =
      if holds_text "running" (status_at (job_key id) v)
      then Effect.hset (job_key id) (("status", str "queued") ∷ []) v
      else v

  pub reap_job-view :
      (id : String) (s : Reaping Db)
      → let v = view s.db in
        let s' = reap_job redis queue_key "queued" "running" id s in
        (view s'.db ≡ (
          if is_present (v.hash (job_key id)) then Effect.rpush queue_key id (requeue id v) else v))
        × (s'.reclaimed + s'.dropped ≡ suc (s.reclaimed + s.dropped))
        × (s'.reclaimed ≡ s.reclaimed + length (present_ids v (id ∷ [])))
  unfolding reap_job
  reap_job-view id s =
      let db₁ = hset (job_key id) (("status", str "queued") ∷ []) s.db in
      ground (
        arith,
        redis.key_exists-view (job_key id) s.db (redis.job_kind id),
        redis.hget-view (job_key id) "status" s.db (redis.job_kind id),
        redis.rpush-view queue_key id s.db redis.queue_kind,
        redis.rpush-view queue_key id db₁ redis.queue_kind,
        redis.hset-view (job_key id) (("status", str "queued") ∷ []) s.db (redis.job_kind id),
      )

-- One round of the inner loop on a view: the head `id` of the list at `p` is popped and dealt with.
abbrev pub reap_round : String → String → View → View
reap_round p id v =
    let v₁ = Effect.lpop p v in
    if is_present (v₁.hash (job_key id))
    then Effect.rpush queue_key id (
        if holds_text "running" (status_at (job_key id) v₁)
        then Effect.hset (job_key id) (("status", str "queued") ∷ []) v₁
        else v₁)
    else v₁

module _ (p id : String) (ids : List String) (v : View) (ne : p ≢ queue_key)
    (e : v.list p ≡ id ∷ ids) where
  pub round_list : (reap_round p id v).list p ≡ ids
  round_list = ground (arith, eq_refl p, ne-eq_false queue_key p (λ h. ne (sym h)))

  round_others : (k : String) → k ≢ p → k ≢ queue_key → (reap_round p id v).list k ≡ v.list k
  round_others k h h' =
      ground (arith, ne-eq_false p k (λ x. h (sym x)), ne-eq_false queue_key k (λ x. h' (sym x)))

  round_queue : (reap_round p id v).list queue_key ≡ v.list queue_key ++ present_ids v (id ∷ [])
  round_queue = ground (arith, ne-eq_false p queue_key ne, append-nil (v.list queue_key))

  round_same : ((reap_round p id v).zset ≡ v.zset) × ((reap_round p id v).clock ≡ v.clock)
  round_same = ground arith

  pub round_present : (k : String) → is_present ((reap_round p id v).hash k) ≡ is_present (v.hash k)
  round_present k = ground (arith, eq_iff (job_key id) k)

  round_status :
      (k : String)
      → (status_at k (reap_round p id v) ≡ status_at k v)
        ⊎ ((holds_text "running" (status_at k v) ≡ true)
            × (status_at k (reap_round p id v) ≡ some (str "queued")))
  round_status k = elim (text_cases (job_key id) k) [
    | inr (_, other) ↦ inl (ground arith)
    | inl (same, hit) ↦ elim (Bool-cases (holds_text "running" (status_at (job_key id) v))) [
      | inr idle ↦ inl (ground arith)
      | inl busy ↦ elim (Bool-cases (is_present (v.hash (job_key id)))) [
        | inr gone ↦ inl (ground arith)
        | inl here ↦ inr (rw (← same) busy, ground arith)
      ]
    ]
  ]

  status_trans :
      (k : String) (v' : View)
      → (status_at k v' ≡ status_at k (reap_round p id v))
        ⊎ ((holds_text "running" (status_at k (reap_round p id v)) ≡ true)
            × (status_at k v' ≡ some (str "queued")))
      → (status_at k v' ≡ status_at k v)
        ⊎ ((holds_text "running" (status_at k v) ≡ true) × (status_at k v' ≡ some (str "queued")))
  status_trans k v' (inl a) = elim (round_status k) [
    | inl b ↦ inl (a ∙ b)
    | inr (busy, b) ↦ inr (busy, a ∙ b)
  ]
  status_trans k v' (inr (busy, a)) = elim (round_status k) [
    | inl b ↦ inr (rw b at busy, a)
    | inr (busy', b) ↦ inr (busy', a)
  ]

  round_requeued :
      (present_ids v (id ∷ []) ++ present_ids (reap_round p id v) ids) ≡ present_ids v (id ∷ ids)
  round_requeued = ground (arith, present_ids_ext v (reap_round p id v) ids round_present)

  -- A round, and then the reclaim of the rest.
  pub round-Reclaims :
      {v' : View} → Reclaims p ids (reap_round p id v) v' → Reclaims p (id ∷ ids) v v'
  round-Reclaims {v'} r = record {
    emptied = r.emptied;
    others = λ k h h'. r.others k h h' ∙ round_others k h h';
    requeued =
        r.requeued
        ∙ ap (λ l. l ++ present_ids (reap_round p id v) ids) round_queue
        ∙ append_assoc (v.list queue_key) (present_ids v (id ∷ []))
            (present_ids (reap_round p id v) ids)
        ∙ ap (λ l. v.list queue_key ++ l) round_requeued;
    zset = r.zset ∙ round_same.0;
    clock = r.clock ∙ round_same.1;
    present = λ k. r.present k ∙ round_present k;
    status = λ k. status_trans k v' (r.status k);
  }

-- Popping an empty list is the end of the loop.
pub empty-Reclaims :
    (p : String) (v : View) → p ≢ queue_key → v.list p ≡ [] → Reclaims p [] v (Effect.lpop p v)
empty-Reclaims p v ne e = record {
  emptied = ground (arith, eq_refl p);
  others = λ k h h'. ground (arith, ne-eq_false p k (λ x. h (sym x)));
  requeued = ground (arith, ne-eq_false p queue_key ne, append-nil (v.list queue_key));
  zset = refl;
  clock = refl;
  present = λ k. refl;
  status = λ k. inl refl;
}

-- The number of ids that a round counts.
pub length-present_ids :
    (v : View) (id : String) (ids : List String)
    → length (present_ids v (id ∷ ids))
      ≡ length (present_ids v (id ∷ [])) + length (present_ids v ids)
length-present_ids v id ids = ground arith
