-- ===== src/Redis/Reaper.antt =====
-- src/TaskQueue/backends/redis_backend.py, `_REAPER_SCRIPT`: what reclaiming dead workers' leases does.
use task_queue.Base.{
  ℕ, zero, suc, ◌+◌, ◌<◌, String, eq_refl, ne-eq_false, ◌≡◌, refl, ◌≢◌, ◌∙◌, sym, ap, true, none,
  some, List, [], ◌∷◌, ◌++◌, arith, length, ◌⊎◌,
}
use task_queue.Python.{str}
use task_queue.Redis.Keys.{
  queue_key, workers_key, processing_key, processing_key-ne-queue, keys_injective,
}
use task_queue.Base.Dict.{lookup, lookup-erase}
use task_queue.Redis.View.{list_key}
use task_queue.Redis.Interface.{Redis}
use task_queue.Redis.Scripts.{holds_text, Reaping, reap_job, drain, reap_worker}
use task_queue.Redis.Effects.{is_present}
use task_queue.Redis.Reclaim.{
  present_ids, status_at, Reclaims, present_ids_ext, reap_job-view, round_list, round_present,
  round-Reclaims, empty-Reclaims, length-present_ids, reap_round,
}

module _ (redis : Redis) (p : String) (ne : p ≢ queue_key) (list : redis.kind_of p ≡ list_key) where
  open redis use {Db, view, lpop}

  abbrev popped : Reaping Db → Reaping Db
  popped s = record s { db = (lpop p s.db).1 }

  drain_end :
      (fuel : ℕ) (s : Reaping Db)
      → (lpop p s.db).0 ≡ none
      → drain redis (suc fuel) p queue_key "queued" "running" s ≡ popped s
  unfolding drain
  drain_end fuel s h = ground arith

  drain_step :
      (fuel : ℕ) (id : String) (s : Reaping Db)
      → (lpop p s.db).0 ≡ some id
      → drain redis (suc fuel) p queue_key "queued" "running" s
        ≡ drain redis fuel p queue_key "queued" "running"
            (reap_job redis queue_key "queued" "running" id (popped s))
  unfolding drain
  drain_step fuel id s h = ground arith

  -- With more fuel than ids the loop empties the list, and counts every id of it.
  pub drain-Reclaims :
      (fuel : ℕ) (ids : List String) (s : Reaping Db)
      → (view s.db).list p ≡ ids
      → length ids < fuel
      → let s' = drain redis fuel p queue_key "queued" "running" s in
        Reclaims p ids (view s.db) (view s'.db)
        × (s'.reclaimed ≡ s.reclaimed + length (present_ids (view s.db) ids))
        × (s'.reclaimed + s'.dropped ≡ s.reclaimed + s.dropped + length ids)
  drain-Reclaims zero ids s e h = absurd (omega arith)
  drain-Reclaims (suc fuel) [] s e h =
      let (head, effect) = redis.lpop-view p s.db list in
      let nothing : (lpop p s.db).0 ≡ none = head ∙ rw e in
      rw (drain_end fuel s nothing, effect)
        (empty-Reclaims p (view s.db) ne e, omega arith, omega arith)
  drain-Reclaims (suc fuel) (id ∷ ids) s e h =
      let (head, effect) = redis.lpop-view p s.db list in
      let found : (lpop p s.db).0 ≡ some id = head ∙ rw e in
      let s₁ = reap_job redis queue_key "queued" "running" id (popped s) in
      let (after, total, count) = reap_job-view redis id (popped s) in
      let same : view s₁.db ≡ reap_round p id (view s.db) = rw (after, effect) in
      let (rest, reclaimed, all) =
        drain-Reclaims fuel ids s₁ (rw same (round_list p id ids (view s.db) ne e)) (omega arith) in
      rw (drain_step fuel id s found) (
        round-Reclaims p id ids (view s.db) ne e (rw same at rest),
        omega (
          arith,
          reclaimed,
          count,
          length-present_ids (view s.db) id ids,
          ap length (
              present_ids_ext (view s.db) (view s₁.db) ids
                (λ k. rw same (round_present p id ids (view s.db) ne e k))),
          ap length (present_ids_ext (view s.db) (view (popped s).db) (id ∷ []) (λ k. rw effect)),
        ),
        omega (arith, all, total),
      )

module _ (redis : Redis) where
  open redis use {Db, view}

  -- One dead worker, on every branch of the loop over its list: all its leases are popped; the jobs
  -- that still have a record go to the end of the queue, in order, RUNNING ones turned QUEUED and no
  -- other status changed, and are counted as reclaimed, the other ids as dropped; no other worker's
  -- list changes, and the worker, and no other, leaves the liveness set. The clock stands still, and no
  -- record comes or goes.
  pub reap_worker_reclaims :
      (worker : String) (s : Reaping Db)
      → let v = view s.db in
        let s' = reap_worker redis workers_key queue_key "queued" "running" worker s in
        let v' = view s'.db in
        let ids = v.list (processing_key worker) in
        (v'.list (processing_key worker) ≡ [])
        × (v'.list queue_key ≡ v.list queue_key ++ present_ids v ids)
        × ((other : String)
            → other ≢ worker
            → v'.list (processing_key other) ≡ v.list (processing_key other))
        × ((k : String)
            → (status_at k v' ≡ status_at k v)
              ⊎ ((holds_text "running" (status_at k v) ≡ true)
                  × (status_at k v' ≡ some (str "queued"))))
        × (lookup worker (v'.zset workers_key) ≡ none)
        × ((other : String)
            → other ≢ worker
            → lookup other (v'.zset workers_key) ≡ lookup other (v.zset workers_key))
        × (s'.reclaimed ≡ s.reclaimed + length (present_ids v ids))
        × (s'.reclaimed + s'.dropped ≡ s.reclaimed + s.dropped + length ids)
        × (v'.clock ≡ v.clock)
        × ((k : String) → is_present (v'.hash k) ≡ is_present (v.hash k))
  unfolding reap_worker
  reap_worker_reclaims worker s =
      let p = processing_key worker in
      let ids = (view s.db).list p in
      let kind = redis.processing_kind worker in
      let ne = processing_key-ne-queue worker in
      let size = redis.llen-view p s.db kind in
      let (r, reclaimed, all) =
        drain-Reclaims redis p ne kind (suc (redis.llen p s.db)) ids s refl (omega (arith, size)) in
      let s₁ = drain redis (suc (redis.llen p s.db)) p queue_key "queued" "running" s in
      let effect = redis.zrem-view workers_key worker s₁.db redis.workers_kind in
      (
        rw effect r.emptied,
        rw effect r.requeued,
        λ other h. rw effect (
            r.others (processing_key other) (λ e. h ((keys_injective other worker).1 e))
              (processing_key-ne-queue other)),
        λ k. rw effect (r.status k),
        rw effect
            (lookup-erase worker worker ((view s₁.db).zset workers_key) ∙ rw (eq_refl worker)),
        λ other h. rw effect (
            lookup-erase worker other ((view s₁.db).zset workers_key)
            ∙ rw (ne-eq_false worker other (λ e. h (sym e)), r.zset)),
        reclaimed,
        all,
        rw effect r.clock,
        λ k. rw effect (r.present k),
      )
