-- ===== src/Redis/Reap.antt =====
-- src/TaskQueue/backends/redis_backend.py, `_REAPER_SCRIPT` and `reap`: one pass over the workers whose
-- last beat is too old.
use task_queue.Base.{
  member, ℕ, String, eq_refl, text_cases, ◌≡◌, refl, ◌∙◌, sym, Bool, true, false, Option, none,
  List, [], ◌∷◌, arith, inl, inr, Bool-cases, Option-cases, ◌-◌,
}
use task_queue.Base.Dict.{lookup}
use task_queue.Redis.Keys.{queue_key, workers_key, processing_key}
use task_queue.Redis.View.{View, is_expired}
use task_queue.Redis.Interface.{Redis}
use task_queue.Redis.Scripts.{Reaping, reap_worker, reap_workers, reaper_script, stale_workers}
use task_queue.Redis.Reaper.{reap_worker_reclaims}
use task_queue.Redis.Backend.{Config, reap}

-- A worker's leases and its last beat.
abbrev pub leases : String → View → List String
leases worker v = v.list (processing_key worker)

abbrev pub beat : String → View → Option ℕ
beat worker v = lookup worker (v.zset workers_key)

module _ (redis : Redis) where
  open redis use {Db, view}

  abbrev pass : List String → Reaping Db → Reaping Db
  pass = reap_workers redis workers_key queue_key "queued" "running"

  abbrev one : String → Reaping Db → Reaping Db
  one = reap_worker redis workers_key queue_key "queued" "running"

  pass-clock : (ws : List String) (s : Reaping Db) → (view (pass ws s).db).clock ≡ (view s.db).clock
  unfolding reap_workers
  pass-clock [] s = refl
  pass-clock (w ∷ ws) s =
      let (_, _, _, _, _, _, _, _, clock, _) = reap_worker_reclaims redis w s in
      pass-clock ws (one w s) ∙ clock

  -- A worker that is not listed keeps its leases and its beat.
  pass_spares :
      (ws : List String) (other : String) (s : Reaping Db)
      → member other ws ≡ false
      → (leases other (view (pass ws s).db) ≡ leases other (view s.db))
        × (beat other (view (pass ws s).db) ≡ beat other (view s.db))
  unfolding reap_workers
  pass_spares [] other s h = (refl, refl)
  pass_spares (w ∷ ws) other s h = elim (text_cases w other) [
    | inl (_, hit) ↦ cc
    | inr (differ, miss) ↦
        let (_, _, lists, _, _, beats, _, _, _, _) = reap_worker_reclaims redis w s in
        let (list, kept) = pass_spares ws other (one w s) (ground arith) in
        (list ∙ lists other (λ e. differ (sym e)), kept ∙ beats other (λ e. differ (sym e)))
  ]

  -- Once a worker has no leases and no beat, the rest of the pass leaves it so.
  pass_stays :
      (ws : List String) (worker : String) (s : Reaping Db)
      → leases worker (view s.db) ≡ []
      → beat worker (view s.db) ≡ none
      → (leases worker (view (pass ws s).db) ≡ []) × (beat worker (view (pass ws s).db) ≡ none)
  unfolding reap_workers
  pass_stays [] worker s l b = (l, b)
  pass_stays (w ∷ ws) worker s l b =
      let (emptied, _, lists, _, gone, beats, _, _, _, _) = reap_worker_reclaims redis w s in
      elim (text_cases w worker) [
        | inl (same, _) ↦ pass_stays ws worker (one w s) (rw (← same) emptied) (rw (← same) gone)
        | inr (differ, _) ↦
            pass_stays ws worker (one w s) (lists worker (λ e. differ (sym e)) ∙ l)
              (beats worker (λ e. differ (sym e)) ∙ b)
      ]

  -- A listed worker ends with no leases and no beat.
  pass_drains :
      (ws : List String) (worker : String) (s : Reaping Db)
      → member worker ws ≡ true
      → (leases worker (view (pass ws s).db) ≡ []) × (beat worker (view (pass ws s).db) ≡ none)
  unfolding reap_workers
  pass_drains [] worker s h = cc
  pass_drains (w ∷ ws) worker s h =
      let (emptied, _, lists, _, gone, beats, _, _, _, _) = reap_worker_reclaims redis w s in
      elim (text_cases w worker) [
        | inl (same, _) ↦ pass_stays ws worker (one w s) (rw (← same) emptied) (rw (← same) gone)
        | inr (differ, miss) ↦ pass_drains ws worker (one w s) (ground arith)
      ]

no_members : (ws : List String) → ((w : String) → member w ws ≡ false) → ws ≡ []
no_members [] h = refl
no_members (w ∷ ws) h = absurd (ground (arith, h w, eq_refl w))

module _ (redis : Redis) (self : Config) where
  open redis use {Db, view}

  abbrev dead : Db → String → Bool
  dead db worker = is_expired (view db).clock self.worker_ttl (beat worker (view db))

  listed :
      (db : Db) (worker : String)
      → member worker (stale_workers redis workers_key (redis.time db) self.worker_ttl db)
        ≡ dead db worker
  listed db worker =
      let now = (view db).clock in
      let until =
        redis.zrange_until-view workers_key (now - self.worker_ttl) worker db redis.workers_kind in
      elim (Option-cases (beat worker (view db))) [
        | inl away ↦ ground (arith, redis.time-view db, until)
        | inr (last, found) ↦ ground (arith, redis.time-view db, until)
      ]

  -- One `reap` decides every worker: one whose last beat is `worker_ttl` seconds old or older ends
  -- with no leases and no entry in the liveness set, and any other, one with no entry included, keeps
  -- its leases and its last beat.
  pub reap_decides :
      (worker : String) (db : Db)
      → let v = view db in
        let v' = view (reap redis self db).0 in
        (is_expired v.clock self.worker_ttl (beat worker v) ≡ true
          → (leases worker v' ≡ []) × (beat worker v' ≡ none))
        × (is_expired v.clock self.worker_ttl (beat worker v) ≡ false
            → (leases worker v' ≡ leases worker v) × (beat worker v' ≡ beat worker v))
  unfolding reap reaper_script
  reap_decides worker db =
      let ws = stale_workers redis workers_key (redis.time db) self.worker_ttl db in
      let start : Reaping Db = record { db = db; reclaimed = 0; dropped = 0 } in
      (
        λ h. pass_drains redis ws worker start (listed db worker ∙ h),
        λ h. pass_spares redis ws worker start (listed db worker ∙ h),
      )

  reap-clock : (db : Db) → (view (reap redis self db).0).clock ≡ (view db).clock
  unfolding reap reaper_script
  reap-clock db =
      pass-clock redis (stale_workers redis workers_key (redis.time db) self.worker_ttl db)
        (record { db = db; reclaimed = 0; dropped = 0 })

  nobody_dead : (db : Db) (worker : String) → dead (reap redis self db).0 worker ≡ false
  nobody_dead db worker =
      let (drains, spares) = reap_decides worker db in
      elim (Bool-cases (dead db worker)) [
        | inl expired ↦ rw (drains expired).1
        | inr live ↦ rw ((spares live).1, reap-clock db) live
      ]

  reap_nobody :
      (db : Db)
      → stale_workers redis workers_key (redis.time db) self.worker_ttl db ≡ []
      → reap redis self db ≡ (db, 0)
  unfolding reap reaper_script reap_workers
  reap_nobody db h = rw h

module _ (redis : Redis) (self other : Config) where
  open redis use {Db}

  -- A second `reap` within the same second, by any worker with the same TTL, finds nothing left: it
  -- reclaims no job and changes nothing. So concurrent reapers need no lock.
  pub reap_again :
      (db : Db)
      → other.worker_ttl ≡ self.worker_ttl
      → reap redis other (reap redis self db).0 ≡ ((reap redis self db).0, 0)
  reap_again db same =
      let db' = (reap redis self db).0 in
      reap_nobody redis other db' (
        no_members (stale_workers redis workers_key (redis.time db') other.worker_ttl db')
          (λ w. listed redis other db' w ∙ rw same (nobody_dead redis self db w)))
