-- ===== src/Redis/Fleet/Reaped.antt =====
-- src/TaskQueue/backends/redis_backend.py: `reap` keeps the jobs held and the workers registered.
use task_queue.Base.{
  member, String, eq_iff, text_cases, ◌≡◌, ◌≢◌, refl, sym, ◌∙◌, true, false, ◌||◌, Option, none,
  some, List, [], ◌∷◌, ◌++◌, ◌⊎◌, inl, inr, arith,
}
use task_queue.Python.{str, bytes, Value}
use task_queue.Job.Status.{is_terminal}
use task_queue.Redis.Keys.{queue_key, workers_key, job_key}
use task_queue.Redis.View.{View, Hash, field_of}
use task_queue.Redis.Interface.{Redis}
use task_queue.Redis.Scripts.{
  stale_workers, Reaping, holds_text, holds_terminal, reap_worker, reap_workers, reaper_script,
}
use task_queue.Redis.Effects.{is_present}
use task_queue.Redis.Reclaim.{present_ids}
use task_queue.Redis.Reaper.{reap_worker_reclaims}
use task_queue.Redis.Reap.{leases}
use task_queue.Redis.Backend.{Config, reap}
use task_queue.Redis.Fleet.{pending_hash, Held}
use task_queue.Redis.Fleet.Steps.{Safe}

member-append :
    (x : String) (xs ys : List String) → member x (xs ++ ys) ≡ (member x xs || member x ys)
member-append x [] ys = refl
member-append x (z ∷ xs) ys = ground (arith, member-append x xs ys)

member-present_ids :
    (x : String) (ids : List String) (v : View)
    → is_present (v.hash (job_key x)) ≡ true
    → member x (present_ids v ids) ≡ member x ids
member-present_ids x [] v here = refl
member-present_ids x (id ∷ ids) v here =
    ground (arith, eq_iff id x, member-present_ids x ids v here)

pub pending-present : (o : Option Hash) → pending_hash o ≡ true → is_present o ≡ true
pending-present none h = cc
pending-present (some x) h = refl

running_not_terminal : (x : Option Value) → holds_text "running" x ≡ true → holds_terminal x ≡ false
unfolding is_terminal
running_not_terminal none h = cc
running_not_terminal (some (bytes b)) h = cc
running_not_terminal (some (str t)) h = rw ((eq_iff t "running").0 h) refl

-- A job that is pending once its status was left, or went from RUNNING to QUEUED, was pending before.
pending_before :
    (o o' : Option Hash)
    → is_present o' ≡ is_present o
    → (field_of o' "status" ≡ field_of o "status")
      ⊎ ((holds_text "running" (field_of o "status") ≡ true)
          × (field_of o' "status" ≡ some (str "queued")))
    → pending_hash o' ≡ true
    → pending_hash o ≡ true
pending_before none none same status pending = cc
pending_before none (some h') same status pending = cc
pending_before (some h) none same status pending = cc
pending_before (some h) (some h') same (inl left) pending = ground arith
pending_before (some h) (some h') same (inr (busy, queued)) pending =
    rw (running_not_terminal (h "status") busy) refl

-- The leases of one worker go to the queue, and no other worker's change.
Held-reclaim :
    (w j : String) (v v' : View)
    → v'.list queue_key ≡ v.list queue_key ++ present_ids v (leases w v)
    → ((other : String) → other ≢ w → leases other v' ≡ leases other v)
    → is_present (v.hash (job_key j)) ≡ true
    → Held j v
    → Held j v'
Held-reclaim w j v v' queue lists here (inl queued) =
    inl (rw (queue, member-append j (v.list queue_key) (present_ids v (leases w v)), queued) refl)
Held-reclaim w j v v' queue lists here (inr (x, held)) = elim (text_cases x w) [
  | inr (differ, _) ↦ inr (x, rw (lists x differ) held)
  | inl (same, _) ↦ inl (
      ground (
        arith,
        queue,
        member-append j (v.list queue_key) (present_ids v (leases w v)),
        member-present_ids j (leases w v) v here,
        rw same at held,
      ))
]

module _ (careful : String → Type 0) (redis : Redis) where
  open redis use {Db, view}

  abbrev one : String → Reaping Db → Reaping Db
  one = reap_worker redis workers_key queue_key "queued" "running"

  reap_worker-Safe :
      (w : String) (s : Reaping Db) → Safe careful (view s.db) → Safe careful (view (one w s).db)
  reap_worker-Safe w s safe =
      let (emptied, queue, lists, status, gone, beats, _, _, _, present) =
        reap_worker_reclaims redis w s in
      record {
        none_lost = λ j pending.
            let before =
              pending_before ((view s.db).hash (job_key j)) ((view (one w s).db).hash (job_key j))
                (present (job_key j)) (status (job_key j)) pending in
            Held-reclaim w j (view s.db) (view (one w s).db) queue lists
              (pending-present ((view s.db).hash (job_key j)) before) (safe.none_lost j before);
        registered = λ x cares away. elim (text_cases x w) [
          | inl (same, _) ↦ rw same emptied
          | inr (differ, _) ↦ lists x differ ∙ safe.registered x cares (sym (beats x differ) ∙ away)
        ];
      }

  reap_workers-Safe :
      (ws : List String) (s : Reaping Db)
      → Safe careful (view s.db)
      → Safe careful (view (reap_workers redis workers_key queue_key "queued" "running" ws s).db)
  unfolding reap_workers
  reap_workers-Safe [] s safe = safe
  reap_workers-Safe (w ∷ ws) s safe = reap_workers-Safe ws (one w s) (reap_worker-Safe w s safe)

  pub reap-Safe :
      (self : Config) (db : Db)
      → Safe careful (view db)
      → Safe careful (view (reap redis self db).0)
  unfolding reap reaper_script
  reap-Safe self db safe =
      reap_workers-Safe (stale_workers redis workers_key (redis.time db) self.worker_ttl db)
        (record { db = db; reclaimed = 0; dropped = 0 }) safe
