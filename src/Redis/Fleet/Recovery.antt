-- ===== src/Redis/Fleet/Recovery.antt =====
-- src/TaskQueue/backends/redis_backend.py: one `reap` after every worker has fallen silent.
use task_queue.Base.{
  member, ℕ, ◌+◌, ◌≤◌, String, ◌≡◌, refl, ◌∙◌, true, some, List, [], inl, inr, ◌⊎◌, arith,
  Option-cases,
}
use task_queue.Redis.Keys.{queue_key}
use task_queue.Redis.Interface.{Redis}
use task_queue.Redis.Reap.{leases, beat, reap_decides}
use task_queue.Redis.Backend.{Config, reap}
use task_queue.Redis.Fleet.{is_pending}
use task_queue.Redis.Fleet.Steps.{Safe}
use task_queue.Redis.Fleet.Reaped.{reap-Safe}
use task_queue.Redis.Fleet.Always.{Reach, Reach-Safe}

no_leases : (j : String) (xs : List String) → xs ≡ [] → member j xs ≡ true → ⊥
no_leases j xs e h = cc

module _ (careful : String → Type 0) (redis : Redis) where
  open redis use {Db, view}

  -- Let the methods of any workers and producers interleave, from a database where no job is lost and
  -- careful workers with leases are registered (`Safe`), and then let every worker in the liveness set
  -- be silent for the TTL of the one that reaps: after a single `reap` no careful worker holds a lease,
  -- and every job that is not terminal stands in the queue, or among the leases of a worker that was
  -- not careful. A careful worker is one that moves an id only while it is in the liveness set, which
  -- the code does not check; the runs are those that `Step` allows, in which a claim does not mark a
  -- finished job whose id is in no list, an id is dropped as discarded while its record is missing, and
  -- a save has a terminal status.
  pub reap_recovers :
      (self : Config) {db db' : Db}
      → Safe careful (view db)
      → Reach careful redis db db'
      → ((worker : String) (last : ℕ)
          → beat worker (view db') ≡ some last
          → last + self.worker_ttl ≤ (view db').clock)
      → let v = view (reap redis self db').0 in
        ((worker : String) → careful worker → leases worker v ≡ [])
        × ((j : String)
            → is_pending j v ≡ true
            → (member j (v.list queue_key) ≡ true)
              ⊎ ((worker : String) × (careful worker → ⊥) × (member j (leases worker v) ≡ true)))
  reap_recovers self {db} {db'} safe r silent =
      let before = Reach-Safe careful redis r safe in
      let after = reap-Safe careful redis self db' before in
      let free : (worker : String)
          → careful worker
          → leases worker (view (reap redis self db').0) ≡ [] =
        λ worker cares. by_beat worker cares before in
      (
        free,
        λ j pending. elim (after.none_lost j pending) [
          | inl queued ↦ inl queued
          | inr (worker, held) ↦ inr (
            worker,
            λ cares.
                no_leases j (leases worker (view (reap redis self db').0)) (free worker cares) held,
            held,
          )
        ],
      )
    where
      by_beat :
          (worker : String)
          → careful worker
          → Safe careful (view db')
          → leases worker (view (reap redis self db').0) ≡ []
      by_beat worker cares before = elim (Option-cases (beat worker (view db'))) [
        | inl away ↦
            ((reap_decides redis self worker db').1 (rw away refl)).0
            ∙ before.registered worker cares away
        | inr (last, found) ↦
            ((reap_decides redis self worker db').0 (ground (arith, silent worker last))).0
      ]
