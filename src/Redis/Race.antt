-- ===== src/Redis/Race.antt =====
-- src/TaskQueue/backends/redis_backend.py, `release`, by a worker whose lease was reclaimed meanwhile.
use task_queue.Base.{
  String, eq_iff, eq_refl, text_cases, ◌≡◌, true, false, some, [], ◌∷◌, ◌++◌, arith, inl, inr,
  member, absent,
}
use task_queue.Python.{str}
use task_queue.Redis.Keys.{queue_key, job_key, processing_key}
use task_queue.Redis.View.{field_of}
use task_queue.Redis.Interface.{Redis}
use task_queue.Redis.Scripts.{holds_text}
use task_queue.Redis.Effects.{release-view}
use task_queue.Redis.Reap.{leases}
use task_queue.Redis.Backend.{Config, release}
use task_queue.Redis.Fleet.Leases.{queue_processing, processing_queue, processing_differ}

module _ (redis : Redis) (self : Config) where
  open redis use {Db, view}

  -- A worker that releases a RUNNING job which it no longer leases marks it QUEUED and puts it into the
  -- queue all the same, while every worker, the one that claimed it meanwhile included, keeps its
  -- leases: the job is delivered twice.
  pub release_of_reclaimed :
      (id : String) (db : Db)
      → holds_text "running" (field_of ((view db).hash (job_key id)) "status") ≡ true
      → member id (leases self.instance_id (view db)) ≡ false
      → let v' = view (release redis self id db).0 in
        (field_of (v'.hash (job_key id)) "status" ≡ some (str "queued"))
        × (v'.list queue_key ≡ (view db).list queue_key ++ id ∷ [])
        × ((worker : String) → leases worker v' ≡ leases worker (view db))
  release_of_reclaimed id db busy gone =
      rw ((release-view redis self id db).0, busy)
        (
          ground (arith, eq_refl (job_key id)),
          ground (arith, processing_queue self.instance_id, eq_refl queue_key),
          λ worker. elim (text_cases self.instance_id worker) [
            | inl (same, _) ↦ ground (
              arith,
              queue_processing worker,
              eq_iff (processing_key self.instance_id) (processing_key worker),
              (absent id (leases self.instance_id (view db)) gone).1,
            )
            | inr (differ, _) ↦
                ground
                  (arith, queue_processing worker, processing_differ self.instance_id worker differ)
          ],
        )
