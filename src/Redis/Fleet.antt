-- ===== src/Redis/Fleet.antt =====
-- src/TaskQueue/backends/redis_backend.py: several workers and producers on one server. Each method is
-- a step of one of them, and `claim` is two, between which any others may come.
pub mod Leases
pub mod Steps
pub mod Kept
pub mod Methods
pub mod Trips
pub mod Reaped
pub mod Always
pub mod Recovery
use task_queue.Base.{
  member, ℕ, suc, ◌≤◌, String, ◌≡◌, ◌≢◌, Bool, true, false, not, Option, none, some, List, [], ◌∷◌,
  ◌⊎◌, inl, inr,
}
use task_queue.Base.Dict.{lookup}
use task_queue.Python.{str, Value, Record}
use task_queue.Job.Status.{is_terminal}
use task_queue.Redis.Keys.{queue_key, workers_key, job_key, processing_key}
use task_queue.Redis.View.{View, Hash, field_of}
use task_queue.Redis.Interface.{Redis}
use task_queue.Redis.Scripts.{claim_script, holds_terminal}
use task_queue.Redis.Effects.{is_present}
use task_queue.Redis.Reap.{leases, beat}
use task_queue.Redis.Backend.{
  Config, enqueue, save, release, take_record, request_cancel, heartbeat, deregister, reap,
}

-- A job with a record that is not terminal.
abbrev pub pending_hash : Option Hash → Bool
pending_hash none = false
pending_hash (some h) = not (holds_terminal (h "status"))

abbrev pub is_pending : String → View → Bool
is_pending id v = pending_hash (v.hash (job_key id))

-- An id that some claim or some reaper can find.
abbrev pub Held : String → View → Type 0
Held id v =
    (member id (v.list queue_key) ≡ true)
    ⊎ ((worker : String) × (member id (leases worker v) ≡ true))

-- Every job that is not terminal is held.
abbrev pub NoneLost : View → Type 0
NoneLost v = (id : String) → is_pending id v ≡ true → Held id v

-- Of the workers that are told apart as careful, every one that holds a lease is in the liveness set,
-- where a reaper looks.
abbrev pub Registered : (String → Type 0) → View → Type 0
Registered careful v =
    (worker : String) → careful worker → beat worker v ≡ none → leases worker v ≡ []
