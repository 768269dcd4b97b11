-- ===== src/Redis/Fleet/Steps.antt =====
-- src/TaskQueue/backends/redis_backend.py: the methods as steps of workers and producers on one server.
-- The guards of the steps are assumptions on an execution, which the code does not check. Any worker
-- may move an id at any time, and those that are `careful` do so only while they are in the liveness
-- set: a pool whose beat lapsed, and which was reaped, is not. A claim does not mark a finished job
-- whose id is in no list any more, as it does where its worker was reaped in between and another one
-- has finished the job. An id is dropped as discarded while its record is missing, and a terminal write
-- has a terminal status.
use task_queue.Base.{◌≤◌, String, ◌≡◌, ◌≢◌, true, false, Option, none, ◌⊎◌}
use task_queue.Python.{Value, Record}
use task_queue.Redis.Keys.{queue_key, job_key, processing_key}
use task_queue.Redis.View.{View}
use task_queue.Redis.Interface.{Redis}
use task_queue.Redis.Scripts.{claim_script, holds_terminal}
use task_queue.Redis.Effects.{is_present}
use task_queue.Redis.Reap.{beat}
use task_queue.Redis.Backend.{
  Config, enqueue, give_back, save, release, take_record, request_cancel, heartbeat, deregister,
  reap,
}
use task_queue.Redis.Fleet.{NoneLost, Registered, Held, is_pending}
use task_queue.Redis.Fleet.Leases.{last_of}

pub record Safe (careful : String → Type 0) (v : View) : Type 0 where
  pub none_lost : NoneLost v
  pub registered : Registered careful v

-- Time passes: keys may expire, and nothing else changes.
pub record Later (v v' : View) : Type 0 where
  pub list : v'.list ≡ v.list
  pub zset : v'.zset ≡ v.zset
  pub clock : v.clock ≤ v'.clock
  pub hash : (k : String) → (v'.hash k ≡ v.hash k) ⊎ (v'.hash k ≡ none)

module _ (careful : String → Type 0) (redis : Redis) where
  open redis use {Db, view, blmove, lrem}

  pub data Step (db : Db) : Db → Type 0 where
    enqueues : (self : Config) (id : String) (r : Record) → Step db (enqueue redis self id r db)
    moves :
        (self : Config)
        → (careful self.instance_id → beat self.instance_id (view db) ≢ none)
        → Step db (blmove queue_key (processing_key self.instance_id) db).1
    marks :
        (id : String)
        → (is_present ((view db).hash (job_key id)) ≡ true
            → is_pending id (view db) ≡ false
            → Held id (view db))
        → Step db (claim_script redis (job_key id) "running" db).0
    gives_back : (self : Config) (id : String) → Step db (give_back redis self true id db)
    discards :
        (self : Config) (id : String)
        → is_present ((view db).hash (job_key id)) ≡ false
        → Step db (lrem (processing_key self.instance_id) id db)
    finishes :
        (self : Config) (id : String) (r : Record)
        → ((old : Option Value) → holds_terminal (last_of "status" r old) ≡ true)
        → Step db (save redis self id r true db).0
    releases : (self : Config) (id : String) → Step db (release redis self id db).0
    cancels : (self : Config) (id : String) → Step db (request_cancel redis self id db)
    takes : (self : Config) (id : String) → Step db (take_record redis self id db).0
    beats : (self : Config) → Step db (heartbeat redis self db)
    leaves : (self : Config) → Step db (deregister redis self db)
    reaps : (self : Config) → Step db (reap redis self db).0
    passes : (db' : Db) → Later (view db) (view db') → Step db db'
