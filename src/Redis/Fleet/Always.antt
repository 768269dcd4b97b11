-- ===== src/Redis/Fleet/Always.antt =====
-- src/TaskQueue/backends/redis_backend.py: what holds however workers and producers interleave.
use task_queue.Base.{String}
use task_queue.Redis.Interface.{Redis}
use task_queue.Redis.Fleet.Steps.{
  Safe, Step, enqueues, moves, marks, gives_back, discards, finishes, releases, cancels, takes,
  beats, leaves, reaps, passes,
}
use task_queue.Redis.Fleet.Trips.{move-Safe, mark-Safe}
use task_queue.Redis.Fleet.Methods.{
  enqueue-Safe, give_back-Safe, discard-Safe, save-Safe, release-Safe, request_cancel-Safe,
  take_record-Safe, heartbeat-Safe, deregister-Safe,
}
use task_queue.Redis.Fleet.Kept.{Later-Safe}
use task_queue.Redis.Fleet.Reaped.{reap-Safe}

module _ (careful : String → Type 0) (redis : Redis) where
  open redis use {Db, view}

  pub data Reach (db : Db) : Db → Type 0 where
    here : Reach db db
    next : {db' db'' : Db} → Reach db db' → Step careful redis db' db'' → Reach db db''

  Step-Safe :
      {db db' : Db} → Step careful redis db db' → Safe careful (view db) → Safe careful (view db')
  Step-Safe {db} (enqueues self id r) safe = enqueue-Safe careful redis self id r db safe
  Step-Safe {db} (moves self listed) safe = move-Safe careful redis self db listed safe
  Step-Safe {db} (marks id held) safe = mark-Safe careful redis id db held safe
  Step-Safe {db} (gives_back self id) safe = give_back-Safe careful redis self id db safe
  Step-Safe {db} (discards self id missing) safe =
      discard-Safe careful redis self id db missing safe
  Step-Safe {db} (finishes self id r terminal) safe =
      save-Safe careful redis self id r db terminal safe
  Step-Safe {db} (releases self id) safe = release-Safe careful redis self id db safe
  Step-Safe {db} (cancels self id) safe = request_cancel-Safe careful redis self id db safe
  Step-Safe {db} (takes self id) safe = take_record-Safe careful redis self id db safe
  Step-Safe {db} (beats self) safe = heartbeat-Safe careful redis self db safe
  Step-Safe {db} (leaves self) safe = deregister-Safe careful redis self db safe
  Step-Safe {db} (reaps self) safe = reap-Safe careful redis self db safe
  Step-Safe {db} (passes db' later) safe = Later-Safe (view db) (view db') later safe

  -- However the methods of any number of workers and producers interleave, no job is lost: where it
  -- holds at first that every job that is not terminal stands in the queue or among some worker's
  -- leases, it goes on to hold, whether or not a worker moves an id while it is registered. And of any
  -- set of workers that move an id only while they are in the liveness set (`careful`), it goes on to
  -- hold that those with a lease are in that set, where a reaper looks. What the steps assume, and the
  -- code does not check, is that such workers are careful, and that a claim does not mark a finished
  -- job whose id is in no list; an id is dropped as discarded while its record is missing, and a save
  -- has a terminal status.
  pub Reach-Safe : {db db' : Db} → Reach db db' → Safe careful (view db) → Safe careful (view db')
  Reach-Safe here safe = safe
  Reach-Safe (next r step) safe = Step-Safe step (Reach-Safe r safe)
