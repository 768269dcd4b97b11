-- ===== src/Heard/Workers.antt =====
-- src/TaskQueue/worker.py, `_worker_loop`, over src/TaskQueue/backends/redis_backend.py: a job whose runs
-- are interrupted in one worker process after the other, each with a backend and a registry of its own.
use task_queue.Base.{ℕ, zero, suc, ◌+◌, String, Bool, Option, none}
use task_queue.Python.{Error, Result, Any, Bytes}
use task_queue.Job.Status.{queued}
use task_queue.Job.Codec.{Serializer, DateTime}
use task_queue.Job.Record.{Job}
use task_queue.Redis.Interface.{Redis}
use task_queue.Redis.Backend.{Config}
use task_queue.Backend.OverRedis.{redis_backend, redis_stored, AnyState}
use task_queue.Backend.OverRedis.Reading.{redis_backend-Contract}
use task_queue.Worker.Run.{Awaits}
use task_queue.Worker.Loop.{Next}
use task_queue.Heard.Round.{Waiting, RoundEnds}
use task_queue.Heard.Rounds.{Turn, one_round}

-- A worker process: its backend object and the names of the tasks that it registered.
pub record Process : Type 0 where
  pub config : Config
  pub registered : String → Bool

module _ (redis : Redis) (serializer : Serializer) (datetime : DateTime) (repr : String → String)
    (message : Error → String) where
  open redis use {Db}

  abbrev pub Waits : Process → Job → Bytes → Db → Type 0
  Waits w =
      Waiting (redis_backend redis w.config) (redis_stored redis w.config) (AnyState redis w.config)
        (redis_backend-Contract redis w.config) serializer datetime repr message

  abbrev pub TurnOf : Process → Job → Option (Result Any) → Awaits → Db → Type 0
  TurnOf w =
      Turn (redis_backend redis w.config) (redis_stored redis w.config) (AnyState redis w.config)
        (redis_backend-Contract redis w.config) serializer datetime repr message w.registered

  abbrev pub round_of : Process → Awaits → Db → Db × Next
  round_of w =
      one_round (redis_backend redis w.config) (redis_stored redis w.config)
        (AnyState redis w.config) (redis_backend-Contract redis w.config) serializer datetime repr
        message w.registered

  abbrev pub EndsOf : Process → Job → Bytes → Option (Result Any) → Db × Next → Type 0
  EndsOf w =
      RoundEnds (redis_backend redis w.config) (redis_stored redis w.config)
        (AnyState redis w.config) (redis_backend-Contract redis w.config) serializer datetime repr
        message

  -- Rounds that are all interrupted, each of some process.
  pub data Interrupted (job : Job) : ℕ → Db → Db → Type 0 where
    not_yet : {db : Db} → Interrupted job zero db db
    once_more :
        {n : ℕ} {db db' : Db}
        → Interrupted job n db db'
        → (w : Process) (a : Awaits) → TurnOf w job none a db'
        → Interrupted job (suc n) db (round_of w a db').0

  abbrev pub again : ℕ → Job → Job
  again n job = record job { status = queued; attempts = n + job.attempts }
