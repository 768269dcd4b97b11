-- ===== src/Lib.antt =====
-- TaskQueue: an asyncio task queue with an in-process and a Redis backend.
--
-- A job (src/TaskQueue/job.py) is submitted as a record to a backend, which queues its id. A worker
-- (src/TaskQueue/worker.py) claims it, which marks it RUNNING and counts the attempt, runs the task's
-- body, and saves the job back in a terminal status; a caller then takes the result, which frees the
-- record. A claimed job that cannot be finished is released, and, over Redis, the leases of a worker
-- whose heartbeat stops are reclaimed by the reaper of another.
--
-- Which file models what:
--   Base      Boolean tests, lists measured by native numbers, counting, Python dicts as association
--             lists (Dict), and `str` and `int` of numbers (Decimal).
--   Python    the exceptions (src/TaskQueue/exceptions.py and Python's own), results, and the values
--             that jobs and records hold.
--   Job       src/TaskQueue/job.py: Status (`JobStatus`), Record (`Job`, `to_record`, `from_record`),
--             Codec (the interface of src/TaskQueue/serializers/interface.py, and `datetime`), Stored
--             and RoundTrip (lemmas and the round trip).
--   Memory    src/TaskQueue/backends/memory_backend.py: the state and every method. The `asyncio.Event`
--             objects are a list of flags that the dicts `events` and `cancels` point into, since a
--             waiter holds on to an event that the dicts have dropped. Delivery, Waiting and Stated
--             are the parts of the invariant, Life the step relation, Lifecycle the life of one job
--             in it, Lease, Results and Cancel the methods' effects.
--   Redis     src/TaskQueue/backends/redis_backend.py: Keys, Scripts (the Lua scripts), Backend (the
--             methods). View is what the commands can read of a database, Effect what they do to it,
--             and Interface the commands with these effects as laws, and the form in which the driver
--             passes a reply on as a parameter: text as anything that `decode` reads as it, such as its
--             bytes, and bytes as they are. Redis and its driver are not modelled further. Effects, Lease, Reclaim, Reaper and Reap hold the theorems of single
--             calls. Fleet has the methods as the steps of many workers and producers (Steps), each of
--             which keeps what a fleet needs (Kept, Methods, Trips, Reaped, Always), and the reaping of
--             a silent fleet (Recovery); the guards of the steps are assumptions that the code does not
--             check. Race is a release behind a reaper. Notifier is `_Notifier`, Waits the loops of
--             `take_result` and `wait_cancel`.
--   Worker    src/TaskQueue/worker.py: Liveness (`check_liveness`), Run (`_run`, `_process`, `_save`),
--             Loop (one round of `_worker_loop`), InMemory (a run over the memory backend), Pool (the
--             pool's state, `__aenter__`, `drain`, `__aexit__`, and a round of `_upkeep_loop`), with
--             OverRedis and Shutdown for what the pool does to a Redis server.
--   Client    src/TaskQueue/handle.py (Handle), src/TaskQueue/task.py (Task), the registry of
--             src/TaskQueue/queue.py (Registry) and what it opens (Open), and in Outcome a job's way
--             through all of it over the memory backend.
--   Heard     src/TaskQueue/worker.py and src/TaskQueue/handle.py together, over any backend that keeps
--             the contract: Stored (the fields of a record), Saved (`_save` and `result`), Ways and Run
--             (`_run`), Claim (a submitted job that is claimed), Round (one round of
--             `_worker_loop`), Rounds (interrupted ones before it, of one worker's loops), Workers (the same,
--             of several processes over one Redis server), Cancel (a job
--             that is cancelled before it) and Written (the types of a record's fields).
--   Group     src/TaskQueue/job_group.py: the state, the watcher `_job_finished` (Failures), the exits
--             (Exit), the child ids with src/TaskQueue/context.py (Child), `spawn` (Spawn) and what
--             becomes of a child (Children).
--   Backend   src/TaskQueue/backends/interface.py: the methods as a record, and what it documents of
--             them as laws over the records that are stored, without `wait_cancel`; InMemory (Writing, Claiming, Reading) and
--             OverRedis (Decoding, Writing, Claiming, Reading, Taking) fill it, and Group.Children and Heard are
--             over any backend that keeps it.
--   Cli       src/TaskQueue/cli.py: `resolve_queue` (Target), `run_worker` and its two-stage shutdown
--             (Shutdown), `available` (Available), and what `main` prints and exits with.
--   The last nine have their runs on small data in Tests.
--
-- A method that does not wait is one step, and so is a Lua script. Where the code waits, the function
-- is given what it finds when it goes on: `take_resumed` the event that the caller holds, `run` the
-- outcome of each await (`Awaits`), and Redis `claim` whether the script call and the clean-up reach
-- the server.
--
-- The loop over a dead worker's list (`drain`) is on fuel: one more than the length of the list, which
-- is enough as each round pops one id.
-- Numbers are natural numbers: attempts, counts, seconds of the server's clock, and microseconds of a
-- `datetime`; a record with a negative count is refused as one that is no number.
--
-- The pubsub connection is modelled with its lock held: `join` and `leave` are one step each, and so is
-- a message. A wait is given the databases that its reads find, one after the other. A pool's drain is
-- given its loops as they are when its wait ends. The memory backend's waiters that hold an event
-- which the dicts have dropped are followed up to the save that sets it, and not beyond: the steps of
-- Life look an event up when they are taken.
--
-- Not modelled: the timers, which only say when a step is taken; the waits of a job group
-- (src/TaskQueue/job_group.py); the argument parser, the signal handlers and the messages of the
-- command line (src/TaskQueue/cli.py); the JSON and pickle codecs, which are instances of the
-- serializer interface; logging.
pub mod Backend
pub mod Base
pub mod Cli
pub mod Client
pub mod Group
pub mod Heard
pub mod Job
pub mod Memory
pub mod Python
pub mod Redis
pub mod Worker
