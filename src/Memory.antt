-- ===== src/Memory.antt =====
-- src/TaskQueue/backends/memory_backend.py: the state and the methods of `MemoryBackend`.
-- A method is atomic between its awaits. `flags` is the heap of the `asyncio.Event` objects: an event
-- is its index there, so that a waiter may hold one that the dicts no longer name.
pub mod Delivery
pub mod Waiting
pub mod Stated
pub mod Life
pub mod Lifecycle
pub mod Lease
pub mod Results
pub mod Cancel
mod Tests
use task_queue.Base.{
  ℕ, suc, String, ◌==◌, Bool, true, false, Option, none, some, List, [], ◌∷◌, ◌++◌, length, get_or,
  set, if◌then◌else◌,
}
use task_queue.Base.Dict.{Dict, lookup, contains, insert, erase}
use task_queue.Base.Decimal.{to_text}
use task_queue.Python.{key_error, Result, ok, err, Value, str, bytes, Record}
use task_queue.Job.Status.{is_terminal}
use task_queue.Job.Record.{int_or_zero}

pub record Memory : Type 0 where
  pub jobs : Dict Record
  pub events : Dict ℕ
  pub cancels : Dict ℕ
  pub queue : List String
  pub flags : List Bool

-- `MemoryBackend()`
abbrev pub empty : Memory
empty = record { jobs = []; events = []; cancels = []; queue = []; flags = [] }

-- `event.set()`, on an event that may be missing
abbrev pub set_event : Option ℕ → List Bool → List Bool
set_event none flags = flags
set_event (some e) flags = set flags e true

-- `record["status"] == text`; bytes equal no text.
abbrev pub is_text : String → Value → Bool
is_text s (str t) = t == s
is_text s (bytes b) = false

abbrev pub is_terminal_value : Value → Bool
is_terminal_value (str t) = is_terminal t
is_terminal_value (bytes b) = false

unfoldable pub enqueue : String → Record → Memory → Memory
enqueue id r m = if contains id m.jobs then m else record {
  jobs = insert id (insert "status" (str "queued") r) m.jobs;
  events = insert id (length m.flags) m.events;
  cancels = insert id (suc (length m.flags)) m.cancels;
  queue = m.queue ++ id ∷ [];
  flags = m.flags ++ false ∷ false ∷ [];
}

-- `record["attempts"] = str(int(record.get("attempts", 0)) + 1)`, on the record already marked
-- RUNNING in place: a failed `int` leaves that mark.
abbrev pub count_attempt : String → Record → Memory → Result ℕ → Memory × Result (Option Record)
count_attempt id r m (err e) = (record m { jobs = insert id r m.jobs }, err e)
count_attempt id r m (ok n) =
    let r' = insert "attempts" (str (to_text (suc n))) r in
    (record m { jobs = insert id r' m.jobs }, ok (some r'))

abbrev pub lease : String → Option Record → Memory → Memory × Result (Option Record)
lease id none m = (m, err key_error)
lease id (some r) m =
    count_attempt id (insert "status" (str "running") r) m (int_or_zero (lookup "attempts" r))

abbrev pub claim_from : List String → Memory → Memory × Result (Option Record)
claim_from [] m = (m, ok none)
claim_from (id ∷ queue) m = lease id (lookup id m.jobs) (record m { queue = queue })

-- The empty queue is the timeout of `asyncio.wait_for`, at which nothing has changed.
unfoldable pub claim : Memory → Memory × Result (Option Record)
claim m = claim_from m.queue m

unfoldable pub get_job : String → Memory → Result Record
get_job id m = elim (lookup id m.jobs) [ none ↦ err key_error | some r ↦ ok r ]

unfoldable pub save : String → Record → Bool → Memory → Memory × Result (Unit {0})
save id r done m =
    if contains id m.jobs
    then (
      if done
          then record {
            jobs = insert id r m.jobs;
            events = erase id m.events;
            cancels = erase id m.cancels;
            queue = m.queue;
            flags = set_event (lookup id m.events) m.flags;
          }
          else record m { jobs = insert id r m.jobs },
      ok tt,
    )
    else (m, err key_error)

abbrev release_if : String → Record → Option Value → Memory → Memory × Result (Unit {0})
release_if id r none m = (m, err key_error)
release_if id r (some status) m =
    if is_text "running" status
    then (
      record m {
        jobs = insert id (insert "status" (str "queued") r) m.jobs;
        queue = m.queue ++ id ∷ [];
      },
      ok tt,
    )
    else (m, ok tt)

unfoldable pub release : String → Memory → Memory × Result (Unit {0})
release id m = elim (lookup id m.jobs) [
  | none ↦ (m, err key_error)
  | some r ↦ release_if id r (lookup "status" r) m
]

-- Whether `await event.wait()` returns at once; no event is nothing to wait for.
abbrev pub is_set : Option ℕ → Memory → Bool
is_set none m = true
is_set (some e) m = get_or m.flags e false

abbrev or_key_error : Option Record → Result Record
or_key_error none = err key_error
or_key_error (some r) = ok r

-- `take_result` behind its wait.
unfoldable pub take_record : String → Memory → Memory × Result Record
take_record id m = (
  record m { jobs = erase id m.jobs; events = erase id m.events; cancels = erase id m.cancels },
  or_key_error (lookup id m.jobs),
)

-- `take_result`, resumed with the event that it looked up when it was called; `none` is a caller
-- that still waits.
unfoldable pub take_resumed : Option ℕ → String → Memory → Option (Memory × Result Record)
unfolding take_record
take_resumed event id m = if is_set event m then some (take_record id m) else none

unfoldable pub take_result : String → Memory → Option (Memory × Result Record)
unfolding take_resumed
take_result id m = take_resumed (lookup id m.events) id m

abbrev cancel_if : String → Record → Option Value → Memory → Memory × Result (Unit {0})
cancel_if id r none m = (m, err key_error)
cancel_if id r (some status) m = if is_terminal_value status then (m, ok tt) else (
  record m {
    jobs = insert id (insert "request_cancel" (str "1") r) m.jobs;
    flags = set_event (lookup id m.cancels) m.flags;
  },
  ok tt,
)

unfoldable pub request_cancel : String → Memory → Memory × Result (Unit {0})
request_cancel id m = elim (lookup id m.jobs) [
  | none ↦ (m, ok tt)
  | some r ↦ cancel_if id r (lookup "status" r) m
]

-- An exception ends a loop; otherwise the rest of it follows.
abbrev pub unless_raised :
    Memory × Result (Unit {0}) → Memory × Result (Unit {0}) → Memory × Result (Unit {0})
unless_raised (m, ok _) rest = rest
unless_raised (m, err e) rest = (m, err e)

unfoldable pub request_cancel_many : List String → Memory → Memory × Result (Unit {0})
request_cancel_many [] m = (m, ok tt)
request_cancel_many (id ∷ ids) m =
    let rest = request_cancel_many ids (request_cancel id m).0 in
    unless_raised (request_cancel id m) rest

-- `wait_cancel`: the event to wait for, or the `KeyError`.
unfoldable pub wait_cancel : String → Memory → Result ℕ
wait_cancel id m = elim (lookup id m.cancels) [ none ↦ err key_error | some e ↦ ok e ]

-- A single process outlives none of its leases: these three do nothing.
abbrev pub heartbeat : Memory → Memory
heartbeat m = m

abbrev pub reap : Memory → Memory × ℕ
reap m = (m, 0)

abbrev pub deregister : Memory → Memory
deregister m = m
