-- ===== src/Group.antt =====
-- src/TaskQueue/job_group.py: the state of a `JobGroup`, and what its watcher, its join modes and its
-- exits do; src/TaskQueue/context.py, which numbers the spawns of a job, is in `Child`.
pub mod Child
pub mod Failures
pub mod Exit
pub mod Spawn
pub mod Children
mod Tests
use task_queue.Base.{
  String, Bool, true, false, Option, none, some, List, [], ◌∷◌, ◌++◌, ◌&&◌, if◌then◌else◌,
}
use task_queue.Python.{Error, job_cancelled, cancelled_error, foreign, Result, ok, err, Any}

pub data OnError : Type 0 where
  cancel_siblings ignore collect : OnError

-- A waiter is the task that awaits one child's `result()`.
pub data Waiter : Type 0 where
  waits dropped : Waiter
  finished : Result Any → Waiter

-- `handles` are the ids of the children in the order of the spawns. `fanout` is the list that the
-- watcher's `request_cancel_many` was given.
pub record Group : Type 0 where
  pub id : String
  pub entered : Bool
  pub on_error : OnError
  pub handles : List String
  pub waiters : List (String × Waiter)
  pub failures : List Error
  pub cancelling : Bool
  pub fanout : Option (List String)

-- `JobGroup(backend, on_error)`, with what `uuid4().hex` returns
abbrev pub new_group : String → OnError → Group
new_group id on_error = record {
  id = id;
  entered = false;
  on_error = on_error;
  handles = [];
  waiters = [];
  failures = [];
  cancelling = false;
  fanout = none;
}

-- `__aenter__`
abbrev pub enter_scope : Group → Group
enter_scope g = record g { entered = true }

-- `isinstance(failure, JobCancelled)`
abbrev pub is_job_cancelled : Error → Bool
is_job_cancelled job_cancelled = true
is_job_cancelled _ = false

-- `[h.job_id for w, h in self._waiters.items() if not w.done()]`
abbrev pub add_waiting : String → Waiter → List String → List String
add_waiting id waits ids = id ∷ ids
add_waiting id _ ids = ids

abbrev pub still_running : List (String × Waiter) → List String
still_running [] = []
still_running ((id, w) ∷ ws) = add_waiting id w (still_running ws)

abbrev pub failed : Error → Group → Group
failed e g =
    if g.cancelling && is_job_cancelled e
    then g
    else if g.cancelling
    then record g { failures = g.failures ++ e ∷ [] }
    else record g {
      failures = g.failures ++ e ∷ [];
      cancelling = true;
      fanout = some (still_running g.waiters);
    }

-- `_job_finished`, for a waiter as it is when the callback runs.
unfoldable pub job_finished : Waiter → Group → Group
job_finished waits g = g
job_finished dropped g = g
job_finished (finished (ok v)) g = g
job_finished (finished (err e)) g = failed e g

-- `[res for res in results if isinstance(res, BaseException)]` of the gathered results; a waiter that
-- was cancelled counts as a CancelledError.
abbrev pub collected : List (String × Waiter) → List Error
collected [] = []
collected ((id, finished (err e)) ∷ ws) = e ∷ collected ws
collected ((id, dropped) ∷ ws) = cancelled_error ∷ collected ws
collected ((id, finished (ok v)) ∷ ws) = collected ws
collected ((id, waits) ∷ ws) = collected ws

-- `_join`, once every waiter is done: what it returns.
unfoldable pub join : Group → List Error
join g = elim g.on_error [
  | ignore ↦ []
  | collect ↦ collected g.waiters
  | cancel_siblings ↦ g.failures
]

-- `_settle`: every waiter that is not done is cancelled.
abbrev pub settled_waiter : Waiter → Waiter
settled_waiter waits = dropped
settled_waiter dropped = dropped
settled_waiter (finished x) = finished x

abbrev pub settled_waiters : List (String × Waiter) → List (String × Waiter)
settled_waiters [] = []
settled_waiters ((id, w) ∷ ws) = (id, settled_waiter w) ∷ settled_waiters ws

unfoldable pub settle_scope : Group → Group
settle_scope g = record g { waiters = settled_waiters g.waiters }

-- How the `async with` block and the wait for the children ended.
pub data Ending : Type 0 where
  body_raised : Error → Ending
  joined timed_out interrupted : Ending

-- What `__aexit__` leaves with: nothing, an exception of its own or of the body, or an ExceptionGroup.
pub data Leaves : Type 0 where
  quietly : Leaves
  raising : Error → Leaves
  raising_group : List Error → Leaves

abbrev pub raise_failures : List Error → Leaves
raise_failures [] = quietly
raise_failures (e ∷ es) = raising_group (e ∷ es)

-- `cancel_all_jobs` asks the backend for every child.
module _ {S : Type 0} (request_cancel_many : List String → S → S × Result (Unit {0})) where
  abbrev pub cancel_all_jobs : Group → S → S × Result (Unit {0})
  cancel_all_jobs g s = request_cancel_many g.handles s

  abbrev pub asked : Group → S × Result (Unit {0}) → S × Group × Result (Unit {0})
  asked g (s, res) = (s, record g { cancelling = true }, res)

  -- `cancel_siblings_mode`, behind its first wait: the siblings that are still running are asked to
  -- cancel, unless the watcher has done so.
  unfoldable pub backstop : Group → S → S × Group × Result (Unit {0})
  backstop g s = elim (still_running g.waiters) [
    | [] ↦ (s, g, ok tt)
    | id ∷ ids ↦ if g.cancelling then (s, g, ok tt) else asked g (request_cancel_many (id ∷ ids) s)
  ]

  -- An exception of the backend comes out in place of the one that is on its way.
  abbrev pub after_cancel : S × Result (Unit {0}) → Leaves → S × Leaves
  after_cancel (s, ok u) l = (s, l)
  after_cancel (s, err e) l = (s, raising e)

  abbrev pub leave_scope : Group → Ending → S → S × Leaves
  leave_scope g joined s = (s, raise_failures (join g))
  leave_scope g timed_out s = after_cancel (cancel_all_jobs g s) (raising (foreign "TimeoutError"))
  leave_scope g interrupted s = after_cancel (cancel_all_jobs g s) (raising cancelled_error)
  leave_scope g (body_raised e) s = after_cancel (cancel_all_jobs g s) (raising e)

  -- `__aexit__`; without children nothing is waited for.
  unfoldable pub exit : Group → Ending → S → S × Leaves
  unfolding join
  exit g (body_raised e) s = leave_scope g (body_raised e) s
  exit g ending s = elim g.handles [ [] ↦ (s, quietly) | id ∷ ids ↦ leave_scope g ending s ]
