-- ===== src/Group/Exit.antt =====
-- src/TaskQueue/job_group.py, `__aexit__`, over the memory backend: no exit that ends with an exception
-- of the body, a deadline or a cancellation leaves a child without a request to cancel.
use task_queue.Base.{member, String, ◌≡◌, refl, ◌||◌, ◌&&◌, Option, none, some, List, ◌∷◌, arith}
use task_queue.Base.Dict.{lookup}
use task_queue.Python.{Error, cancelled_error, foreign, Result, ok, err}
use task_queue.Memory.{Memory, request_cancel_many}
use task_queue.Memory.Waiting.{is_pending, is_requested}
use task_queue.Memory.Stated.{Stated}
use task_queue.Memory.Cancel.{request_cancel_many_flags}
use task_queue.Group.{
  Group, Ending, body_raised, joined, timed_out, interrupted, Leaves, raising, exit, after_cancel,
}

-- The exception that an ending brings up, if it brings one up.
abbrev pub exception_of : Ending → Option Error
exception_of joined = none
exception_of timed_out = some (foreign "TimeoutError")
exception_of interrupted = some cancelled_error
exception_of (body_raised e) = some e

after_cancel-ok :
    (p : Memory × Result (Unit {0})) (l : Leaves)
    → p.1 ≡ ok tt
    → after_cancel request_cancel_many p l ≡ (p.0, l)
after_cancel-ok (m, ok u) l h = refl
after_cancel-ok (m, err e) l h = cc

exit_by :
    (g : Group) (ending : Ending) (e : Error) (id : String) (ids : List String) (m : Memory)
    → g.handles ≡ id ∷ ids
    → exception_of ending ≡ some e
    → exit request_cancel_many g ending m
      ≡ after_cancel request_cancel_many (request_cancel_many g.handles m) (raising e)
unfolding exit
exit_by g joined e id ids m child h = cc
exit_by g timed_out e id ids m child h = ground arith
exit_by g interrupted e id ids m child h = ground arith
exit_by g (body_raised x) e id ids m child h = ground arith

-- After an exit by an exception, in a store where every record has a status: that exception, and no
-- other, comes out; every child that is not terminal has its cancel flag set; and no other job's flag
-- changes. This is for a scope with at least one child.
pub exit_cancels :
    (g : Group) (ending : Ending) (e : Error) (id : String) (ids : List String) (m : Memory)
    → Stated m
    → g.handles ≡ id ∷ ids
    → exception_of ending ≡ some e
    → let (m', leaves) = exit request_cancel_many g ending m in
      (leaves ≡ raising e)
      × ((j : String)
          → is_requested (lookup j m'.jobs) ≡ (
              is_requested (lookup j m.jobs)
              || (member j g.handles && is_pending (lookup j m.jobs))))
exit_cancels g ending e id ids m stated some_child raised_ =
    let (total, flags, _, _) = request_cancel_many_flags g.handles m stated in
    rw
      (
        exit_by g ending e id ids m some_child raised_,
        after_cancel-ok (request_cancel_many g.handles m) (raising e) total,
      )
      (refl, flags)
