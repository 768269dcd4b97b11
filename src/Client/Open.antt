-- ===== src/Client/Open.antt =====
-- src/TaskQueue/queue.py: `worker`, `group` and `root_group`, which open a worker pool or a scope on the
-- queue's backend. Arguments that are left out are `none`.
use task_queue.Base.{ℕ, String, ◌==◌, Option, none, some, if◌then◌else◌}
use task_queue.Python.{value_error, Result, ok, err, ◌>>=◌}
use task_queue.Worker.Pool.{Pool, new_pool}
use task_queue.Group.{Group, OnError, cancel_siblings, ignore, collect, new_group}

-- `DEFAULT_HEARTBEAT_INTERVAL_SECONDS`, in milliseconds
abbrev pub default_interval_ms : ℕ
default_interval_ms = 10000

-- `OnError(on_error)`: a member, or the text of one.
pub data OnErrorArgument : Type 0 where
  member : OnError → OnErrorArgument
  text : String → OnErrorArgument

abbrev pub on_error_of : Option OnErrorArgument → Result OnError
on_error_of none = ok cancel_siblings
on_error_of (some (member m)) = ok m
on_error_of (some (text s)) =
    if s == "cancel_siblings"
    then ok cancel_siblings
    else if s == "ignore"
    then ok ignore
    else if s == "collect"
    then ok collect
    else err value_error

abbrev pub or_default : Option ℕ → ℕ → ℕ
or_default none d = d
or_default (some n) d = n

-- `worker`; `worker_ttl` is the backend's, if it has one.
unfoldable pub open_worker : Option ℕ → Option ℕ → Option ℕ → Result Pool
open_worker worker_ttl concurrency interval_ms =
    new_pool worker_ttl (or_default concurrency 1) (or_default interval_ms default_interval_ms)

-- `group`; `id` is what `uuid4().hex` returns.
unfoldable pub open_group : String → Option OnErrorArgument → Result Group
open_group id on_error = on_error_of on_error >>= λ m. ok (new_group id m)

-- `root_group`
unfoldable pub open_root_group : String → Option OnErrorArgument → Result Group
open_root_group id on_error = on_error_of on_error >>= λ m. ok (new_group id m)
