-- ===== src/Job/Status.antt =====
-- src/TaskQueue/job.py, `JobStatus`, and `_TERMINAL` of src/TaskQueue/backends/redis_backend.py.
use task_queue.Base.{String, ◌==◌, ◌≡◌, refl, Bool, ◌||◌, Option, none, some, if◌then◌else◌}

pub data JobStatus : Type 0 where
  created queued running completed failed cancelled : JobStatus

-- `status.value`
abbrev pub value : JobStatus → String
value created = "created"
value queued = "queued"
value running = "running"
value completed = "completed"
value failed = "failed"
value cancelled = "cancelled"

-- `JobStatus(text)`; `none` is the `ValueError`.
unfoldable pub of_value : String → Option JobStatus
of_value s =
    if s == "created"
    then some created
    else if s == "queued"
    then some queued
    else if s == "running"
    then some running
    else if s == "completed"
    then some completed
    else if s == "failed"
    then some failed
    else if s == "cancelled"
    then some cancelled
    else none

-- `status in _TERMINAL`
unfoldable pub is_terminal : String → Bool
is_terminal s = s == "completed" || (s == "failed" || s == "cancelled")

pub of_value-value : (s : JobStatus) → of_value (value s) ≡ some s
unfolding of_value
of_value-value created = refl
of_value-value queued = refl
of_value-value running = refl
of_value-value completed = refl
of_value-value failed = refl
of_value-value cancelled = refl
