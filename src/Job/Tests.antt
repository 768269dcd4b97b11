-- ===== src/Job/Tests.antt =====
-- Runs of src/TaskQueue/job.py.
pub mod Codec
use task_queue.Base.{String, ◌≡◌, refl, Option, none, some, List, [], ◌∷◌, true, false}
use task_queue.Python.{ok, ◌>>=◌, Any, null, num, nil, cons, end, str, bytes, Record}
use task_queue.Job.Status.{JobStatus, running, completed}
use task_queue.Job.Record.{Job, to_record, from_record}
use task_queue.Job.RoundTrip.{from_record-to_record}
use task_queue.Job.Tests.Codec.{codec, clock}

abbrev pub finished : Job
finished = record {
  id = "a";
  task_name = "double";
  created_at = 1700;
  args = cons (num 21) nil;
  kwargs = end;
  status = completed;
  result = num 42;
  error = none;
  attempts = 1;
  request_cancel = false;
  group_id = some "g";
}

from_record-to_record_example :
    (to_record codec clock finished >>= from_record codec clock) ≡ ok finished
from_record-to_record_example =
    from_record-to_record codec clock finished refl (λ e. refl) (λ h. absurd (h refl))
