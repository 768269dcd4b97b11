-- ===== src/Heard/Tests/Handover.antt =====
-- A job over one server whose first run is interrupted in one worker process, and which another
-- finishes.
use task_queue.Base.{true, none, Option}
use task_queue.Python.{Result, Record}
use task_queue.Job.Tests.Codec.{codec, clock}
use task_queue.Redis.View.{View}
use task_queue.Redis.Backend.{claim}
use task_queue.Redis.Tests.{config, second}
use task_queue.Redis.Tests.Server.{server}
use task_queue.Worker.Run.{Awaits}
use task_queue.Heard.Tests.{same_text, message, waiting, returns}
use task_queue.Heard.Workers.{Process, round_of}

abbrev first : Process
first = record { config = config; registered = λ name. true }

abbrev other : Process
other = record { config = second; registered = λ name. true }

abbrev stopped : Awaits
stopped = record returns { interrupted = true; job = none }

abbrev claimed : View × Result (Option Record)
claimed = claim server config true true waiting

abbrev after_stop : View
after_stop = (round_of server codec clock same_text message first stopped waiting).0

abbrev claimed_again : View × Result (Option Record)
claimed_again = claim server second true true after_stop
