-- ===== src/Client/Tests.antt =====
-- Runs of src/TaskQueue/task.py, handle.py and queue.py over the memory backend.
use task_queue.Base.{Bool, String, ◌≡◌, refl, true, false, none, some, [], ◌∷◌}
use task_queue.Base.Dict.{lookup}
use task_queue.Python.{Result, value_error, Error, key_error, ok, err, num, cons, nil, end}
use task_queue.Job.Record.{new_job}
use task_queue.Job.Tests.{finished}
use task_queue.Job.Tests.Codec.{codec, clock}
use task_queue.Job.Status.{completed}
use task_queue.Memory.{Memory, empty, enqueue, claim, get_job, release, take_result}
use task_queue.Worker.Run.{Awaits, returned}
use task_queue.Worker.Loop.{again, round}
use task_queue.Worker.InMemory.{save_done}
use task_queue.Client.Handle.{Handle, new_handle, consume, result, status, result_of, result_again}
use task_queue.Client.Task.{submit}
use task_queue.Client.Registry.{Function, Queue, derive_name, task, tasks, tasks-keep}
use task_queue.Client.Open.{open_worker, open_group, text}
use task_queue.Redis.Backend.{default_worker_ttl}
use task_queue.Worker.Pool.{new_pool}
use task_queue.Worker.Liveness.{check_liveness}
use task_queue.Client.Outcome.{submit_work_result}

abbrev same_text : String → String
same_text s = s

abbrev message : Error → String
message e = "error"

abbrev double : Function
double = record { object = 1; module_name = "jobs"; name = "double" }

abbrev other : Function
other = record { object = 2; module_name = "jobs"; name = "double" }

abbrev no_tasks : Queue
no_tasks = record { namespace = none; registry = [] }

abbrev one_task : Queue
one_task = record { namespace = none; registry = ("jobs.double", double) ∷ [] }

abbrev is_ok {ℓ} : {A : Type ℓ} → Result A → Bool
is_ok (ok a) = true
is_ok (err e) = false

task_run : (task none no_tasks double).1 ≡ ok "jobs.double"
unfolding task derive_name lookup
task_run = refl

tasks-keep_example :
    lookup "jobs.double" (tasks ((none, other) ∷ (some "b", other) ∷ []) one_task).registry
    ≡ some double
unfolding lookup
tasks-keep_example =
    tasks-keep ((none, other) ∷ (some "b", other) ∷ []) one_task double "jobs.double" refl

abbrev holder : Handle
holder = record { job_id = "a"; job = some finished }

result_again_example :
    (result take_result get_job codec clock same_text holder empty
      ≡ some (empty, holder, ok (num 42)))
    × (status take_result get_job codec clock holder empty ≡ ok completed)
unfolding result_of consume
result_again_example =
    result_again take_result get_job codec clock same_text holder holder empty empty empty finished
      refl

abbrev returns : Awaits
returns = record {
  interrupted = false;
  job = some (returned (num 42));
  watch = none;
  unwatched = none;
  unwind_interrupted = false;
}

submit_work_result_example :
    let (m₁, handle) =
      submit enqueue codec clock "double" none (some "a") (cons (num 21) nil) end "f" 1700 empty in
    let (m₂, after) =
      round claim release save_done codec clock same_text message (λ name. true) returns m₁ in
    (handle ≡ ok (new_handle "a"))
    × (after ≡ again)
    × ((m₃ : Memory) × (h : Handle) × (result take_result get_job codec clock same_text
            (new_handle "a")
            m₂
          ≡ some (m₃, h, ok (num 42)))
        × (get_job "a" m₃ ≡ err key_error))
unfolding new_job lookup
submit_work_result_example =
    submit_work_result codec clock same_text message "double" (some "a") (cons (num 21) nil) end
      none "f" 1700 (λ name. true) returns (num 42) empty refl refl refl refl refl refl refl

-- The default settings of a worker and of a backend go together.
defaults_run : is_ok (open_worker (some default_worker_ttl) none none) ≡ true
unfolding open_worker new_pool check_liveness
defaults_run = refl

on_error_run : open_group "g" (some (text "stop")) ≡ err value_error
unfolding open_group
on_error_run = refl
