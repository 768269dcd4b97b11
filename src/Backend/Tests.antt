-- ===== src/Backend/Tests.antt =====
-- Runs of the backends of src/TaskQueue/backends/.
use task_queue.Base.{String, ◌≡◌, refl, true, false, none, some, [], ◌∷◌, member}
use task_queue.Base.Dict.{lookup}
use task_queue.Python.{ok, str, Record}
use task_queue.Job.Status.{is_terminal}
use task_queue.Job.Record.{job_fields}
use task_queue.Redis.Keys.{job_key}
use task_queue.Redis.View.{View, or_no_fields}
use task_queue.Redis.Fleet.Leases.{last_of}
use task_queue.Redis.Backend.{save, is_terminal_job}
use task_queue.Redis.Waits.{take_result}
use task_queue.Redis.Tests.{config, busy}
use task_queue.Redis.Tests.Server.{server}
use task_queue.Backend.{Contract, is_plain}
use task_queue.Backend.OverRedis.{redis_backend, redis_stored, AnyState}
use task_queue.Backend.OverRedis.Reading.{redis_backend-Contract}
use task_queue.Backend.OverRedis.Taking.{take_result_behind_save}

redis_backend-Contract_example :
    Contract (redis_backend server config) (redis_stored server config) (AnyState server config)
redis_backend-Contract_example = redis_backend-Contract server config

abbrev done : Record
done = ("id", str "a") ∷ ("status", str "completed") ∷ []

abbrev saved : View
saved = (save server config "a" done true busy).0

busy_open : is_terminal_job server config "a" busy ≡ ok false
unfolding is_terminal_job is_terminal job_key
busy_open = refl

take_result_behind_save_example :
    (take_result server config "a" (busy ∷ []) saved ≡ none)
    × (db' : View) × (r' : Record) × (take_result server config "a" (busy ∷ saved ∷ []) saved
        ≡ some (db', ok r'))
    × ((k : String)
        → member k job_fields ≡ true
        → let kept = last_of k done (or_no_fields (redis_stored server config "a" busy) k) in
          is_plain k kept ≡ true → lookup k r' ≡ kept)
    × (redis_stored server config "a" db' ≡ none)
unfolding job_key is_terminal
take_result_behind_save_example =
    take_result_behind_save server config "a" done "completed" (busy ∷ []) busy saved
      (busy_open, tt) refl (λ old. refl) refl refl
