-- ===== src/Group/Tests.antt =====
-- Runs of src/TaskQueue/job_group.py.
use Prim.Native.Char.{Char}
use Prim.Native.String.{◌∷◌ as char_cons}
use task_queue.Base.{
  Option, true, member, String, ◌≡◌, ◌≢◌, refl, false, ◌||◌, ◌&&◌, none, some, List, [], ◌∷◌,
}
use task_queue.Base.Dict.{lookup, insert}
use task_queue.Python.{
  ok, Result, cancelled_error, cons, nil, num, end, job_cancelled, value_error, foreign, err, str,
}
use task_queue.Memory.{Memory, empty, enqueue, request_cancel_many}
use task_queue.Memory.Waiting.{is_pending, is_requested}
use task_queue.Memory.Life.{Inv, here, next, enqueues, Reach-Inv}
use task_queue.Group.{
  Group, cancel_siblings, waits, finished, raising, timed_out, interrupted, exit,
}
use task_queue.Group.Child.{JobContext, seed, child_id, next_seed, nth_spawn, next_seed-fresh}
use task_queue.Group.Failures.{Event, ends, calls, watch, watch-failures}
use task_queue.Job.Tests.Codec.{codec, clock}
use task_queue.Client.Task.{submit}
use task_queue.Job.Record.{new_job, to_record}
use task_queue.Base.Decimal.{to_text}
use task_queue.Client.Handle.{Handle, new_handle}
use task_queue.Backend.InMemory.{memory_backend, memory_stored}
use task_queue.Backend.InMemory.Reading.{memory_backend-Contract}
use task_queue.Group.Spawn.{spawn}
use task_queue.Group.Children.{spawn_again, spawn-exit_cancels}
use task_queue.Group.Exit.{exit_cancels}

abbrev scope : Group
scope = record {
  id = "g";
  entered = true;
  on_error = cancel_siblings;
  handles = "a" ∷ "b" ∷ [];
  waiters = ("a", finished (err value_error)) ∷ ("b", waits) ∷ [];
  failures = [];
  cancelling = false;
  fanout = none;
}

abbrev watched : Group
watched = record scope { waiters = ("a", waits) ∷ ("b", waits) ∷ ("c", waits) ∷ [] }

-- `a` and then `b` fail before a callback runs, so only `c` is asked to cancel.
abbrev events : List Event
events =
    ends "a" (err value_error)
    ∷ ends "b" (err (foreign "x"))
    ∷ calls "a"
    ∷ calls "b"
    ∷ ends "c" (err job_cancelled)
    ∷ calls "c"
    ∷ []

watch-failures_example :
    let g = watch events watched in
    (g.failures ≡ value_error ∷ foreign "x" ∷ []) × (g.fanout ≡ some ("c" ∷ []))
watch-failures_example = watch-failures events watched refl refl

abbrev spawned : Memory
spawned = enqueue "a" (("id", str "a") ∷ []) empty

spawned-Inv : Inv spawned
spawned-Inv = Reach-Inv (next here (enqueues "a" (("id", str "a") ∷ [])))

exit_cancels_example :
    let (m', leaves) = exit request_cancel_many scope timed_out spawned in
    (leaves ≡ raising (foreign "TimeoutError"))
    × ((j : String)
        → is_requested (lookup j m'.jobs) ≡ (
            is_requested (lookup j spawned.jobs)
            || (member j scope.handles && is_pending (lookup j spawned.jobs))))
exit_cancels_example =
    exit_cancels scope timed_out (foreign "TimeoutError") "a" ("b" ∷ []) spawned spawned-Inv.stated
      refl refl

next_seed-fresh_example :
    next_seed (nth_spawn 2 (record { job_id = "a"; spawns = 0 }))
    ≢ next_seed (record { job_id = "a"; spawns = 0 })
next_seed-fresh_example = next_seed-fresh 1 (record { job_id = "a"; spawns = 0 })

abbrev digest : String → String
digest text = char_cons letter text
  where
    letter : Char
    letter = "c"

digest_full : (text : String) → digest text ≢ ""
digest_full text e = cc

abbrev parent : JobContext
parent = record { job_id = "a"; spawns = 0 }

abbrev child : Handle
child = new_handle (digest (seed "a" 0))

abbrev once : Memory × Group × Option JobContext × Result Handle
once =
    spawn enqueue codec clock digest "add" (cons (num 3) nil) end "f1" 1000 scope (some parent)
      spawned

once_ok : once.3 ≡ ok child
unfolding spawn submit to_record new_job child_id seed to_text
once_ok = refl

spawn_again_example :
    let (t, g₂, c₂, res) =
      spawn enqueue codec clock digest "add"
        (cons (num 3) nil)
        end
        "f2"
        2000
        scope
        (some parent)
        once.0 in
    (t ≡ once.0)
    × ((h' : Handle) → res ≡ ok h' → (h' ≡ child) × (member h'.job_id g₂.handles ≡ true))
unfolding lookup insert enqueue spawn submit to_record new_job child_id seed to_text
spawn_again_example =
    spawn_again memory_backend memory_stored Inv memory_backend-Contract codec clock digest
      digest_full "add" "add" (cons (num 3) nil) (cons (num 3) nil) end end "f1" "f2" 1000 2000
      scope scope parent spawned once.0 child once_ok refl

spawn-exit_cancels_example :
    let (m₂, leaves) = exit request_cancel_many once.1 interrupted once.0 in
    (leaves ≡ raising cancelled_error) × (is_requested (lookup child.job_id m₂.jobs) ≡ true)
unfolding lookup insert enqueue spawn submit to_record new_job child_id seed to_text
spawn-exit_cancels_example =
    spawn-exit_cancels codec clock digest digest_full "add" (cons (num 3) nil) end "f1" 1000 scope
      once.1 parent once.2 spawned once.0 child interrupted cancelled_error spawned-Inv.stated refl
      refl refl
