-- ===== src/Cli.antt =====
-- src/TaskQueue/cli.py: the target of a worker, the run of a pool until it is told to stop, and the
-- exit codes. The import system, and what an object is, are parameters.
pub mod Target
pub mod Available
pub mod Shutdown
mod Tests
use Prim.Native.Char.{Char, code}
use Prim.Native.String.{[] as no_text, ◌∷◌ as char_cons}
use task_queue.Base.{
  ℕ, String, ◌==◌, Bool, true, false, Option, none, some, List, [], ◌∷◌, ◌||◌, if◌then◌else◌,
  nat_eq,
}
use task_queue.Python.{Error, config_error, Result, ok, err}
use task_queue.Cli.Available.{ModuleInfo, available}
use task_queue.Worker.Pool.{Pool, LoopTask, enter, drain, exit}

-- Whether a character is `:`.
abbrev pub is_colon : Char → Bool
is_colon c = nat_eq (code c) 58

abbrev pub cons_first : Char → String × String → String × String
cons_first c (a, b) = (char_cons c a, b)

-- `spec.partition(":")`, without the separator: the parts before and behind the first colon, and the
-- whole text and nothing if there is none.
unfoldable pub partition : String → String × String
partition no_text = ("", "")
partition (char_cons c s) =
    let rest = partition s in if is_colon c then ("", s) else cons_first c rest

-- How an import ended.
pub data Imported (Module : Type 0) : Type 0 where
  imported : Module → Imported Module
  import_error : Imported Module
  import_raised : Error → Imported Module

-- Why a target is refused with a `TargetError`.
pub data Refusal : Type 0 where
  bad_form cannot_import no_attribute not_a_queue : Refusal

pub data Resolution (Queue : Type 0) : Type 0 where
  resolved : Queue → Resolution Queue
  refused : Refusal → Resolution Queue
  raised : Error → Resolution Queue

module _ {Module Object Queue : Type 0} (import_module : String → Imported Module)
    (get_attribute : Module → String → Option Object) (as_queue : Object → Option Queue) where
  abbrev pub or_not_queue : Option Queue → Resolution Queue
  or_not_queue none = refused not_a_queue
  or_not_queue (some q) = resolved q

  abbrev pub attribute : Option Object → Resolution Queue
  attribute none = refused no_attribute
  attribute (some target) = or_not_queue (as_queue target)

  abbrev pub from_module : Imported Module → String → Resolution Queue
  from_module (imported m) name = attribute (get_attribute m name)
  from_module import_error name = refused cannot_import
  from_module (import_raised e) name = raised e

  abbrev pub resolve_parts : String × String → Resolution Queue
  resolve_parts (module_name, queue_name) =
      if module_name == "" || queue_name == ""
      then refused bad_form
      else from_module (import_module module_name) queue_name

  unfoldable pub resolve_queue : String → Resolution Queue
  resolve_queue spec = resolve_parts (partition spec)

-- What ended the wait after the first signal: the drain, with the loops as its own wait left them, or
-- a second signal.
pub data Stop : Type 0 where
  drain_over second_signal : List LoopTask → Stop

module _ {S : Type 0} (heartbeat deregister : S → S × Result (Unit {0}))
    (release : String → S → S × Result (Unit {0})) where
  -- A drain that is cancelled has stopped the claims, and no more.
  abbrev pub wind_down : Stop → Pool → S → S × Pool
  wind_down (drain_over workers) p s =
      let (s', p', _) = drain heartbeat deregister release workers p s in (s', p')
  wind_down (second_signal workers) p s = (s, record p { running = false; workers = workers })

  abbrev pub leave : S × Pool → S × Pool × Result (Unit {0})
  leave (s, p) = exit heartbeat deregister release p s

  -- The body of `async with pool` and the exit, from the first signal on.
  unfoldable pub stop_pool : Stop → Pool → S → S × Pool × Result (Unit {0})
  stop_pool how p s = leave (wind_down how p s)

  -- `serve` is all that happens to the pool and the backend until the first signal.
  abbrev pub served :
      (Pool → S → Pool × S) → Stop → S × Pool × Result (Unit {0}) → S × Pool × Result (Unit {0})
  served serve how (s, p, err e) = (s, p, err e)
  served serve how (s, p, ok u) = let (p', s') = serve p s in stop_pool how p' s'

  -- `run_worker`, of a pool that was made
  unfoldable pub run_worker : (Pool → S → Pool × S) → Stop → Pool → S → S × Pool × Result (Unit {0})
  run_worker serve how p s = served serve how (enter heartbeat deregister release p s)

pub data Command : Type 0 where
  list_backends list_serializers : Command
  worker : String → Command

-- How `asyncio.run(run_worker(…))` ended.
pub data Served : Type 0 where
  returned config_refused interrupted : Served
  crashed : Error → Served

pub data Exit : Type 0 where
  exit_code : ℕ → Exit
  traceback : Error → Exit

abbrev pub exit_ok : ℕ
exit_ok = 0

abbrev pub exit_bad_target : ℕ
exit_bad_target = 1

abbrev pub exit_bad_config : ℕ
exit_bad_config = 3

abbrev pub exit_served : Served → Exit
exit_served returned = exit_code exit_ok
exit_served config_refused = exit_code exit_bad_config
exit_served interrupted = exit_code exit_ok
exit_served (crashed e) = traceback e

abbrev pub backend_suffix : String
backend_suffix = "_backend"

abbrev pub serializer_suffix : String
serializer_suffix = "_serializer"

-- `main`, behind the argument parser: the lines that it prints to the standard output, and how it ends.
-- `backends` and `serializers` are the modules of the two packages, `resolve` is `resolve_queue`, and
-- `run` serves a queue.
module _ {Queue : Type 0} (backends serializers : List ModuleInfo)
    (resolve : String → Resolution Queue) (run : Queue → Served) where
  abbrev pub exit_resolved : Resolution Queue → Exit
  exit_resolved (resolved q) = exit_served (run q)
  exit_resolved (refused r) = exit_code exit_bad_target
  exit_resolved (raised e) = traceback e

  unfoldable pub main : Command → List String × Exit
  main list_backends = (available backends backend_suffix, exit_code exit_ok)
  main list_serializers = (available serializers serializer_suffix, exit_code exit_ok)
  main (worker target) = ([], exit_resolved (resolve target))
