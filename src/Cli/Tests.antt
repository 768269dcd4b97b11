-- ===== src/Cli/Tests.antt =====
-- Runs of src/TaskQueue/cli.py.
use Prim.Native.String.{◌++◌ as concat}
use task_queue.Base.{
  count, false, String, ℕ, ◌≡◌, refl, ◌≢◌, true, Option, none, some, List, [], ◌∷◌, inl,
}
use task_queue.Python.{Result, ok}
use task_queue.Worker.Pool.{Pool, going, ended}
use task_queue.Cli.{Imported, imported, resolve_queue, partition, stop_pool, drain_over}
use task_queue.Cli.Available.{
  ModuleInfo, available, available_lists, shipped, ascending, sorted, place, shipped_names,
  without_suffix, text_le,
}
use task_queue.Cli.Target.{no_colon, resolve_queue_sound}
use task_queue.Cli.Shutdown.{cancelled_once, stop_pool_once}

-- The modules are their own names, and `queue` of `app` is the queue 7.
abbrev import_module : String → Imported String
import_module name = imported name

abbrev get_attribute : String → String → Option ℕ
get_attribute m name = some 7

abbrev as_queue : ℕ → Option ℕ
as_queue target = some target

resolve_queue_sound_example :
    (module_name : String) × (name : String) × ("app:queue" ≡ concat module_name (concat ":" name))
    × (no_colon module_name ≡ true)
    × (module_name ≢ "")
    × (name ≢ "")
    × ((m : String) × (target : ℕ) × (import_module module_name ≡ imported m)
        × (get_attribute m name ≡ some target)
        × (as_queue target ≡ some 7))
unfolding resolve_queue partition
resolve_queue_sound_example =
    resolve_queue_sound import_module get_attribute as_queue "app:queue" 7 refl

-- A backend that notes the calls: a released id, and the withdrawal.
abbrev noted : String → List String → List String × Result (Unit {0})
noted name s = (name ∷ s, ok tt)

abbrev pool : Pool
pool = record {
  concurrency = 2;
  interval_ms = 1000;
  workers = going (some "a") ∷ going none ∷ [];
  running = true;
  entered = true;
  upkeep = true;
}

stop_pool_once_example :
    stop_pool
      (noted "beat")
      (noted "gone")
      noted
      (drain_over (going (some "a") ∷ ended ∷ []))
      pool
      []
    ≡ cancelled_once (noted "beat") (noted "gone") noted (going (some "a") ∷ ended ∷ []) pool []
stop_pool_once_example =
    stop_pool_once (noted "beat") (noted "gone") noted (drain_over (going (some "a") ∷ ended ∷ []))
      (going (some "a") ∷ ended ∷ []) (going (some "a")) (going none ∷ []) pool [] refl (inl refl)

-- The modules of the package `backends`, and one package that is no backend.
abbrev modules : List ModuleInfo
modules =
    record { name = "redis_backend"; ispkg = false }
    ∷ record { name = "interface"; ispkg = false }
    ∷ record { name = "memory_backend"; ispkg = false }
    ∷ record { name = "old_backend"; ispkg = true }
    ∷ []

available_run : available modules "_backend" ≡ "memory" ∷ "redis" ∷ []
unfolding available sorted place shipped_names without_suffix text_le
available_run = refl

available_lists_example :
    ((x : String) → count x (available modules "_backend") ≡ shipped x "_backend" modules)
    × (ascending (available modules "_backend") ≡ true)
available_lists_example = available_lists modules "_backend"
