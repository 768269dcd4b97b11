-- ===== src/Client/Registry.antt =====
-- src/TaskQueue/queue.py: the task registry and the default names.
use Prim.Native.String.{◌++◌ as concat}
use task_queue.Base.{
  String, ◌==◌, eq_iff, ◌≡◌, refl, ℕ, Option, none, some, List, [], ◌∷◌, if◌then◌else◌, arith,
}
use task_queue.Base.Dict.{Dict, lookup, contains, insert, lookup-insert}
use task_queue.Python.{task_name_error, Result, ok, err}

-- A function, by its identity, with `__module__` and `__name__`.
pub record Function : Type 0 where
  pub object : ℕ
  pub module_name : String
  pub name : String

-- The part of a `Queue` that the registry needs; a task is its function.
pub record Queue : Type 0 where
  pub namespace : Option String
  pub registry : Dict Function

-- `_derive_name`
unfoldable pub derive_name : Option String → Function → Result String
derive_name (some namespace) f = ok (concat namespace (concat "." f.name))
derive_name none f =
    if f.module_name == "__main__"
    then err task_name_error
    else ok (concat f.module_name (concat "." f.name))

-- `name or self._derive_name(f)`
abbrev pub task_name : Option String → Queue → Function → Result String
task_name none q f = derive_name q.namespace f
task_name (some s) q f = if s == "" then derive_name q.namespace f else ok s

abbrev pub register_as : Result String → Queue → Function → Queue × Result String
register_as (err e) q f = (q, err e)
register_as (ok name) q f =
    if contains name q.registry
    then (q, err task_name_error)
    else (record q { registry = insert name f q.registry }, ok name)

-- `task`; the name of the new task is given back.
unfoldable pub task : Option String → Queue → Function → Queue × Result String
task name q f = register_as (task_name name q f) q f

-- Every decorator of a program, one after the other, each exception caught.
abbrev pub tasks : List (Option String × Function) → Queue → Queue
tasks [] q = q
tasks ((name, f) ∷ fs) q = tasks fs (task name q f).0

register_as-keeps :
    (x : Result String) (q : Queue) (f g : Function) (name : String)
    → lookup name q.registry ≡ some g
    → lookup name (register_as x q f).0.registry ≡ some g
register_as-keeps (err e) q f g name h = h
register_as-keeps (ok n) q f g name h =
    ground (arith, eq_iff n name, lookup-insert n name f q.registry)

task-keeps :
    (other : Option String) (q : Queue) (f g : Function) (name : String)
    → lookup name q.registry ≡ some g
    → lookup name (task other q f).0.registry ≡ some g
unfolding task
task-keeps other q f g name h = register_as-keeps (task_name other q f) q f g name h

-- A name that is bound stays bound to the same function, whatever is registered afterwards, under
-- explicit, default or repeated names: jobs that are queued under it keep their code.
pub tasks-keep :
    (fs : List (Option String × Function)) (q : Queue) (g : Function) (name : String)
    → lookup name q.registry ≡ some g
    → lookup name (tasks fs q).registry ≡ some g
tasks-keep [] q g name h = h
tasks-keep ((other, f) ∷ fs) q g name h =
    tasks-keep fs (task other q f).0 g name (task-keeps other q f g name h)

register_as-cases :
    (x : Result String) (q : Queue) (f : Function) (name : String)
    → (register_as x q f).1 ≡ ok name
    → (x ≡ ok name)
      × (lookup name q.registry ≡ none)
      × (lookup name (register_as x q f).0.registry ≡ some f)
register_as-cases (err e) q f name h = cc
register_as-cases (ok n) q f name h =
    ground (arith, eq_iff n name, lookup-insert n name f q.registry)

-- A registration that succeeds found its name unbound, and binds it to the function; one that raises
-- leaves the registry as it was.
pub task-binds :
    (given : Option String) (q : Queue) (f : Function)
    → ((name : String)
        → (task given q f).1 ≡ ok name
        → (lookup name q.registry ≡ none) × (lookup name (task given q f).0.registry ≡ some f))
      × ((task given q f).1 ≡ err task_name_error → (task given q f).0 ≡ q)
unfolding task
task-binds given q f = (
  λ name h.
      let (_, fresh, bound) = register_as-cases (task_name given q f) q f name h in (fresh, bound),
  by_name (task_name given q f),
)
  where
    by_name :
        (x : Result String)
        → (register_as x q f).1 ≡ err task_name_error
        → (register_as x q f).0 ≡ q
    by_name (err e) h = refl
    by_name (ok n) h = ground arith
