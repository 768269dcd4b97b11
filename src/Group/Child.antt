-- ===== src/Group/Child.antt =====
-- src/TaskQueue/context.py, and `_child_id` of src/TaskQueue/job_group.py: ids of the jobs that a job
-- spawns. `sha1_hex` is the first 32 digits of the digest's hexadecimal form.
use Prim.Native.String.{◌++◌ as concat}
use mathlib.Core.Option.{some-injective}
use text.Mathlib.TextLemmas.{append_cancel_left}
use task_queue.Base.{
  zero, ◌≢◌, ℕ, suc, ◌+◌, String, ◌≡◌, refl, ◌∙◌, sym, ap, Option, none, some, arith,
}
use task_queue.Base.Decimal.{to_text, of_text, of_text-to_text}

pub record JobContext : Type 0 where
  pub job_id : String
  pub spawns : ℕ

-- `next_spawn`
abbrev pub next_spawn : JobContext → JobContext × ℕ
next_spawn c = (record c { spawns = suc c.spawns }, c.spawns)

-- f"{parent.job_id}:{ordinal}"
unfoldable pub seed : String → ℕ → String
seed id n = concat id (concat ":" (to_text n))

unfoldable pub child_id : (String → String) → Option JobContext → Option JobContext × Option String
child_id sha1_hex none = (none, none)
child_id sha1_hex (some c) =
    let (c', n) = next_spawn c in (some c', some (sha1_hex (seed c.job_id n)))

text_injective : (a b : ℕ) → to_text a ≡ to_text b → a ≡ b
text_injective a b e =
    some-injective a b (sym (of_text-to_text a) ∙ ap of_text e ∙ of_text-to_text b)

seed-injective : (id : String) (a b : ℕ) → seed id a ≡ seed id b → a ≡ b
unfolding seed
seed-injective id a b e = text_injective a b (
    append_cancel_left ":" (to_text a) (to_text b)
      (append_cancel_left id (concat ":" (to_text a)) (concat ":" (to_text b)) e))

-- The context after `n` spawns.
abbrev pub nth_spawn : ℕ → JobContext → JobContext
nth_spawn zero c = c
nth_spawn (suc n) c = nth_spawn n (next_spawn c).0

nth_spawn-count :
    (n : ℕ) (c : JobContext)
    → ((nth_spawn n c).job_id ≡ c.job_id) × ((nth_spawn n c).spawns ≡ c.spawns + n)
nth_spawn-count zero c = (refl, omega arith)
nth_spawn-count (suc n) c =
    let (same, count) = nth_spawn-count n (next_spawn c).0 in (same, omega (arith, count))

-- The seed of the next child.
abbrev pub next_seed : JobContext → String
next_seed c = seed c.job_id (next_spawn c).1

-- A job never spawns two children from one seed: after one spawn and any number of further ones, the
-- next child's seed is a new one.
pub next_seed-fresh : (n : ℕ) (c : JobContext) → next_seed (nth_spawn (suc n) c) ≢ next_seed c
next_seed-fresh n c e =
    let (same, count) = nth_spawn-count (suc n) c in
    let equal =
      seed-injective c.job_id (nth_spawn (suc n) c).spawns c.spawns
        (ap (λ id. seed id (nth_spawn (suc n) c).spawns) (sym same) ∙ e) in
    absurd (omega (arith, count, equal))
