-- ===== src/Cli/Target.antt =====
-- src/TaskQueue/cli.py, `resolve_queue` and `main`: which targets are served.
use Prim.Native.Char.{Char}
use Prim.Native.String.{[] as no_text, ◌∷◌ as char_cons, ◌++◌ as concat}
use Prim.Native.String.append
use text.Mathlib.TextEquality.{Char-path}
use text.Mathlib.TextLemmas.{nil-append, cons-append}
use task_queue.Base.{
  String, ◌≡◌, ◌≢◌, refl, sym, ap, ◌∙◌, Bool, true, false, not, Option, none, some, ◌⊎◌, inl, inr,
  ◌&&◌, arith, Bool-cases, Option-cases, text_cases,
}
use task_queue.Cli.{
  is_colon, partition, cons_first, Imported, imported, import_error, import_raised, resolved,
  resolve_queue, resolve_parts, from_module, attribute,
}

-- Whether a text has no colon.
unfoldable pub no_colon : String → Bool
no_colon no_text = true
no_colon (char_cons c s) = not (is_colon c) && no_colon s

partition-cons :
    (c : Char) (s : String)
    → is_colon c ≡ false
    → partition (char_cons c s) ≡ cons_first c (partition s)
unfolding partition
partition-cons c s h = rw h refl

colon_text : (c : Char) → is_colon c ≡ true → c ≡ ":"
colon_text c h = Char-path c ":" (ground arith)

colon-append : (s : String) → concat ":" s ≡ char_cons ":" s
colon-append s = append.cons colon rest s ∙ ap (char_cons colon) (nil-append s)
  where
    colon : Char
    colon = ":"

    rest : String
    rest = ""

-- A partition puts the text back together.
partition-join :
    (s : String)
    → (no_colon (partition s).0 ≡ true)
      × ((s ≡ concat (partition s).0 (concat ":" (partition s).1)) ⊎ ((partition s).1 ≡ ""))
unfolding partition no_colon
partition-join no_text = (refl, inr refl)
partition-join (char_cons c s) = elim (Bool-cases (is_colon c)) [
  | inl here ↦ rw here (
    refl,
    inl (
        ap (λ d. char_cons d s) (colon_text c here)
        ∙ sym (colon-append s)
        ∙ sym (nil-append (concat ":" s))),
  )
  | inr later ↦
      let (clean, parts) = partition-join s in
      rw later (
        rw later clean,
        elim parts [
          | inl joined ↦ inl (
              ap (char_cons c) joined
              ∙ sym (cons-append c (partition s).0 (concat ":" (partition s).1)))
          | inr nothing ↦ inr nothing
        ],
      )
]

module _ {Module Object Queue : Type 0} (import_module : String → Imported Module)
    (get_attribute : Module → String → Option Object) (as_queue : Object → Option Queue) where
  target_inv :
      (o : Option Object) (q : Queue)
      → attribute import_module get_attribute as_queue o ≡ resolved q
      → (target : Object) × (o ≡ some target) × (as_queue target ≡ some q)
  target_inv none q h = cc
  target_inv (some target) q h = elim (Option-cases (as_queue target)) [
    | inl other ↦ absurd (ground arith)
    | inr (q', found) ↦ (target, refl, ground arith)
  ]

  module_inv :
      (x : Imported Module) (name : String) (q : Queue)
      → from_module import_module get_attribute as_queue x name ≡ resolved q
      → (m : Module) × (target : Object) × (x ≡ imported m)
        × (get_attribute m name ≡ some target)
        × (as_queue target ≡ some q)
  module_inv (imported m) name q h =
      let (target, found, is_queue) = target_inv (get_attribute m name) q h in
      (m, target, refl, found, is_queue)
  module_inv import_error name q h = cc
  module_inv (import_raised e) name q h = cc

  parts_inv :
      (a b : String) (q : Queue)
      → resolve_parts import_module get_attribute as_queue (a, b) ≡ resolved q
      → (a ≢ "")
        × (b ≢ "")
        × (from_module import_module get_attribute as_queue (import_module a) b ≡ resolved q)
  parts_inv a b q h = elim (text_cases a "") [
    | inl (_, bare) ↦ absurd (ground arith)
    | inr (named, some_module) ↦ elim (text_cases b "") [
      | inl (_, bare) ↦ absurd (ground arith)
      | inr (chosen, some_name) ↦ (named, chosen, ground arith)
    ]
  ]

  -- A target that is resolved has the form `<module>:<attr>`, split at its first colon, with both halves
  -- there; importing the module succeeded, and its attribute is the queue that is served.
  pub resolve_queue_sound :
      (spec : String) (q : Queue)
      → resolve_queue import_module get_attribute as_queue spec ≡ resolved q
      → (module_name : String) × (name : String) × (spec ≡ concat module_name (concat ":" name))
        × (no_colon module_name ≡ true)
        × (module_name ≢ "")
        × (name ≢ "")
        × ((m : Module) × (target : Object) × (import_module module_name ≡ imported m)
            × (get_attribute m name ≡ some target)
            × (as_queue target ≡ some q))
  unfolding resolve_queue
  resolve_queue_sound spec q h =
      let (named, chosen, found) = parts_inv (partition spec).0 (partition spec).1 q h in
      let (clean, joined) = partition-join spec in
      (
        (partition spec).0,
        (partition spec).1,
        elim joined [ inl e ↦ e | inr nothing ↦ absurd (chosen nothing) ],
        clean,
        named,
        chosen,
        module_inv (import_module (partition spec).0) (partition spec).1 q found,
      )
