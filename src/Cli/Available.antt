-- ===== src/Cli/Available.antt =====
-- src/TaskQueue/cli.py, `available`: the names that the commands `backends` and `serializers` print.
-- What `pkgutil.iter_modules` finds is an argument.
use Prim.Native.Char.{Char, code}
use Prim.Native.String.{[] as no_text, ◌∷◌ as char_cons, ◌++◌ as concat}
use text.Mathlib.TextLemmas.{nil-append, cons-append}
use task_queue.Base.{
  ℕ, suc, ◌+◌, String, eq_iff, eq_refl, ne-eq_false, ◌==◌, ◌≡◌, ◌≢◌, refl, sym, ap, ◌∙◌, Bool, true,
  false, not, ◌&&◌, Option, none, some, List, [], ◌∷◌, arith, count, if◌then◌else◌, ltb, nat_eq,
  Bool-cases, Option-cases, inl, inr, text_cases,
}

-- `pkgutil.ModuleInfo`, without its finder.
pub record ModuleInfo : Type 0 where
  pub name : String
  pub ispkg : Bool

abbrev pub cons_option : Char → Option String → Option String
cons_option c none = none
cons_option c (some s) = some (char_cons c s)

-- `name.removesuffix(suffix)`, where `name.endswith(suffix)`
unfoldable pub without_suffix : String → String → Option String
without_suffix suffix no_text = if no_text == suffix then some "" else none
without_suffix suffix (char_cons c s) =
    let rest = without_suffix suffix s in
    if char_cons c s == suffix then some "" else cons_option c rest

-- The order of `str`: by the code points.
unfoldable pub text_le : String → String → Bool
text_le no_text t = true
text_le (char_cons c s) no_text = false
text_le (char_cons c s) (char_cons d t) =
    let rest = text_le s t in
    if ltb (code c) (code d) then true else (if nat_eq (code c) (code d) then rest else false)

-- `sorted`
unfoldable pub place : String → List String → List String
place x [] = x ∷ []
place x (y ∷ ys) = let rest = place x ys in if text_le x y then x ∷ y ∷ ys else y ∷ rest

unfoldable pub sorted : List String → List String
sorted [] = []
sorted (x ∷ xs) = place x (sorted xs)

abbrev pub add_name : Option String → List String → List String
add_name none xs = xs
add_name (some x) xs = x ∷ xs

unfoldable pub shipped_names : String → List ModuleInfo → List String
shipped_names suffix [] = []
shipped_names suffix (m ∷ ms) =
    let rest = shipped_names suffix ms in
    if m.ispkg then rest else add_name (without_suffix suffix m.name) rest

unfoldable pub available : List ModuleInfo → String → List String
available modules suffix = sorted (shipped_names suffix modules)

-- Each entry comes behind none that is greater.
unfoldable pub ascending : List String → Bool
ascending [] = true
ascending (x ∷ []) = true
ascending (x ∷ y ∷ ys) = text_le x y && ascending (y ∷ ys)

-- How many modules, other than packages, are called `x` and the suffix.
unfoldable pub shipped : String → String → List ModuleInfo → ℕ
shipped x suffix [] = 0
shipped x suffix (m ∷ ms) =
    let rest = shipped x suffix ms in
    if not m.ispkg && (m.name == concat x suffix) then suc rest else rest

text_le-total : (s t : String) → text_le s t ≡ false → text_le t s ≡ true
unfolding text_le
text_le-total no_text t h = absurd (ground arith)
text_le-total (char_cons c s) no_text h = refl
text_le-total (char_cons c s) (char_cons d t) h = ground (arith, text_le-total s t)

count-place : (x y : String) (ys : List String) → count x (place y ys) ≡ count x (y ∷ ys)
unfolding place
count-place x y [] = refl
count-place x y (z ∷ ys) = ground (arith, count-place x y ys)

count-sorted : (x : String) (xs : List String) → count x (sorted xs) ≡ count x xs
unfolding sorted
count-sorted x [] = refl
count-sorted x (y ∷ ys) = ground (arith, count-place x y (sorted ys), count-sorted x ys)

ascending-place :
    (x : String) (ys : List String) → ascending ys ≡ true → ascending (place x ys) ≡ true
unfolding place ascending
ascending-place x [] h = refl
ascending-place x (y ∷ []) h = ground (arith, text_le-total x y)
ascending-place x (y ∷ z ∷ ys) h = ground (arith, text_le-total x y, ascending-place x (z ∷ ys))

ascending-sorted : (xs : List String) → ascending (sorted xs) ≡ true
unfolding sorted ascending
ascending-sorted [] = refl
ascending-sorted (x ∷ xs) = ascending-place x (sorted xs) (ascending-sorted xs)

-- A text is not its own proper ending.
size : String → ℕ
size no_text = 0
size (char_cons c s) = suc (size s)

size-concat : (x s : String) → size (concat x s) ≡ size x + size s
unfolding size
size-concat no_text s = ground (arith, ap size (nil-append s))
size-concat (char_cons c x) s = ground (arith, ap size (cons-append c x s), size-concat x s)

longer : (c : Char) (x s : String) → char_cons c (concat x s) ≢ s
unfolding size
longer c x s e = absurd (ground (arith, ap size e, size-concat x s))

without_suffix-concat : (x suffix : String) → without_suffix suffix (concat x suffix) ≡ some x
unfolding without_suffix
without_suffix-concat no_text no_text = refl
without_suffix-concat no_text (char_cons d s) =
    ap (without_suffix (char_cons d s)) (nil-append (char_cons d s))
    ∙ ground (arith, eq_refl (char_cons d s))
without_suffix-concat (char_cons c x) suffix =
    ap (without_suffix suffix) (cons-append c x suffix)
    ∙ ground (
      arith,
      ne-eq_false (char_cons c (concat x suffix)) suffix (longer c x suffix),
      without_suffix-concat x suffix,
    )

without_suffix_sound :
    (s suffix y : String) → without_suffix suffix s ≡ some y → s ≡ concat y suffix
unfolding without_suffix
without_suffix_sound no_text suffix y h = ground (arith, eq_iff "" suffix, nil-append suffix)
without_suffix_sound (char_cons c s) suffix y h = elim (Bool-cases (char_cons c s == suffix)) [
  | inl same ↦ ground (arith, eq_iff (char_cons c s) suffix, nil-append suffix)
  | inr later ↦ elim (Option-cases (without_suffix suffix s)) [
    | inl missing ↦ absurd (ground arith)
    | inr (z, found) ↦
        ap (char_cons c) (without_suffix_sound s suffix z found)
        ∙ sym (cons-append c z suffix)
        ∙ ap (λ t. concat t suffix) {x = char_cons c z} {y = y} (ground arith)
  ]
]

-- A name counts where it is the text before the suffix.
named :
    (x suffix : String) (m : ModuleInfo) (xs : List String)
    → count x (add_name (without_suffix suffix m.name) xs)
      ≡ (if m.name == concat x suffix then suc (count x xs) else count x xs)
named x suffix m xs = elim (text_cases m.name (concat x suffix)) [
  | inl (same, hit) ↦
      ground (arith, ap (without_suffix suffix) same ∙ without_suffix-concat x suffix, eq_refl x)
  | inr (differ, miss) ↦ elim (Option-cases (without_suffix suffix m.name)) [
    | inl missing ↦ ground arith
    | inr (y, found) ↦ ground (
      arith,
      ne-eq_false y x
          (λ e. differ (without_suffix_sound m.name suffix y found ∙ ap (λ t. concat t suffix) e)),
    )
  ]
]

count-shipped_names :
    (x suffix : String) (ms : List ModuleInfo)
    → count x (shipped_names suffix ms) ≡ shipped x suffix ms
unfolding shipped_names shipped
count-shipped_names x suffix [] = refl
count-shipped_names x suffix (m ∷ ms) =
    ground (arith, named x suffix m (shipped_names suffix ms), count-shipped_names x suffix ms)

-- What `backends` and `serializers` print: every name that a module other than a package has before the
-- suffix, as often as there are such modules and no other name, in ascending order.
pub available_lists :
    (modules : List ModuleInfo) (suffix : String)
    → ((x : String) → count x (available modules suffix) ≡ shipped x suffix modules)
      × (ascending (available modules suffix) ≡ true)
unfolding available
available_lists modules suffix = (
  λ x. count-sorted x (shipped_names suffix modules) ∙ count-shipped_names x suffix modules,
  ascending-sorted (shipped_names suffix modules),
)
