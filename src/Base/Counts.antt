-- ===== src/Base/Counts.antt =====
-- How often a text stands in a list, and whether it does.
use Prim.Native.Nat.{ℕ, suc, ◌+◌, ◌≤◌}
use Prim.Native.String.{String}
use mathlib.Core.Path.{◌≡◌, refl}
use mathlib.Core.Bool.{Bool, true, false, ◌||◌}
use mathlib.Core.List.{List, [], ◌∷◌, ◌++◌}
use native.Mathlib.Omega.{arith}
use text.Mathlib.Text.{◌==◌}
use text.Mathlib.TextEquality.{eq_iff}
use task_queue.Base.Tests.{if◌then◌else◌}

abbrev pub count : String → List String → ℕ
count id [] = 0
count id (x ∷ xs) = let rest = count id xs in if x == id then suc rest else rest

abbrev pub member : String → List String → Bool
member x [] = false
member x (y ∷ ys) = y == x || member x ys

-- The list without the first `x`.
abbrev pub remove_one : String → List String → List String
remove_one x [] = []
remove_one x (y ∷ ys) = let rest = remove_one x ys in if y == x then ys else y ∷ rest

pub count-append_one :
    (id x : String) (xs : List String)
    → count id (xs ++ x ∷ []) ≡ count id xs + (if x == id then 1 else 0)
count-append_one id x [] = ground arith
count-append_one id x (y ∷ xs) = ground (arith, count-append_one id x xs)

pub count-remove_one :
    (id x : String) (ys : List String)
    → member x ys ≡ true
    → count id ys ≡ count id (remove_one x ys) + (if x == id then 1 else 0)
count-remove_one id x [] h = cc
count-remove_one id x (y ∷ ys) h =
    ground (arith, eq_iff x id, eq_iff y id, eq_iff y x, count-remove_one id x ys)

pub member-append_one :
    (x y : String) (xs : List String) → member x (xs ++ y ∷ []) ≡ (member x xs || (y == x))
member-append_one x y [] = ground arith
member-append_one x y (z ∷ xs) = ground (arith, member-append_one x y xs)

pub absent :
    (x : String) (xs : List String)
    → member x xs ≡ false
    → (count x xs ≡ 0) × (remove_one x xs ≡ xs)
absent x [] h = (refl, refl)
absent x (y ∷ ys) h = (ground (arith, absent x ys), ground (arith, absent x ys))

pub counted-member : (x : String) (ys : List String) → 1 ≤ count x ys → member x ys ≡ true
counted-member x [] h = absurd (omega arith)
counted-member x (y ∷ ys) h = ground (arith, counted-member x ys)

pub nothing_counted : (xs : List String) → ((x : String) → count x xs ≡ 0) → xs ≡ []
nothing_counted [] h = refl
nothing_counted (x ∷ xs) h = absurd (ground (arith, h x, eq_iff x x))
