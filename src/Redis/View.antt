-- ===== src/Redis/View.antt =====
-- What the commands of a Redis server can read of a database, and how they read it.
use task_queue.Base.{
  ℕ, suc, ◌+◌, String, ◌==◌, Bool, false, Option, none, some, List, [], ◌∷◌, if◌then◌else◌, leb,
}
use task_queue.Base.Dict.{Dict}
use task_queue.Base.Decimal.{to_text, of_text}
use task_queue.Python.{Value, str, bytes, Record}

pub data Kind : Type 0 where
  hash_key list_key zset_key : Kind

-- The fields of a hash.
abbrev pub Hash : Type 0
Hash = String → Option Value

pub record View : Type 0 where
  -- `none` is a key that does not exist
  pub hash : String → Option Hash
  -- the empty list is a key that does not exist
  pub list : String → List String
  pub zset : String → Dict ℕ
  -- the seconds that a key still lives, if it was given a time to live
  pub expiry : String → Option ℕ
  -- the channels that were published to, the latest last
  pub published : List String
  -- `TIME`, in whole seconds
  pub clock : ℕ

-- A function changed at one key.
abbrev pub update {ℓ} : {A : Type ℓ} → String → A → (String → A) → String → A
update k a f j = if k == j then a else f j

abbrev pub or_no_fields : Option Hash → Hash
or_no_fields none f = none
or_no_fields (some h) f = h f

abbrev pub field_of : Option Hash → String → Option Value
field_of none f = none
field_of (some h) f = h f

-- `HSET` with several pairs: each is written, the later over the earlier.
abbrev pub write_fields : Record → Hash → Hash
write_fields [] h = h
write_fields ((f, v) ∷ ps) h = write_fields ps (update f (some v) h)

abbrev pub tail : List String → List String
tail [] = []
tail (x ∷ xs) = xs

abbrev pub head? : List String → Option String
head? [] = none
head? (x ∷ xs) = some x

-- Whether a last beat lies `ttl` seconds back or more: score ≤ now - ttl.
abbrev pub is_expired : ℕ → ℕ → Option ℕ → Bool
is_expired now ttl none = false
is_expired now ttl (some beat) = leb (beat + ttl) now

-- Whether a member's score is no higher than a bound.
abbrev pub is_until : ℕ → Option ℕ → Bool
is_until bound none = false
is_until bound (some score) = leb score bound

-- `HINCRBY f 1` on what the field holds; `none` is the error reply of a value that is no integer.
abbrev pub incremented : Option Value → Option Value
incremented none = some (str (to_text 1))
incremented (some (bytes b)) = none
incremented (some (str s)) = elim (of_text s) [
  | none ↦ none
  | some n ↦ some (str (to_text (suc n)))
]
