-- ===== src/Redis/Tests/Text.antt =====
-- Text on the wire of the small server: every character as its number, as a client passes text on that
-- is built without `decode_responses`.
use Prim.Native.Char.{Char, char, code, nul, IsLt}
use Prim.Native.Nat.{Ordering, compare}
use Prim.Native.String.{◌∷◌ as char_cons, [] as no_chars}
use task_queue.Base.{String, ◌≡◌, refl, ap, ◌∙◌, [], ◌∷◌}
use task_queue.Python.{Bytes, Value, str, bytes}
use task_queue.Redis.Interface.{text_of}

-- These two unfold to what the native `IsScalar` of a number does.
abbrev Both : Ordering → Ordering → Type 0
Both Ordering.lt o = IsLt o
Both Ordering.eq _ = ⊥
Both Ordering.gt _ = ⊥

abbrev Scalar : Ordering → Ordering → Ordering → Type 0
Scalar Ordering.lt _ _ = Unit
Scalar Ordering.eq o p = Both o p
Scalar Ordering.gt o p = Both o p

-- The character, if the number is one of a character.
abbrev read : (o p q : Ordering) → (Scalar o p q → Char) → Char
read Ordering.lt p q make = make tt
read Ordering.eq Ordering.lt Ordering.lt make = make tt
read Ordering.gt Ordering.lt Ordering.lt make = make tt
read _ _ _ make = nul

read-Scalar :
    (o p q : Ordering) (make : Scalar o p q → Char) (s : Scalar o p q) → read o p q make ≡ make s
read-Scalar Ordering.lt p q make s = refl
read-Scalar Ordering.eq Ordering.lt Ordering.lt make s = refl
read-Scalar Ordering.gt Ordering.lt Ordering.lt make s = refl
read-Scalar Ordering.eq Ordering.lt Ordering.eq make s = absurd s
read-Scalar Ordering.eq Ordering.lt Ordering.gt make s = absurd s
read-Scalar Ordering.eq Ordering.eq q make s = absurd s
read-Scalar Ordering.eq Ordering.gt q make s = absurd s
read-Scalar Ordering.gt Ordering.lt Ordering.eq make s = absurd s
read-Scalar Ordering.gt Ordering.lt Ordering.gt make s = absurd s
read-Scalar Ordering.gt Ordering.eq q make s = absurd s
read-Scalar Ordering.gt Ordering.gt q make s = absurd s

abbrev pub encode : String → Bytes
encode no_chars = []
encode (char_cons c s) = code c ∷ encode s

abbrev pub decode : Bytes → String
decode [] = no_chars
decode (n ∷ b) =
    char_cons (read (compare n 55296) (compare 57343 n) (compare n 1114112) (λ s. char n s))
      (decode b)

pub decode-encode : (s : String) → decode (encode s) ≡ s
decode-encode no_chars = refl
decode-encode (char_cons (char n p) s) =
    ap (λ c. char_cons c (decode (encode s)))
      (read-Scalar (compare n 55296) (compare 57343 n) (compare n 1114112) (λ q. char n q) p)
    ∙ ap (char_cons (char n p)) (decode-encode s)

abbrev pub reply : Value → Value
reply (str s) = bytes (encode s)
reply (bytes b) = bytes b

pub reply_text : (s : String) → text_of decode (reply (str s)) ≡ s
reply_text s = decode-encode s
