-- ===== src/Job/Tests/Codec.antt =====
-- A serializer and a `datetime` for runs of src/TaskQueue/job.py. The serializer writes None, a number,
-- and the payload of a job that has one number as its argument.
use task_queue.Base.{
  ℕ, zero, suc, ◌==◌, eq_iff, ◌≡◌, refl, Bool, true, false, Option, none, some, [], ◌∷◌, ◌&&◌,
  arith, if◌then◌else◌, Option-cases, inl, inr,
}
use task_queue.Base.Decimal.{to_text, of_text, of_text-to_text}
use task_queue.Python.{
  value_error, type_error, Result, ok, err, or_raise, Any, null, num, list, dict, Items, nil, cons,
  Fields, end, field, Bytes, Value, str, bytes,
}
use task_queue.Job.Codec.{Serializer, DateTime}

abbrev as_num : Any → Option ℕ
as_num (num n) = some n
as_num _ = none

as_num-inv : (x : Any) (n : ℕ) → as_num x ≡ some n → x ≡ num n
as_num-inv (num m) n e = ground arith
as_num-inv _ n e = cc

abbrev only : Items → Option ℕ
only (cons x nil) = as_num x
only _ = none

only-inv : (xs : Items) (n : ℕ) → only xs ≡ some n → xs ≡ cons (num n) nil
only-inv (cons x nil) n e = rw (as_num-inv x n e)
only-inv _ n e = cc

abbrev as_one : Any → Option ℕ
as_one (list xs) = only xs
as_one _ = none

as_one-inv : (x : Any) (n : ℕ) → as_one x ≡ some n → x ≡ list (cons (num n) nil)
as_one-inv (list xs) n e = rw (only-inv xs n e)
as_one-inv _ n e = cc

abbrev is_no_kwargs : Any → Bool
is_no_kwargs (dict end) = true
is_no_kwargs _ = false

is_no_kwargs-inv : (x : Any) → is_no_kwargs x ≡ true → x ≡ dict end
is_no_kwargs-inv (dict end) e = refl
is_no_kwargs-inv _ e = cc

-- The payload of a job with the one argument `n`.
abbrev pub payload : ℕ → Any
payload n = dict (field "args" (list (cons (num n) nil)) (field "kwargs" (dict end) end))

abbrev argument : Fields → Option ℕ
argument (field j x (field k y end)) =
    if j == "args" && k == "kwargs" && is_no_kwargs y then as_one x else none
argument _ = none

argument-inv : (fs : Fields) (n : ℕ) → argument fs ≡ some n → dict fs ≡ payload n
argument-inv (field j x (field k y end)) n e =
    let parts : (j ≡ "args") × (k ≡ "kwargs") × (is_no_kwargs y ≡ true) × (as_one x ≡ some n) =
      ground (arith, eq_iff j "args", eq_iff k "kwargs") in
    rw (parts.0, parts.1, is_no_kwargs-inv y parts.2, as_one-inv x n parts.3) refl
argument-inv _ n e = cc

abbrev payload_code : Option ℕ → Option Bytes
payload_code none = none
payload_code (some n) = some (2 ∷ n ∷ [])

abbrev pub code_of : Any → Option Bytes
code_of null = some (0 ∷ [])
code_of (num n) = some (1 ∷ n ∷ [])
code_of (dict fs) = payload_code (argument fs)
code_of _ = none

abbrev pub read : Bytes → Result Any
read (zero ∷ []) = ok null
read (suc zero ∷ n ∷ []) = ok (num n)
read (suc (suc zero) ∷ n ∷ []) = ok (payload n)
read _ = err value_error

abbrev is_some {ℓ} : {A : Type ℓ} → Option A → Bool
is_some none = false
is_some (some a) = true

abbrev pub loads : Value → Result Any
loads (str s) = err type_error
loads (bytes b) = read b

pub loads-dumps :
    (x : Any) (b : Bytes)
    → is_some (code_of x) ≡ true
    → or_raise (code_of x) type_error ≡ ok b
    → read b ≡ ok x
loads-dumps null b fits e = ground arith
loads-dumps (num n) b fits e = ground arith
loads-dumps (dict fs) b fits e = elim (Option-cases (argument fs)) [
  | inl missing ↦ ground arith
  | inr (n, found) ↦ rw (argument-inv fs n found) (ground arith)
]
loads-dumps _ b fits e = cc

pub dumps_total :
    (x : Any) → is_some (code_of x) ≡ true → (b : Bytes) × (or_raise (code_of x) type_error ≡ ok b)
dumps_total x fits = by_code (code_of x) fits
  where
    by_code : (o : Option Bytes) → is_some o ≡ true → (b : Bytes) × (or_raise o type_error ≡ ok b)
    by_code none fits = cc
    by_code (some b) fits = (b, refl)

abbrev pub codec : Serializer
codec = record {
  dumps = λ x. or_raise (code_of x) type_error;
  loads = loads;
  fits = λ x. is_some (code_of x);
  loads-dumps = loads-dumps;
  dumps_total = dumps_total;
}

pub fromisoformat-isoformat : (t : ℕ) → or_raise (of_text (to_text t)) value_error ≡ ok t
fromisoformat-isoformat t = rw (of_text-to_text t)

abbrev pub clock : DateTime
clock = record {
  isoformat = to_text;
  fromisoformat = λ s. or_raise (of_text s) value_error;
  fromisoformat-isoformat = fromisoformat-isoformat;
}
