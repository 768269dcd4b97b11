-- ===== src/Python/Exceptions.antt =====
-- Exceptions as values. `exceptions.py` and the built-in classes that the code names.
use task_queue.Base.{◌⊎◌, inl, inr, String, ◌≡◌, refl, Option, none, some}

pub data Error : Type 0 where
  key_error value_error type_error : Error
  -- src/TaskQueue/exceptions.py
  job_cancelled task_name_error config_error : Error
  -- `RuntimeError` with the message that a caller reads
  runtime_error : String → Error
  -- an exception of the code that is called, such as a task body or the Redis driver
  foreign : String → Error
  -- `asyncio.CancelledError`, which `except Exception` does not catch
  cancelled_error : Error

pub data Result {ℓ} (A : Type ℓ) : Type ℓ where
  ok : A → Result A
  err : Error → Result A

infixl 5 ◌>>=◌
abbrev pub ◌>>=◌ {ℓ κ} : {A : Type ℓ} {B : Type κ} → Result A → (A → Result B) → Result B
ok a >>= f = f a
err e >>= f = err e

abbrev pub or_raise {ℓ} : {A : Type ℓ} → Option A → Error → Result A
or_raise none e = err e
or_raise (some a) e = ok a

pub Result-cases {ℓ} :
    {A : Type ℓ} (x : Result A) → ((a : A) × (x ≡ ok a)) ⊎ ((e : Error) × (x ≡ err e))
Result-cases (ok a) = inl (a, refl)
Result-cases (err e) = inr (e, refl)
