-- ===== src/Job/Codec.antt =====
-- The interfaces of what src/TaskQueue/job.py calls: the serializer and `datetime`.
use task_queue.Base.{ℕ, String, ◌≡◌, Bool, true}
use task_queue.Python.{Result, ok, Any, Bytes, Value, bytes}

-- src/TaskQueue/serializers/interface.py: `loads(dumps(obj))` gives `obj` back within the codec's
-- type model, `fits`; both may raise.
pub record Serializer : Type 0 where
  pub dumps : Any → Result Bytes
  pub loads : Value → Result Any
  pub fits : Any → Bool
  pub loads-dumps : (x : Any) (b : Bytes) → fits x ≡ true → dumps x ≡ ok b → loads (bytes b) ≡ ok x
  pub dumps_total : (x : Any) → fits x ≡ true → (b : Bytes) × (dumps x ≡ ok b)

-- An aware UTC `datetime` is its number of microseconds. `fromisoformat` inverts `isoformat`.
pub record DateTime : Type 0 where
  pub isoformat : ℕ → String
  pub fromisoformat : String → Result ℕ
  pub fromisoformat-isoformat : (t : ℕ) → fromisoformat (isoformat t) ≡ ok t
