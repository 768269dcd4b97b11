-- ===== src/Redis/Keys.antt =====
-- src/TaskQueue/backends/redis_backend.py: the names of the keys and channels, and `_flatten`.
use Prim.Native.String.{◌++◌ as concat}
use Prim.Native.Char.{Char, code}
use Prim.Native.String.append
use text.Mathlib.TextLemmas.{append_cancel_left, head-eq_of_cons-eq}
use native.Mathlib.Omega.{arith}
use mathlib.Core.Logic.{◌≢◌}
use mathlib.Core.Path.{ap, sym, ◌∙◌}
use task_queue.Base.{String, ◌≡◌}

abbrev pub queue_key : String
queue_key = "queue"

abbrev pub workers_key : String
workers_key = "workers"

unfoldable pub job_key : String → String
job_key job_id = concat "jobs:" job_id

unfoldable pub processing_key : String → String
processing_key consumer_id = concat "processing:" consumer_id

unfoldable pub done_channel : String → String
done_channel job_id = concat "done:" job_id

unfoldable pub cancel_channel : String → String
cancel_channel job_id = concat "cancel:" job_id

-- Different jobs have different hashes, done channels and cancel channels, and different consumers have
-- different processing lists.
pub keys_injective :
    (a b : String)
    → (job_key a ≡ job_key b → a ≡ b)
      × (processing_key a ≡ processing_key b → a ≡ b)
      × (done_channel a ≡ done_channel b → a ≡ b)
      × (cancel_channel a ≡ cancel_channel b → a ≡ b)
unfolding job_key processing_key done_channel cancel_channel
keys_injective a b = (
  append_cancel_left "jobs:" a b,
  append_cancel_left "processing:" a b,
  append_cancel_left "done:" a b,
  append_cancel_left "cancel:" a b,
)

-- No processing list is the queue.
pub processing_key-ne-queue : (id : String) → processing_key id ≢ queue_key
unfolding processing_key
processing_key-ne-queue id e =
    absurd (omega (arith, ap code (head-eq_of_cons-eq (sym (append.cons p rest id) ∙ e))))
  where
    p : Char
    p = "p"

    rest : String
    rest = "rocessing:"
