-- ===== src/Memory/Waiting.antt =====
-- src/TaskQueue/backends/memory_backend.py: the `asyncio.Event` objects behind `take_result` and
-- `wait_cancel`. Exactly the jobs that are not terminal own two events, no event has two owners, and
-- a done-event that is still named is unset.
pub mod Methods
pub mod Settle
use task_queue.Base.{
  ℕ, suc, ◌+◌, ◌<◌, String, ◌==◌, eq_iff, ◌≡◌, refl, ◌≢◌, Bool, true, false, not, Option, none,
  some, List, [], ◌∷◌, ◌++◌, arith, if◌then◌else◌, inl, inr, ◌∙◌, sym, text_cases, Option-cases,
  Bool-cases, length, get_or, set, length-append, length-set, get_or-set_ne, get_or-append_left,
}
use task_queue.Base.Dict.{Dict, lookup, contains, insert, erase, lookup-insert, lookup-erase}
use task_queue.Python.{Result, ok, err, Value, str, bytes, Record}
use task_queue.Job.Status.{is_terminal}
use task_queue.Job.Record.{int_or_zero}
use task_queue.Memory.{
  Memory, is_text, is_terminal_value, set_event, is_set, enqueue, claim, claim_from, lease,
  count_attempt, save, release, release_if, take_record, take_result, request_cancel, cancel_if,
}
use task_queue.Memory.Delivery.{Delivery, value_is, status_is, count_attempt_effect}

-- Whether a stored job is not terminal yet.
abbrev pub pending_value : Option Value → Bool
pending_value none = true
pending_value (some v) = not (is_terminal_value v)

abbrev pub is_pending : Option Record → Bool
is_pending none = false
is_pending (some r) = pending_value (lookup "status" r)

-- Whether the durable cancel flag is set.
abbrev pub is_requested : Option Record → Bool
is_requested none = false
is_requested (some r) = value_is "1" (lookup "request_cancel" r)

-- The two kinds of event, and which one a job owns.
pub data Kind : Type 0 where
  done cancel : Kind

abbrev pub event_of : Kind → String → Dict ℕ → Dict ℕ → Option ℕ
event_of done id events cancels = lookup id events
event_of cancel id events cancels = lookup id cancels

abbrev pub is_some {ℓ} : {A : Type ℓ} → Option A → Bool
is_some none = false
is_some (some a) = true

pub record Waiting (m : Memory) : Type 0 where
  pub owned :
      (k : Kind) (id : String)
      → is_some (event_of k id m.events m.cancels) ≡ is_pending (lookup id m.jobs)
  pub bounded :
      (k : Kind) (id : String) (e : ℕ)
      → event_of k id m.events m.cancels ≡ some e
      → e < length m.flags
  pub one_owner :
      (k l : Kind) (i j : String) (e : ℕ)
      → event_of k i m.events m.cancels ≡ some e
      → event_of l j m.events m.cancels ≡ some e
      → (i ≡ j) × (k ≡ l)
  pub unset : (id : String) (e : ℕ) → lookup id m.events ≡ some e → get_or m.flags e false ≡ false
  pub requested :
      (id : String) (e : ℕ)
      → lookup id m.cancels ≡ some e
      → get_or m.flags e false ≡ true
      → is_requested (lookup id m.jobs) ≡ true

-- Rewriting records keeps the invariant, if no job changes between pending and terminal and no
-- cancel flag is lost.
rewrite-Waiting :
    (m : Memory) (jobs : Dict Record) (queue : List String)
    → ((id : String) → is_pending (lookup id jobs) ≡ is_pending (lookup id m.jobs))
    → ((id : String)
        → is_requested (lookup id m.jobs) ≡ true
        → is_requested (lookup id jobs) ≡ true)
    → Waiting m
    → Waiting (record m { jobs = jobs; queue = queue })
rewrite-Waiting m jobs queue pending kept w = record {
  owned = λ k id. w.owned k id ∙ sym (pending id);
  bounded = w.bounded;
  one_owner = w.one_owner;
  unset = w.unset;
  requested = λ id e h f. kept id (w.requested id e h f);
}

-- One rewritten record, in the form that the methods give.
insert-Waiting :
    (m : Memory) (id : String) (r r' : Record) (queue : List String)
    → lookup id m.jobs ≡ some r
    → is_pending (some r') ≡ is_pending (some r)
    → (is_requested (some r) ≡ true → is_requested (some r') ≡ true)
    → Waiting m
    → Waiting (record m { jobs = insert id r' m.jobs; queue = queue })
insert-Waiting m id r r' queue found pending kept =
    rewrite-Waiting m (insert id r' m.jobs) queue
      (λ j. ground (arith, eq_iff id j, lookup-insert id j r' m.jobs))
      (λ j h. ground (arith, eq_iff id j, lookup-insert id j r' m.jobs))
