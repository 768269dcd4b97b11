-- ===== src/Memory/Waiting/Settle.antt =====
-- src/TaskQueue/backends/memory_backend.py: the methods that set or drop events, `save(done=True)`,
-- `take_result` and `request_cancel`, keep the invariant of the events.
use task_queue.Base.{
  ℕ, String, ◌==◌, eq_iff, eq_refl, ◌≡◌, refl, ◌≢◌, Bool, true, false, not, Option, none, some,
  List, arith, if◌then◌else◌, inl, inr, ap, ◌⊎◌, Option-cases, Bool-cases, length, get_or,
  length-set, get_or-set_ne,
}
use task_queue.Base.Dict.{Dict, lookup, insert, erase, lookup-insert, lookup-erase}
use task_queue.Python.{key_error, ok, err, Value, str, Record}
use task_queue.Memory.{
  Memory, is_terminal_value, set_event, is_set, save, take_record, request_cancel, cancel_if,
}
use task_queue.Memory.Waiting.{is_pending, is_requested, Kind, done, cancel, event_of, Waiting}

length-set_event : (o : Option ℕ) (flags : List Bool) → length (set_event o flags) ≡ length flags
length-set_event none flags = refl
length-set_event (some e) flags = length-set flags e true

pub get_or-set_event_ne :
    (o : Option ℕ) (flags : List Bool) (e : ℕ)
    → o ≢ some e
    → get_or (set_event o flags) e false ≡ get_or flags e false
get_or-set_event_ne none flags e h = refl
get_or-set_event_ne (some i) flags e h = get_or-set_ne flags i e true false (λ p. h (ap some p))

-- The events of one job are dropped, and `o` is set.
module _ (id : String) (o : Option ℕ) (jobs : Dict Record) (m : Memory) where
  abbrev pub dropped : Memory
  dropped = record {
    jobs = jobs;
    events = erase id m.events;
    cancels = erase id m.cancels;
    queue = m.queue;
    flags = set_event o m.flags;
  }

module _ (id : String) (o : Option ℕ) (jobs : Dict Record) (m : Memory) (w : Waiting m) where
  dropped_event :
      (k : Kind) (j : String)
      → event_of k j (dropped id o jobs m).events (dropped id o jobs m).cancels
        ≡ (if id == j then none else event_of k j m.events m.cancels)
  dropped_event done j = lookup-erase id j m.events
  dropped_event cancel j = lookup-erase id j m.cancels

  -- The other jobs' events are unlike the one that is set.
  other_event :
      (k : Kind) (j : String) (e : ℕ)
      → o ≢ none
      → o ≡ lookup id m.events
      → event_of k j (dropped id o jobs m).events (dropped id o jobs m).cancels ≡ some e
      → o ≢ some e
  other_event k j e some_o own h same =
      ground (arith, dropped_event k j, eq_iff id j, w.one_owner done k id j e)

  dropped-Waiting :
      ((o ≡ none) ⊎ (o ≡ lookup id m.events))
      → is_pending (lookup id jobs) ≡ false
      → ((j : String) → (id == j) ≡ false → lookup j jobs ≡ lookup j m.jobs)
      → Waiting (dropped id o jobs m)
  dropped-Waiting own settled others = record {
    owned = λ k j. ground (arith, dropped_event k j, eq_iff id j, w.owned k j, others j);
    bounded =
        λ k j e h. ground (arith, dropped_event k j, w.bounded k j e, length-set_event o m.flags);
    one_owner = λ k l i j e h h'.
        ground (arith, dropped_event k i, dropped_event l j, w.one_owner k l i j e);
    unset = λ j e h. ground (
      arith,
      dropped_event done j,
      other_event done j e,
      get_or-set_event_ne o m.flags e,
      w.unset j e,
    );
    requested = λ j e h f. ground (
      arith,
      dropped_event cancel j,
      other_event cancel j e,
      get_or-set_event_ne o m.flags e,
      w.requested j e,
      others j,
    );
  }

pub save_known :
    (id : String) (r old : Record) (m : Memory)
    → lookup id m.jobs ≡ some old
    → save id r true m ≡ (dropped id (lookup id m.events) (insert id r m.jobs) m, ok tt)
unfolding save
save_known id r old m h = ground arith

pub save_unknown :
    (id : String) (r : Record) (final : Bool) (m : Memory)
    → lookup id m.jobs ≡ none
    → save id r final m ≡ (m, err key_error)
unfolding save
save_unknown id r final m h = ground arith

-- A terminal write of a known job.
pub save-Waiting :
    (id : String) (r : Record) (m : Memory)
    → is_pending (some r) ≡ false
    → Waiting m
    → Waiting (save id r true m).0
save-Waiting id r m settled w = elim (Option-cases (lookup id m.jobs)) [
  | inl missing ↦ rw (save_unknown id r true m missing) w
  | inr (old, found) ↦ rw (save_known id r old m found) (
      dropped-Waiting id (lookup id m.events) (insert id r m.jobs) m w (inr refl)
        (rw (lookup-insert id id r m.jobs, eq_refl id) settled)
        (λ j other. rw (lookup-insert id j r m.jobs, other)))
]

-- Taking a job that is not pending drops what is left of it.
pub take_record-Waiting : (id : String) (m : Memory) → Waiting m → Waiting (take_record id m).0
unfolding take_record
take_record-Waiting id m w =
    dropped-Waiting id none (erase id m.jobs) m w (inl refl)
      (rw (lookup-erase id id m.jobs, eq_refl id)) (λ j other. rw (lookup-erase id j m.jobs, other))

-- `take_result` goes through exactly for a job that is not pending.
pub take_ready :
    (id : String) (m : Memory)
    → Waiting m
    → is_set (lookup id m.events) m ≡ not (is_pending (lookup id m.jobs))
take_ready id m w = elim (Option-cases (lookup id m.events)) [
  | inl missing ↦ ground (arith, w.owned done id)
  | inr (e, found) ↦ ground (arith, w.owned done id, w.unset id e)
]

module _ (id : String) (r : Record) (m : Memory) (w : Waiting m) (found : lookup id m.jobs ≡ some r)
    (pending : is_pending (some r) ≡ true) where
  abbrev flagged : Memory
  flagged = record m {
    jobs = insert id (insert "request_cancel" (str "1") r) m.jobs;
    flags = set_event (lookup id m.cancels) m.flags;
  }

  flagged-unset :
      (j : String) (e : ℕ) → lookup j m.events ≡ some e → get_or flagged.flags e false ≡ false
  flagged-unset j e h = ground (
    arith,
    get_or-set_event_ne (lookup id m.cancels) m.flags e,
    w.one_owner cancel done id j e,
    w.unset j e,
  )

  flagged-requested :
      (j : String) (e : ℕ)
      → lookup j m.cancels ≡ some e
      → get_or flagged.flags e false ≡ true
      → is_requested (lookup j flagged.jobs) ≡ true
  flagged-requested j e h f = ground (
    arith,
    eq_iff id j,
    get_or-set_event_ne (lookup id m.cancels) m.flags e,
    w.one_owner cancel cancel id j e,
    w.requested j e,
    lookup-insert id j (insert "request_cancel" (str "1") r) m.jobs,
    lookup-insert "request_cancel" "request_cancel" (str "1") r,
  )

  flagged-Waiting : Waiting flagged
  flagged-Waiting = record {
    owned = λ k j. ground (
      arith,
      eq_iff id j,
      w.owned k j,
      lookup-insert id j (insert "request_cancel" (str "1") r) m.jobs,
      lookup-insert "request_cancel" "status" (str "1") r,
    );
    bounded =
        λ k j e h. ground (arith, w.bounded k j e, length-set_event (lookup id m.cancels) m.flags);
    one_owner = w.one_owner;
    unset = flagged-unset;
    requested = flagged-requested;
  }

pub request_cancel-Waiting :
    (id : String) (m : Memory) → Waiting m → Waiting (request_cancel id m).0
unfolding request_cancel
request_cancel-Waiting id m w = elim (Option-cases (lookup id m.jobs)) [
  | inl missing ↦ rw (missing, request_cancel) w
  | inr (r, found) ↦ rw (found, request_cancel) (by_status r found (lookup "status" r) refl)
]
  where
    by_status :
        (r : Record)
        → lookup id m.jobs ≡ some r
        → (v : Option Value) → lookup "status" r ≡ v
        → Waiting (cancel_if id r v m).0
    by_status r found none e = w
    by_status r found (some v) e = elim (Bool-cases (is_terminal_value v)) [
      | inl terminal ↦ rw (terminal, cancel_if) w
      | inr open_status ↦
          rw (open_status, cancel_if) (flagged-Waiting id r m w found (rw (e, open_status)))
    ]
