-- ===== src/Memory/Waiting/Methods.antt =====
-- src/TaskQueue/backends/memory_backend.py: every method keeps the invariant of the events.
use task_queue.Base.{
  ℕ, zero, suc, ◌+◌, ◌≤◌, ◌<◌, String, ◌==◌, eq_iff, ◌≡◌, refl, Bool, true, false, Option, none,
  some, List, [], ◌∷◌, ◌++◌, arith, if◌then◌else◌, inl, inr, Option-cases, Bool-cases, length,
  get_or, length-append, get_or-append_left,
}
use task_queue.Base.Dict.{lookup, insert, lookup-insert}
use task_queue.Python.{Value, str, bytes, Record}
use task_queue.Job.Status.{is_terminal}
use task_queue.Job.Record.{int_or_zero}
use task_queue.Memory.{Memory, is_text, enqueue, claim, claim_from, lease, release, release_if}
use task_queue.Memory.Delivery.{Delivery, value_is, status_is, count_attempt_effect, head_queued}
use task_queue.Memory.Waiting.{
  pending_value, is_pending, is_requested, Kind, done, cancel, event_of, is_some, Waiting,
  insert-Waiting,
}

-- The two new events are unset.
get_or-new :
    (xs : List Bool) (e : ℕ) → length xs ≤ e → get_or (xs ++ false ∷ false ∷ []) e false ≡ false
get_or-new [] zero h = refl
get_or-new [] (suc zero) h = refl
get_or-new [] (suc (suc e)) h = refl
get_or-new (x ∷ xs) zero h = absurd (omega arith)
get_or-new (x ∷ xs) (suc e) h = get_or-new xs e (omega arith)

module _ (id : String) (r : Record) (m : Memory) where
  abbrev added : Memory
  added = record {
    jobs = insert id (insert "status" (str "queued") r) m.jobs;
    events = insert id (length m.flags) m.events;
    cancels = insert id (suc (length m.flags)) m.cancels;
    queue = m.queue ++ id ∷ [];
    flags = m.flags ++ false ∷ false ∷ [];
  }

  added-length : length added.flags ≡ length m.flags + 2
  added-length = length-append m.flags (false ∷ false ∷ [])

module _ (id : String) (r : Record) (m : Memory) (w : Waiting m) where
  -- The new job's own events lie past the heap's end.
  added_event :
      (k : Kind) (j : String)
      → event_of k j (added id r m).events (added id r m).cancels ≡ (
          if id == j
          then some (elim k [ done ↦ length m.flags | cancel ↦ suc (length m.flags) ])
          else event_of k j m.events m.cancels)
  added_event done j = lookup-insert id j (length m.flags) m.events
  added_event cancel j = lookup-insert id j (suc (length m.flags)) m.cancels

  added-owned :
      (k : Kind) (j : String)
      → is_some (event_of k j (added id r m).events (added id r m).cancels)
        ≡ is_pending (lookup j (added id r m).jobs)
  unfolding is_terminal
  added-owned k j = ground (
    arith,
    added_event k j,
    w.owned k j,
    lookup-insert id j (insert "status" (str "queued") r) m.jobs,
    lookup-insert "status" "status" (str "queued") r,
  )

  added-bounded :
      (k : Kind) (j : String) (e : ℕ)
      → event_of k j (added id r m).events (added id r m).cancels ≡ some e
      → e < length (added id r m).flags
  added-bounded k j e h = ground (arith, added_event k j, added-length id r m, w.bounded k j e)

  added-one_owner :
      (k l : Kind) (i j : String) (e : ℕ)
      → event_of k i (added id r m).events (added id r m).cancels ≡ some e
      → event_of l j (added id r m).events (added id r m).cancels ≡ some e
      → (i ≡ j) × (k ≡ l)
  added-one_owner k l i j e h h' = ground (
    arith,
    added_event k i,
    added_event l j,
    eq_iff id i,
    eq_iff id j,
    w.bounded k i e,
    w.bounded l j e,
    w.one_owner k l i j e,
  )

  added-unset :
      (j : String) (e : ℕ)
      → lookup j (added id r m).events ≡ some e
      → get_or (added id r m).flags e false ≡ false
  added-unset j e h = ground (
    arith,
    added_event done j,
    w.bounded done j e,
    w.unset j e,
    get_or-new m.flags e,
    get_or-append_left m.flags (false ∷ false ∷ []) e false,
  )

  added-requested :
      (j : String) (e : ℕ)
      → lookup j (added id r m).cancels ≡ some e
      → get_or (added id r m).flags e false ≡ true
      → is_requested (lookup j (added id r m).jobs) ≡ true
  added-requested j e h f = ground (
    arith,
    added_event cancel j,
    w.bounded cancel j e,
    w.requested j e,
    get_or-new m.flags e,
    get_or-append_left m.flags (false ∷ false ∷ []) e false,
    lookup-insert id j (insert "status" (str "queued") r) m.jobs,
  )

  added-Waiting : Waiting (added id r m)
  added-Waiting = record {
    owned = added-owned;
    bounded = added-bounded;
    one_owner = added-one_owner;
    unset = added-unset;
    requested = added-requested;
  }

pub enqueue_fresh :
    (id : String) (r : Record) (m : Memory)
    → lookup id m.jobs ≡ none
    → enqueue id r m ≡ added id r m
unfolding enqueue
enqueue_fresh id r m h = ground arith

pub enqueue_known :
    (id : String) (r old : Record) (m : Memory) → lookup id m.jobs ≡ some old → enqueue id r m ≡ m
unfolding enqueue
enqueue_known id r old m h = ground arith

pub enqueue-Waiting : (id : String) (r : Record) (m : Memory) → Waiting m → Waiting (enqueue id r m)
enqueue-Waiting id r m w = elim (Option-cases (lookup id m.jobs)) [
  | inl fresh ↦ rw (enqueue_fresh id r m fresh) (added-Waiting id r m w)
  | inr (old, found) ↦ rw (enqueue_known id r old m found) w
]

is_pending-status :
    (s : String) (r : Record)
    → lookup "status" r ≡ some (str s)
    → is_terminal s ≡ false
    → is_pending (some r) ≡ true
is_pending-status s r h t = ground arith

pub queued-is_pending : (o : Option Record) → status_is "queued" o ≡ true → is_pending o ≡ true
unfolding is_terminal
queued-is_pending none h = cc
queued-is_pending (some r) h = by_status (lookup "status" r) h
  where
    by_status : (v : Option Value) → value_is "queued" v ≡ true → pending_value v ≡ true
    by_status none h = cc
    by_status (some (str t)) h = rw ((eq_iff t "queued").0 h)
    by_status (some (bytes b)) h = refl

pub running-is_pending : (o : Option Record) → status_is "running" o ≡ true → is_pending o ≡ true
unfolding is_terminal
running-is_pending none h = cc
running-is_pending (some r) h = by_status (lookup "status" r) h
  where
    by_status : (v : Option Value) → value_is "running" v ≡ true → pending_value v ≡ true
    by_status none h = cc
    by_status (some (str t)) h = rw ((eq_iff t "running").0 h)
    by_status (some (bytes b)) h = refl

-- A claim leases a QUEUED job, which by `Delivery` is what stands in the queue.
lease-Waiting :
    (id : String) (queue : List String) (r : Record) (m : Memory)
    → lookup id m.jobs ≡ some r
    → status_is "queued" (some r) ≡ true
    → Waiting m
    → Waiting (lease id (some r) (record m { queue = queue })).0
unfolding is_terminal
lease-Waiting id queue r m found queued w =
    let (r', effect, running, kept) =
      count_attempt_effect id r (record m { queue = queue }) (int_or_zero (lookup "attempts" r)) in
    rw effect (
      insert-Waiting m id r r' queue found (ground (arith, running, queued-is_pending (some r)))
        (λ h. rw (kept "request_cancel" refl refl) h) w)

pub claim-Waiting : (m : Memory) → Delivery m → Waiting m → Waiting (claim m).0
unfolding claim
claim-Waiting m d w = by_queue m.queue refl
  where
    by_queue : (q : List String) → m.queue ≡ q → Waiting (claim_from q m).0
    by_queue [] e = w
    by_queue (id ∷ queue) e = elim (Option-cases (lookup id m.jobs)) [
      | inl missing ↦ absurd (ground (arith, head_queued id queue m e d))
      | inr (r, found) ↦
          rw (found, lease)
            (lease-Waiting id queue r m found (rw found at (head_queued id queue m e d)) w)
    ]

pub release-Waiting : (id : String) (m : Memory) → Waiting m → Waiting (release id m).0
unfolding release is_terminal
release-Waiting id m w = elim (Option-cases (lookup id m.jobs)) [
  | inl missing ↦ rw (missing, release) w
  | inr (r, found) ↦ rw (found, release) (by_status r found (lookup "status" r) refl)
]
  where
    by_status :
        (r : Record)
        → lookup id m.jobs ≡ some r
        → (v : Option Value) → lookup "status" r ≡ v
        → Waiting (release_if id r v m).0
    by_status r found none e = w
    by_status r found (some v) e = elim (Bool-cases (is_text "running" v)) [
      | inl running ↦
          rw (running, release_if)
            (insert-Waiting m id r (insert "status" (str "queued") r) (m.queue ++ id ∷ []) found
              (ground (
                arith,
                running-is_pending (some r),
                lookup-insert "status" "status" (str "queued") r,
              ))
              (λ h. rw (lookup-insert "status" "request_cancel" (str "queued") r) h) w)
      | inr other ↦ rw (other, release_if) w
    ]
