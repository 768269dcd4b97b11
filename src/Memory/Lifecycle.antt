-- ===== src/Memory/Lifecycle.antt =====
-- src/TaskQueue/backends/memory_backend.py: the life of a job, as src/TaskQueue/backends/interface.py
-- describes it, and the steps of the store as moves in it.
pub mod Moves
use task_queue.Base.{
  String, ◌==◌, eq_iff, eq_refl, text_cases, ◌≡◌, refl, ◌∙◌, ap, Bool, true, false, Option, none,
  some, List, [], ◌∷◌, arith, inl, inr, Option-cases, Bool-cases, if◌then◌else◌,
}
use task_queue.Base.Dict.{lookup, insert, lookup-insert, lookup-erase}
use task_queue.Python.{Result, ok, err, Value, str, bytes, Record}
use task_queue.Job.Status.{is_terminal}
use task_queue.Job.Record.{int_or_zero}
use task_queue.Memory.{
  Memory, empty, enqueue, claim, claim_from, save, release, take_record, request_cancel,
  request_cancel_many, unless_raised, cancel_if, is_terminal_value,
}
use task_queue.Memory.Delivery.{Delivery, status_is, value_is, head_queued, count_attempt_effect}
use task_queue.Memory.Waiting.{is_pending, pending_value}
use task_queue.Memory.Life.{
  Step, enqueues, claims, finishes, releases, cancels, takes, Reach, here, next, Inv, Reach-Inv,
  take_result_inv,
}

-- `stray` is a record with no status, or with one that no method of the store gives it.
pub data Phase : Type 0 where
  absent waiting leased settled stray : Phase

abbrev pub phase_of : Option Value → Phase
phase_of none = stray
phase_of (some (bytes b)) = stray
phase_of (some (str t)) =
    if t == "queued"
    then waiting
    else if t == "running"
    then leased
    else if is_terminal t
    then settled
    else stray

abbrev pub phase : Option Record → Phase
phase none = absent
phase (some r) = phase_of (lookup "status" r)

abbrev pub phase_in : String → Memory → Phase
phase_in id m = phase (lookup id m.jobs)

-- A job stays where it is, or is enqueued, claimed, released, finished, or taken.
abbrev pub follows : Phase → Phase → Bool
follows absent absent = true
follows absent waiting = true
follows waiting waiting = true
follows waiting leased = true
follows leased leased = true
follows leased waiting = true
follows leased settled = true
follows settled settled = true
follows settled absent = true
follows stray stray = true
follows _ _ = false

pub stays : (p : Phase) → follows p p ≡ true
stays absent = refl
stays waiting = refl
stays leased = refl
stays settled = refl
stays stray = refl

pub waiting-phase : (o : Option Record) → status_is "queued" o ≡ true → phase o ≡ waiting
waiting-phase none h = cc
waiting-phase (some r) h = ground arith

pub leased-phase : (o : Option Record) → status_is "running" o ≡ true → phase o ≡ leased
leased-phase none h = cc
leased-phase (some r) h = by_value (lookup "status" r) h
  where
    by_value : (v : Option Value) → value_is "running" v ≡ true → phase_of v ≡ leased
    by_value none h = cc
    by_value (some (bytes b)) h = cc
    by_value (some (str t)) h = rw ((eq_iff t "running").0 h) refl

pub settled-phase : (r : Record) → is_pending (some r) ≡ false → phase (some r) ≡ settled
unfolding is_terminal
settled-phase r h = by_value (lookup "status" r) h
  where
    by_value : (v : Option Value) → pending_value v ≡ false → phase_of v ≡ settled
    by_value none h = cc
    by_value (some (bytes b)) h = cc
    by_value (some (str t)) h = elim (text_cases t "queued") [
      | inl (same, _) ↦ absurd (ground (arith, ap is_terminal same))
      | inr (_, q) ↦ elim (text_cases t "running") [
        | inl (same, _) ↦ absurd (ground (arith, ap is_terminal same))
        | inr (_, r) ↦ ground arith
      ]
    ]

abbrev pub Follows : Memory → Memory → Type 0
Follows m m' = (j : String) → follows (phase_in j m) (phase_in j m') ≡ true

pub kept : (m m' : Memory) → ((j : String) → lookup j m'.jobs ≡ lookup j m.jobs) → Follows m m'
kept m m' same j = rw (same j) (stays (phase_in j m))

-- A step that writes one job's record.
pub inserted :
    (id : String) (r : Record) (m m' : Memory)
    → m'.jobs ≡ insert id r m.jobs
    → follows (phase_in id m) (phase (some r)) ≡ true
    → Follows m m'
inserted id r m m' e own j = elim (text_cases id j) [
  | inl (same, hit) ↦ rw (← same, e, lookup-insert id id r m.jobs, eq_refl id) own
  | inr (differ, miss) ↦ rw (e, lookup-insert id j r m.jobs, miss) (stays (phase_in j m))
]

-- A record that is marked, and one whose mark is left alone.
pub marked :
    (text : String) (r : Record)
    → phase (some (insert "status" (str text) r)) ≡ phase_of (some (str text))
marked text r = ap phase_of (lookup-insert "status" "status" (str text) r)

pub unmarked :
    (k : String) (v : Value) (r : Record)
    → (k == "status") ≡ false
    → phase (some (insert k v r)) ≡ phase (some r)
unmarked k v r h = ap phase_of {y = lookup "status" r} (lookup-insert k "status" v r ∙ rw h refl)

abbrev pub is_stray : Phase → Bool
is_stray stray = true
is_stray absent = false
is_stray waiting = false
is_stray leased = false
is_stray settled = false
