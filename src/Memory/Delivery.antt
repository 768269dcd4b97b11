-- ===== src/Memory/Delivery.antt =====
-- src/TaskQueue/backends/memory_backend.py: the queue holds each QUEUED job exactly once and nothing
-- else, whatever the methods are called with, as far as `save` is used for leased jobs.
use task_queue.Base.{
  count, count-append_one, ℕ, suc, String, ◌==◌, eq_iff, eq_refl, ◌≡◌, refl, Bool, true, false,
  Option, none, some, List, [], ◌∷◌, arith, inl, inr, ◌∙◌, Option-cases,
}
use task_queue.Base.Dict.{lookup, insert, lookup-insert}
use task_queue.Base.Decimal.{to_text}
use task_queue.Python.{Result, ok, err, Value, str, bytes, Record}
use task_queue.Job.Record.{int_or_zero}
use task_queue.Memory.{
  Memory, is_text, enqueue, claim, claim_from, lease, count_attempt, save, release, request_cancel,
}

-- Whether a stored record has the given status.
abbrev pub value_is : String → Option Value → Bool
value_is s none = false
value_is s (some v) = is_text s v

abbrev pub status_is : String → Option Record → Bool
status_is s none = false
status_is s (some r) = value_is s (lookup "status" r)

abbrev pub once : Bool → ℕ
once true = 1
once false = 0

abbrev pub Delivery : Memory → Type 0
Delivery m = (id : String) → count id m.queue ≡ once (status_is "queued" (lookup id m.jobs))

-- The status of a record that was just written.
status_is-insert :
    (s t : String) (r : Record) → status_is s (some (insert "status" (str t) r)) ≡ (t == s)
status_is-insert s t r = rw (lookup-insert "status" "status" (str t) r)

-- Another field leaves the status alone.
status_is-insert_other :
    (s k : String) (v : Value) (r : Record)
    → (k == "status") ≡ false
    → status_is s (some (insert k v r)) ≡ status_is s (some r)
status_is-insert_other s k v r h = rw (lookup-insert k "status" v r, h)

pub enqueue-Delivery :
    (id : String) (r : Record) (m : Memory) → Delivery m → Delivery (enqueue id r m)
unfolding enqueue
enqueue-Delivery id r m h j = ground (
  arith,
  h j,
  h id,
  eq_iff id j,
  lookup-insert id j (insert "status" (str "queued") r) m.jobs,
  status_is-insert "queued" "queued" r,
  count-append_one j id m.queue,
)

-- A lease rewrites the record of its job and nothing else: the record is RUNNING afterwards, and only
-- its status and its count of attempts may have changed.
pub count_attempt_effect :
    (id : String) (r : Record) (m : Memory) (x : Result ℕ)
    → (r' : Record) × ((count_attempt id (insert "status" (str "running") r) m x).0
        ≡ record m { jobs = insert id r' m.jobs })
      × (lookup "status" r' ≡ some (str "running"))
      × ((k : String)
          → (k == "status") ≡ false
          → (k == "attempts") ≡ false
          → lookup k r' ≡ lookup k r)
count_attempt_effect id r m (err e) = (
  insert "status" (str "running") r,
  refl,
  lookup-insert "status" "status" (str "running") r,
  λ k h _.
      ground
        (arith, eq_iff k "status", eq_iff "status" k, lookup-insert "status" k (str "running") r),
)
count_attempt_effect id r m (ok n) =
    let r₁ = insert "status" (str "running") r in
    (
      insert "attempts" (str (to_text (suc n))) r₁,
      refl,
      lookup-insert "attempts" "status" (str (to_text (suc n))) r₁
          ∙ lookup-insert "status" "status" (str "running") r,
      λ k h h'. ground (
        arith,
        eq_iff k "status",
        eq_iff "status" k,
        eq_iff k "attempts",
        eq_iff "attempts" k,
        lookup-insert "status" k (str "running") r,
        lookup-insert "attempts" k (str (to_text (suc n))) r₁,
      ),
    )

-- What stands at the head of the queue is QUEUED.
pub head_queued :
    (id : String) (queue : List String) (m : Memory)
    → m.queue ≡ id ∷ queue
    → Delivery m
    → status_is "queued" (lookup id m.jobs) ≡ true
head_queued id queue m e h = ground (arith, h id, eq_refl id)

lease-Delivery :
    (id : String) (queue : List String) (m : Memory)
    → m.queue ≡ id ∷ queue
    → Delivery m
    → Delivery (lease id (lookup id m.jobs) (record m { queue = queue })).0
lease-Delivery id queue m e h j = elim (Option-cases (lookup id m.jobs)) [
  | inl missing ↦ ground (arith, h j, h id, eq_iff id j)
  | inr (r, found) ↦
      let (r', effect, running, _) =
        count_attempt_effect id r (record m { queue = queue })
          (int_or_zero (lookup "attempts" r)) in
      ground (arith, effect, running, h j, h id, eq_iff id j, lookup-insert id j r' m.jobs)
]

pub claim-Delivery : (m : Memory) → Delivery m → Delivery (claim m).0
unfolding claim
claim-Delivery m h = by_queue m.queue refl
  where
    by_queue : (q : List String) → m.queue ≡ q → Delivery (claim_from q m).0
    by_queue [] e = h
    by_queue (id ∷ queue) e = lease-Delivery id queue m e h

pub save-Delivery :
    (id : String) (r : Record) (done : Bool) (m : Memory)
    → status_is "queued" (lookup id m.jobs) ≡ false
    → status_is "queued" (some r) ≡ false
    → Delivery m
    → Delivery (save id r done m).0
unfolding save
save-Delivery id r done m old new h j =
    ground (arith, h j, eq_iff id j, lookup-insert id j r m.jobs)

pub running_not_queued :
    (v : Option Value) → value_is "running" v ≡ true → value_is "queued" v ≡ false
running_not_queued none h = refl
running_not_queued (some (str t)) h = rw ((eq_iff t "running").0 h)
running_not_queued (some (bytes b)) h = refl

pub release-Delivery : (id : String) (m : Memory) → Delivery m → Delivery (release id m).0
unfolding release
release-Delivery id m h j = elim (Option-cases (lookup id m.jobs)) [
  | inl missing ↦ ground (arith, h j)
  | inr (r, found) ↦ ground (
    arith,
    h j,
    h id,
    eq_iff id j,
    lookup-insert id j (insert "status" (str "queued") r) m.jobs,
    status_is-insert "queued" "queued" r,
    running_not_queued (lookup "status" r),
    count-append_one j id m.queue,
  )
]

pub request_cancel-Delivery :
    (id : String) (m : Memory) → Delivery m → Delivery (request_cancel id m).0
unfolding request_cancel
request_cancel-Delivery id m h j = elim (Option-cases (lookup id m.jobs)) [
  | inl missing ↦ ground (arith, h j)
  | inr (r, found) ↦ ground (
    arith,
    h j,
    eq_iff id j,
    lookup-insert id j (insert "request_cancel" (str "1") r) m.jobs,
    status_is-insert_other "queued" "request_cancel" (str "1") r,
  )
]
