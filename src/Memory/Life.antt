-- ===== src/Memory/Life.antt =====
-- src/TaskQueue/backends/memory_backend.py: what a store can go through, as a step relation. Each
-- method is a step. A terminal `save` comes from the holder of the lease, as in
-- src/TaskQueue/worker.py, and `take_result` is a step once it no longer waits.
use task_queue.Base.{
  String, eq_iff, ◌≡◌, refl, true, false, Option, none, some, List, [], ◌∷◌, arith, ap, Bool-cases,
}
use task_queue.Base.Dict.{lookup, lookup-erase}
use task_queue.Python.{Result, ok, err, Record}
use task_queue.Memory.{
  Memory, empty, enqueue, claim, save, release, take_record, take_result, request_cancel,
  request_cancel_many, unless_raised,
}
use task_queue.Memory.Delivery.{
  Delivery, status_is, enqueue-Delivery, claim-Delivery, save-Delivery, release-Delivery,
  running_not_queued, request_cancel-Delivery,
}
use task_queue.Memory.Stated.{
  Stated, enqueue-Stated, claim-Stated, save-Stated, release-Stated, take_record-Stated,
  request_cancel-Stated,
}
use task_queue.Memory.Waiting.{Waiting, is_pending}
use task_queue.Memory.Waiting.Methods.{
  enqueue-Waiting, claim-Waiting, release-Waiting, queued-is_pending,
}
use task_queue.Memory.Waiting.Settle.{
  save-Waiting, take_record-Waiting, take_ready, request_cancel-Waiting,
}

pub data Step (m : Memory) : Memory → Type 0 where
  enqueues : (id : String) (r : Record) → Step m (enqueue id r m)
  claims : Step m (claim m).0
  finishes :
      (id : String) (r : Record)
      → status_is "running" (lookup id m.jobs) ≡ true
      → is_pending (some r) ≡ false
      → Step m (save id r true m).0
  releases : (id : String) → Step m (release id m).0
  cancels : (ids : List String) → Step m (request_cancel_many ids m).0
  takes :
      (id : String) {m' : Memory} {res : Result Record}
      → take_result id m ≡ some (m', res)
      → Step m m'

pub data Reach (m : Memory) : Memory → Type 0 where
  here : Reach m m
  next : {m' m'' : Memory} → Reach m m' → Step m' m'' → Reach m m''

pub record Inv (m : Memory) : Type 0 where
  pub delivery : Delivery m
  pub waiting : Waiting m
  pub stated : Stated m

pub empty-Inv : Inv empty
unfolding lookup
empty-Inv = record {
  delivery = λ id. refl;
  waiting = record {
    owned = λ k id. ground arith;
    bounded = λ k id e h. absurd (ground arith);
    one_owner = λ k l i j e h h'. absurd (ground arith);
    unset = λ id e h. refl;
    requested = λ id e h f. absurd (ground arith);
  };
  stated = λ id. refl;
}

running_not_pending_queued :
    (o : Option Record) → status_is "running" o ≡ true → status_is "queued" o ≡ false
running_not_pending_queued none h = refl
running_not_pending_queued (some r) h = running_not_queued (lookup "status" r) h

settled_not_queued :
    (r : Record) → is_pending (some r) ≡ false → status_is "queued" (some r) ≡ false
settled_not_queued r h =
    ground (arith, queued-is_pending (some r), Bool-cases (status_is "queued" (some r)))

take_record-Delivery :
    (id : String) (m : Memory)
    → is_pending (lookup id m.jobs) ≡ false
    → Delivery m
    → Delivery (take_record id m).0
unfolding take_record
take_record-Delivery id m settled h j =
    ground (arith, h j, eq_iff id j, lookup-erase id j m.jobs, queued-is_pending (lookup id m.jobs))

-- A `take_result` that goes through found a job that is not pending.
pub take_result_inv :
    (id : String) (m m' : Memory) (res : Result Record)
    → take_result id m ≡ some (m', res)
    → Waiting m
    → (is_pending (lookup id m.jobs) ≡ false) × ((take_record id m) ≡ (m', res))
unfolding take_result
take_result_inv id m m' res h w = ground (arith, take_ready id m w)

pub request_cancel-Inv : (id : String) (m : Memory) → Inv m → Inv (request_cancel id m).0
request_cancel-Inv id m v = record {
  delivery = request_cancel-Delivery id m v.delivery;
  waiting = request_cancel-Waiting id m v.waiting;
  stated = request_cancel-Stated id m v.stated;
}

unless_raised-Inv :
    (x rest : Memory × Result (Unit {0})) → Inv x.0 → Inv rest.0 → Inv (unless_raised x rest).0
unless_raised-Inv (m, ok u) rest v v' = v'
unless_raised-Inv (m, err e) rest v v' = v

request_cancel_many-Inv :
    (ids : List String) (m : Memory) → Inv m → Inv (request_cancel_many ids m).0
unfolding request_cancel_many
request_cancel_many-Inv [] m v = v
request_cancel_many-Inv (id ∷ ids) m v =
    let first = request_cancel-Inv id m v in
    unless_raised-Inv (request_cancel id m) (request_cancel_many ids (request_cancel id m).0) first
      (request_cancel_many-Inv ids (request_cancel id m).0 first)

pub Step-Inv : {m m' : Memory} → Step m m' → Inv m → Inv m'
Step-Inv {m} (enqueues id r) v = record {
  delivery = enqueue-Delivery id r m v.delivery;
  waiting = enqueue-Waiting id r m v.waiting;
  stated = enqueue-Stated id r m v.stated;
}
Step-Inv {m} claims v = record {
  delivery = claim-Delivery m v.delivery;
  waiting = claim-Waiting m v.delivery v.waiting;
  stated = claim-Stated m v.stated;
}
Step-Inv {m} (finishes id r leased settled) v = record {
  delivery =
      save-Delivery id r true m (running_not_pending_queued (lookup id m.jobs) leased)
        (settled_not_queued r settled) v.delivery;
  waiting = save-Waiting id r m settled v.waiting;
  stated = save-Stated id r m settled v.stated;
}
Step-Inv {m} (releases id) v = record {
  delivery = release-Delivery id m v.delivery;
  waiting = release-Waiting id m v.waiting;
  stated = release-Stated id m v.stated;
}
Step-Inv {m} (cancels ids) v = request_cancel_many-Inv ids m v
Step-Inv {m} (takes id {m'} {res} e) v =
    let (settled, taken) = take_result_inv id m m' res e v.waiting in
    rw (← ap (λ p. p.0) taken) record {
      delivery = take_record-Delivery id m settled v.delivery;
      waiting = take_record-Waiting id m v.waiting;
      stated = take_record-Stated id m v.stated;
    }

-- Every store that the steps can lead to from the empty one is well formed: an id stands in the queue
-- once if its job is QUEUED and not at all otherwise; exactly the jobs that are not terminal own a done
-- event and a cancel event, no event has two owners, no done event that is still named is set, and a
-- job whose cancel event is set has its cancel flag set; and every record has a status.
pub Reach-Inv : {m : Memory} → Reach empty m → Inv m
Reach-Inv here = empty-Inv
Reach-Inv (next r st) = Step-Inv st (Reach-Inv r)
