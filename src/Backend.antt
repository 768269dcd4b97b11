-- ===== src/Backend.antt =====
-- src/TaskQueue/backends/interface.py: the methods that a backend has, and the contract that the
-- interface documents for them. What can be seen of a state is `stored`: the fields of a job's record,
-- if there is one. `take_result` and `wait_cancel` give `none` where they go on waiting; the laws below
-- say nothing of `wait_cancel`, nor that a claimed job was QUEUED before.
pub mod InMemory
pub mod OverRedis
mod Tests
use task_queue.Base.{
  ℕ, String, ◌≡◌, ◌≢◌, Bool, true, false, not, ◌&&◌, Option, none, some, List, [], ◌∷◌, member,
  refl, arith, Bool-cases, inl, inr, eq_iff, ◌==◌,
}
use task_queue.Base.Dict.{lookup, contains, insert, lookup-insert}
use task_queue.Python.{key_error, Result, ok, err, Value, str, bytes, Record}
use task_queue.Job.Status.{is_terminal}
use task_queue.Job.Record.{job_fields}
use task_queue.Redis.Backend.{is_blob}
use task_queue.Redis.View.{Hash, field_of, incremented}
use task_queue.Redis.Scripts.{holds_text, holds_terminal}
use task_queue.Redis.Effects.{is_present}

pub record Backend : Type 1 where
  pub State : Type 0
  pub enqueue : String → Record → State → State
  pub claim : State → State × Result (Option Record)
  pub get_job : String → State → Result Record
  pub save : String → Record → Bool → State → State × Result (Unit {0})
  pub release : String → State → State × Result (Unit {0})
  pub take_result : String → State → Option (State × Result Record)
  pub request_cancel : String → State → State × Result (Unit {0})
  pub request_cancel_many : List String → State → State × Result (Unit {0})
  pub wait_cancel : String → State → Option (Result (Unit {0}))
  pub heartbeat : State → State
  pub deregister : State → State
  pub reap : State → State × ℕ

-- A Python dict has no key twice.
abbrev pub is_dict : Record → Bool
is_dict [] = true
is_dict ((k, x) ∷ r) = not (contains k r) && is_dict r

pub insert-is_dict :
    (k : String) (x : Value) (r : Record) → is_dict r ≡ true → is_dict (insert k x r) ≡ true
unfolding insert lookup
insert-is_dict k x [] dict = refl
insert-is_dict k x ((f, y) ∷ r) dict = elim (Bool-cases (f == k)) [
  | inl same ↦ ground arith
  | inr other ↦ ground (arith, eq_iff f k, eq_iff k f, lookup-insert k f x r, insert-is_dict k x r)
]

-- The payload and the result are kept as bytes, and every other field as text.
abbrev pub is_plain : String → Option Value → Bool
is_plain k (some (bytes b)) = is_blob k
is_plain k (some (str t)) = not (is_blob k)
is_plain k _ = true

module _ (b : Backend) (stored : String → b.State → Option Hash) (Good : b.State → Type 0) where
  open b use {
    State, enqueue, claim, get_job, save, release, take_result, request_cancel, request_cancel_many,
    heartbeat, deregister, reap,
  }

  abbrev pub field : String → String → State → Option Value
  field k id s = field_of (stored id s) k

  -- One job's record may change, and no other's.
  abbrev pub Only : String → State → State → Type 0
  Only id s s' = (j : String) → id ≢ j → stored j s' ≡ stored j s

  -- A record that is read says of the job's fields what is stored.
  abbrev pub Tells : Record → String → State → Type 0
  Tells r id s =
      (k : String)
      → member k job_fields ≡ true
      → is_plain k (field k id s) ≡ true
      → lookup k r ≡ field k id s

  -- What enqueueing, saving, releasing and cancelling promise.
  pub record Writes : Type 0 where
    -- a new job is QUEUED, whatever its record arrived saying, and a known one is left alone
    pub enqueue_new :
        (id : String) (r : Record) (s : State)
        → is_dict r ≡ true
        → stored id s ≡ none
        → ((k : String) → field k id (enqueue id r s) ≡ lookup k (insert "status" (str "queued") r))
          × Only id s (enqueue id r s)
    pub enqueue_known :
        (id : String) (r : Record) (s : State)
        → is_present (stored id s) ≡ true
        → enqueue id r s ≡ s
    pub save_unknown :
        (id : String) (r : Record) (done : Bool) (s : State)
        → stored id s ≡ none
        → save id r done s ≡ (s, err key_error)
    pub save_known :
        (id : String) (r : Record) (done : Bool) (s : State)
        → is_dict r ≡ true
        → is_present (stored id s) ≡ true
        → ((save id r done s).1 ≡ ok tt)
          × ((k : String) (x : Value)
              → lookup k r ≡ some x
              → field k id (save id r done s).0 ≡ some x)
          × ((k : String)
              → lookup k r ≡ none
              → field k id s ≡ none
              → field k id (save id r done s).0 ≡ none)
          × Only id s (save id r done s).0
    pub release_unknown :
        (id : String) (s : State) → stored id s ≡ none → release id s ≡ (s, err key_error)
    pub release_leased :
        (id : String) (s : State)
        → holds_text "running" (field "status" id s) ≡ true
        → ((release id s).1 ≡ ok tt)
          × (field "status" id (release id s).0 ≡ some (str "queued"))
          × ((k : String) → k ≢ "status" → field k id (release id s).0 ≡ field k id s)
          × Only id s (release id s).0
    -- a release of a job that is not leased, as of one that is terminal, is a no-op
    pub release_idle :
        (id : String) (s : State)
        → Good s
        → is_present (stored id s) ≡ true
        → holds_text "running" (field "status" id s) ≡ false
        → release id s ≡ (s, ok tt)
    -- completion wins: a finished or unknown job is left alone
    pub cancel_over :
        (id : String) (s : State)
        → Good s
        → (is_present (stored id s) ≡ true → holds_terminal (field "status" id s) ≡ true)
        → request_cancel id s ≡ (s, ok tt)
    pub cancel_live :
        (id : String) (s : State)
        → Good s
        → is_present (stored id s) ≡ true
        → holds_terminal (field "status" id s) ≡ false
        → ((request_cancel id s).1 ≡ ok tt)
          × (field "request_cancel" id (request_cancel id s).0 ≡ some (str "1"))
          × ((k : String)
              → k ≢ "request_cancel"
              → field k id (request_cancel id s).0 ≡ field k id s)
          × Only id s (request_cancel id s).0
    -- a batch asks for each job in turn
    pub cancel_many_none : (s : State) → request_cancel_many [] s ≡ (s, ok tt)
    pub cancel_many_one :
        (id : String) (ids : List String) (s : State)
        → (request_cancel id s).1 ≡ ok tt
        → request_cancel_many (id ∷ ids) s ≡ request_cancel_many ids (request_cancel id s).0

  -- What reading, taking and the liveness of workers promise.
  pub record Reads : Type 0 where
    pub get_known :
        (id : String) (s : State)
        → is_present (stored id s) ≡ true
        → (r : Record) × (get_job id s ≡ ok r) × Tells r id s
    pub get_unknown : (id : String) (s : State) → stored id s ≡ none → get_job id s ≡ err key_error
    pub take_unknown :
        (id : String) (s : State)
        → Good s
        → stored id s ≡ none
        → (s' : State) × (take_result id s ≡ some (s', err key_error))
    -- a job that is not terminal is waited for
    pub take_live :
        (id t : String) (s : State)
        → Good s
        → field "status" id s ≡ some (str t)
        → is_terminal t ≡ false
        → take_result id s ≡ none
    -- a terminal one is returned at once, and freed
    pub take_terminal :
        (id : String) (s : State)
        → Good s
        → holds_terminal (field "status" id s) ≡ true
        → (s' : State) × (r : Record) × (take_result id s ≡ some (s', ok r))
          × Tells r id s
          × (stored id s' ≡ none)
          × Only id s s'
    pub heartbeat_keeps : (id : String) (s : State) → stored id (heartbeat s) ≡ stored id s
    pub deregister_keeps : (id : String) (s : State) → stored id (deregister s) ≡ stored id s
    pub reap_keeps :
        (id : String) (s : State) → is_present (stored id (reap s).0) ≡ is_present (stored id s)

  -- What claiming promises: a job that is there is marked RUNNING and its attempt is counted.
  pub record Claims : Type 0 where
    pub claim_some :
        (s s' : State) (r : Record)
        → claim s ≡ (s', ok (some r))
        → (id : String) × (is_present (stored id s) ≡ true)
          × (field "status" id s' ≡ some (str "running"))
          × (incremented (field "attempts" id s) ≡ field "attempts" id s')
          × ((k : String) → k ≢ "status" → k ≢ "attempts" → field k id s' ≡ field k id s)
          × Tells r id s'
          × Only id s s'
    pub claim_none :
        (s s' : State) → claim s ≡ (s', ok none) → (id : String) → stored id s' ≡ stored id s

  -- The methods keep a state good, a terminal save by the holder of the lease.
  pub record Keeps : Type 0 where
    pub enqueue_good : (id : String) (r : Record) (s : State) → Good s → Good (enqueue id r s)
    pub claim_good : (s : State) → Good s → Good (claim s).0
    pub finish_good :
        (id : String) (r : Record) (s : State)
        → Good s
        → holds_text "running" (field "status" id s) ≡ true
        → holds_terminal (lookup "status" r) ≡ true
        → Good (save id r true s).0
    pub release_good : (id : String) (s : State) → Good s → Good (release id s).0
    pub cancel_good : (id : String) (s : State) → Good s → Good (request_cancel id s).0

  pub record Contract : Type 0 where
    pub keeps : Keeps
    pub writes : Writes
    pub claims : Claims
    pub reads : Reads
