-- ===== src/Heard/Rounds.antt =====
-- src/TaskQueue/worker.py, `_worker_loop`, over any backend: a job whose runs by the loops of one
-- worker, with one backend object and one registry, are interrupted before one of them is not.
use task_queue.Base.{
  false, true, ℕ, zero, suc, ◌+◌, String, ◌≡◌, ap, ◌∙◌, Bool, Option, none, some, arith,
}
use task_queue.Base.Dict.{lookup}
use task_queue.Python.{Error, Result, ok, Any, Bytes, bytes, str, Record}
use task_queue.Job.Status.{queued}
use task_queue.Job.Codec.{Serializer, DateTime}
use task_queue.Job.Record.{Job, payload_of}
use task_queue.Redis.View.{Hash}
use task_queue.Backend.{Backend, Contract}
use task_queue.Worker.Run.{Awaits}
use task_queue.Worker.Loop.{Next, round}
use task_queue.Heard.Saved.{save_done}
use task_queue.Heard.Ways.{heard, ReturnsFit}
use task_queue.Heard.Round.{Waiting, RoundEnds, round-heard}

module _ (b : Backend) (stored_at : String → b.State → Option Hash) (Good : b.State → Type 0)
    (contract : Contract b stored_at Good) (serializer : Serializer) (datetime : DateTime)
    (repr : String → String) (message : Error → String) (registered : String → Bool) where
  open b use {State}

  abbrev pub one_round : Awaits → State → State × Next
  one_round =
      round b.claim b.release (save_done b stored_at Good contract serializer datetime repr message)
        serializer datetime repr message registered

  -- A round that claims the job, in a way that the job's end is heard as `out`.
  pub record Turn (job : Job) (out : Option (Result Any)) (a : Awaits) (s : State) : Type 0 where
    pub record_ : Record
    pub claimed_state : State
    pub claimed : b.claim s ≡ (claimed_state, ok (some record_))
    pub names : lookup "id" record_ ≡ some (str job.id)
    pub returns : job.request_cancel ≡ false → ReturnsFit serializer.fits a
    pub ends : heard repr message registered a job ≡ out

  -- Rounds that are all interrupted, one after the other.
  pub data Interrupted (job : Job) : ℕ → State → State → Type 0 where
    not_yet : {s : State} → Interrupted job zero s s
    once_more :
        {n : ℕ} {s s' : State}
        → Interrupted job n s s'
        → (a : Awaits) → Turn job none a s'
        → Interrupted job (suc n) s (one_round a s').0

  -- The job after so many attempts.
  abbrev pub retried : ℕ → Job → Job
  retried n job = record job { status = queued; attempts = n + job.attempts }

  abbrev Waits : Job → Bytes → State → Type 0
  Waits = Waiting b stored_at Good contract serializer datetime repr message

  pub retried-zero : (job : Job) → job.status ≡ queued → job ≡ retried zero job
  retried-zero job e =
      ap (λ status. record job { status = status }) e
      ∙ ap (λ k. record job { status = queued; attempts = k }) {x = job.attempts} (omega arith)

  pub Turn-RoundEnds :
      (job : Job) (n : ℕ) (p : Bytes) (out : Option (Result Any)) (a : Awaits) (s : State)
      → Waits (retried n job) p s
      → serializer.fits (payload_of job) ≡ true
      → serializer.loads (bytes p) ≡ ok (payload_of job)
      → Turn job out a s
      → RoundEnds b stored_at Good contract serializer datetime repr message
          (retried n job)
          p
          out
          (one_round a s)
  Turn-RoundEnds job n p out a s waits fits loads turn = rw (← turn.ends) (
      round-heard b stored_at Good contract serializer datetime repr message registered a
        (retried n job) p s turn.claimed_state turn.record_ waits fits loads turn.returns
        turn.claimed turn.names)
