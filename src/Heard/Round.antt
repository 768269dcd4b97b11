-- ===== src/Heard/Round.antt =====
-- src/TaskQueue/worker.py, `_worker_loop`, over any backend: one round of the loop, from the claim to
-- what the caller hears or to the lease that is handed back.
use task_queue.Base.{
  false, suc, String, ◌≡◌, refl, ap, sym, ◌∙◌, Bool, true, Option, none, some, arith, inl, inr,
  text_cases, subst,
}
use task_queue.Base.Dict.{lookup}
use task_queue.Python.{
  Error, cancelled_error, Result, ok, err, Any, null, Bytes, str, bytes, Record,
}
use task_queue.Job.Status.{queued}
use task_queue.Job.Codec.{Serializer, DateTime}
use task_queue.Job.Record.{Job, payload_of}
use task_queue.Job.Stored.{stored, stored-status}
use task_queue.Redis.View.{Hash, field_of}
use task_queue.Redis.Effects.{is_present}
use task_queue.Redis.Scripts.{holds_text}
use task_queue.Backend.{Backend, Contract, Only, field}
use task_queue.Worker.Run.{Awaits, process}
use task_queue.Worker.Loop.{Next, again, stops, round, after_process}
use task_queue.Heard.Stored.{stored-moved, stored-id}
use task_queue.Heard.Saved.{save_done, Hears, Holds-status}
use task_queue.Heard.Ways.{ReturnsFit, heard}
use task_queue.Heard.Run.{Ends}
use task_queue.Heard.Claim.{Keeping, OwnIds, leased, claimed-Keeping, claim-heard}

module _ (b : Backend) (stored_at : String → b.State → Option Hash) (Good : b.State → Type 0)
    (contract : Contract b stored_at Good) (serializer : Serializer) (datetime : DateTime)
    (repr : String → String) (message : Error → String) where
  open b use {State}

  -- A job that waits to be claimed, in a state where a worker can claim it.
  pub record Waiting (job : Job) (p : Bytes) (s : State) : Type 0 where
    pub good : Good s
    pub own : OwnIds b stored_at Good contract serializer datetime repr message s
    pub keeping : Keeping b stored_at Good contract serializer datetime repr message job p s
    pub no_error : job.error ≡ none
    pub no_result : job.result ≡ null

  -- The job as a round that is interrupted hands it back.
  abbrev pub returned_job : Job → Job
  returned_job job = record job { status = queued; attempts = suc job.attempts }

  -- Either the caller hears of the job and the loop goes on, or the job waits again, with one more
  -- attempt, and the loop's task ends.
  abbrev pub RoundEnds : Job → Bytes → Option (Result Any) → State × Next → Type 0
  RoundEnds job p none (s, next) = (next ≡ stops) × Waiting (returned_job job) p s
  RoundEnds job p (some out) (s, next) =
      (next ≡ again) × Hears b stored_at Good contract serializer datetime repr message job.id s out

  pub only-OwnIds :
      (id : String) (s s' : State)
      → Only b stored_at Good id s s'
      → field b stored_at Good "id" id s' ≡ some (str id)
      → OwnIds b stored_at Good contract serializer datetime repr message s
      → OwnIds b stored_at Good contract serializer datetime repr message s'
  only-OwnIds id s s' others mine own j known = elim (text_cases id j) [
    | inl (same, _) ↦ subst (λ i. field b stored_at Good "id" i s' ≡ some (str i)) same mine
    | inr (differ, _) ↦
        ap (λ o. field_of o "id") (others j differ)
        ∙ own j (ap is_present (sym (others j differ)) ∙ known)
  ]

  -- A released job is as it was, QUEUED.
  release-Waiting :
      (job : Job) (p : Bytes) (s : State)
      → Good s
      → OwnIds b stored_at Good contract serializer datetime repr message s
      → Keeping b stored_at Good contract serializer datetime repr message
          (leased b stored_at Good contract serializer datetime repr message job)
          p
          s
      → job.error ≡ none
      → job.result ≡ null
      → Waiting (returned_job job) p (b.release job.id s).0
  release-Waiting job p s good own keeps no_error no_result =
      let leased_job = leased b stored_at Good contract serializer datetime repr message job in
      let s' = (b.release job.id s).0 in
      let busy =
        Holds-status b stored_at Good contract serializer datetime repr message leased_job p none s
          keeps in
      let (total, marked, kept, others) =
        contract.writes.release_leased job.id s (ap (holds_text "running") busy) in
      let r' = stored serializer datetime (returned_job job) p none in
      let keeping : Keeping b stored_at Good contract serializer datetime repr message
          (returned_job job) p s' =
        λ k is_in. elim (text_cases k "status") [
          | inl (same, _) ↦
              subst (λ i. field b stored_at Good i job.id s' ≡ lookup i r') (sym same)
                (marked ∙ sym (stored-status serializer datetime (returned_job job) p none))
          | inr (differ, _) ↦
              kept k differ
              ∙ keeps k is_in
              ∙ stored-moved serializer datetime leased_job p queued leased_job.attempts k differ
                  (λ e. refl)
        ] in
      record {
        good = contract.keeps.release_good job.id s good;
        own =
            only-OwnIds job.id s s' others
              (keeping "id" refl ∙ stored-id serializer datetime (returned_job job) p) own;
        keeping = keeping;
        no_error = no_error;
        no_result = no_result;
      }

  abbrev saved : String → Record → State → State × Result (Unit {0})
  saved = save_done b stored_at Good contract serializer datetime repr message

  -- The handlers around `_process` do as the run ended.
  after-RoundEnds :
      (job : Job) (p : Bytes) (s : State) (r : Record) (out : Option (Result Any))
      (q : State × Result (Unit {0}))
      → lookup "id" r ≡ some (str job.id)
      → Waiting (returned_job job) p (b.release job.id s).0
      → Ends b stored_at Good contract serializer datetime repr message job.id s out q
      → RoundEnds job p out
          (after_process b.claim b.release saved serializer datetime repr message r q)
  after-RoundEnds job p s r none (s', ok u) names back (res, same) = absurd (ground arith)
  after-RoundEnds job p s r none (s', err cancelled_error) names back (res, same) =
      (refl, rw (same, names) back)
  after-RoundEnds job p s r none (s', err e) names back (res, same) = absurd (ground arith)
  after-RoundEnds job p s r (some out) (s', ok u) names back (res, hears) = (refl, hears)
  after-RoundEnds job p s r (some out) (s', err e) names back (res, hears) = absurd (ground arith)

  -- What one round of the worker's loop makes of the job that it claims, whatever the backend is, as
  -- long as it keeps the contract and each call reaches it. Either the loop goes on, the job's terminal
  -- record is written, and `result` on a new handle returns at once and frees the record. It gives the
  -- value that the body returned, or a RuntimeError with the text of the exception that the body raised
  -- or of a name that is not registered, or JobCancelled, for a job that was cancelled before its claim
  -- or during its run. Or a CancelledError interrupts the run, the loop's task ends, and the job waits
  -- as before, QUEUED and with one more attempt, so that all of this holds of its next claim. This is
  -- for a job without an error and a result that waits in a good state, in which every record names
  -- the job that it is kept under; its arguments fit the codec, and so does the value that its body
  -- returns, unless it was cancelled; and its stored payload reads as its arguments.
  pub round-heard :
      (registered : String → Bool) (a : Awaits) (job : Job) (p : Bytes) (s s' : State) (r : Record)
      → Waiting job p s
      → serializer.fits (payload_of job) ≡ true
      → serializer.loads (bytes p) ≡ ok (payload_of job)
      → (job.request_cancel ≡ false → ReturnsFit serializer.fits a)
      → b.claim s ≡ (s', ok (some r))
      → lookup "id" r ≡ some (str job.id)
      → RoundEnds job p
          (heard repr message registered a job)
          (round b.claim b.release saved serializer datetime repr message registered a s)
  unfolding round
  round-heard registered a job p s s' r waits fits loads returns claimed names =
      let (keeps, tells, others) =
        claimed-Keeping b stored_at Good contract serializer datetime repr message job p s s' r
          waits.own waits.keeping claimed names in
      let good' : Good s' = rw (← ap (λ q. q.0) claimed) (contract.keeps.claim_good s waits.good) in
      let own' =
        only-OwnIds job.id s s' others
          (keeps "id" refl
            ∙ stored-id serializer datetime
                (leased b stored_at Good contract serializer datetime repr message job) p)
          waits.own in
      let ends =
        claim-heard b stored_at Good contract serializer datetime repr message registered a job p s
          s' r waits.good waits.own waits.keeping waits.no_error waits.no_result fits loads returns
          claimed names in
      rw claimed (
        after-RoundEnds job p s' r (heard repr message registered a job)
          (process saved serializer datetime repr message registered a r s') names
          (release-Waiting job p s' good' own' keeps waits.no_error waits.no_result) ends)
