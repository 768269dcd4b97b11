-- ===== src/Heard/Claim.antt =====
-- src/TaskQueue/worker.py, `_claim_and_process`, over any backend: a job from its submission to what
-- its caller hears.
use task_queue.Base.{
  false, ℕ, suc, String, ◌≡◌, ◌≢◌, refl, ap, sym, ◌∙◌, Bool, true, Option, none, some, arith, inl,
  inr, text_cases, subst,
}
use task_queue.Base.Dict.{lookup, insert, lookup-insert, lookup-insert_other}
use task_queue.Base.Decimal.{to_text, of_text-to_text}
use task_queue.Python.{Error, ok, null, Bytes, Value, str, bytes, Record}
use task_queue.Job.Status.{running, queued}
use task_queue.Job.Codec.{Serializer, DateTime}
use task_queue.Job.Record.{Job, payload_of, from_record}
use task_queue.Job.Stored.{stored, stored-status}
use task_queue.Job.RoundTrip.{from_record-stored}
use task_queue.Redis.View.{Hash, field_of, incremented}
use task_queue.Redis.Effects.{is_present}
use task_queue.Backend.{Backend, Contract, Only, Tells, field, is_plain}
use task_queue.Worker.Run.{Awaits, process}
use task_queue.Heard.Stored.{stored-is_dict, stored-attempts, stored-id, stored-moved}
use task_queue.Heard.Saved.{save_done, Holds, read_back}
use task_queue.Heard.Ways.{ReturnsFit, heard}
use task_queue.Heard.Run.{Ends, run-heard}

text_injective : (a b : String) → ◌≡◌ {A = Option Value} (some (str a)) (some (str b)) → a ≡ b
text_injective a b e = ground arith

module _ (b : Backend) (stored_at : String → b.State → Option Hash) (Good : b.State → Type 0)
    (contract : Contract b stored_at Good) (serializer : Serializer) (datetime : DateTime)
    (repr : String → String) (message : Error → String) where
  open b use {State}

  abbrev pub Keeping : Job → Bytes → State → Type 0
  Keeping job p s = Holds b stored_at Good contract serializer datetime repr message job p none s

  -- Each record names the job that it is kept under.
  abbrev pub OwnIds : State → Type 0
  OwnIds s =
      (id : String)
      → is_present (stored_at id s) ≡ true
      → field b stored_at Good "id" id s ≡ some (str id)

  -- The job that a claim hands out.
  abbrev pub leased : Job → Job
  leased job = record job { status = running; attempts = suc job.attempts }

  claim-Keeping :
      (job : Job) (p : Bytes) (s s' : State)
      → Keeping job p s
      → field b stored_at Good "status" job.id s' ≡ some (str "running")
      → incremented (field b stored_at Good "attempts" job.id s)
        ≡ field b stored_at Good "attempts" job.id s'
      → ((k : String)
          → k ≢ "status"
          → k ≢ "attempts"
          → field b stored_at Good k job.id s' ≡ field b stored_at Good k job.id s)
      → Keeping (leased job) p s'
  claim-Keeping job p s s' holds marked counted kept k is_in = elim (text_cases k "status") [
    | inl (same, _) ↦
        at k "status" same (marked ∙ sym (stored-status serializer datetime (leased job) p none))
    | inr (no_status, _) ↦ elim (text_cases k "attempts") [
      | inl (same, _) ↦ at k "attempts" same (
          sym counted
          ∙ ap incremented (holds "attempts" refl ∙ stored-attempts serializer datetime job p)
          ∙ next job.attempts
          ∙ sym (stored-attempts serializer datetime (leased job) p))
      | inr (no_attempts, _) ↦
          kept k no_status no_attempts
          ∙ holds k is_in
          ∙ stored-moved serializer datetime job p running (suc job.attempts) k no_status
              (λ e. absurd (no_attempts e))
    ]
  ]
    where
      r' : Record
      r' = stored serializer datetime (leased job) p none

      at :
          (k j : String)
          → k ≡ j
          → field b stored_at Good j job.id s' ≡ lookup j r'
          → field b stored_at Good k job.id s' ≡ lookup k r'
      at k j same h = subst (λ i. field b stored_at Good i job.id s' ≡ lookup i r') (sym same) h

      next : (n : ℕ) → incremented (some (str (to_text n))) ≡ some (str (to_text (suc n)))
      next n = ground (arith, of_text-to_text n)

  pub claimed-Keeping :
      (job : Job) (p : Bytes) (s s' : State) (r : Record)
      → OwnIds s
      → Keeping job p s
      → b.claim s ≡ (s', ok (some r))
      → lookup "id" r ≡ some (str job.id)
      → (Keeping (leased job) p s')
        × Tells b stored_at Good r job.id s'
        × Only b stored_at Good job.id s s'
  claimed-Keeping job p s s' r own holds claimed names =
      let (id, known, marked, counted, kept, tells, others) =
        contract.claims.claim_some s s' r claimed in
      let own_id : field b stored_at Good "id" id s' ≡ some (str id) =
        kept "id" (λ e. cc) (λ e. cc) ∙ own id known in
      let named : id ≡ job.id =
        text_injective id job.id
          (sym own_id ∙ sym (tells "id" refl (ap (is_plain "id") own_id)) ∙ names) in
      (
        claim-Keeping job p s s' holds
            (ap (λ i. field b stored_at Good "status" i s') (sym named) ∙ marked)
            (ap (λ i. incremented (field b stored_at Good "attempts" i s)) (sym named)
              ∙ counted
              ∙ ap (λ i. field b stored_at Good "attempts" i s') named)
            (λ k no_status no_attempts.
              ap (λ i. field b stored_at Good k i s') (sym named)
              ∙ kept k no_status no_attempts
              ∙ ap (λ i. field b stored_at Good k i s) named),
        subst (λ i. Tells b stored_at Good r i s') named tells,
        subst (λ i. Only b stored_at Good i s s') named others,
      )

  -- A submitted job that is claimed and processed ends as `heard` says.
  pub claim-heard :
      (registered : String → Bool) (a : Awaits) (job : Job) (p : Bytes) (s s' : State) (r : Record)
      → Good s
      → OwnIds s
      → Keeping job p s
      → job.error ≡ none
      → job.result ≡ null
      → serializer.fits (payload_of job) ≡ true
      → serializer.loads (bytes p) ≡ ok (payload_of job)
      → (job.request_cancel ≡ false → ReturnsFit serializer.fits a)
      → b.claim s ≡ (s', ok (some r))
      → lookup "id" r ≡ some (str job.id)
      → Ends b stored_at Good contract serializer datetime repr message job.id s'
          (heard repr message registered a job)
          (process
            (save_done b stored_at Good contract serializer datetime repr message)
            serializer
            datetime
            repr
            message
            registered
            a
            r
            s')
  unfolding process
  claim-heard registered a job p s s' r good own holds no_error no_result fits loads returns claimed
        names =
      let (held, tells, others) = claimed-Keeping job p s s' r own holds claimed names in
      let reads : from_record serializer datetime r ≡ ok (leased job) =
        read_back b stored_at Good contract serializer datetime repr message (leased job) p none s'
          r refl held tells
        ∙ from_record-stored serializer datetime (leased job) p none loads (rw no_result refl) in
      rw reads (
        run-heard b stored_at Good contract serializer datetime repr message registered a
          (leased job) p s'
          (record {
            good = rw (← ap (λ q. q.0) claimed) (contract.keeps.claim_good s good);
            holds = held;
            busy = refl;
            no_error = no_error;
            no_result = no_result;
            fits = fits;
          })
          returns)

  -- Enqueueing the record of a new job leaves the backend with the job QUEUED, under its own id, and
  -- with the records that it had.
  pub enqueue-Keeping :
      (job : Job) (p : Bytes) (s : State)
      → OwnIds s
      → stored_at job.id s ≡ none
      → let s' = b.enqueue job.id (stored serializer datetime job p none) s in
        OwnIds s' × Keeping (record job { status = queued }) p s'
  enqueue-Keeping job p s own new =
      let r = stored serializer datetime job p none in
      let (says, others) =
        contract.writes.enqueue_new job.id r s (stored-is_dict serializer datetime job p none)
          new in
      let s' = b.enqueue job.id r s in
      let queued_job = record job { status = queued } in
      let r' = stored serializer datetime queued_job p none in
      (
        λ id known. elim (text_cases job.id id) [
          | inl (same, _) ↦
              subst (λ i. field b stored_at Good "id" i s' ≡ some (str i)) same
                (says "id"
                  ∙ lookup-insert_other "status" "id" (str "queued") r (λ e. cc)
                  ∙ stored-id serializer datetime job p)
          | inr (differ, _) ↦
              ap (λ o. field_of o "id") (others id differ)
              ∙ own id (ap is_present (sym (others id differ)) ∙ known)
        ],
        λ k is_in. says k ∙ (elim (text_cases k "status") [
          | inl (same, _) ↦
              subst (λ i. lookup i (insert "status" (str "queued") r) ≡ lookup i r') (sym same)
                (lookup-insert "status" "status" (str "queued") r
                  ∙ sym (stored-status serializer datetime queued_job p none))
          | inr (differ, _) ↦
              lookup-insert_other "status" k (str "queued") r differ
              ∙ stored-moved serializer datetime job p queued job.attempts k differ (λ e. refl)
        ]),
      )
