-- ===== src/Heard/Cancel.antt =====
-- src/TaskQueue/handle.py, `cancel`, with src/TaskQueue/worker.py, over any backend: a job that is
-- cancelled before it is claimed.
use task_queue.Base.{
  false, String, ◌≡◌, refl, ap, sym, ◌∙◌, subst, Bool, true, Option, none, some, inl, inr,
  text_cases,
}
use task_queue.Base.Dict.{lookup}
use task_queue.Python.{Error, job_cancelled, ok, err, Bytes, bytes, str, Record}
use task_queue.Job.Status.{queued, is_terminal}
use task_queue.Job.Codec.{Serializer, DateTime}
use task_queue.Job.Record.{Job, payload_of}
use task_queue.Job.Stored.{stored}
use task_queue.Redis.View.{Hash}
use task_queue.Redis.Scripts.{holds_terminal}
use task_queue.Backend.{Backend, Contract, field}
use task_queue.Worker.Run.{Awaits}
use task_queue.Worker.Loop.{round}
use task_queue.Client.Handle.{new_handle, cancel}
use task_queue.Heard.Stored.{stored-flagged, stored-flag, stored-id}
use task_queue.Heard.Saved.{save_done, Holds-status, Holds-known}
use task_queue.Heard.Round.{Waiting, RoundEnds, round-heard, only-OwnIds}

module _ (b : Backend) (stored_at : String → b.State → Option Hash) (Good : b.State → Type 0)
    (contract : Contract b stored_at Good) (serializer : Serializer) (datetime : DateTime)
    (repr : String → String) (message : Error → String) where
  open b use {State}

  abbrev pub flagged : Job → Job
  flagged job = record job { request_cancel = true }

  abbrev Waits : Job → Bytes → State → Type 0
  Waits = Waiting b stored_at Good contract serializer datetime repr message

  cancel-Waits :
      (job : Job) (p : Bytes) (s : State)
      → Waits job p s
      → job.status ≡ queued
      → Waits (flagged job) p (b.request_cancel job.id s).0
  unfolding is_terminal
  cancel-Waits job p s waits status =
      let s' = (b.request_cancel job.id s).0 in
      let r' = stored serializer datetime (flagged job) p none in
      let live : holds_terminal (field b stored_at Good "status" job.id s) ≡ false =
        ap holds_terminal (
          Holds-status b stored_at Good contract serializer datetime repr message job p none s
            waits.keeping)
        ∙ rw status refl in
      let (total, flag, kept, others) =
        contract.writes.cancel_live job.id s waits.good
          (Holds-known b stored_at Good contract serializer datetime repr message job p none s
            waits.keeping)
          live in
      record {
        good = contract.keeps.cancel_good job.id s waits.good;
        own =
            only-OwnIds b stored_at Good contract serializer datetime repr message job.id s s'
              others
              (kept "id" (λ e. cc) ∙ waits.keeping "id" refl ∙ stored-id serializer datetime job p)
              waits.own;
        keeping = λ k is_in. elim (text_cases k "request_cancel") [
          | inl (same, _) ↦
              subst (λ i. field b stored_at Good i job.id s' ≡ lookup i r') (sym same)
                (flag ∙ sym (stored-flag serializer datetime (flagged job) p))
          | inr (differ, _) ↦
              kept k differ
              ∙ waits.keeping k is_in
              ∙ stored-flagged serializer datetime job true p k differ
        ];
        no_error = waits.no_error;
        no_result = waits.no_result;
      }

  -- A job that its handle cancels while it waits is never run: the round that claims it ends with the
  -- caller hearing JobCancelled, whatever the body would have done. This is for a QUEUED job without an
  -- error and a result, in a good state of a backend that keeps the contract, with each call reaching
  -- it and no other step in between; its arguments fit the codec and its stored payload reads as them.
  pub cancel-heard :
      (registered : String → Bool) (a : Awaits) (job : Job) (p : Bytes) (s s' : State) (r : Record)
      → Waits job p s
      → job.status ≡ queued
      → serializer.fits (payload_of job) ≡ true
      → serializer.loads (bytes p) ≡ ok (payload_of job)
      → let s₁ = (cancel b.request_cancel (new_handle job.id) s).0 in
        b.claim s₁ ≡ (s', ok (some r))
        → lookup "id" r ≡ some (str job.id)
        → RoundEnds b stored_at Good contract serializer datetime repr message
            (flagged job)
            p
            (some (err job_cancelled))
            (round b.claim b.release
              (save_done b stored_at Good contract serializer datetime repr message)
              serializer
              datetime
              repr
              message
              registered
              a
              s₁)
  unfolding cancel
  cancel-heard registered a job p s s' r waits status fits loads claimed names =
      round-heard b stored_at Good contract serializer datetime repr message registered a
        (flagged job) p (b.request_cancel job.id s).0 s' r (cancel-Waits job p s waits status) fits
        loads (λ e. cc) claimed names
