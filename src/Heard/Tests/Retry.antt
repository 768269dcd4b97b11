-- ===== src/Heard/Tests/Retry.antt =====
-- Jobs over the memory backend: one that is claimed twice, as its first run is interrupted, and one that
-- is cancelled before it is claimed.
use task_queue.Base.{String, refl, true, Option, none, some}
use task_queue.Base.Dict.{lookup, insert, erase}
use task_queue.Base.Decimal.{to_text, of_text}
use task_queue.Python.{err, job_cancelled, Result, Record}
use task_queue.Job.Status.{is_terminal}
use task_queue.Job.Stored.{stored}
use task_queue.Job.Tests.Codec.{codec, clock}
use task_queue.Redis.View.{Hash}
use task_queue.Memory.{Memory, empty, enqueue, claim, release, request_cancel}
use task_queue.Memory.Life.{Inv, empty-Inv, Step-Inv, enqueues}
use task_queue.Backend.{Backend, Contract}
use task_queue.Backend.InMemory.{memory_backend, memory_stored}
use task_queue.Backend.InMemory.Reading.{memory_backend-Contract}
use task_queue.Worker.Run.{Awaits}
use task_queue.Worker.Loop.{round}
use task_queue.Heard.Claim.{OwnIds, Keeping, enqueue-Keeping}
use task_queue.Heard.Round.{Waiting, RoundEnds}
use task_queue.Heard.Rounds.{one_round}
use task_queue.Heard.Saved.{save_done}
use task_queue.Heard.Cancel.{flagged, cancel-heard}
use task_queue.Client.Handle.{new_handle, cancel}
use task_queue.Heard.Tests.{same_text, message, submitted, waiting_job, payload, returns, record_of}

abbrev backend : Backend
backend = memory_backend

abbrev stored_at : String → Memory → Option Hash
stored_at = memory_stored

abbrev Good : Memory → Type 0
Good = Inv

contract : Contract backend stored_at Good
contract = memory_backend-Contract

abbrev waiting : Memory
waiting = enqueue "a" (stored codec clock submitted payload none) empty

waiting_kept :
    OwnIds backend stored_at Good contract codec clock same_text message waiting
    × Keeping backend stored_at Good contract codec clock same_text message waiting_job payload
        waiting
unfolding lookup
waiting_kept =
    enqueue-Keeping backend stored_at Good contract codec clock same_text message submitted payload
      empty (λ id known. cc) refl

waits :
    Waiting backend stored_at Good contract codec clock same_text message waiting_job payload
      waiting
waits = record {
  good = Step-Inv (enqueues "a" (stored codec clock submitted payload none)) empty-Inv;
  own = waiting_kept.0;
  keeping = waiting_kept.1;
  no_error = refl;
  no_result = refl;
}

abbrev claimed : Memory × Result (Option Record)
claimed = claim waiting

abbrev stopped : Awaits
stopped = record returns { interrupted = true; job = none }

abbrev after_stop : Memory
after_stop =
    (one_round backend stored_at Good contract codec clock same_text message (λ name. true) stopped
      waiting).0

abbrev claimed_again : Memory × Result (Option Record)
claimed_again = claim after_stop

abbrev flagged_store : Memory
flagged_store = (cancel backend.request_cancel (new_handle "a") waiting).0

abbrev claimed_flagged : Memory × Result (Option Record)
claimed_flagged = claim flagged_store

cancel-heard_example :
    RoundEnds backend stored_at Good contract codec clock same_text message
      (flagged backend stored_at Good contract codec clock same_text message waiting_job)
      payload
      (some (err job_cancelled))
      (round backend.claim backend.release
        (save_done backend stored_at Good contract codec clock same_text message)
        codec
        clock
        same_text
        message
        (λ name. true)
        returns
        flagged_store)
unfolding claim enqueue to_text of_text insert lookup erase cancel request_cancel is_terminal
cancel-heard_example =
    cancel-heard backend stored_at Good contract codec clock same_text message (λ name. true)
      returns waiting_job payload waiting claimed_flagged.0 (record_of claimed_flagged.1) waits refl
      refl refl refl refl
