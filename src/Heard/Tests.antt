-- ===== src/Heard/Tests.antt =====
-- A job from its submission to what its caller hears, over the Redis backend.
mod Retry
mod Handover
use task_queue.Base.{
  ℕ, String, ◌≡◌, refl, true, false, Option, none, some, List, [], ◌∷◌, inl, inr, arith, ◌⊎◌,
}
use task_queue.Base.Dict.{lookup, insert}
use task_queue.Base.Decimal.{to_text, of_text}
use task_queue.Python.{bytes, Error, Result, ok, Any, num, Record}
use task_queue.Job.Status.{created, queued}
use task_queue.Job.Record.{Job}
use task_queue.Job.Stored.{stored}
use task_queue.Job.Tests.{finished}
use task_queue.Job.Tests.Codec.{codec, clock}
use task_queue.Python.{null}
use task_queue.Redis.View.{View, Hash}
use task_queue.Redis.Keys.{job_key}
use task_queue.Redis.Scripts.{enqueue_script, claim_script}
use task_queue.Redis.Backend.{enqueue, claim, decode_pairs}
use task_queue.Redis.Tests.{config, blank}
use task_queue.Redis.Tests.Server.{server, kind_of}
use task_queue.Backend.{Backend, Contract}
use task_queue.Backend.OverRedis.{redis_backend, redis_stored, AnyState}
use task_queue.Backend.OverRedis.Reading.{redis_backend-Contract}
use task_queue.Worker.Run.{Awaits, returned}
use task_queue.Worker.Loop.{round}
use task_queue.Heard.Saved.{save_done}
use task_queue.Heard.Round.{Waiting, RoundEnds, round-heard}
use task_queue.Job.Record.{to_record}
use task_queue.Backend.{is_dict}
use task_queue.Heard.Written.{is_typed, to_record-typed}
use task_queue.Heard.Claim.{OwnIds, Keeping, enqueue-Keeping}

abbrev pub submitted : Job
submitted = record finished { status = created; result = null; attempts = 0 }

abbrev pub waiting_job : Job
waiting_job = record submitted { status = queued }

abbrev pub payload : List ℕ
payload = 2 ∷ 21 ∷ []

abbrev pub waiting : View
waiting = enqueue server config "a" (stored codec clock submitted payload none) blank

abbrev pub same_text : String → String
same_text s = s

abbrev pub message : Error → String
message e = "error"

abbrev pub returns : Awaits
returns = record {
  interrupted = false;
  job = some (returned (num 42));
  watch = none;
  unwatched = none;
  unwind_interrupted = false;
}

pub fits :
    (v : Any)
    → (some (returned (num 42)) ≡ some (returned v)) ⊎ (none ≡ some (returned v))
    → codec.fits v ≡ true
fits v (inl e) = ground arith
fits v (inr e) = cc

abbrev backend : Backend
backend = redis_backend server config

abbrev stored_at : String → View → Option Hash
stored_at = redis_stored server config

abbrev Good : View → Type 0
Good = AnyState server config

abbrev contract : Contract backend stored_at Good
contract = redis_backend-Contract server config

waiting_kept :
    OwnIds backend stored_at Good contract codec clock same_text message waiting
    × Keeping backend stored_at Good contract codec clock same_text message waiting_job payload
        waiting
waiting_kept =
    enqueue-Keeping backend stored_at Good contract codec clock same_text message submitted payload
      blank (λ id known. cc) refl

abbrev claimed : View × Result (Option Record)
claimed = claim server config true true waiting

abbrev pub record_of : Result (Option Record) → Record
record_of (ok (some r)) = r
record_of _ = []

claimed_run : claimed.1 ≡ ok (some (record_of claimed.1))
unfolding claim enqueue enqueue_script claim_script decode_pairs to_text of_text insert lookup
    kind_of job_key
claimed_run = refl

pub waits :
    Waiting backend stored_at Good contract codec clock same_text message waiting_job payload
      waiting
waits = record {
  good = tt;
  own = waiting_kept.0;
  keeping = waiting_kept.1;
  no_error = refl;
  no_result = refl;
}

round-heard_example :
    RoundEnds backend stored_at Good contract codec clock same_text message waiting_job payload
      (some (ok (num 42)))
      (round backend.claim backend.release
        (save_done backend stored_at Good contract codec clock same_text message)
        codec
        clock
        same_text
        message
        (λ name. true)
        returns
        waiting)
unfolding claim enqueue enqueue_script claim_script decode_pairs to_text of_text insert lookup
    kind_of job_key
round-heard_example =
    round-heard backend stored_at Good contract codec clock same_text message (λ name. true) returns
      waiting_job payload waiting claimed.0 (record_of claimed.1) waits refl refl (λ _. fits) refl
      refl

abbrev finished_record : Record
finished_record = stored codec clock finished (2 ∷ 21 ∷ []) (some (bytes (1 ∷ 42 ∷ [])))

to_record-typed_example :
    (is_dict finished_record ≡ true) × ((k : String) → is_typed k (lookup k finished_record) ≡ true)
unfolding to_record
to_record-typed_example = to_record-typed codec clock finished finished_record refl
