-- ===== src/Redis/Waits.antt =====
-- src/TaskQueue/backends/redis_backend.py: the loops of `take_result` and `wait_cancel`, which read the
-- server again after every message and every lapse of the poll. `polls` are the databases that the
-- reads find, one after the other; `none` is a caller that still waits after them.
use task_queue.Base.{
  String, ◌≡◌, refl, ◌∙◌, ap, Bool, true, false, Option, none, some, List, [], ◌∷◌, ◌++◌, All,
  arith, eq_refl,
}
use task_queue.Python.{Result, ok, err, Value, str, Record}
use task_queue.Job.Status.{is_terminal}
use task_queue.Redis.Keys.{job_key}
use task_queue.Redis.View.{or_no_fields}
use task_queue.Redis.Interface.{Redis}
use task_queue.Redis.Effects.{is_present, save-view}
use task_queue.Redis.Fleet.Leases.{last_of, write_fields-last}
use task_queue.Redis.Backend.{
  Config, save, take_record, is_terminal_job, wait_cancel_start, cancel_requested,
}

module _ (redis : Redis) (self : Config) where
  open redis use {Db, view}

  -- One read of a loop: it goes on at false, and an exception ends it.
  abbrev pub or_next : Result Bool → Option (Result (Unit {0})) → Option (Result (Unit {0}))
  or_next (ok true) rest = some (ok tt)
  or_next (ok false) rest = rest
  or_next (err e) rest = some (err e)

  -- `while not await self._is_terminal(job_id)`
  unfoldable pub poll_terminal : String → List Db → Option (Result (Unit {0}))
  poll_terminal job_id [] = none
  poll_terminal job_id (db ∷ polls) =
      or_next (is_terminal_job redis self job_id db) (poll_terminal job_id polls)

  abbrev pub taken : String → Option (Result (Unit {0})) → Db → Option (Db × Result Record)
  taken job_id none db = none
  taken job_id (some (err e)) db = some (db, err e)
  taken job_id (some (ok u)) db = some (take_record redis self job_id db)

  -- `take_result`, whose transaction finds the last database.
  unfoldable pub take_result : String → List Db → Db → Option (Db × Result Record)
  take_result job_id polls db = taken job_id (poll_terminal job_id polls) db

  unfoldable pub poll_cancel : String → List Db → Option (Result (Unit {0}))
  poll_cancel job_id [] = none
  poll_cancel job_id (db ∷ polls) =
      or_next (cancel_requested redis self job_id db) (poll_cancel job_id polls)

  -- `wait_cancel`: its first read refuses a missing record, and the later ones do not.
  unfoldable pub wait_cancel : String → Db → List Db → Option (Result (Unit {0}))
  wait_cancel job_id db polls =
      or_next (wait_cancel_start redis self job_id db) (poll_cancel job_id polls)

  -- What a read of `_is_terminal` finds of a job that is not terminal.
  abbrev pub OpenJob : String → Db → Type 0
  OpenJob id db = is_terminal_job redis self id db ≡ ok false

  poll_open :
      (id : String) (polls rest : List Db)
      → All (OpenJob id) polls
      → poll_terminal id (polls ++ rest) ≡ poll_terminal id rest
  unfolding poll_terminal
  poll_open id [] rest all = refl
  poll_open id (db ∷ polls) rest (first, all) = rw first (poll_open id polls rest all)

  poll_waits :
      (id : String) (polls : List Db) → All (OpenJob id) polls → poll_terminal id polls ≡ none
  unfolding poll_terminal
  poll_waits id [] all = refl
  poll_waits id (db ∷ polls) (first, all) = rw first (poll_waits id polls all)

  poll_done :
      (id : String) (db : Db)
      → is_terminal_job redis self id db ≡ ok true
      → poll_terminal id (db ∷ []) ≡ some (ok tt)
  unfolding poll_terminal
  poll_done id db h = rw h refl

  terminal_read :
      (id : String) (r : Record) (t : String) (db : Db)
      → is_present ((view db).hash (job_key id)) ≡ true
      → ((old : Option Value) → last_of "status" r old ≡ some (str t))
      → is_terminal_job redis self id (save redis self id r true db).0 ≡ ok (is_terminal t)
  unfolding is_terminal_job
  terminal_read id r t db known status = ground (
    arith,
    redis.reply_text t,
    redis.hget_reply-view (job_key id) "status" (save redis self id r true db).0
        (redis.job_kind id),
    save-view redis self id r true db,
    eq_refl (job_key id),
    write_fields-last "status" r (or_no_fields ((view db).hash (job_key id))),
    status (or_no_fields ((view db).hash (job_key id)) "status"),
  )

  -- The read behind the terminal write ends the wait, and the ones before it do not.
  pub woken_by_save :
      (id : String) (r : Record) (t : String) (polls : List Db) (db later : Db)
      → All (OpenJob id) polls
      → is_present ((view db).hash (job_key id)) ≡ true
      → ((old : Option Value) → last_of "status" r old ≡ some (str t))
      → is_terminal t ≡ true
      → (take_result id polls later ≡ none)
        × (take_result id (polls ++ (save redis self id r true db).0 ∷ []) later
            ≡ some (take_record redis self id later))
  unfolding take_result
  woken_by_save id r t polls db later all known status terminal =
      let saved = (save redis self id r true db).0 in
      (
        rw (poll_waits id polls all) refl,
        rw
            (
              poll_open id polls (saved ∷ []) all,
              poll_done id saved (terminal_read id r t db known status ∙ ap ok terminal),
            )
            refl,
      )
