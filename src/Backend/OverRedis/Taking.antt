-- ===== src/Backend/OverRedis/Taking.antt =====
-- src/TaskQueue/backends/redis_backend.py, `take_result`: what a caller is given that waited while the
-- job was saved.
use task_queue.Base.{
  member, eq_refl, String, ◌≡◌, ◌∙◌, ap, true, Option, none, some, List, [], ◌∷◌, ◌++◌, All, arith,
}
use task_queue.Base.Dict.{lookup}
use task_queue.Python.{ok, Value, str, Record}
use task_queue.Job.Status.{is_terminal}
use task_queue.Job.Record.{job_fields}
use task_queue.Redis.Keys.{job_key}
use task_queue.Redis.View.{field_of, or_no_fields}
use task_queue.Redis.Interface.{Redis}
use task_queue.Redis.Effects.{is_present, save-view}
use task_queue.Redis.Fleet.Leases.{last_of, write_fields-last}
use task_queue.Redis.Backend.{Config, save, take_record}
use task_queue.Redis.Waits.{take_result, OpenJob, woken_by_save}
use task_queue.Backend.{is_plain}
use task_queue.Backend.OverRedis.{redis_stored}
use task_queue.Backend.OverRedis.Reading.{redis_backend-Contract}

module _ (redis : Redis) (self : Config) where
  open redis use {Db, view}

  saved_field :
      (id k : String) (r : Record) (db : Db)
      → is_present (redis_stored redis self id db) ≡ true
      → field_of (redis_stored redis self id (save redis self id r true db).0) k
        ≡ last_of k r (or_no_fields (redis_stored redis self id db) k)
  saved_field id k r db known = ground (
    arith,
    save-view redis self id r true db,
    eq_refl (job_key id),
    write_fields-last k r (or_no_fields ((view db).hash (job_key id))),
  )

  saved_known :
      (id : String) (r : Record) (db : Db)
      → is_present (redis_stored redis self id db) ≡ true
      → is_present (redis_stored redis self id (save redis self id r true db).0) ≡ true
  saved_known id r db known =
      ground (arith, save-view redis self id r true db, eq_refl (job_key id))

  -- A caller of `take_result` is given what the terminal `save` wrote. After any number of reads that
  -- found the job not terminal it waits; the read behind the `save` of a known job with a terminal
  -- status ends the wait, and the caller gets a record with the saved fields, the fields that the save
  -- left alone included, as long as the database at the transaction still holds the record as it was
  -- saved; and the record is then gone. The fields are those of a job that are kept as the interface
  -- has them, bytes for the payload and the result and text for the others.
  pub take_result_behind_save :
      (id : String) (r : Record) (t : String) (polls : List Db) (db later : Db)
      → All (OpenJob redis self id) polls
      → is_present (redis_stored redis self id db) ≡ true
      → ((old : Option Value) → last_of "status" r old ≡ some (str t))
      → is_terminal t ≡ true
      → redis_stored redis self id later
        ≡ redis_stored redis self id (save redis self id r true db).0
      → (take_result redis self id polls later ≡ none)
        × (db' : Db) × (r' : Record) × (take_result redis self id
              (polls ++ (save redis self id r true db).0 ∷ [])
              later
            ≡ some (db', ok r'))
        × ((k : String)
            → member k job_fields ≡ true
            → let kept = last_of k r (or_no_fields (redis_stored redis self id db) k) in
              is_plain k kept ≡ true → lookup k r' ≡ kept)
        × (redis_stored redis self id db' ≡ none)
  unfolding take_record
  take_result_behind_save id r t polls db later all known status terminal same =
      let (waits, wakes) =
        woken_by_save redis self id r t polls db later all known status terminal in
      let (r', read, tells) =
        (redis_backend-Contract redis self).reads.get_known id later
          (ap is_present same ∙ saved_known id r db known) in
      let says : (k : String)
          → field_of (redis_stored redis self id later) k
            ≡ last_of k r (or_no_fields (redis_stored redis self id db) k) =
        λ k. ap (λ o. field_of o k) same ∙ saved_field id k r db known in
      (
        waits,
        redis.delete (job_key id) later,
        r',
        wakes ∙ ap (λ res. some (redis.delete (job_key id) later, res)) read,
        λ k is_in plain. tells k is_in (ap (is_plain k) (says k) ∙ plain) ∙ says k,
        ground
            (arith, eq_refl (job_key id), redis.delete-view (job_key id) later (redis.job_kind id)),
      )
