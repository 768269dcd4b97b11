-- ===== src/Redis/Interface.antt =====
-- What src/TaskQueue/backends/redis_backend.py relies on of the Redis server and its driver, as a
-- record of commands with their documented effects. A law holds of a key that is used for values of
-- the command's type (`kind_of`), as Redis demands: a database whose `jobs:…`, `queue`,
-- `processing:…` and `workers` keys no other program writes. The server keeps a value as the text or
-- the bytes that were written, and a script sees it so; the driver passes it on in a form of its own
-- (`reply`): bytes as they are, and text as anything that reads as this text, such as its bytes, which
-- is what a client replies that is built without `decode_responses`.
use task_queue.Base.{
  ◌↔◌, member, ℕ, String, ◌≡◌, Bool, true, false, Option, none, some, List, [], ◌∷◌, length, ◌==◌,
  if◌then◌else◌,
}
use task_queue.Base.Dict.{lookup}
use task_queue.Python.{Value, str, bytes, Bytes, Record}
use task_queue.Job.Record.{job_fields}
use task_queue.Redis.Keys.{queue_key, workers_key, job_key, processing_key}
use task_queue.Redis.View.{
  View, Kind, hash_key, list_key, zset_key, field_of, head?, is_until, incremented,
}
use task_queue.Redis.Effect

-- The text of a key of a reply: `v.decode() if isinstance(v, bytes) else v`.
abbrev pub text_of : (Bytes → String) → Value → String
text_of decode (str s) = s
text_of decode (bytes b) = decode b

abbrev pub or_else : Option Value → Option Value → Option Value
or_else none o = o
or_else (some v) o = some v

-- The driver's form of a field, and of an element of a list.
abbrev pub replied : (Value → Value) → Option Value → Option Value
replied reply none = none
replied reply (some v) = some (reply v)

abbrev pub replied_text : (Value → Value) → Option String → Option Value
replied_text reply none = none
replied_text reply (some s) = some (reply (str s))

-- What a reply to `HGETALL` says of a field.
unfoldable pub reply_get : (Bytes → String) → String → List (Value × Value) → Option Value
reply_get decode f [] = none
reply_get decode f ((k, v) ∷ ps) =
    or_else (reply_get decode f ps) (if text_of decode k == f then some v else none)

pub record Redis : Type 1 where
  pub Db : Type 0
  pub view : Db → View
  -- the type of value that a key is used for
  pub kind_of : String → Kind
  pub job_kind : (id : String) → kind_of (job_key id) ≡ hash_key
  pub queue_kind : kind_of queue_key ≡ list_key
  pub processing_kind : (id : String) → kind_of (processing_key id) ≡ list_key
  pub workers_kind : kind_of workers_key ≡ zset_key
  -- `bytes.decode`
  pub decode : Bytes → String
  -- what the driver passes on for a value that is kept
  pub reply : Value → Value
  pub reply_text : (s : String) → text_of decode (reply (str s)) ≡ s
  pub reply_bytes : (b : Bytes) → reply (bytes b) ≡ bytes b
  -- the commands that write
  pub hset : String → Record → Db → Db
  pub hincrby : String → String → Db → Option Db
  pub delete : String → Db → Db
  pub rpush : String → String → Db → Db
  pub lpop : String → Db → Option String × Db
  pub lrem : String → String → Db → Db
  pub blmove : String → String → Db → Option Value × Db
  pub zadd : String → ℕ → String → Db → Db
  pub zrem : String → String → Db → Db
  pub expire : String → ℕ → Db → Db
  pub publish : String → Db → Db
  -- the commands that read: `hget` is a script's, and `hget_reply` and `hgetall` are what the driver
  -- passes on, `hgetall` as pairs, with none for a missing key
  pub key_exists : String → Db → Bool
  pub hget : String → String → Db → Option Value
  pub hget_reply : String → String → Db → Option Value
  pub hgetall : String → Db → List (Value × Value)
  pub llen : String → Db → ℕ
  -- `ZRANGE k -inf bound BYSCORE`
  pub zrange_until : String → ℕ → Db → List String
  pub time : Db → ℕ
  -- their documented effects
  pub hset-view :
      (k : String) (ps : Record) (db : Db)
      → kind_of k ≡ hash_key
      → view (hset k ps db) ≡ Effect.hset k ps (view db)
  pub hincrby-view :
      (k f : String) (v : Value) (db : Db)
      → kind_of k ≡ hash_key
      → incremented (field_of ((view db).hash k) f) ≡ some v
      → (db' : Db) × (hincrby k f db ≡ some db')
        × (view db' ≡ Effect.hset k ((f, v) ∷ []) (view db))
  pub hincrby_error :
      (k f : String) (db : Db)
      → kind_of k ≡ hash_key
      → incremented (field_of ((view db).hash k) f) ≡ none
      → hincrby k f db ≡ none
  pub delete-view :
      (k : String) (db : Db) → kind_of k ≡ hash_key → view (delete k db) ≡ Effect.delete k (view db)
  pub rpush-view :
      (k x : String) (db : Db)
      → kind_of k ≡ list_key
      → view (rpush k x db) ≡ Effect.rpush k x (view db)
  pub lpop-view :
      (k : String) (db : Db)
      → kind_of k ≡ list_key
      → ((lpop k db).0 ≡ head? ((view db).list k)) × (view (lpop k db).1 ≡ Effect.lpop k (view db))
  pub lrem-view :
      (k x : String) (db : Db)
      → kind_of k ≡ list_key
      → view (lrem k x db) ≡ Effect.lrem k x (view db)
  pub blmove-view :
      (src dst : String) (db : Db)
      → kind_of src ≡ list_key
      → kind_of dst ≡ list_key
      → ((blmove src dst db).0 ≡ replied_text reply (head? ((view db).list src)))
        × (view (blmove src dst db).1 ≡ Effect.blmove src dst (view db))
  pub zadd-view :
      (k : String) (score : ℕ) (x : String) (db : Db)
      → kind_of k ≡ zset_key
      → view (zadd k score x db) ≡ Effect.zadd k score x (view db)
  pub zrem-view :
      (k x : String) (db : Db)
      → kind_of k ≡ zset_key
      → view (zrem k x db) ≡ Effect.zrem k x (view db)
  pub expire-view :
      (k : String) (seconds : ℕ) (db : Db)
      → kind_of k ≡ hash_key
      → view (expire k seconds db) ≡ Effect.expire k seconds (view db)
  pub publish-view :
      (channel : String) (db : Db) → view (publish channel db) ≡ Effect.publish channel (view db)
  pub key_exists-view :
      (k : String) (db : Db)
      → kind_of k ≡ hash_key
      → key_exists k db ≡ (elim ((view db).hash k) [ none ↦ false | some h ↦ true ])
  pub hget-view :
      (k f : String) (db : Db) → kind_of k ≡ hash_key → hget k f db ≡ field_of ((view db).hash k) f
  pub hget_reply-view :
      (k f : String) (db : Db)
      → kind_of k ≡ hash_key
      → hget_reply k f db ≡ replied reply (field_of ((view db).hash k) f)
  pub hgetall-view :
      (k : String) (db : Db)
      → kind_of k ≡ hash_key
      → (hgetall k db ≡ []) ↔ ((view db).hash k ≡ none)
  pub llen-view :
      (k : String) (db : Db) → kind_of k ≡ list_key → llen k db ≡ length ((view db).list k)
  pub zrange_until-view :
      (k : String) (bound : ℕ) (x : String) (db : Db)
      → kind_of k ≡ zset_key
      → member x (zrange_until k bound db) ≡ is_until bound (lookup x ((view db).zset k))
  -- asked of the fields of a job's record only, so that a finite reply can keep it
  pub hgetall-fields :
      (k f : String) (db : Db)
      → kind_of k ≡ hash_key
      → member f job_fields ≡ true
      → reply_get decode f (hgetall k db) ≡ replied reply (field_of ((view db).hash k) f)
  pub time-view : (db : Db) → time db ≡ (view db).clock
