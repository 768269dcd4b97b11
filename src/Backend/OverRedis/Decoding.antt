-- ===== src/Backend/OverRedis/Decoding.antt =====
-- src/TaskQueue/backends/redis_backend.py, `_decode`: what it reads of a reply to `HGETALL`.
use task_queue.Base.{
  String, member, eq_iff, ◌==◌, ◌≡◌, refl, ap, subst, sym, ◌∙◌, true, false, Option, none, some,
  List, [], ◌∷◌, arith, ne-eq_false, inl, inr, Bool-cases,
}
use task_queue.Base.Dict.{lookup, insert, lookup-insert}
use task_queue.Python.{Value, str, bytes, Record}
use task_queue.Job.Record.{job_fields}
use task_queue.Redis.Keys.{job_key}
use task_queue.Redis.View.{field_of}
use task_queue.Redis.Interface.{Redis, reply_get, text_of, replied}
use task_queue.Redis.Backend.{Config, decode_pairs, decode_value}
use task_queue.Backend.{is_plain, Tells}
use task_queue.Backend.OverRedis.{redis_backend, redis_stored, AnyState}

field_named : (k : String) → member k job_fields ≡ true → (k == "") ≡ false
field_named k is_in =
    ne-eq_false k "" (λ same. no_such (subst (λ g. member g job_fields ≡ true) same is_in))
  where
    no_such : member "" job_fields ≡ true → ⊥
    no_such h = cc

module _ (redis : Redis) (self : Config) where
  open redis use {Db, view, decode, hgetall, reply}

  -- The decoded value of a reply, or what the record says already.
  abbrev shown : String → Option Value → Option Value → Option Value
  shown k none old = old
  shown k (some v) old = some (decode_value redis self k v)

  blob_at :
      (j k : String) (v : Value) → j ≡ k → decode_value redis self j v ≡ decode_value redis self k v
  blob_at j k v same = ap (λ i. decode_value redis self i v) same

  lookup-decode_pairs :
      (k : String) (raw : List (Value × Value)) (r : Record)
      → (k == "") ≡ false
      → lookup k (decode_pairs redis self raw r) ≡ shown k (reply_get decode k raw) (lookup k r)
  unfolding decode_pairs reply_get
  lookup-decode_pairs k [] r named = refl
  lookup-decode_pairs k ((kb, v) ∷ raw) r named = elim (Bool-cases (text_of decode kb == "")) [
    | inl empty ↦ ground (
      arith,
      lookup-decode_pairs k raw r named,
      eq_iff (text_of decode kb) k,
      eq_iff (text_of decode kb) "",
      eq_iff k "",
    )
    | inr full ↦ ground (
      arith,
      lookup-decode_pairs k raw
          (insert (text_of decode kb) (decode_value redis self (text_of decode kb) v) r) named,
      lookup-insert (text_of decode kb) k (decode_value redis self (text_of decode kb) v) r,
      eq_iff (text_of decode kb) k,
      blob_at (text_of decode kb) k v,
    )
  ]

  -- Whatever form the driver gives to a value, `_decode` gives back what is kept.
  shown_plain :
      (k : String) (o : Option Value) → is_plain k o ≡ true → shown k (replied reply o) none ≡ o
  shown_plain k none plain = refl
  shown_plain k (some (str t)) plain = ground (arith, redis.reply_text t)
  shown_plain k (some (bytes b)) plain = ground (arith, redis.reply_bytes b)

  -- A reply that is decoded tells the job's fields.
  pub decoded-Tells :
      (id : String) (raw : List (Value × Value)) (db : Db)
      → hgetall (job_key id) db ≡ raw
      → Tells
          (redis_backend redis self)
          (redis_stored redis self)
          (AnyState redis self)
          (decode_pairs redis self raw [])
          id
          db
  unfolding lookup
  decoded-Tells id raw db replied k is_in plain =
      lookup-decode_pairs k raw [] (field_named k is_in)
      ∙ ap (λ ps. shown k (reply_get decode k ps) none) (sym replied)
      ∙ ap (λ o. shown k o none) (redis.hgetall-fields (job_key id) k db (redis.job_kind id) is_in)
      ∙ shown_plain k (field_of (redis_stored redis self id db) k) plain
