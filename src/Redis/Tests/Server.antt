-- ===== src/Redis/Tests/Server.antt =====
-- A server with the commands of src/TaskQueue/backends/redis_backend.py: the view is the database.
use Prim.Native.String.{◌∷◌ as char_cons, [] as no_chars}
use Prim.Native.String.append
use Prim.Native.Char.{Char, code}
use task_queue.Base.{
  member, ℕ, String, eq_iff, ◌≡◌, refl, ap, Bool, true, false, Option, none, some, List, [], ◌∷◌,
  ◌↔◌, arith, if◌then◌else◌, nat_eq, inl, inr, Option-cases, length, ne-eq_false, ◌==◌, subst, sym,
}
use task_queue.Base.Dict.{Dict, lookup}
use task_queue.Python.{Value, str, bytes}
use task_queue.Redis.Keys.{queue_key, workers_key, job_key, processing_key}
use task_queue.Redis.View.{
  View, Kind, hash_key, list_key, zset_key, Hash, field_of, head?, is_until, incremented,
}
use task_queue.Redis.Effect
use task_queue.Redis.Interface.{Redis, reply_get, replied, replied_text}
use task_queue.Redis.Tests.Text.{decode, reply, reply_text}
use task_queue.Job.Record.{job_fields}

-- By the first letter: `jobs:…` is a hash, `workers` a sorted set, the others are lists.
abbrev kind_at : ℕ → Kind
kind_at c = if nat_eq c 106 then hash_key else if nat_eq c 119 then zset_key else list_key

unfoldable pub kind_of : String → Kind
kind_of no_chars = list_key
kind_of (char_cons c rest) = kind_at (code c)

pub job_kind : (id : String) → kind_of (job_key id) ≡ hash_key
unfolding kind_of job_key
job_kind id = ap kind_of (append.cons p rest id)
  where
    p : Char
    p = "j"

    rest : String
    rest = "obs:"

pub queue_kind : kind_of queue_key ≡ list_key
unfolding kind_of
queue_kind = refl

pub workers_kind : kind_of workers_key ≡ zset_key
unfolding kind_of
workers_kind = refl

abbrev pub exists_at : Option Hash → Bool
exists_at none = false
exists_at (some h) = true

pub exists_law : (o : Option Hash) → exists_at o ≡ (elim o [ none ↦ false | some h ↦ true ])
exists_law none = refl
exists_law (some h) = refl

pub processing_kind : (id : String) → kind_of (processing_key id) ≡ list_key
unfolding kind_of processing_key
processing_kind id = ap kind_of (append.cons p rest id)
  where
    p : Char
    p = "p"

    rest : String
    rest = "rocessing:"

abbrev pub hincrby_by : String → String → Option Value → View → Option View
hincrby_by k f none v = none
hincrby_by k f (some x) v = some (Effect.hset k ((f, x) ∷ []) v)

-- The pairs of the fields that a job's record may have; a hash with none of them answers one pair.
abbrev pair_at : String → Option Value → List (Value × Value) → List (Value × Value)
pair_at f none ps = ps
pair_at f (some x) ps = (reply (str f), reply x) ∷ ps

abbrev pairs : List String → Hash → List (Value × Value)
pairs [] h = (bytes [], bytes []) ∷ []
pairs (f ∷ fs) h = pair_at f (h f) (pairs fs h)

abbrev pub reply_of : Option Hash → List (Value × Value)
reply_of none = []
reply_of (some h) = pairs job_fields h

pairs_some : (fs : List String) (h : Hash) → pairs fs h ≡ [] → ⊥
pairs_some [] h e = cc
pairs_some (f ∷ fs) h e = elim (Option-cases (h f)) [
  | inl missing ↦ pairs_some fs h (ground arith)
  | inr (x, found) ↦ ground arith
]

pub reply_none : (o : Option Hash) → (reply_of o ≡ []) ↔ (o ≡ none)
reply_none none = ((λ e. refl), (λ e. refl))
reply_none (some h) = ((λ e. absurd (pairs_some job_fields h e)), (λ e. cc))

fields_read :
    (fs : List String) (f : String) (h : Hash)
    → ("" == f) ≡ false
    → reply_get decode f (pairs fs h) ≡ (if member f fs then replied reply (h f) else none)
unfolding reply_get
fields_read [] f h named = ground arith
fields_read (g ∷ fs) f h named = elim (Option-cases (h g)) [
  | inl missing ↦ ground (arith, eq_iff g f, fields_read fs f h named)
  | inr (x, found) ↦ ground (arith, eq_iff g f, reply_text g, fields_read fs f h named)
]

field_named : (f : String) → member f job_fields ≡ true → ("" == f) ≡ false
field_named f is_in =
    ne-eq_false "" f (λ same. no_such (subst (λ g. member g job_fields ≡ true) (sym same) is_in))
  where
    no_such : member "" job_fields ≡ true → ⊥
    no_such h = cc

pub reply_fields :
    (o : Option Hash) (f : String)
    → member f job_fields ≡ true
    → reply_get decode f (reply_of o) ≡ replied reply (field_of o f)
unfolding reply_get
reply_fields none f is_in = refl
reply_fields (some h) f is_in = ground (arith, fields_read job_fields f h (field_named f is_in))

-- The members of a sorted set whose own score is within the bound.
abbrev pub within : ℕ → Dict ℕ → Dict ℕ → List String
within bound whole [] = []
within bound whole ((w, beat) ∷ rest) =
    let others = within bound whole rest in
    if is_until bound (lookup w whole) then w ∷ others else others

abbrev keys : Dict ℕ → List String
keys [] = []
keys ((w, beat) ∷ rest) = w ∷ keys rest

member-within :
    (bound : ℕ) (x : String) (whole d : Dict ℕ)
    → member x (within bound whole d)
      ≡ (if member x (keys d) then is_until bound (lookup x whole) else false)
member-within bound x whole [] = refl
member-within bound x whole ((w, beat) ∷ rest) =
    ground (arith, eq_iff w x, member-within bound x whole rest)

member-keys : (x : String) (d : Dict ℕ) → member x (keys d) ≡ false → lookup x d ≡ none
unfolding lookup
member-keys x [] h = refl
member-keys x ((w, beat) ∷ rest) h = ground (arith, eq_iff w x, member-keys x rest)

pub zrange_law :
    (bound : ℕ) (x : String) (d : Dict ℕ)
    → member x (within bound d d) ≡ is_until bound (lookup x d)
zrange_law bound x d = ground (arith, member-within bound x d d, member-keys x d)

abbrev pub server : Redis
server = record {
  Db = View;
  view = λ v. v;
  kind_of = kind_of;
  job_kind = job_kind;
  queue_kind = queue_kind;
  processing_kind = processing_kind;
  workers_kind = workers_kind;
  hset = Effect.hset;
  hincrby = λ k f v. hincrby_by k f (incremented (field_of (v.hash k) f)) v;
  delete = Effect.delete;
  rpush = Effect.rpush;
  lpop = λ k v. (head? (v.list k), Effect.lpop k v);
  lrem = Effect.lrem;
  blmove = λ src dst v. (replied_text reply (head? (v.list src)), Effect.blmove src dst v);
  zadd = Effect.zadd;
  zrem = Effect.zrem;
  expire = Effect.expire;
  publish = Effect.publish;
  key_exists = λ k v. exists_at (v.hash k);
  hget = λ k f v. field_of (v.hash k) f;
  hget_reply = λ k f v. replied reply (field_of (v.hash k) f);
  hgetall = λ k v. reply_of (v.hash k);
  llen = λ k v. length (v.list k);
  zrange_until = λ k bound v. within bound (v.zset k) (v.zset k);
  time = λ v. v.clock;
  hset-view = λ k ps v h. refl;
  hincrby-view = λ k f x v h e. (Effect.hset k ((f, x) ∷ []) v, rw e, refl);
  hincrby_error = λ k f v h e. rw e;
  delete-view = λ k v h. refl;
  rpush-view = λ k x v h. refl;
  lpop-view = λ k v h. (refl, refl);
  lrem-view = λ k x v h. refl;
  blmove-view = λ src dst v h h'. (refl, refl);
  zadd-view = λ k score x v h. refl;
  zrem-view = λ k x v h. refl;
  expire-view = λ k seconds v h. refl;
  publish-view = λ channel v. refl;
  key_exists-view = λ k v h. exists_law (v.hash k);
  hget-view = λ k f v h. refl;
  hget_reply-view = λ k f v h. refl;
  hgetall-view = λ k v h. reply_none (v.hash k);
  llen-view = λ k v h. refl;
  zrange_until-view = λ k bound x v h. zrange_law bound x (v.zset k);
  decode = decode;
  reply = reply;
  reply_text = reply_text;
  reply_bytes = λ b. refl;
  hgetall-fields = λ k f v h is_in. reply_fields (v.hash k) f is_in;
  time-view = λ v. refl;
}
