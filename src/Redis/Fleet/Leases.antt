-- ===== src/Redis/Fleet/Leases.antt =====
-- src/TaskQueue/backends/redis_backend.py: what the effects of the commands do to the jobs that are
-- held and to the workers that are registered.
use task_queue.Base.{
  member, remove_one, member-append_one, String, ◌==◌, eq_iff, eq_refl, ne-eq_false, text_cases,
  ◌≡◌, ◌≢◌, refl, sym, false, Option, some, List, [], ◌∷◌, ◌⊎◌, inl, inr, arith, if◌then◌else◌,
}
use task_queue.Python.{Value, Record}
use task_queue.Redis.Keys.{
  queue_key, job_key, processing_key, processing_key-ne-queue, keys_injective,
}
use task_queue.Redis.View.{View, Hash, update, write_fields}
use task_queue.Redis.Effect
use task_queue.Redis.Reap.{leases}
use task_queue.Redis.Fleet.{Held}

pub member-remove_one :
    (x y : String) (xs : List String) → (y == x) ≡ false → member x (remove_one y xs) ≡ member x xs
member-remove_one x y [] h = refl
member-remove_one x y (z ∷ xs) h =
    ground (arith, eq_iff z y, eq_iff z x, eq_iff y x, member-remove_one x y xs)

-- Keys of different things differ.
pub processing_differ : (a b : String) → a ≢ b → (processing_key a == processing_key b) ≡ false
processing_differ a b h =
    ne-eq_false (processing_key a) (processing_key b) (λ e. h ((keys_injective a b).1 e))

pub jobs_differ : (a b : String) → a ≢ b → (job_key a == job_key b) ≡ false
jobs_differ a b h = ne-eq_false (job_key a) (job_key b) (λ e. h ((keys_injective a b).0 e))

pub queue_processing : (w : String) → (queue_key == processing_key w) ≡ false
queue_processing w =
    ne-eq_false queue_key (processing_key w) (λ e. processing_key-ne-queue w (sym e))

pub processing_queue : (w : String) → (processing_key w == queue_key) ≡ false
processing_queue w = ne-eq_false (processing_key w) queue_key (processing_key-ne-queue w)

-- An id that goes to the end of the queue is held, and no other stops being held.
pub Held-rpush :
    (id j : String) (v : View) → (id ≡ j) ⊎ Held j v → Held j (Effect.rpush queue_key id v)
Held-rpush id j v (inl same) =
    inl (ground (arith, eq_refl queue_key, eq_iff id j, member-append_one j id (v.list queue_key)))
Held-rpush id j v (inr (inl queued)) =
    inl (ground (arith, eq_refl queue_key, member-append_one j id (v.list queue_key)))
Held-rpush id j v (inr (inr (w, held))) = inr (w, ground (arith, queue_processing w))

-- Dropping one id from a worker's list concerns that id alone.
pub Held-lrem :
    (own id j : String) (v : View)
    → id ≢ j
    → Held j v
    → Held j (Effect.lrem (processing_key own) id v)
Held-lrem own id j v differ (inl queued) = inl (ground (arith, processing_queue own))
Held-lrem own id j v differ (inr (w, held)) = inr (
  w,
  elim (text_cases own w) [
    | inl (same, _) ↦ ground (
      arith,
      eq_iff (processing_key own) (processing_key w),
      member-remove_one j id (leases w v),
      ne-eq_false id j differ,
    )
    | inr (other, _) ↦ ground (arith, processing_differ own w other)
  ],
)

pub Held-blmove :
    (own j : String) (v : View) → Held j v → Held j (Effect.blmove queue_key (processing_key own) v)
Held-blmove own j v held = by_queue (v.list queue_key) refl held
  where
    by_queue :
        (q : List String)
        → v.list queue_key ≡ q
        → Held j v
        → Held j (Effect.blmove_head queue_key (processing_key own) q v)
    by_queue [] e held = held
    by_queue (y ∷ q) e (inl queued) = elim (text_cases y j) [
      | inl (same, hit) ↦ inr (
        own,
        ground (
          arith,
          eq_refl (processing_key own),
          queue_processing own,
          member-append_one j y (leases own v),
        ),
      )
      | inr (differ, miss) ↦ inl (ground (arith, eq_refl queue_key, processing_queue own))
    ]
    by_queue (y ∷ q) e (inr (w, held)) = inr (
      w,
      elim (text_cases own w) [
        | inl (same, _) ↦ ground (
          arith,
          eq_iff (processing_key own) (processing_key w),
          queue_processing own,
          queue_processing w,
          member-append_one j y (leases w v),
        )
        | inr (other, _) ↦ ground (arith, processing_differ own w other, queue_processing w)
      ],
    )

-- What a hash holds once fields are written: the last value written, or the old one.
abbrev pub last_of : String → Record → Option Value → Option Value
last_of f [] old = old
last_of f ((k, x) ∷ ps) old = last_of f ps (if k == f then some x else old)

pub write_fields-last :
    (f : String) (r : Record) (h : Hash) → write_fields r h f ≡ last_of f r (h f)
write_fields-last f [] h = refl
write_fields-last f ((k, x) ∷ ps) h = write_fields-last f ps (update k (some x) h)
