-- ===== src/Redis/Notifier/Watching.antt =====
-- src/TaskQueue/backends/redis_backend.py, `_Notifier`: who is woken by a message.
use task_queue.Base.{
  ℕ, ◌<◌, String, ◌==◌, eq_iff, text_cases, ◌≡◌, refl, ◌∙◌, ap, Bool, true, false, ◌||◌, List, [],
  ◌∷◌, ◌++◌, length, set, member, nat_eq, if◌then◌else◌, arith, inl, inr, Bool-cases, Option-cases,
  length-set, length-append,
}
use task_queue.Base.Dict.{Dict, lookup, contains, lookup-insert, lookup-erase}
use task_queue.Redis.Notifier.{
  Notifier, Reader, no_reader, reads, stopped, watchers_of, discard, keep_or_drop, forget, listed,
  subscribe, join, after_last, without, leave, set_all, read_by,
}

abbrev pub mem : ℕ → List ℕ → Bool
mem e [] = false
mem e (d ∷ ds) = nat_eq d e || mem e ds

abbrev pub watchers : String → Notifier → List ℕ
watchers channel n = watchers_of (lookup channel n.waiters)

-- Every channel with a watcher is subscribed to, and every watcher's event is there.
pub record Wired (n : Notifier) : Type 0 where
  pub heard : (c : String) (e : ℕ) → mem e (watchers c n) ≡ true → member c n.subscribed ≡ true
  pub there : (c : String) (e : ℕ) → mem e (watchers c n) ≡ true → e < length n.flags

pub mem-append_one : (e d : ℕ) (es : List ℕ) → mem e (es ++ d ∷ []) ≡ (mem e es || nat_eq d e)
mem-append_one e d [] = ground arith
mem-append_one e d (x ∷ es) = ground (arith, mem-append_one e d es)

pub mem-discard :
    (e d : ℕ) (es : List ℕ) → mem e (discard d es) ≡ (if nat_eq d e then false else mem e es)
mem-discard e d [] = ground arith
mem-discard e d (x ∷ es) = ground (arith, mem-discard e d es)

keep_or_drop-watchers :
    (c c' : String) (es : List ℕ) (d : Dict (List ℕ))
    → watchers_of (lookup c' (keep_or_drop c es d))
      ≡ (if c == c' then es else watchers_of (lookup c' d))
keep_or_drop-watchers c c' [] d = ground (arith, lookup-erase c c' d)
keep_or_drop-watchers c c' (e ∷ es) d = ground (arith, lookup-insert c c' (e ∷ es) d)

pub forget-watchers :
    (c c' : String) (e : ℕ) (n : Notifier)
    → watchers c' (forget c e n) ≡ (if c == c' then discard e (watchers c' n) else watchers c' n)
unfolding forget
forget-watchers c c' e n = elim (Option-cases (lookup c n.waiters)) [
  | inl missing ↦ ground (arith, eq_iff c c')
  | inr (es, found) ↦
      ground (arith, eq_iff c c', keep_or_drop-watchers c c' (discard e es) n.waiters)
]

pub forget_rest :
    (c : String) (e : ℕ) (n : Notifier)
    → ((forget c e n).subscribed ≡ n.subscribed)
      × ((forget c e n).flags ≡ n.flags)
      × ((forget c e n).reader ≡ n.reader)
unfolding forget
forget_rest c e n = elim (Option-cases (lookup c n.waiters)) [
  | inl missing ↦ rw missing (refl, refl, refl)
  | inr (es, found) ↦ rw found (refl, refl, refl)
]

pub listed-watchers :
    (c c' : String) (n : Notifier)
    → watchers c' (listed c n)
      ≡ (if c == c' then watchers c' n ++ length n.flags ∷ [] else watchers c' n)
listed-watchers c c' n =
    ground (arith, eq_iff c c', lookup-insert c c' (watchers c n ++ length n.flags ∷ []) n.waiters)

-- Fewer watchers, the same subscriptions and events.
fewer-Wired :
    (n n' : Notifier)
    → ((c : String) (e : ℕ) → mem e (watchers c n') ≡ true → mem e (watchers c n) ≡ true)
    → ((c : String) (e : ℕ)
        → mem e (watchers c n') ≡ true
        → member c n.subscribed ≡ true
        → member c n'.subscribed ≡ true)
    → length n'.flags ≡ length n.flags
    → Wired n
    → Wired n'
fewer-Wired n n' fewer subscribed flags w = record {
  heard = λ c e h. subscribed c e h (w.heard c e (fewer c e h));
  there = λ c e h. rw flags (w.there c e (fewer c e h));
}

listed-there :
    (c c' : String) (d : ℕ) (n : Notifier)
    → Wired n
    → mem d (watchers c' (listed c n)) ≡ true
    → d < length (listed c n).flags
listed-there c c' d n w h = ground (
  arith,
  listed-watchers c c' n,
  mem-append_one d (length n.flags) (watchers c' n),
  length-append n.flags (false ∷ []),
  w.there c' d,
)

-- A watcher that was listed and forgotten again leaves those that were there.
unlisted :
    (c c' : String) (d : ℕ) (n : Notifier)
    → mem d (watchers c' (forget c (length n.flags) (listed c n))) ≡ true
    → mem d (watchers c' n) ≡ true
unlisted c c' d n h = ground (
  arith,
  eq_iff c c',
  forget-watchers c c' (length n.flags) (listed c n),
  listed-watchers c c' n,
  mem-discard d (length n.flags) (watchers c' (listed c n)),
  mem-append_one d (length n.flags) (watchers c' n),
)

pub join-Wired : (reached : Bool) (c : String) (n : Notifier) → Wired n → Wired (join reached c n).0
unfolding join
join-Wired reached c n w = by_watchers reached (watchers c n) refl
  where
    by_watchers :
        (reached : Bool) (es : List ℕ)
        → watchers c n ≡ es
        → Wired (subscribe reached c (length n.flags) es (listed c n)).0
    by_watchers true [] e = record {
      heard = λ c' d h. ground (arith, eq_iff c c', listed-watchers c c' n, w.heard c' d);
      there = λ c' d h. listed-there c c' d n w h;
    }
    by_watchers false [] e = record {
      heard = λ c' d h.
          rw (forget_rest c (length n.flags) (listed c n)).0 (w.heard c' d (unlisted c c' d n h));
      there = λ c' d h.
          let before = w.there c' d (unlisted c c' d n h) in
          rw (forget_rest c (length n.flags) (listed c n)).1
            (omega (arith, before, length-append n.flags (false ∷ [])));
    }
    by_watchers reached (x ∷ es) e = record {
      heard = λ c' d h. ground (
        arith,
        eq_iff c c',
        listed-watchers c c' n,
        mem-append_one d (length n.flags) (watchers c' n),
        w.heard c' d,
        w.heard c x,
      );
      there = λ c' d h. listed-there c c' d n w h;
    }

pub forget-fewer :
    (c c' : String) (e d : ℕ) (n : Notifier)
    → mem d (watchers c' (forget c e n)) ≡ true
    → mem d (watchers c' n) ≡ true
forget-fewer c c' e d n h =
    ground (arith, forget-watchers c c' e n, mem-discard d e (watchers c' n))

forget-Wired : (c : String) (e : ℕ) (n : Notifier) → Wired n → Wired (forget c e n)
forget-Wired c e n w =
    fewer-Wired n (forget c e n) (λ c' d h. forget-fewer c c' e d n h)
      (λ c' d h s. rw (forget_rest c e n).0 s) (ap length (forget_rest c e n).1) w

member-without :
    (x y : String) (xs : List String) → (x == y) ≡ false → member y (without x xs) ≡ member y xs
member-without x y [] h = refl
member-without x y (z ∷ xs) h =
    ground (arith, eq_iff x y, eq_iff z x, eq_iff z y, member-without x y xs)

no_watcher :
    (c c' : String) (e : ℕ) (d : Dict (List ℕ))
    → c ≡ c'
    → contains c d ≡ false
    → mem e (watchers_of (lookup c' d)) ≡ true
    → ⊥
no_watcher c c' e d same gone h = elim (Option-cases (lookup c d)) [
  | inl missing ↦ ground (arith, rw same at missing)
  | inr (es, found) ↦ ground arith
]

after_last-Wired :
    (reached : Bool) (c : String) (ws : Dict (List ℕ)) (n : Notifier)
    → n.waiters ≡ ws
    → contains c ws ≡ false
    → Wired n
    → Wired (after_last reached c ws n)
unfolding lookup
after_last-Wired reached c [] n e gone w = record {
  heard = λ c' d h. absurd (ground arith);
  there = λ c' d h. absurd (ground arith);
}
after_last-Wired false c (x ∷ ws) n e gone w = w
after_last-Wired true c (x ∷ ws) n e gone w =
    fewer-Wired n (after_last true c (x ∷ ws) n) (λ c' d h. h)
      (λ c' d h s. elim (text_cases c c') [
        | inl (same, _) ↦ absurd (no_watcher c c' d (x ∷ ws) same gone (rw e at h))
        | inr (_, differ) ↦ member-without c c' n.subscribed differ ∙ s
      ])
      refl w

pub leave-Wired :
    (reached : Bool) (c : String) (e : ℕ) (n : Notifier) → Wired n → Wired (leave reached c e n)
unfolding leave
leave-Wired reached c e n w =
    let n' = forget c e n in
    elim (Bool-cases (contains c n'.waiters)) [
      | inl kept ↦ rw kept (forget-Wired c e n w)
      | inr gone ↦
          rw gone (after_last-Wired reached c n'.waiters n' refl gone (forget-Wired c e n w))
    ]

length-set_all : (es : List ℕ) (flags : List Bool) → length (set_all es flags) ≡ length flags
length-set_all [] flags = refl
length-set_all (e ∷ es) flags = length-set_all es (set flags e true) ∙ length-set flags e true

pub read_by-Wired : (r : Reader) (c : String) (n : Notifier) → Wired n → Wired (read_by r c n)
read_by-Wired no_reader c n w = w
read_by-Wired stopped c n w = w
read_by-Wired reads c n w =
    fewer-Wired n (read_by reads c n) (λ c' d h. h) (λ c' d h s. s)
      (length-set_all (watchers c n) n.flags) w
