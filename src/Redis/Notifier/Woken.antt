-- ===== src/Redis/Notifier/Woken.antt =====
-- src/TaskQueue/backends/redis_backend.py, `_Notifier`: what a waiter keeps while others come and go. A
-- reader that failed hears nothing, and is not started again while anyone waits.
use task_queue.Base.{
  ℕ, zero, suc, ◌<◌, String, eq_iff, eq_refl, ◌≡◌, ◌≢◌, refl, ap, Bool, true, false, List, [], ◌∷◌,
  length, get_or, set, member, nat_eq, arith, inl, inr, Bool-cases, length-set, get_or-set_self,
}
use task_queue.Base.Dict.{Dict, contains}
use task_queue.Python.{ok}
use task_queue.Redis.Notifier.{
  Notifier, Reader, no_reader, reads, stopped, forget, listed, subscribe, join, after_last, leave,
  set_all, read_by, read_message, read_failed,
}
use task_queue.Redis.Notifier.Watching.{
  mem, watchers, Wired, join-Wired, leave-Wired, read_by-Wired, forget-watchers, listed-watchers,
  mem-discard, mem-append_one,
}

-- What the others do, and what comes in, while one waiter holds `e` on `channel`.
pub data Other (channel : String) (e : ℕ) (n : Notifier) : Notifier → Type 0 where
  joins : (reached : Bool) (c : String) → Other channel e n (join reached c n).0
  leaves :
      (reached : Bool) (c : String) (d : ℕ)
      → (c ≡ channel → d ≢ e)
      → Other channel e n (leave reached c d n)
  messages : (c : String) → Other channel e n (read_message c n)
  fails : n.reader ≡ reads → Other channel e n (read_failed n)

pub data Others (channel : String) (e : ℕ) (n : Notifier) : Notifier → Type 0 where
  here : Others channel e n n
  next :
      {n' n'' : Notifier} → Others channel e n n' → Other channel e n' n'' → Others channel e n n''

listed-kept :
    (c channel : String) (e : ℕ) (n : Notifier)
    → mem e (watchers channel n) ≡ true
    → mem e (watchers channel (listed c n)) ≡ true
listed-kept c channel e n h =
    ground
      (arith, listed-watchers c channel n, mem-append_one e (length n.flags) (watchers channel n))

forget-kept :
    (c channel : String) (d e : ℕ) (n : Notifier)
    → (c ≡ channel → d ≢ e)
    → mem e (watchers channel n) ≡ true
    → mem e (watchers channel (forget c d n)) ≡ true
forget-kept c channel d e n other h = ground (
  arith,
  eq_iff c channel,
  other,
  forget-watchers c channel d n,
  mem-discard e d (watchers channel n),
)

join-kept :
    (reached : Bool) (c channel : String) (e : ℕ) (n : Notifier)
    → Wired n
    → mem e (watchers channel n) ≡ true
    → mem e (watchers channel (join reached c n).0) ≡ true
unfolding join
join-kept reached c channel e n w h = by_watchers reached (watchers c n)
  where
    by_watchers :
        (reached : Bool) (es : List ℕ)
        → mem e (watchers channel (subscribe reached c (length n.flags) es (listed c n)).0) ≡ true
    by_watchers true [] = listed-kept c channel e n h
    by_watchers false [] =
        forget-kept c channel (length n.flags) e (listed c n)
          (λ same f. omega (arith, f, w.there channel e h)) (listed-kept c channel e n h)
    by_watchers reached (x ∷ es) = listed-kept c channel e n h

after_last-waiters :
    (reached : Bool) (c : String) (ws : Dict (List ℕ)) (n : Notifier)
    → (after_last reached c ws n).waiters ≡ n.waiters
after_last-waiters reached c [] n = refl
after_last-waiters true c (x ∷ ws) n = refl
after_last-waiters false c (x ∷ ws) n = refl

leave-kept :
    (reached : Bool) (c channel : String) (d e : ℕ) (n : Notifier)
    → (c ≡ channel → d ≢ e)
    → mem e (watchers channel n) ≡ true
    → mem e (watchers channel (leave reached c d n)) ≡ true
unfolding leave
leave-kept reached c channel d e n other h =
    let n' = forget c d n in
    let kept = forget-kept c channel d e n other h in
    elim (Bool-cases (contains c n'.waiters)) [
      | inl more ↦ rw more kept
      | inr last ↦ rw (last, after_last-waiters reached c n'.waiters n') kept
    ]

read_by-kept : (r : Reader) (c : String) (n : Notifier) → (read_by r c n).waiters ≡ n.waiters
read_by-kept no_reader c n = refl
read_by-kept stopped c n = refl
read_by-kept reads c n = refl

-- A watched event, in a notifier that is wired.
pub record Watched (channel : String) (e : ℕ) (n : Notifier) : Type 0 where
  pub wired : Wired n
  pub listens : mem e (watchers channel n) ≡ true

Other-Watched :
    {channel : String} {e : ℕ} {n n' : Notifier}
    → Other channel e n n'
    → Watched channel e n
    → Watched channel e n'
unfolding read_message
Other-Watched {channel} {e} {n} (joins reached c) w = record {
  wired = join-Wired reached c n w.wired;
  listens = join-kept reached c channel e n w.wired w.listens;
}
Other-Watched {channel} {e} {n} (leaves reached c d other) w = record {
  wired = leave-Wired reached c d n w.wired;
  listens = leave-kept reached c channel d e n other w.listens;
}
Other-Watched {channel} {e} {n} (messages c) w = record {
  wired = read_by-Wired n.reader c n w.wired;
  listens = rw (read_by-kept n.reader c n) w.listens;
}
Other-Watched {channel} {e} {n} (fails running) w = record {
  wired = record { heard = w.wired.heard; there = w.wired.there };
  listens = w.listens;
}

Others-Watched :
    {channel : String} {e : ℕ} {n n' : Notifier}
    → Others channel e n n'
    → Watched channel e n
    → Watched channel e n'
Others-Watched here w = w
Others-Watched (next r o) w = Other-Watched o (Others-Watched r w)

set-keeps :
    (flags : List Bool) (d e : ℕ)
    → get_or flags e false ≡ true
    → get_or (set flags d true) e false ≡ true
set-keeps [] d e h = cc
set-keeps (x ∷ xs) zero zero h = refl
set-keeps (x ∷ xs) zero (suc e) h = h
set-keeps (x ∷ xs) (suc d) zero h = h
set-keeps (x ∷ xs) (suc d) (suc e) h = set-keeps xs d e h

set-sets :
    (flags : List Bool) (d e : ℕ)
    → e < length flags
    → d ≡ e
    → get_or (set flags d true) e false ≡ true
set-sets flags d e i same = rw same (get_or-set_self flags e true false i)

set_all-keeps :
    (es : List ℕ) (flags : List Bool) (e : ℕ)
    → get_or flags e false ≡ true
    → get_or (set_all es flags) e false ≡ true
set_all-keeps [] flags e h = h
set_all-keeps (d ∷ es) flags e h = set_all-keeps es (set flags d true) e (set-keeps flags d e h)

set_all-sets :
    (es : List ℕ) (flags : List Bool) (e : ℕ)
    → mem e es ≡ true
    → e < length flags
    → get_or (set_all es flags) e false ≡ true
set_all-sets [] flags e h i = cc
set_all-sets (d ∷ es) flags e h i = elim (Bool-cases (nat_eq d e)) [
  | inl same ↦ set_all-keeps es (set flags d true) e (set-sets flags d e i (ground arith))
  | inr other ↦ set_all-sets es (set flags d true) e (ground arith) (rw (length-set flags d true) i)
]

joined :
    (reached : Bool) (channel : String) (n n₁ : Notifier) (e : ℕ)
    → join reached channel n ≡ (n₁, ok e)
    → mem e (watchers channel n₁) ≡ true
unfolding join
joined reached channel n n₁ e h = by_watchers reached (watchers channel n) h
  where
    fresh :
        (n' : Notifier)
        → n'.waiters ≡ (listed channel n).waiters
        → length n.flags ≡ e
        → mem e (watchers channel n') ≡ true
    fresh n' same new = ground (
      arith,
      eq_refl channel,
      same,
      listed-watchers channel channel n,
      mem-append_one e (length n.flags) (watchers channel n),
    )

    by_watchers :
        (reached : Bool) (es : List ℕ)
        → subscribe reached channel (length n.flags) es (listed channel n) ≡ (n₁, ok e)
        → mem e (watchers channel n₁) ≡ true
    by_watchers true [] h = fresh n₁ (ground arith) (ground arith)
    by_watchers false [] h = cc
    by_watchers reached (x ∷ es) h = fresh n₁ (ground arith) (ground arith)

-- A waiter that has joined a channel is subscribed to it until it leaves, whatever the others do on
-- this channel and on others, calls that do not reach the server included; and as long as the reader
-- runs, the next message on the channel sets its event. This is for a notifier in which every watched
-- channel is subscribed to, as in a new one.
pub watcher_woken :
    (reached : Bool) (channel : String) (n n₁ n₂ : Notifier) (e : ℕ)
    → Wired n
    → join reached channel n ≡ (n₁, ok e)
    → Others channel e n₁ n₂
    → (member channel n₂.subscribed ≡ true)
      × (n₂.reader ≡ reads → get_or (read_message channel n₂).flags e false ≡ true)
unfolding read_message
watcher_woken reached channel n n₁ n₂ e w h others =
    let start : Watched channel e n₁ = record {
      wired = rw (ap (λ p. p.0) h) at (join-Wired reached channel n w);
      listens = joined reached channel n n₁ e h;
    } in
    let now = Others-Watched others start in
    (
      now.wired.heard channel e now.listens,
      λ running. rw running (
          set_all-sets (watchers channel n₂) n₂.flags e now.listens
            (now.wired.there channel e now.listens)),
    )
