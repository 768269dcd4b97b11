-- ===== src/Group/Failures.antt =====
-- src/TaskQueue/job_group.py, `_job_finished`: which failures the scope reports, and when it cancels.
use task_queue.Base.{
  String, ◌==◌, ◌≡◌, ap, refl, ◌∙◌, Bool, true, false, none, some, List, [], ◌∷◌, ◌++◌, arith,
  if◌then◌else◌, Bool-cases, inl, inr,
}
use mathlib.Core.List.{append-nil, append_assoc}
use task_queue.Python.{Error, Result, ok, err, Any}
use task_queue.Group.{
  Group, Waiter, waits, dropped, finished, is_job_cancelled, failed, job_finished, still_running,
}

-- What happens to a scope while it waits: a child's waiter is done, and the callback of a waiter that
-- is done runs, some time later; other children may be done in between.
pub data Event : Type 0 where
  ends : String → Result Any → Event
  calls : String → Event

abbrev pub set_waiter : String → Waiter → List (String × Waiter) → List (String × Waiter)
set_waiter id w [] = []
set_waiter id w ((j, u) ∷ ws) =
    let rest = set_waiter id w ws in if j == id then (j, w) ∷ rest else (j, u) ∷ rest

abbrev pub waiter_at : String → List (String × Waiter) → Waiter
waiter_at id [] = waits
waiter_at id ((j, w) ∷ ws) = let rest = waiter_at id ws in if j == id then w else rest

abbrev end_waiter : String → Result Any → Group → Group
end_waiter id res g = record g { waiters = set_waiter id (finished res) g.waiters }

abbrev pub watch : List Event → Group → Group
watch [] g = g
watch (ends id res ∷ es) g = watch es (end_waiter id res g)
watch (calls id ∷ es) g = watch es (job_finished (waiter_at id g.waiters) g)

-- The waiters as their callbacks find them, in the order of the callbacks.
abbrev pub outcomes : List Event → List (String × Waiter) → List Waiter
outcomes [] ws = []
outcomes (ends id res ∷ es) ws = outcomes es (set_waiter id (finished res) ws)
outcomes (calls id ∷ es) ws = waiter_at id ws ∷ outcomes es ws

abbrev has_raised : Waiter → Bool
has_raised (finished (err e)) = true
has_raised _ = false

-- The children that are done by the time of the first callback that finds a failure.
abbrev pub done_before : List Event → List (String × Waiter) → List String
done_before [] ws = []
done_before (ends id res ∷ es) ws = id ∷ done_before es (set_waiter id (finished res) ws)
done_before (calls id ∷ es) ws =
    let rest = done_before es ws in if has_raised (waiter_at id ws) then [] else rest

abbrev pub except : String → List String → List String
except id [] = []
except id (x ∷ xs) = let rest = except id xs in if x == id then rest else x ∷ rest

abbrev pub without : List String → List String → List String
without [] xs = xs
without (id ∷ ids) xs = without ids (except id xs)

-- The failures that count once siblings are being cancelled: all but JobCancelled.
abbrev pub later_failures : List Waiter → List Error
later_failures [] = []
later_failures (finished (err e) ∷ ws) =
    let rest = later_failures ws in if is_job_cancelled e then rest else e ∷ rest
later_failures (_ ∷ ws) = later_failures ws

-- The failures of a scope: the first one, whatever it is, and then all but JobCancelled.
abbrev pub reported : List Waiter → List Error
reported [] = []
reported (finished (err e) ∷ ws) = e ∷ later_failures ws
reported (_ ∷ ws) = reported ws

abbrev add_failure : Error → Group → Group
add_failure e g = record g { failures = g.failures ++ e ∷ [] }

failed_again :
    (e : Error) (g : Group)
    → g.cancelling ≡ true
    → failed e g ≡ (if is_job_cancelled e then g else add_failure e g)
failed_again e g h = ground arith

-- Behind the first failure.
abbrev Later : List Event → Group → Type 0
Later es g =
    ((watch es g).failures ≡ g.failures ++ later_failures (outcomes es g.waiters))
    × ((watch es g).fanout ≡ g.fanout)

called-Later :
    (w : Waiter) (es : List Event) (g : Group)
    → ((g' : Group) → g'.cancelling ≡ true → Later es g')
    → g.cancelling ≡ true
    → let g' = watch es (job_finished w g) in
      (g'.failures ≡ g.failures ++ later_failures (w ∷ outcomes es g.waiters))
      × (g'.fanout ≡ g.fanout)
unfolding job_finished
called-Later waits es g rest h = rest g h
called-Later dropped es g rest h = rest g h
called-Later (finished (ok v)) es g rest h = rest g h
called-Later (finished (err e)) es g rest h = elim (Bool-cases (is_job_cancelled e)) [
  | inl echo ↦ rw (failed_again e g h, echo) (rest g h)
  | inr real ↦
      let (failures, fanout) = rest (add_failure e g) h in
      rw (failed_again e g h, real)
        (
          failures ∙ append_assoc g.failures (e ∷ []) (later_failures (outcomes es g.waiters)),
          fanout,
        )
]

watch-cancelling : (es : List Event) (g : Group) → g.cancelling ≡ true → Later es g
watch-cancelling [] g h = (rw (append-nil g.failures) refl, refl)
watch-cancelling (ends id res ∷ es) g h = watch-cancelling es (end_waiter id res g) h
watch-cancelling (calls id ∷ es) g h =
    called-Later (waiter_at id g.waiters) es g (watch-cancelling es) h

abbrev cancel_siblings_of : Error → Group → Group
cancel_siblings_of e g = record g {
  failures = g.failures ++ e ∷ [];
  cancelling = true;
  fanout = some (still_running g.waiters);
}

failed_first : (e : Error) (g : Group) → g.cancelling ≡ false → failed e g ≡ cancel_siblings_of e g
failed_first e g h = ground arith

-- Whether a scope had a failure.
abbrev pub has_failed : List Waiter → Bool
has_failed [] = false
has_failed (finished (err e) ∷ ws) = true
has_failed (_ ∷ ws) = has_failed ws

still_running-set_waiter :
    (id : String) (res : Result Any) (ws : List (String × Waiter))
    → still_running (set_waiter id (finished res) ws) ≡ except id (still_running ws)
still_running-set_waiter id res [] = refl
still_running-set_waiter id res ((j, waits) ∷ ws) =
    ground (arith, still_running-set_waiter id res ws)
still_running-set_waiter id res ((j, dropped) ∷ ws) =
    ground (arith, still_running-set_waiter id res ws)
still_running-set_waiter id res ((j, finished x) ∷ ws) =
    ground (arith, still_running-set_waiter id res ws)

-- Before it.
abbrev First : List Event → Group → List Waiter → List String → Type 0
First es g found gone =
    ((watch es g).failures ≡ g.failures ++ reported found)
    × ((watch es g).fanout
        ≡ (if has_failed found then some (without gone (still_running g.waiters)) else none))

called-First :
    (w : Waiter) (es : List Event) (g : Group)
    → First es g (outcomes es g.waiters) (done_before es g.waiters)
    → g.cancelling ≡ false
    → let g' = watch es (job_finished w g) in
      let found = w ∷ outcomes es g.waiters in
      let gone = if has_raised w then [] else done_before es g.waiters in
      (g'.failures ≡ g.failures ++ reported found)
      × (g'.fanout
          ≡ (if has_failed found then some (without gone (still_running g.waiters)) else none))
unfolding job_finished
called-First waits es g rest h = rest
called-First dropped es g rest h = rest
called-First (finished (ok v)) es g rest h = rest
called-First (finished (err e)) es g rest h =
    let (failures, fanout) = watch-cancelling es (cancel_siblings_of e g) refl in
    rw (failed_first e g h)
      (failures ∙ append_assoc g.failures (e ∷ []) (later_failures (outcomes es g.waiters)), fanout)

-- Whatever the children come to, in whatever order their waiters are done, and however much later
-- their callbacks run: the scope reports the first failure that a callback finds, a JobCancelled
-- included, and of the later ones all but JobCancelled, in the order of the callbacks; and it asks to
-- cancel exactly if there is a failure, in one request, and for those children that were running at
-- first and whose waiters are not done by the time of that first callback. This holds from a scope
-- that has seen no failure yet.
pub watch-failures :
    (es : List Event) (g : Group)
    → g.cancelling ≡ false
    → g.fanout ≡ none
    → let found = outcomes es g.waiters in
      ((watch es g).failures ≡ g.failures ++ reported found)
      × ((watch es g).fanout ≡ (
          if has_failed found
          then some (without (done_before es g.waiters) (still_running g.waiters))
          else none))
watch-failures [] g h none_yet = (rw (append-nil g.failures) refl, none_yet)
watch-failures (ends id res ∷ es) g h none_yet =
    let ws = set_waiter id (finished res) g.waiters in
    let (failures, fanout) = watch-failures es (end_waiter id res g) h none_yet in
    (
      failures,
      fanout
          ∙ ap
              (λ ids.
                if has_failed (outcomes es ws)
                then some (without (done_before es ws) ids)
                else none)
              (still_running-set_waiter id res g.waiters),
    )
watch-failures (calls id ∷ es) g h none_yet =
    called-First (waiter_at id g.waiters) es g (watch-failures es g h none_yet) h
