-- ===== src/Worker/Pool.antt =====
-- src/TaskQueue/worker.py, `Worker`: entering, draining and leaving the pool, over any backend. A loop
-- is the task of one `_worker_loop`, with the id of the job that it is processing, if any.
use task_queue.Base.{
  ℕ, zero, suc, String, Bool, true, false, Option, none, some, List, [], ◌∷◌, if◌then◌else◌,
}
use task_queue.Python.{runtime_error, cancelled_error, Result, ok, err, ◌>>=◌}
use task_queue.Worker.Liveness.{check_liveness}
use task_queue.Worker.Loop.{Next, again, stops}

pub data LoopTask : Type 0 where
  going : Option String → LoopTask
  ended : LoopTask

-- `workers` are the loops; `upkeep` tells whether the upkeep task runs.
pub record Pool : Type 0 where
  pub concurrency : ℕ
  pub interval_ms : ℕ
  pub workers : List LoopTask
  pub running : Bool
  pub entered : Bool
  pub upkeep : Bool

-- `Worker(queue, concurrency, heartbeat_interval)`
unfoldable pub new_pool : Option ℕ → ℕ → ℕ → Result Pool
new_pool worker_ttl concurrency interval_ms = check_liveness worker_ttl interval_ms >>= λ _.
    ok (record {
      concurrency = concurrency;
      interval_ms = interval_ms;
      workers = [];
      running = false;
      entered = false;
      upkeep = false;
    })

-- `for _ in range(self.concurrency)`
abbrev pub start_loops : ℕ → List LoopTask
start_loops zero = []
start_loops (suc n) = going none ∷ start_loops n

abbrev pub is_going : LoopTask → Bool
is_going (going job) = true
is_going ended = false

abbrev pub any_going : List LoopTask → Bool
any_going [] = false
any_going (w ∷ ws) = if is_going w then true else any_going ws

abbrev pub all_ended : List LoopTask → List LoopTask
all_ended [] = []
all_ended (w ∷ ws) = ended ∷ all_ended ws

module _ {S : Type 0} (release : String → S → S × Result (Unit {0})) where
  -- What a cancelled loop does on its way out, as in `_worker_loop`: the release of its job, whose own
  -- failure ends nothing else.
  abbrev pub cancel_loop : LoopTask → S → S
  cancel_loop ended s = s
  cancel_loop (going none) s = s
  cancel_loop (going (some id)) s = (release id s).0

  unfoldable pub cancel_loops : List LoopTask → S → S
  cancel_loops [] s = s
  cancel_loops (w ∷ ws) s = cancel_loops ws (cancel_loop w s)

module _ {S : Type 0} (heartbeat deregister : S → S × Result (Unit {0}))
    (release : String → S → S × Result (Unit {0})) where
  abbrev pub after_beat : Pool → S × Result (Unit {0}) → S × Pool × Result (Unit {0})
  after_beat p (s, err e) = (s, p, err e)
  after_beat p (s, ok u) =
      (s, record p { workers = start_loops p.concurrency; upkeep = true }, ok tt)

  -- `__aenter__`
  unfoldable pub enter : Pool → S → S × Pool × Result (Unit {0})
  enter p s =
      if p.entered
      then (
        s,
        p,
        err (
            runtime_error
              "this worker pool has already been used; call queue.worker() to create a fresh one"),
      )
      else after_beat (record p { entered = true; running = true }) (heartbeat s)

  -- `_deregister`: its failure is logged, and a CancelledError goes on.
  abbrev pub or_logged : S × Result (Unit {0}) → S × Result (Unit {0})
  or_logged (s, ok u) = (s, ok tt)
  or_logged (s, err cancelled_error) = (s, err cancelled_error)
  or_logged (s, err e) = (s, ok tt)

  -- `__aexit__`: the loops, the upkeep task, and then the liveness set.
  unfoldable pub exit : Pool → S → S × Pool × Result (Unit {0})
  exit p s =
      let (s', res) = or_logged (deregister (cancel_loops release p.workers s)) in
      (s', record p { workers = all_ended p.workers; running = false; upkeep = false }, res)

  -- `drain`, once its wait is over: `workers` are the loops as they are then. It tells whether the
  -- pool wound down by itself.
  unfoldable pub drain : List LoopTask → Pool → S → S × Pool × Bool
  drain workers p s = elim p.workers [
    | [] ↦ (s, record p { running = false }, true)
    | w ∷ ws ↦
        if any_going workers
        then (
          cancel_loops release workers s,
          record p { workers = all_ended workers; running = false },
          false,
        )
        else (s, record p { workers = workers; running = false }, true)
  ]

-- One round of `_upkeep_loop`. `reap` is not called if the beat failed.
module _ {S : Type 0} (heartbeat : S → S × Result (Unit {0})) (reap : S → S × Result ℕ) where
  abbrev pub after_reap : S × Result ℕ → S × Next
  after_reap (s, err cancelled_error) = (s, stops)
  after_reap (s, _) = (s, again)

  abbrev pub after_heartbeat : S × Result (Unit {0}) → S × Next
  after_heartbeat (s, ok u) = after_reap (reap s)
  after_heartbeat (s, err cancelled_error) = (s, stops)
  after_heartbeat (s, err e) = (s, again)

  unfoldable pub upkeep_round : S → S × Next
  upkeep_round s = after_heartbeat (heartbeat s)
