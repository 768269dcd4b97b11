-- ===== src/Cli/Shutdown.antt =====
-- src/TaskQueue/cli.py, `run_worker`: the two stages of a shutdown.
use task_queue.Base.{String, ◌≡◌, refl, ap, false, List, [], ◌∷◌, Bool-cases, inl, inr, ◌⊎◌}
use task_queue.Python.{Result}
use task_queue.Worker.Pool.{
  Pool, LoopTask, going, ended, any_going, all_ended, cancel_loops, or_logged, drain, exit,
}
use task_queue.Cli.{Stop, drain_over, second_signal, stop_pool}

all_ended-again : (ws : List LoopTask) → all_ended (all_ended ws) ≡ all_ended ws
all_ended-again [] = refl
all_ended-again (w ∷ ws) = ap (λ l. ended ∷ l) (all_ended-again ws)

module _ {S : Type 0} (release : String → S → S × Result (Unit {0})) where
  -- Loops that have ended hold nothing that a cancellation could release.
  cancel_loops-ended : (ws : List LoopTask) (s : S) → cancel_loops release (all_ended ws) s ≡ s
  unfolding cancel_loops
  cancel_loops-ended [] s = refl
  cancel_loops-ended (w ∷ ws) s = cancel_loops-ended ws s

  cancel_loops-idle :
      (ws : List LoopTask) (s : S) → any_going ws ≡ false → cancel_loops release ws s ≡ s
  unfolding cancel_loops
  cancel_loops-idle [] s h = refl
  cancel_loops-idle (ended ∷ ws) s h = cancel_loops-idle ws s h
  cancel_loops-idle (going job ∷ ws) s h = cc

module _ {S : Type 0} (heartbeat deregister : S → S × Result (Unit {0}))
    (release : String → S → S × Result (Unit {0})) where
  -- What the pool ends as, and what the backend sees: each loop that still goes is cancelled once,
  -- and then the worker leaves.
  abbrev pub cancelled_once : List LoopTask → Pool → S → S × Pool × Result (Unit {0})
  cancelled_once workers p s =
      let (s', res) =
        or_logged heartbeat deregister release (deregister (cancel_loops release workers s)) in
      (s', record p { workers = all_ended workers; running = false; upkeep = false }, res)

  -- However a pool with loops is told to stop, by a drain that is over, in time or not, or by a second
  -- signal, the end is the same: every job that is still being processed then is released exactly once,
  -- after that the worker leaves the liveness set, and no loop and no upkeep goes on.
  pub stop_pool_once :
      (how : Stop) (workers : List LoopTask) (w : LoopTask) (ws : List LoopTask) (p : Pool) (s : S)
      → p.workers ≡ w ∷ ws
      → (how ≡ drain_over workers) ⊎ (how ≡ second_signal workers)
      → stop_pool heartbeat deregister release how p s ≡ cancelled_once workers p s
  unfolding stop_pool drain exit
  stop_pool_once how workers w ws p s loops (inl e) = elim (Bool-cases (any_going workers)) [
    | inl late ↦
        rw
          (
            e,
            loops,
            late,
            cancel_loops-ended release workers (cancel_loops release workers s),
            all_ended-again workers,
          )
          refl
    | inr over ↦ rw (e, loops, over, cancel_loops-idle release workers s over) refl
  ]
  stop_pool_once how workers w ws p s loops (inr e) = rw e refl
