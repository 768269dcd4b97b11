-- ===== src/Worker/Shutdown.antt =====
-- src/TaskQueue/worker.py, `__aexit__`, over src/TaskQueue/backends/redis_backend.py: what a pool leaves
-- behind.
use mathlib.Core.List.{append-nil, append_assoc}
use task_queue.Base.{
  ap, member, count, remove_one, counted-member, count-remove_one, nothing_counted, String, eq_refl,
  ◌≡◌, ◌≢◌, refl, sym, ◌∙◌, Bool, true, false, not, ◌&&◌, none, some, List, [], ◌∷◌, ◌++◌, arith,
}
use task_queue.Base.Dict.{lookup-erase}
use task_queue.Python.{Result, ok}
use task_queue.Redis.Keys.{queue_key, workers_key, job_key, processing_key}
use task_queue.Redis.View.{View, field_of}
use task_queue.Redis.Interface.{Redis}
use task_queue.Redis.Scripts.{holds_text}
use task_queue.Redis.Effects.{release-view, deregister-view}
use task_queue.Redis.Reap.{leases, beat}
use task_queue.Redis.Backend.{Config, release, deregister}
use task_queue.Redis.Fleet.Leases.{
  jobs_differ, queue_processing, processing_queue, processing_differ,
}
use task_queue.Worker.Pool.{Pool, LoopTask, going, ended, exit, cancel_loops, any_going, all_ended}
use task_queue.Worker.OverRedis.{deregister_call, beat_call}

-- The jobs that the loops are processing.
abbrev pub add_held : LoopTask → List String → List String
add_held (going (some id)) ids = id ∷ ids
add_held _ ids = ids

abbrev pub held_ids : List LoopTask → List String
held_ids [] = []
held_ids (w ∷ ws) = add_held w (held_ids ws)

abbrev pub distinct : List String → Bool
distinct [] = true
distinct (x ∷ xs) = not (member x xs) && distinct xs

abbrev pub is_running : String → View → Bool
is_running id v = holds_text "running" (field_of (v.hash (job_key id)) "status")

fresh_differs :
    (id j : String) (ids : List String) → distinct (id ∷ ids) ≡ true → member j ids ≡ true → id ≢ j
fresh_differs id j ids apart h e = ground (arith, ap (λ x. member x ids) e)

none_going : (ws : List LoopTask) → any_going (all_ended ws) ≡ false
none_going [] = refl
none_going (w ∷ ws) = none_going ws

module _ (redis : Redis) (self : Config) where
  open redis use {Db, view}

  abbrev me : String
  me = self.instance_id

  abbrev hand_back_all : List LoopTask → Db → Db
  hand_back_all = cancel_loops (release redis self)

  release_held :
      (id : String) (db : Db)
      → is_running id (view db) ≡ true
      → let v' = view (release redis self id db).0 in
        (leases me v' ≡ remove_one id (leases me (view db)))
        × (v'.list queue_key ≡ (view db).list queue_key ++ id ∷ [])
        × ((other : String) → other ≢ me → leases other v' ≡ leases other (view db))
        × ((j : String) → id ≢ j → is_running j v' ≡ is_running j (view db))
        × (v'.zset ≡ (view db).zset)
  release_held id db busy =
      rw ((release-view redis self id db).0, busy)
        (
          ground (arith, queue_processing me, eq_refl (processing_key me)),
          ground (arith, processing_queue me, eq_refl queue_key),
          λ other differ.
              ground
                (arith, queue_processing other, processing_differ me other (λ e. differ (sym e))),
          λ j differ. ground (arith, jobs_differ id j differ),
          refl,
        )

  -- One id less in the processing list and among the loops' jobs, wherever it stands.
  one_less :
      (id : String) (rest held : List String)
      → ((x : String) → count x held ≡ count x (id ∷ rest))
      → (x : String) → count x (remove_one id held) ≡ count x rest
  one_less id rest held same x =
      let is_in = counted-member id held (ground (arith, same id, eq_refl id)) in
      ground (arith, same x, count-remove_one x id held is_in)

  hands_back :
      (ws : List LoopTask) (db : Db)
      → ((x : String) → count x (leases me (view db)) ≡ count x (held_ids ws))
      → distinct (held_ids ws) ≡ true
      → ((j : String) → member j (held_ids ws) ≡ true → is_running j (view db) ≡ true)
      → let v' = view (hand_back_all ws db) in
        (leases me v' ≡ [])
        × (v'.list queue_key ≡ (view db).list queue_key ++ held_ids ws)
        × ((other : String) → other ≢ me → leases other v' ≡ leases other (view db))
        × (v'.zset ≡ (view db).zset)
  unfolding cancel_loops
  hands_back [] db held apart busy = (
    nothing_counted (leases me (view db)) held,
    sym (append-nil ((view db).list queue_key)),
    λ other differ. refl,
    refl,
  )
  hands_back (ended ∷ ws) db held apart busy = hands_back ws db held apart busy
  hands_back (going none ∷ ws) db held apart busy = hands_back ws db held apart busy
  hands_back (going (some id) ∷ ws) db held apart busy =
      let (left, queue, others, statuses, zset) =
        release_held id db (busy id (ground (arith, eq_refl id))) in
      let (freed, queue', others', zset') =
        hands_back ws (release redis self id db).0
          (λ x. ap (count x) left ∙ one_less id (held_ids ws) (leases me (view db)) held x)
          (ground arith)
          (λ j h. statuses j (fresh_differs id j (held_ids ws) apart h) ∙ busy j (ground arith)) in
      (
        freed,
        queue' ∙ rw queue (append_assoc ((view db).list queue_key) (id ∷ []) (held_ids ws)),
        λ other differ. others' other differ ∙ others other differ,
        zset' ∙ zset,
      )

  freed-deregister :
      (db : Db)
      → leases me (view db) ≡ []
      → let v' = view (deregister redis self db) in (beat me v' ≡ none) × (v'.list ≡ (view db).list)
  freed-deregister db free =
      rw (deregister-view redis self db, free)
        (lookup-erase me me ((view db).zset workers_key) ∙ rw (eq_refl me) refl, refl)

  abbrev pub leave : Pool → Db → Db × Pool × Result (Unit {0})
  leave = exit (beat_call redis self true) (deregister_call redis self true) (release redis self)

  -- A pool that is left while its loops are processing RUNNING jobs, each a different one, leaves
  -- nothing behind: every such job goes back to the end of the queue, in the order of the loops, the
  -- worker's processing list is empty, the worker is out of the liveness set, and no loop and no upkeep runs. No other worker's
  -- leases change. This is for a pool whose leases are the jobs of its loops, in whatever order they were
  -- taken, with every call reaching the server.
  pub exit_hands_back :
      (p : Pool) (db : Db)
      → ((x : String) → count x (leases me (view db)) ≡ count x (held_ids p.workers))
      → distinct (held_ids p.workers) ≡ true
      → ((j : String) → member j (held_ids p.workers) ≡ true → is_running j (view db) ≡ true)
      → let (db', p', res) = leave p db in
        (leases me (view db') ≡ [])
        × (beat me (view db') ≡ none)
        × ((view db').list queue_key ≡ (view db).list queue_key ++ held_ids p.workers)
        × ((other : String) → other ≢ me → leases other (view db') ≡ leases other (view db))
        × (any_going p'.workers ≡ false)
        × (p'.upkeep ≡ false)
        × (res ≡ ok tt)
  unfolding exit
  exit_hands_back p db held apart busy =
      let (freed, queue, others, _) = hands_back p.workers db held apart busy in
      let db₁ = hand_back_all p.workers db in
      let (away, lists) = freed-deregister db₁ freed in
      (
        rw lists freed,
        away,
        rw lists queue,
        λ other differ. rw lists (others other differ),
        none_going p.workers,
        refl,
        refl,
      )
