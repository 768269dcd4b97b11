-- ===== src/Redis/Tests/Fleet.antt =====
-- Runs of several workers on a server, and of the waits, after
-- src/TaskQueue/backends/redis_backend.py.
use task_queue.Base.{
  ℕ, String, ◌≡◌, refl, ◌≢◌, true, false, none, some, arith, [], ◌∷◌, inl, member, ◌⊎◌, ◌+◌, ◌≤◌,
  get_or,
}
use task_queue.Base.Dict.{insert, lookup}
use task_queue.Python.{str, Record}
use task_queue.Redis.Keys.{queue_key, processing_key}
use task_queue.Redis.View.{View}
use task_queue.Redis.Backend.{enqueue, heartbeat, reap}
use task_queue.Redis.Scripts.{heartbeat_script, enqueue_script}
use task_queue.Redis.Reap.{leases, beat}
use task_queue.Redis.Fleet.{is_pending}
use task_queue.Redis.Fleet.Steps.{Safe, Later, enqueues, beats, moves, passes}
use task_queue.Redis.Fleet.Always.{Reach, here, next, Reach-Safe}
use task_queue.Redis.Fleet.Recovery.{reap_recovers}
use task_queue.Redis.Notifier.{Notifier, new_notifier, join, reads, read_message}
use task_queue.Redis.Notifier.Watching.{Wired}
use task_queue.Redis.Notifier.Woken.{
  Others, here as quiet_here, next as quiet_next, joins, watcher_woken,
}
use task_queue.Redis.Tests.{blank, config}
use task_queue.Redis.Tests.Server.{server}

-- Every worker is careful.
abbrev Everyone : String → Type 0
Everyone worker = Unit

-- Nothing is stored: the first producer and the first worker come to an empty server.
blank-Safe : Safe Everyone blank
blank-Safe = record { none_lost = λ id pending. cc; registered = λ worker cares away. refl }

abbrev made : Record
made = ("id", str "c") ∷ ("status", str "created") ∷ []

abbrev enqueued : View
enqueued = enqueue server config "c" made blank

abbrev registered : View
registered = heartbeat server config enqueued

abbrev moved : View
moved = (server.blmove queue_key (processing_key "w1") registered).1

registered-Reach : Reach Everyone server blank registered
registered-Reach = next (next here (enqueues config "c" made)) (beats config)

registered-beat : beat "w1" registered ≡ some 100
unfolding heartbeat heartbeat_script enqueue enqueue_script lookup insert
registered-beat = refl

moved-Reach : Reach Everyone server blank moved
moved-Reach = next registered-Reach (moves config (λ cares. there))
  where
    there : beat "w1" registered ≢ none
    there e = ground (arith, registered-beat)

Reach-Safe_example : Safe Everyone moved
Reach-Safe_example = Reach-Safe Everyone server moved-Reach blank-Safe

-- Two minutes later.
abbrev later : View
later = record moved { clock = 220 }

later-Reach : Reach Everyone server blank later
unfolding heartbeat heartbeat_script enqueue enqueue_script
later-Reach = next moved-Reach (passes later quiet)
  where
    quiet : Later moved later
    quiet = record { list = refl; zset = refl; clock = omega arith; hash = λ k. inl refl }

later-silent :
    (worker : String) (last : ℕ) → beat worker later ≡ some last → last + 60 ≤ later.clock
unfolding heartbeat heartbeat_script enqueue enqueue_script lookup insert
later-silent worker last h = ground arith

reap_recovers_example :
    let v = (reap server config later).0 in
    ((worker : String) → Everyone worker → leases worker v ≡ [])
    × ((j : String)
        → is_pending j v ≡ true
        → (member j (v.list queue_key) ≡ true)
          ⊎ ((worker : String) × (Everyone worker → ⊥) × (member j (leases worker v) ≡ true)))
reap_recovers_example = reap_recovers Everyone server config blank-Safe later-Reach later-silent

abbrev listening : Notifier
listening = (join true "done:a" new_notifier).0

listening-Others : Others "done:a" 0 listening (join false "cancel:a" listening).0
listening-Others = quiet_next quiet_here (joins false "cancel:a")

new-Wired : Wired new_notifier
unfolding lookup
new-Wired = record {
  heard = λ c e h. absurd (ground arith);
  there = λ c e h. absurd (ground arith);
}

watcher_woken_example :
    let n = (join false "cancel:a" listening).0 in
    (member "done:a" n.subscribed ≡ true)
    × (n.reader ≡ reads → get_or (read_message "done:a" n).flags 0 false ≡ true)
unfolding join lookup
watcher_woken_example =
    watcher_woken true "done:a" new_notifier listening (join false "cancel:a" listening).0 0
      new-Wired refl listening-Others
