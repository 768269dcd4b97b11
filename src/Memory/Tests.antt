-- ===== src/Memory/Tests.antt =====
-- Runs of src/TaskQueue/backends/memory_backend.py.
use task_queue.Base.{
  String, ◌≡◌, refl, ◌≢◌, true, false, none, some, List, [], ◌∷◌, ◌||◌, ◌&&◌, member,
}
use task_queue.Base.Dict.{lookup, insert}
use task_queue.Base.Decimal.{to_text, of_text}
use task_queue.Python.{key_error, ok, err, str, Record}
use task_queue.Job.Status.{is_terminal}
use task_queue.Memory.{
  Memory, empty, enqueue, claim, save, take_record, take_resumed, take_result, request_cancel,
  request_cancel_many,
}
use task_queue.Memory.Waiting.{is_pending, is_requested}
use task_queue.Memory.Lifecycle.{is_stray, follows, phase_in}
use task_queue.Memory.Lifecycle.Moves.{Step-lifecycle}
use task_queue.Memory.Life.{Reach, here, next, enqueues, claims, finishes, cancels, Inv, Reach-Inv}
use task_queue.Memory.Lease.{leased, claim_finds_record}
use task_queue.Memory.Results.{take_result_after_save}
use task_queue.Memory.Cancel.{request_cancel_many_flags}

abbrev created : Record
created = ("id", str "a") ∷ ("status", str "created") ∷ ("attempts", str "0") ∷ []

abbrev done : Record
done = ("id", str "a") ∷ ("status", str "completed") ∷ ("attempts", str "1") ∷ []

-- Jobs `a` and `b` are enqueued, and `a` is claimed.
abbrev filled : Memory
filled = enqueue "b" created (enqueue "a" created empty)

abbrev busy : Memory
busy = (claim filled).0

filled-Reach : Reach empty filled
filled-Reach = next (next here (enqueues "a" created)) (enqueues "b" created)

busy-Reach : Reach empty busy
busy-Reach = next filled-Reach claims

busy-Inv : Inv busy
busy-Inv = Reach-Inv busy-Reach

abbrev running : Record
running = leased 0 (insert "status" (str "queued") created)

busy_a : lookup "a" busy.jobs ≡ some running
unfolding claim enqueue lookup insert of_text to_text
busy_a = refl

running_pending : is_pending (some running) ≡ true
unfolding lookup insert is_terminal
running_pending = refl

done_settled : is_pending (some done) ≡ false
unfolding lookup is_terminal
done_settled = refl

waiting_b : is_pending (lookup "b" busy.jobs) ≡ true
unfolding claim enqueue lookup insert of_text to_text is_terminal
waiting_b = refl

claim_run : (claim filled).1 ≡ ok (some running)
unfolding claim enqueue lookup insert of_text to_text
claim_run = refl

Reach-Inv_example : Inv (save "a" done true (request_cancel_many ("a" ∷ "c" ∷ []) busy).0).0
unfolding claim enqueue lookup insert of_text to_text request_cancel_many request_cancel is_terminal
Reach-Inv_example =
    Reach-Inv
      (next (next busy-Reach (cancels ("a" ∷ "c" ∷ []))) (finishes "a" done refl done_settled))

Step-lifecycle_example :
    (is_stray (phase_in "a" busy) ≡ false)
    × (follows (phase_in "a" busy) (phase_in "a" (save "a" done true busy).0) ≡ true)
unfolding claim enqueue lookup insert of_text to_text is_terminal
Step-lifecycle_example = Step-lifecycle busy-Reach (finishes "a" done refl done_settled) "a"

claim_finds_record_example :
    ((claim busy).1 ≢ err key_error)
    × ((claim busy).1 ≡ ok none → busy.queue ≡ [])
    × (busy.queue ≡ [] → (claim busy).1 ≡ ok none)
claim_finds_record_example = claim_finds_record busy busy-Inv

take_result_after_save_example :
    let m' = (save "a" done true busy).0 in
    (take_resumed (lookup "a" busy.events) "a" m' ≡ some ((take_record "a" m').0, ok done))
    × (take_result "a" m' ≡ some ((take_record "a" m').0, ok done))
take_result_after_save_example =
    take_result_after_save "a" done running busy busy-Inv.waiting busy_a running_pending
      done_settled

request_cancel_many_flags_example :
    let ids : List String = "b" ∷ "c" ∷ [] in
    let m' = (request_cancel_many ids busy).0 in
    ((request_cancel_many ids busy).1 ≡ ok tt)
    × ((j : String)
        → is_requested (lookup j m'.jobs) ≡ (
            is_requested (lookup j busy.jobs) || (member j ids && is_pending (lookup j busy.jobs))))
    × ((j : String) → is_pending (lookup j m'.jobs) ≡ is_pending (lookup j busy.jobs))
    × (m'.queue ≡ busy.queue)
request_cancel_many_flags_example = request_cancel_many_flags ("b" ∷ "c" ∷ []) busy busy-Inv.stated
