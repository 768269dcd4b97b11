-- ===== src/Client/Task.antt =====
-- src/TaskQueue/task.py: `Task.submit`, over any backend.
use task_queue.Base.{String, Option, ℕ}
use task_queue.Python.{Result, ok, err, Items, Fields, Record}
use task_queue.Job.Codec.{Serializer, DateTime}
use task_queue.Job.Record.{Job, new_job, to_record}
use task_queue.Client.Handle.{Handle, new_handle}

module _ {S : Type 0} (enqueue : String → Record → S → S) (serializer : Serializer)
    (datetime : DateTime) where
  abbrev pub submit_record : Job → Result Record → S → S × Result Handle
  submit_record job (err e) s = (s, err e)
  submit_record job (ok r) s = (enqueue job.id r s, ok (new_handle job.id))

  abbrev pub submit_job : Job → S → S × Result Handle
  submit_job job s = submit_record job (to_record serializer datetime job) s

  -- `submit`, with what `uuid4` and the clock give the new job.
  unfoldable pub submit :
      String → Option String → Option String → Items → Fields → String → ℕ → S → S × Result Handle
  submit name group_id job_id args kwargs fresh now s =
      submit_job (new_job name job_id args kwargs group_id fresh now) s
