-- ===== src/Group/Spawn.antt =====
-- src/TaskQueue/job_group.py, `spawn`: a child is submitted under an id of its own, which a job that is
-- delivered again gives to the same child.
use task_queue.Base.{
  ℕ, String, ne-eq_false, ◌≡◌, ◌≢◌, ◌⊎◌, refl, Bool, true, false, Option, none, some, List, [], ◌∷◌,
  ◌++◌, member, if◌then◌else◌, arith, eq_refl, member-append_one, Bool-cases, inl, inr,
}
use task_queue.Python.{Error, Result, ok, err, Items, Fields, Record}
use task_queue.Job.Codec.{Serializer, DateTime}
use task_queue.Job.Record.{Job, new_job, id_or, to_record}
use task_queue.Client.Handle.{Handle, new_handle}
use task_queue.Client.Task.{submit, submit_record}
use task_queue.Group.{Group, Waiter, waits}
use task_queue.Group.Child.{JobContext, child_id, seed, next_spawn}

-- `self._handles[handle.job_id] = handle`
abbrev pub add_handle : String → List String → List String
add_handle id ids = if member id ids then ids else ids ++ id ∷ []

abbrev pub add_waiter : Bool → String → List (String × Waiter) → List (String × Waiter)
add_waiter true id ws = ws ++ (id, waits) ∷ []
add_waiter false id ws = ws

abbrev pub group_id : Group → Option String
group_id g = if g.entered then some g.id else none

abbrev pub add_child : Handle → Group → Group
add_child h g = record g {
  handles = add_handle h.job_id g.handles;
  waiters = add_waiter g.entered h.job_id g.waiters;
}

module _ {S : Type 0} (enqueue : String → Record → S → S) (serializer : Serializer)
    (datetime : DateTime) (sha1_hex : String → String) where
  abbrev pub submitted :
      Group → Option JobContext → S × Result Handle → S × Group × Option JobContext × Result Handle
  submitted g c (s, err e) = (s, g, c, err e)
  submitted g c (s, ok h) = (s, add_child h g, c, ok h)

  -- `spawn`, with the job that is running, if any, and what `uuid4` and the clock give the new job.
  unfoldable pub spawn :
      String
      → Items
      → Fields
      → String
      → ℕ
      → Group
      → Option JobContext
      → S
      → S × Group × Option JobContext × Result Handle
  spawn name args kwargs fresh now g c s =
      let (c', job_id) = child_id sha1_hex c in
      submitted g c'
        (submit enqueue serializer datetime name (group_id g) job_id args kwargs fresh now s)

pub member-add_handle : (id : String) (ids : List String) → member id (add_handle id ids) ≡ true
member-add_handle id ids = elim (Bool-cases (member id ids)) [
  | inl there ↦ rw (there, there) refl
  | inr new ↦ ground (arith, member-append_one id id ids, eq_refl id)
]

-- The id of the next child of a job.
abbrev pub next_child : (String → String) → JobContext → String
next_child sha1_hex c = sha1_hex (seed c.job_id c.spawns)

module _ {S : Type 0} (enqueue : String → Record → S → S) (serializer : Serializer)
    (datetime : DateTime) (sha1_hex : String → String)
    (digest : (text : String) → sha1_hex text ≢ "") where
  abbrev child_spawn :
      String
      → Items
      → Fields
      → String
      → ℕ
      → Group
      → JobContext
      → S
      → S × Group × Option JobContext × Result Handle
  child_spawn name args kwargs fresh now g c s =
      spawn enqueue serializer datetime sha1_hex name args kwargs fresh now g (some c) s

  -- A spawn either fails to write its record, and does nothing but count, or enqueues the record under
  -- the next child's id and adds the child to its group.
  pub spawn_cases :
      (name : String) (args : Items) (kwargs : Fields) (fresh : String) (now : ℕ) (g : Group)
      (c : JobContext) (s : S)
      → let id = next_child sha1_hex c in
        let c' = some (next_spawn c).0 in
        ((e : Error) × (child_spawn name args kwargs fresh now g c s ≡ (s, g, c', err e)))
        ⊎ ((r : Record) × (child_spawn name args kwargs fresh now g c s
              ≡ (enqueue id r s, add_child (new_handle id) g, c', ok (new_handle id))))
  unfolding spawn submit child_id new_job
  spawn_cases name args kwargs fresh now g c s =
      let job = new_job name (some (next_child sha1_hex c)) args kwargs (group_id g) fresh now in
      by_record job (own_id (next_child sha1_hex c) (digest (seed c.job_id c.spawns)))
        (to_record serializer datetime job)
    where
      own_id : (id : String) → id ≢ "" → id_or (some id) fresh ≡ id
      own_id id h = rw (ne-eq_false id "" h) refl

      by_record :
          (job : Job)
          → job.id ≡ next_child sha1_hex c
          → (x : Result Record)
          → let id = next_child sha1_hex c in
            let c' = some (next_spawn c).0 in
            let out =
              submitted enqueue serializer datetime sha1_hex g c'
                (submit_record enqueue serializer datetime job x s) in
            ((e : Error) × (out ≡ (s, g, c', err e)))
            ⊎ ((r : Record) × (out
                  ≡ (enqueue id r s, add_child (new_handle id) g, c', ok (new_handle id))))
      by_record job same (err e) = inl (e, refl)
      by_record job same (ok r) = inr (r, rw same refl)
