-- ===== src/Group/Children.antt =====
-- src/TaskQueue/job_group.py, `spawn`: what becomes of a child, over any backend that keeps the contract
-- of src/TaskQueue/backends/interface.py, and over the memory backend.
use task_queue.Base.{
  ℕ, String, ◌≡◌, ◌≢◌, refl, ◌∙◌, ap, sym, true, Option, none, some, List, [], ◌∷◌, member, arith,
  eq_refl, inl, inr,
}
use task_queue.Base.Dict.{lookup, insert, lookup-insert}
use task_queue.Job.Status.{is_terminal}
use task_queue.Python.{Error, str, Result, ok, err, Items, Fields, Record}
use task_queue.Redis.View.{Hash}
use task_queue.Redis.Effects.{is_present}
use task_queue.Job.Codec.{Serializer, DateTime}
use task_queue.Client.Handle.{Handle, new_handle}
use task_queue.Memory.{Memory, enqueue, request_cancel_many}
use task_queue.Memory.Waiting.{is_pending, is_requested}
use task_queue.Memory.Stated.{Stated, enqueue-Stated}
use task_queue.Backend.{Backend, Contract}
use task_queue.Group.{Group, Ending, raising, exit}
use task_queue.Group.Child.{JobContext}
use task_queue.Group.Exit.{exception_of, exit_cancels}
use task_queue.Group.Spawn.{spawn, add_child, next_child, spawn_cases, member-add_handle}

ok_handle : (h h' : Handle) → ◌≡◌ {A = Result Handle} (ok h) (ok h') → h ≡ h'
ok_handle h h' e = cc

not_ok : (e : Error) (h : Handle) → ◌≡◌ {A = Result Handle} (err e) (ok h) → ⊥
not_ok e h eq = cc

-- A job that is delivered again spawns the same children, and stores nothing twice. Let a job spawn a
-- child, over a backend that keeps the contract of the interface, and let its next run come to the
-- same spawn, whatever the task, the arguments and the group are, while the child's record is there:
-- the backend is left as it is, and a spawn that succeeds gives the same handle and makes the child
-- one of the new scope. This is for a digest that is never empty.
pub spawn_again :
    (b : Backend) (stored : String → b.State → Option Hash) (Good : b.State → Type 0)
    → Contract b stored Good
    → (serializer : Serializer) (datetime : DateTime) (sha1_hex : String → String)
    → ((text : String) → sha1_hex text ≢ "")
    → (name name' : String) (args args' : Items) (kwargs kwargs' : Fields) (fresh fresh' : String)
      (now now' : ℕ) (g g' : Group) (c : JobContext) (s s' : b.State) (h : Handle)
    → (spawn b.enqueue serializer datetime sha1_hex name args kwargs fresh now g (some c) s).3
      ≡ ok h
    → is_present (stored h.job_id s') ≡ true
    → let (t, g₂, c₂, res) =
        spawn b.enqueue serializer datetime sha1_hex name' args' kwargs' fresh' now' g'
          (some c)
          s' in
      (t ≡ s') × ((h' : Handle) → res ≡ ok h' → (h' ≡ h) × (member h'.job_id g₂.handles ≡ true))
spawn_again b stored Good contract serializer datetime sha1_hex digest name name' args args' kwargs
      kwargs' fresh fresh' now now' g g' c s s' h first known =
    let known' : is_present (stored (next_child sha1_hex c) s') ≡ true = rw (← same_id) known in
    elim (spawn_cases b.enqueue serializer datetime sha1_hex digest name' args' kwargs' fresh' now'
      g' c s') [
        | inl (e, failed) ↦ rw failed (refl, λ h' e'. absurd (not_ok e h' e'))
        | inr (r, done) ↦ rw done (
          contract.writes.enqueue_known (next_child sha1_hex c) r s' known',
          λ h' e'. (
            sym (ok_handle (new_handle (next_child sha1_hex c)) h' e') ∙ sym same,
            rw (← ok_handle (new_handle (next_child sha1_hex c)) h' e')
                (member-add_handle (next_child sha1_hex c) g'.handles),
          ),
        )
      ]
  where
    same : h ≡ new_handle (next_child sha1_hex c)
    same =
        elim (spawn_cases b.enqueue serializer datetime sha1_hex digest name args kwargs fresh now g
          c s) [
            | inl (e, failed) ↦ absurd (not_ok e h (ap (λ p. p.3) (sym failed) ∙ first))
            | inr (r, done) ↦ sym (
                ok_handle (new_handle (next_child sha1_hex c)) h (ap (λ p. p.3) (sym done) ∙ first))
          ]

    same_id : h.job_id ≡ next_child sha1_hex c
    same_id = ap (λ x. x.job_id) same

non_empty :
    (id : String) (ids : List String)
    → member id ids ≡ true
    → (x : String) × (xs : List String) × (ids ≡ x ∷ xs)
non_empty id [] h = cc
non_empty id (x ∷ xs) h = (x, xs, refl)

new_child_pending :
    (id : String) (r : Record) (m : Memory)
    → lookup id m.jobs ≡ none
    → is_pending (lookup id (enqueue id r m).jobs) ≡ true
unfolding enqueue is_terminal
new_child_pending id r m new = ground (
  arith,
  lookup-insert id id (insert "status" (str "queued") r) m.jobs,
  eq_refl id,
  lookup-insert "status" "status" (str "queued") r,
)

child_cancelled :
    (id : String) (r : Record) (m : Memory) (g : Group) (ending : Ending) (e : Error)
    → Stated m
    → lookup id m.jobs ≡ none
    → exception_of ending ≡ some e
    → let (m₂, leaves) =
        exit request_cancel_many (add_child (new_handle id) g) ending (enqueue id r m) in
      (leaves ≡ raising e) × (is_requested (lookup id m₂.jobs) ≡ true)
child_cancelled id r m g ending e stated new raised_ =
    let g₁ = add_child (new_handle id) g in
    let (x, xs, some_child) = non_empty id g₁.handles (member-add_handle id g.handles) in
    let (leaves, flags) =
      exit_cancels g₁ ending e x xs (enqueue id r m) (enqueue-Stated id r m stated) some_child
        raised_ in
    (
      leaves,
      flags id ∙ ground (arith, member-add_handle id g.handles, new_child_pending id r m new),
    )

-- No child escapes its scope. A new child that a job spawns into a group, over the memory backend, has
-- its cancel flag set once the scope is left with an exception of its body, a deadline or a
-- cancellation, and that exception comes out. This is for a store in which every record has a status
-- and which does not know the child's id, and for a digest that is never empty.
pub spawn-exit_cancels :
    (serializer : Serializer) (datetime : DateTime) (sha1_hex : String → String)
    → ((text : String) → sha1_hex text ≢ "")
    → (name : String) (args : Items) (kwargs : Fields) (fresh : String) (now : ℕ) (g g₁ : Group)
      (c : JobContext) (c₁ : Option JobContext) (m m₁ : Memory) (h : Handle) (ending : Ending)
      (e : Error)
    → Stated m
    → lookup (next_child sha1_hex c) m.jobs ≡ none
    → spawn enqueue serializer datetime sha1_hex name args kwargs fresh now g (some c) m
      ≡ (m₁, g₁, c₁, ok h)
    → exception_of ending ≡ some e
    → let (m₂, leaves) = exit request_cancel_many g₁ ending m₁ in
      (leaves ≡ raising e) × (is_requested (lookup h.job_id m₂.jobs) ≡ true)
spawn-exit_cancels serializer datetime sha1_hex digest name args kwargs fresh now g g₁ c c₁ m m₁ h
      ending e stated new spawned raised_ =
    elim (spawn_cases enqueue serializer datetime sha1_hex digest name args kwargs fresh now g c
      m) [
        | inl (x, failed) ↦ absurd (not_ok x h (ap (λ p. p.3) (sym failed ∙ spawned)))
        | inr (r, done) ↦
            let id = next_child sha1_hex c in
            let same = sym done ∙ spawned in
            let who = ok_handle (new_handle id) h (ap (λ p. p.3) same) in
            rw (← ap (λ p. p.0) same, ← ap (λ p. p.1) same, ← ap (λ x. x.job_id) who)
              (child_cancelled id r m g ending e stated new raised_)
      ]
