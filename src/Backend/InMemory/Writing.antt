-- ===== src/Backend/InMemory/Writing.antt =====
-- src/TaskQueue/backends/memory_backend.py: what the writing methods promise in
-- src/TaskQueue/backends/interface.py.
use task_queue.Base.{sym, ap, ◌∙◌, eq_refl, ne-eq_false, refl, some, arith, inl, inr, Option-cases}
use task_queue.Base.Dict.{lookup, insert, lookup-insert, lookup-insert_other}
use task_queue.Python.{str}
use task_queue.Redis.View.{field_of}
use task_queue.Memory.{enqueue, save, release, request_cancel, request_cancel_many}
use task_queue.Memory.Life.{Inv}
use task_queue.Backend.{Writes}
use task_queue.Backend.InMemory.{memory_backend, memory_stored, fields}

pub memory_backend-Writes : Writes memory_backend memory_stored Inv
unfolding enqueue save release request_cancel request_cancel_many
memory_backend-Writes = record {
  enqueue_new = λ id r m dict new. (
    λ k. ground (arith, lookup-insert id id (insert "status" (str "queued") r) m.jobs, eq_refl id),
    λ j differ. ground (
      arith,
      lookup-insert id j (insert "status" (str "queued") r) m.jobs,
      ne-eq_false id j differ,
    ),
  );
  enqueue_known = λ id r m known. ground arith;
  save_unknown = λ id r done m missing. ground arith;
  save_known = λ id r done m dict known. (
    ground arith,
    λ k x says. ground (arith, lookup-insert id id r m.jobs, eq_refl id, says),
    λ k absent before. ground (arith, lookup-insert id id r m.jobs, eq_refl id, absent),
    λ j differ. ground (arith, lookup-insert id j r m.jobs, ne-eq_false id j differ),
  );
  release_unknown = λ id m missing. ground arith;
  release_leased = λ id m leased. elim (Option-cases (lookup id m.jobs)) [
    | inl missing ↦ absurd (ground arith)
    | inr (r, found) ↦ (
      ground arith,
      ground (
        arith,
        lookup-insert id id (insert "status" (str "queued") r) m.jobs,
        eq_refl id,
        lookup-insert "status" "status" (str "queued") r,
      ),
      λ k differ.
          ap (λ o. field_of (fields o) k) {y = some (insert "status" (str "queued") r)}
            (ground
              (arith, lookup-insert id id (insert "status" (str "queued") r) m.jobs, eq_refl id))
          ∙ lookup-insert_other "status" k (str "queued") r differ
          ∙ ap (λ o. field_of (fields o) k) (sym found),
      λ j differ. ground (
        arith,
        lookup-insert id j (insert "status" (str "queued") r) m.jobs,
        ne-eq_false id j differ,
      ),
    )
  ];
  release_idle = λ id m good known idle. ground (arith, good.stated id);
  cancel_over = λ id m good over. ground (arith, good.stated id);
  cancel_live = λ id m good known live. elim (Option-cases (lookup id m.jobs)) [
    | inl missing ↦ absurd (ground arith)
    | inr (r, found) ↦
        let r' = insert "request_cancel" (str "1") r in
        (
          ground (arith, good.stated id),
          ground (
            arith,
            good.stated id,
            lookup-insert id id r' m.jobs,
            eq_refl id,
            lookup-insert "request_cancel" "request_cancel" (str "1") r,
          ),
          λ k differ.
              ap (λ o. field_of (fields o) k) {y = some r'}
                (ground (arith, good.stated id, lookup-insert id id r' m.jobs, eq_refl id))
              ∙ lookup-insert_other "request_cancel" k (str "1") r differ
              ∙ ap (λ o. field_of (fields o) k) (sym found),
          λ j differ.
              ground (arith, good.stated id, lookup-insert id j r' m.jobs, ne-eq_false id j differ),
        )
  ];
  cancel_many_none = λ m. refl;
  cancel_many_one = λ id ids m quiet. ground arith;
}
