-- ===== src/Services/Memory/Tables.antt =====
-- A table and a job queue in memory, which meet the laws of their interfaces.
use ticket_queue_platform.Prelude.{
  ℕ, lookup, or_else, ◌≡◌, refl, none, some, List, ◌∷◌, ◌==◌, if◌then◌else◌, is_some, arith,
}
use ticket_queue_platform.Services.Table.{Table}
use ticket_queue_platform.Services.JobQueue.{Job, JobQueue}
use ticket_queue_platform.Services.Memory.Assoc.{
  drop, adjust, entries, adjust_where, drop_where, lookup-entries, entries-IsKeyed,
  lookup-adjust_where, lookup-drop_where, above, lookup-drop, lookup-adjust, lookup-above,
}

abbrev pub table : (Row : Type 0) → Table Row
table Row = record {
  Rows = List (ℕ × Row);
  find = lookup;
  fresh = above;
  create = λ i x r. if is_some (lookup i r) then none else some ((i, x) ∷ r);
  update = λ i f r. if is_some (lookup i r) then some (adjust i f r) else none;
  delete = λ i r. if is_some (lookup i r) then some (drop i r) else none;
  inserted = λ i x r. (i, x) ∷ r;
  modified = adjust;
  deleted = drop;
  rows = entries;
  update_where = adjust_where;
  delete_where = drop_where;
  find-rows = lookup-entries;
  rows-IsKeyed = entries-IsKeyed;
  find-update_where = lookup-adjust_where;
  find-delete_where = lookup-drop_where;
  find-fresh = lookup-above;
  create_lem = λ i x r. refl;
  update_lem = λ i f r. refl;
  delete_lem = λ i r. refl;
  find-inserted = λ i j x r. refl;
  find-modified = lookup-adjust;
  find-deleted = lookup-drop;
}

module _ {P : Type 0} where
  abbrev add_job : ℕ → Job P → List (ℕ × Job P) → List (ℕ × Job P)
  add_job i x q = if is_some (lookup i q) then q else (i, x) ∷ q

  pub lookup-add_job :
      (i j : ℕ) (x : Job P) (q : List (ℕ × Job P))
      → lookup j (add_job i x q) ≡ (if i == j then some (or_else (lookup j q) x) else lookup j q)
  lookup-add_job i j x q = ground arith

abbrev pub job_queue : (P : Type 0) → JobQueue P
job_queue P = record {
  Jobs = List (ℕ × Job P);
  get_job = lookup;
  add = add_job;
  remove = drop;
  get_job-add = lookup-add_job;
  get_job-remove = lookup-drop;
}
