-- ===== src/Services/Table.antt =====
-- A table as Prisma serves it: rows by a unique id, with the calls that the repositories make. `none`
-- as the result of a write stands for the error that Prisma throws.
use ticket_queue_platform.Prelude.{
  ℕ, ◌≡◌, Bool, Option, none, some, ◌==◌, if◌then◌else◌, is_some, List, [], ◌∷◌, lookup,
}
use mathlib.Core.Option

-- the row, if it does not meet the condition
abbrev pub keep_unless {ℓ} : {A : Type ℓ} → (A → Bool) → Option A → Option A
keep_unless c none = none
keep_unless c (some a) = if c a then none else some a

-- no key twice
abbrev pub IsKeyed {ℓ} : {A : Type ℓ} → List (ℕ × A) → Type ℓ
IsKeyed [] = Unit
IsKeyed (e ∷ es) = (lookup e.0 es ≡ none) × IsKeyed es

pub record Table (Row : Type 0) : Type 1 where
  pub Rows : Type 0
  pub find : ℕ → Rows → Option Row
  -- the id that `create` gives a new row
  pub fresh : Rows → ℕ
  pub create : ℕ → Row → Rows → Option Rows
  pub update : ℕ → (Row → Row) → Rows → Option Rows
  pub delete : ℕ → Rows → Option Rows
  -- `findMany`, `updateMany` and what `onDelete: Cascade` deletes
  pub rows : Rows → List (ℕ × Row)
  pub update_where : (Row → Bool) → (Row → Row) → Rows → Rows
  pub delete_where : (ℕ → Row → Bool) → Rows → Rows
  -- the rows after each write that succeeds
  pub inserted : ℕ → Row → Rows → Rows
  pub modified : ℕ → (Row → Row) → Rows → Rows
  pub deleted : ℕ → Rows → Rows
  pub find-rows : (i : ℕ) (r : Rows) → lookup i (rows r) ≡ find i r
  pub rows-IsKeyed : (r : Rows) → IsKeyed (rows r)
  pub find-update_where :
      (c : Row → Bool) (f : Row → Row) (i : ℕ) (r : Rows)
      → find i (update_where c f r) ≡ Option.map (λ x. if c x then f x else x) (find i r)
  pub find-delete_where :
      (c : ℕ → Row → Bool) (i : ℕ) (r : Rows)
      → find i (delete_where c r) ≡ keep_unless (c i) (find i r)
  pub find-fresh : (r : Rows) → find (fresh r) r ≡ none
  pub create_lem :
      (i : ℕ) (x : Row) (r : Rows)
      → create i x r ≡ (if is_some (find i r) then none else some (inserted i x r))
  pub update_lem :
      (i : ℕ) (f : Row → Row) (r : Rows)
      → update i f r ≡ (if is_some (find i r) then some (modified i f r) else none)
  pub delete_lem :
      (i : ℕ) (r : Rows) → delete i r ≡ (if is_some (find i r) then some (deleted i r) else none)
  pub find-inserted :
      (i j : ℕ) (x : Row) (r : Rows)
      → find j (inserted i x r) ≡ (if i == j then some x else find j r)
  pub find-modified :
      (i j : ℕ) (f : Row → Row) (r : Rows)
      → find j (modified i f r) ≡ (if i == j then Option.map f (find j r) else find j r)
  pub find-deleted :
      (i j : ℕ) (r : Rows) → find j (deleted i r) ≡ (if i == j then none else find j r)
