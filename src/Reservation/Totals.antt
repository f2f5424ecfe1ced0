-- ===== src/Reservation/Totals.antt =====
-- Sums over the ids of a table.
use ticket_queue_platform.Prelude.{
  ℕ, ◌+◌, ◌≤◌, ◌≡◌, refl, true, false, ◌==◌, if◌then◌else◌, List, [], ◌∷◌, contains, arith,
}

abbrev pub total : (ℕ → ℕ) → List ℕ → ℕ
total f [] = 0
total f (i ∷ is) = f i + total f is

-- no id twice
abbrev pub IsUnique : List ℕ → Type 0
IsUnique [] = Unit
IsUnique (i ∷ is) = (contains i is ≡ false) × IsUnique is

-- what one id counts for, replaced
abbrev pub override : ℕ → ℕ → (ℕ → ℕ) → ℕ → ℕ
override i n f j = if i == j then n else f j

pub total-override_absent :
    (i n : ℕ) (f : ℕ → ℕ) (is : List ℕ)
    → contains i is ≡ false
    → total (override i n f) is ≡ total f is
total-override_absent i n f [] h = refl
total-override_absent i n f (j ∷ js) h = ground (arith, total-override_absent i n f js)

pub total-override :
    (i n : ℕ) (f : ℕ → ℕ) (is : List ℕ)
    → IsUnique is
    → contains i is ≡ true
    → total (override i n f) is + f i ≡ total f is + n
total-override i n f [] u h = ground arith
total-override i n f (j ∷ js) u h =
    ground (arith, total-override i n f js (u.1), total-override_absent i n f js)

pub total_cong : (f g : ℕ → ℕ) (is : List ℕ) → ((i : ℕ) → f i ≡ g i) → total f is ≡ total g is
total_cong f g [] h = refl
total_cong f g (i ∷ is) h = ground (arith, h i, total_cong f g is h)

pub total-le : (f g : ℕ → ℕ) (is : List ℕ) → ((i : ℕ) → f i ≤ g i) → total f is ≤ total g is
total-le f g [] h = omega arith
total-le f g (i ∷ is) h = omega (arith, h i, total-le f g is h)

pub le-total : (i : ℕ) (f : ℕ → ℕ) (is : List ℕ) → contains i is ≡ true → f i ≤ total f is
le-total i f [] h = ground arith
le-total i f (j ∷ js) h = ground (arith, le-total i f js)

-- A sum over ids without repeats is at most the sum over a list that misses only ids that count nothing.
pub total_complete :
    (f : ℕ → ℕ) (is ids : List ℕ)
    → IsUnique is
    → IsUnique ids
    → ((i : ℕ) → contains i ids ≡ false → f i ≡ 0)
    → total f is ≤ total f ids
total_complete f [] ids u v h = omega arith
total_complete f (i ∷ is) ids u v h = ground (
  arith,
  total_complete (override i 0 f) is ids (u.1) v (λ j k. ground (arith, h j k)),
  total-override_absent i 0 f is (u.0),
  total-override i 0 f ids v,
  total-override_absent i 0 f ids,
  h i,
)

pub total_zero : (f : ℕ → ℕ) (is : List ℕ) → ((i : ℕ) → f i ≡ 0) → total f is ≡ 0
total_zero f [] h = refl
total_zero f (i ∷ is) h = ground (arith, h i, total_zero f is h)
