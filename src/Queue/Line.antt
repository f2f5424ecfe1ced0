-- ===== src/Queue/Line.antt =====
-- The waiting line as a list in the order of the sorted set: what adding and removing a member does.
use ticket_queue_platform.Prelude.{
  ℕ, ◌<◌, ◌≡◌, refl, true, false, ◌||◌, ◌==◌, if◌then◌else◌, List, [], ◌∷◌, ◌++◌, All, length,
  contains, index_of, is_some, Bool-cases, inl, inr, some, arith,
}
use ticket_queue_platform.Services.Redis.{before, place, without, names}

-- Sorted by score and member, and no member twice.
abbrev pub IsLine : List (ℕ × ℕ) → Type 0
IsLine [] = Unit
IsLine (e ∷ es) =
    All (λ f. before e.0 e.1 f ≡ true) es × (contains e.1 (names es) ≡ false) × IsLine es

pub contains-without_self : (m : ℕ) (es : List (ℕ × ℕ)) → contains m (names (without m es)) ≡ false
contains-without_self m [] = refl
contains-without_self m (e ∷ es) = ground (arith, contains-without_self m es)

pub contains-without :
    (u m : ℕ) (es : List (ℕ × ℕ))
    → contains u (names (without m es)) ≡ (if u == m then false else contains u (names es))
contains-without u m [] = ground arith
contains-without u m (e ∷ es) = ground (arith, contains-without u m es)

pub contains-place :
    (u n m : ℕ) (es : List (ℕ × ℕ))
    → contains u (names (place n m es)) ≡ ((m == u) || contains u (names es))
contains-place u n m [] = refl
contains-place u n m (e ∷ es) = ground (arith, contains-place u n m es)

pub without_absent : (m : ℕ) (es : List (ℕ × ℕ)) → contains m (names es) ≡ false → without m es ≡ es
without_absent m [] h = refl
without_absent m (e ∷ es) h = ground (arith, without_absent m es)

pub is_some-index_of : (m : ℕ) (xs : List ℕ) → is_some (index_of m xs) ≡ contains m xs
is_some-index_of m [] = refl
is_some-index_of m (x ∷ xs) = ground (arith, is_some-index_of m xs)

before_trans :
    (e f g : ℕ × ℕ) → before e.0 e.1 f ≡ true → before f.0 f.1 g ≡ true → before e.0 e.1 g ≡ true
before_trans e f g h k = ground arith

before_total :
    (e f : ℕ × ℕ) → (e.1 == f.1) ≡ false → before e.0 e.1 f ≡ false → before f.0 f.1 e ≡ true
before_total e f n h = ground arith

All-without :
    (e : ℕ × ℕ) (m : ℕ) (es : List (ℕ × ℕ))
    → All (λ f. before e.0 e.1 f ≡ true) es
    → All (λ f. before e.0 e.1 f ≡ true) (without m es)
All-without e m [] h = tt
All-without e m (f ∷ es) h = ground (arith, All-without e m es h.1)

All-place :
    (e f : ℕ × ℕ) (es : List (ℕ × ℕ))
    → before e.0 e.1 f ≡ true
    → All (λ g. before e.0 e.1 g ≡ true) es
    → All (λ g. before e.0 e.1 g ≡ true) (place f.0 f.1 es)
All-place e f [] b h = (b, tt)
All-place e f (g ∷ es) b h = elim (Bool-cases (before f.0 f.1 g)) [
  | inl first ↦ rw first (b, h)
  | inr later ↦ rw later (h.0, All-place e f es b h.1)
]

All-before :
    (e f : ℕ × ℕ) (es : List (ℕ × ℕ))
    → before e.0 e.1 f ≡ true
    → All (λ g. before f.0 f.1 g ≡ true) es
    → All (λ g. before e.0 e.1 g ≡ true) es
All-before e f [] b h = tt
All-before e f (g ∷ es) b h = (before_trans e f g b h.0, All-before e f es b h.1)

pub without-IsLine : (m : ℕ) (es : List (ℕ × ℕ)) → IsLine es → IsLine (without m es)
without-IsLine m [] h = tt
without-IsLine m (e ∷ es) h =
    ground (arith, without-IsLine m es h.2, All-without e m es h.0, contains-without e.1 m es)

pub place-IsLine :
    (n m : ℕ) (es : List (ℕ × ℕ))
    → contains m (names es) ≡ false
    → IsLine es
    → IsLine (place n m es)
place-IsLine n m [] a h = (tt, refl, tt)
place-IsLine n m (e ∷ es) a h = elim (Bool-cases (before n m e)) [
  | inl first ↦ rw first ((first, All-before (n, m) e es first h.0), a, h)
  | inr later ↦ rw later (
    All-place e (n, m) es (before_total (n, m) e (ground arith) later) h.0,
    ground (arith, contains-place e.1 n m es),
    place-IsLine n m es (ground arith) h.2,
  )
]

-- The head leaves, and the others keep their order.
pub without_head : (e : ℕ × ℕ) (es : List (ℕ × ℕ)) → IsLine (e ∷ es) → without e.1 (e ∷ es) ≡ es
without_head e es h = ground (arith, without_absent e.1 es h.1)

-- Who comes later than all the others goes to the end.
pub place_last :
    (n m : ℕ) (es : List (ℕ × ℕ)) → All (λ e. e.0 < n) es → place n m es ≡ es ++ (n, m) ∷ []
place_last n m [] h = refl
place_last n m (e ∷ es) h = ground (arith, place_last n m es h.1)

pub index_of_last :
    (n m : ℕ) (es : List (ℕ × ℕ))
    → contains m (names es) ≡ false
    → index_of m (names (es ++ (n, m) ∷ [])) ≡ some (length es)
index_of_last n m [] h = ground arith
index_of_last n m (e ∷ es) h = ground (arith, index_of_last n m es)
