-- ===== src/Services/Memory/Keyed.antt =====
-- Association lists over any keys with a Boolean test, in which the first entry of a key counts.
use ticket_queue_platform.Prelude.{
  ◌≡◌, refl, Bool, true, Option, none, some, List, [], ◌∷◌, if◌then◌else◌, arith,
}

module _ {K V : Type 0} (same : K → K → Bool) where
  abbrev pub lookup : K → List (K × V) → Option V
  lookup k [] = none
  lookup k (e ∷ es) = if same e.0 k then some e.1 else lookup k es

  abbrev pub drop : K → List (K × V) → List (K × V)
  drop k [] = []
  drop k (e ∷ es) = if same e.0 k then drop k es else e ∷ drop k es

  pub lookup-drop :
      ((i j k : K) → same i j ≡ true → same i k ≡ same j k)
      → ((i j k : K) → same i j ≡ true → same k i ≡ same k j)
      → (k j : K) (es : List (K × V))
      → lookup j (drop k es) ≡ (if same k j then none else lookup j es)
  lookup-drop trans cong k j [] = ground arith
  lookup-drop trans cong k j (e ∷ es) =
      ground (arith, lookup-drop trans cong k j es, trans e.0 k j, cong k j e.0)

  -- equal keys find the same entry
  pub lookup_same :
      ((i j k : K) → same i j ≡ true → same k i ≡ same k j)
      → (i j : K) (es : List (K × V)) → same i j ≡ true
      → lookup i es ≡ lookup j es
  lookup_same cong i j [] h = refl
  lookup_same cong i j (e ∷ es) h = ground (arith, lookup_same cong i j es h, cong i j e.0 h)
