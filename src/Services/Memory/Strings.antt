-- ===== src/Services/Memory/Strings.antt =====
-- The strings of a keyspace over any keys with a Boolean test: entries of a value and a time to live.
use mathlib.Core.Option
use ticket_queue_platform.Prelude.{
  ℕ, ◌≡◌, Bool, true, false, ◌&&◌, Option, none, some, List, ◌∷◌, ℤ, pos, negsuc, if◌then◌else◌,
  is_some, arith,
}
use ticket_queue_platform.Services.Memory.Keyed.{lookup, drop, lookup-drop, lookup_same}
use ticket_queue_platform.Services.Redis.{Value, number, word, counter}

abbrev pub Entry : Type 0
Entry = Value × ℤ

-- the entry after its counter has moved to `f` of its value
abbrev moved : (ℤ → ℤ) → Option Entry → Option Entry
moved f none = some (number (f (pos 0)), negsuc 0)
moved f (some (number b, t)) = some (number (f b), t)
moved f (some (word w, t)) = none

module _ {K : Type 0} (same : K → K → Bool) where
  abbrev pub get : K → List (K × Entry) → Option Value
  get k s = Option.map (λ e. e.0) (lookup same k s)

  abbrev pub ttl : K → List (K × Entry) → ℤ
  ttl k s = elim (lookup same k s) [ none ↦ negsuc 1 | some e ↦ e.1 ]

  abbrev pub count_by : (ℤ → ℤ) → K → List (K × Entry) → List (K × Entry)
  count_by f k s = elim (moved f (lookup same k s)) [ none ↦ s | some e ↦ (k, e) ∷ s ]

  abbrev pub expire : K → ℕ → List (K × Entry) → List (K × Entry)
  expire k n s = elim (lookup same k s) [ none ↦ s | some e ↦ (k, (e.0, pos n)) ∷ s ]

module _ {K : Type 0} (same : K → K → Bool)
    (trans : (i j k : K) → same i j ≡ true → same i k ≡ same j k)
    (cong : (i j k : K) → same i j ≡ true → same k i ≡ same k j) (j k : K)
    (s : List (K × Entry)) where
  pub get-drop : get same j (drop same k s) ≡ (if same k j then none else get same j s)
  get-drop = ground (arith, lookup-drop same trans cong k j s)

  pub get-cons :
      (e : Entry) → get same j ((k, e) ∷ s) ≡ (if same k j then some e.0 else get same j s)
  get-cons e = ground arith

  pub ttl-cons : (e : Entry) → ttl same j ((k, e) ∷ s) ≡ (if same k j then e.1 else ttl same j s)
  ttl-cons e = ground arith

  pub ttl_missing : get same k s ≡ none → ttl same k s ≡ negsuc 1
  ttl_missing h = ground arith

  pub get-expire : (n : ℕ) → get same j (expire same k n s) ≡ get same j s
  get-expire n = ground (arith, lookup_same same cong k j s)

  pub ttl-expire :
      (n : ℕ)
      → ttl same j (expire same k n s)
        ≡ (if same k j && is_some (get same k s) then pos n else ttl same j s)
  ttl-expire n = ground (arith, lookup_same same cong k j s)

  pub get-count_by :
      (f : ℤ → ℤ) (b : ℤ)
      → counter (get same k s) ≡ some b
      → get same j (count_by same f k s) ≡ (if same k j then some (number (f b)) else get same j s)
  get-count_by f b h = ground arith

  pub get-count_by_other :
      (f : ℤ → ℤ) → same k j ≡ false → get same j (count_by same f k s) ≡ get same j s
  get-count_by_other f h = ground arith
