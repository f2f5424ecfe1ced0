-- ===== src/Services/Memory/Assoc.antt =====
-- Association lists by a numeric key, in which the first entry of a key counts.
use mathlib.Core.Option
use Prim.Native.Nat.{max}
use ticket_queue_platform.Prelude.{
  ℕ, suc, ◌≤◌, ◌≡◌, refl, none, List, [], ◌∷◌, ◌==◌, if◌then◌else◌, arith, lookup, ◌∙◌, Bool,
}
use ticket_queue_platform.Services.Table.{IsKeyed, keep_unless}

module _ {V : Type 0} where
  abbrev pub drop : ℕ → List (ℕ × V) → List (ℕ × V)
  drop i [] = []
  drop i (e ∷ es) = if e.0 == i then drop i es else e ∷ drop i es

  abbrev pub adjust : ℕ → (V → V) → List (ℕ × V) → List (ℕ × V)
  adjust i f [] = []
  adjust i f (e ∷ es) = (if e.0 == i then (e.0, f e.1) else e) ∷ adjust i f es

  -- a number above every key
  abbrev pub above : List (ℕ × V) → ℕ
  above [] = 0
  above (e ∷ es) = max (suc e.0) (above es)

  pub lookup-drop :
      (i j : ℕ) (es : List (ℕ × V)) → lookup j (drop i es) ≡ (if i == j then none else lookup j es)
  lookup-drop i j [] = ground arith
  lookup-drop i j (e ∷ es) = ground (arith, lookup-drop i j es)

  pub lookup-adjust :
      (i j : ℕ) (f : V → V) (es : List (ℕ × V))
      → lookup j (adjust i f es) ≡ (if i == j then Option.map f (lookup j es) else lookup j es)
  lookup-adjust i j f [] = ground arith
  lookup-adjust i j f (e ∷ es) = ground (arith, lookup-adjust i j f es)

  lookup-above_le : (n : ℕ) (es : List (ℕ × V)) → above es ≤ n → lookup n es ≡ none
  lookup-above_le n [] h = refl
  lookup-above_le n (e ∷ es) h = ground (arith, lookup-above_le n es)

  pub lookup-above : (es : List (ℕ × V)) → lookup (above es) es ≡ none
  lookup-above es = lookup-above_le (above es) es (omega arith)

  -- each key once, with the entry that counts
  abbrev pub entries : List (ℕ × V) → List (ℕ × V)
  entries [] = []
  entries (e ∷ es) = e ∷ drop e.0 (entries es)

  abbrev pub adjust_where : (V → Bool) → (V → V) → List (ℕ × V) → List (ℕ × V)
  adjust_where c f [] = []
  adjust_where c f (e ∷ es) = (e.0, if c e.1 then f e.1 else e.1) ∷ adjust_where c f es

  abbrev pub drop_where : (ℕ → V → Bool) → List (ℕ × V) → List (ℕ × V)
  drop_where c [] = []
  drop_where c (e ∷ es) =
      if c e.0 e.1 then drop e.0 (drop_where c es) else e ∷ drop e.0 (drop_where c es)

  pub lookup-entries : (i : ℕ) (es : List (ℕ × V)) → lookup i (entries es) ≡ lookup i es
  lookup-entries i [] = refl
  lookup-entries i (e ∷ es) = ground (arith, lookup-entries i es, lookup-drop e.0 i (entries es))

  drop-IsKeyed : (i : ℕ) (es : List (ℕ × V)) → IsKeyed es → IsKeyed (drop i es)
  drop-IsKeyed i [] h = tt
  drop-IsKeyed i (e ∷ es) h = ground (arith, drop-IsKeyed i es (h.1), lookup-drop i e.0 es)

  pub entries-IsKeyed : (es : List (ℕ × V)) → IsKeyed (entries es)
  entries-IsKeyed [] = tt
  entries-IsKeyed (e ∷ es) = (
    lookup-drop e.0 e.0 (entries es) ∙ ground arith,
    drop-IsKeyed e.0 (entries es) (entries-IsKeyed es),
  )

  pub lookup-adjust_where :
      (c : V → Bool) (f : V → V) (i : ℕ) (es : List (ℕ × V))
      → lookup i (adjust_where c f es) ≡ Option.map (λ x. if c x then f x else x) (lookup i es)
  lookup-adjust_where c f i [] = refl
  lookup-adjust_where c f i (e ∷ es) = ground (arith, lookup-adjust_where c f i es)

  pub lookup-drop_where :
      (c : ℕ → V → Bool) (i : ℕ) (es : List (ℕ × V))
      → lookup i (drop_where c es) ≡ keep_unless (c i) (lookup i es)
  lookup-drop_where c i [] = refl
  lookup-drop_where c i (e ∷ es) =
      ground (arith, lookup-drop_where c i es, lookup-drop e.0 i (drop_where c es))
