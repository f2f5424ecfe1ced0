-- ===== src/Prelude/Async.antt =====
-- Async functions over a shared state: an action returns or throws, and what it wrote before a
-- throw stays written.
use mathlib.Core.Bool.{Bool}
use mathlib.Core.Option.{Option, none, some}
use mathlib.Core.List.{List, [], ◌∷◌}
use ticket_queue_platform.Prelude.Tests.{if◌then◌else◌}
use ticket_queue_platform.Errors.{Error}

pub data Result {ℓ} (A : Type ℓ) : Type ℓ where
  ok : A → Result A
  err : Error → Result A

abbrev pub Action : Type 0 → Type 0 → Type 0
Action S A = S → Result A × S

module _ {S : Type 0} where
  abbrev pub pure : {A : Type 0} → A → Action S A
  pure a s = (ok a, s)

  abbrev pub throw : {A : Type 0} → Error → Action S A
  throw e s = (err e, s)

  infixl 5 ◌>>=◌ ◌>>◌
  abbrev pub ◌>>=◌ : {A B : Type 0} → Action S A → (A → Action S B) → Action S B
  ◌>>=◌ m f s = let (r, s') = m s in elim r [ ok a ↦ f a s' | err e ↦ (err e, s') ]

  abbrev pub ◌>>◌ : {A B : Type 0} → Action S A → Action S B → Action S B
  m >> k = m >>= λ _. k

  -- `if (c) throw e;`
  abbrev pub throw_if : Bool → Error → Action S (Unit {0})
  throw_if c e s = (if c then err e else ok tt, s)

  -- `if (!x) throw e;` with `x` not null from there on
  abbrev pub or_throw : {A : Type 0} → Option A → Error → Action S A
  or_throw none e = throw e
  or_throw (some a) e = pure a

  -- `try { m } catch (err) { h(err) }`
  abbrev pub try_catch : {A : Type 0} → Action S A → (Error → Action S A) → Action S A
  try_catch m h s = let (r, s') = m s in elim r [ ok a ↦ (ok a, s') | err e ↦ h e s' ]

  abbrev pub when : Bool → Action S (Unit {0}) → Action S (Unit {0})
  when c m = if c then m else pure tt

  -- `for (const x of xs) await f(x);`
  abbrev pub for_each : {A : Type 0} → (A → Action S (Unit {0})) → List A → Action S (Unit {0})
  for_each f [] = pure tt
  for_each f (x ∷ xs) = f x >> for_each f xs
