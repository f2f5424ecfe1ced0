-- ===== src/Platform/Rules.antt =====
-- Rules for what actions keep and establish, for every plan of faults. A precondition may not speak
-- of the plan.
use ticket_queue_platform.Prelude.{
  ℕ, Bool, true, false, ◌≡◌, refl, Option, none, some, List, [], ◌∷◌, Action, Result, ok, err,
  ◌>>=◌, pure, throw, throw_if, or_throw, for_each, try_catch, if◌then◌else◌,
}
use ticket_queue_platform.Errors.{Error}
use ticket_queue_platform.Platform.{
  Platform, World, Emission, external_at, query, command, write, emit, now, has_io,
}

module _ {p : Platform} where
  -- `Q` where the action returned, `E` where it threw
  abbrev pub Post :
      {A : Type 0} → (A → World p → Type 0) → (World p → Type 0) → Result A × World p → Type 0
  Post Q E (ok a, w) = Q a w
  Post Q E (err e, w) = E w

  pub record Ensures {A : Type 0} (P : World p → Type 0) (m : Action (World p) A)
      (Q : A → World p → Type 0) (E : World p → Type 0) : Type 0 where
    pub run : (w : World p) → P w → Post Q E (m w)

  -- What holds before an action holds after it, returned or thrown.
  abbrev pub Keeps : {A : Type 0} → (World p → Type 0) → Action (World p) A → Type 0
  Keeps P m = Ensures P m (λ _ w. P w) P

  abbrev pub IgnoresFaults : (World p → Type 0) → Type 0
  IgnoresFaults P = (w : World p) (fs : List Bool) → P w → P (record w { faults = fs })

  bind-Post :
      {A B : Type 0} (Q : A → World p → Type 0) (R : B → World p → Type 0) (E : World p → Type 0)
      (f : A → Action (World p) B)
      → ((a : A) → Ensures (Q a) (f a) R E)
      → (r : Result A × World p) → Post Q E r
      → Post R E (((λ w. r) >>= f) (r.1))
  bind-Post Q R E f hf (ok a, w) h = (hf a).run w h
  bind-Post Q R E f hf (err e, w) h = h

  pub bind_Ensures :
      {A B : Type 0} {P : World p → Type 0} (Q : A → World p → Type 0) {R : B → World p → Type 0}
      {E : World p → Type 0} {m : Action (World p) A} {f : A → Action (World p) B}
      → Ensures P m Q E
      → ((a : A) → Ensures (Q a) (f a) R E)
      → Ensures P (m >>= f) R E
  bind_Ensures Q {R} {E} {m} {f} hm hf = record {
    run = λ w h. bind-Post Q R E f hf (m w) (hm.run w h);
  }

  external_at-Post :
      {A : Type 0} (P : World p → Type 0) (Q : A → World p → Type 0) (E : World p → Type 0)
      (m : Action (World p) A)
      → IgnoresFaults P
      → ((w : World p) → P w → E w)
      → ((w : World p) → P w → Post Q E (m w))
      → (fs : List Bool) (w : World p) → P w
      → Post Q E (external_at fs m w)
  external_at-Post P Q E m ign thrown hm [] w h = hm w h
  external_at-Post P Q E m ign thrown hm (true ∷ fs) w h = thrown _ (ign w fs h)
  external_at-Post P Q E m ign thrown hm (false ∷ fs) w h = hm _ (ign w fs h)

  pub query-Ensures :
      {A : Type 0} {P : World p → Type 0} {Q : A → World p → Type 0} {E : World p → Type 0}
      {f : World p → A}
      → IgnoresFaults P
      → ((w : World p) → P w → E w)
      → ((w : World p) → P w → Q (f w) w)
      → Ensures P (query f) Q E
  query-Ensures {P = P} {Q} {E} {f} ign thrown step = record {
    run = λ w. external_at-Post P Q E (λ v. (ok (f v), v)) ign thrown step w.faults w;
  }

  pub command-Ensures :
      {P : World p → Type 0} {Q : Unit {0} → World p → Type 0} {E : World p → Type 0}
      {f : World p → World p}
      → IgnoresFaults P
      → ((w : World p) → P w → E w)
      → ((w : World p) → P w → Q tt (f w))
      → Ensures P (command f) Q E
  command-Ensures {P} {Q} {E} {f} ign thrown step = record {
    run = λ w. external_at-Post P Q E (λ v. (ok tt, f v)) ign thrown step w.faults w;
  }

  pub throw_if-Ensures :
      {P E : World p → Type 0} {Q : Unit {0} → World p → Type 0} (c : Bool) (e : Error)
      → ((w : World p) → P w → E w)
      → ((w : World p) → P w → c ≡ false → Q tt w)
      → Ensures P (throw_if c e) Q E
  throw_if-Ensures true e thrown step = record { run = thrown }
  throw_if-Ensures false e thrown step = record { run = λ w h. step w h refl }

  pub now-Ensures :
      {P E : World p → Type 0} {Q : ℕ → World p → Type 0}
      → ((w : World p) → P w → Q w.now w)
      → Ensures P now Q E
  now-Ensures step = record { run = step }

  pub weaken :
      {A : Type 0} {P : World p → Type 0} (P' : World p → Type 0) {m : Action (World p) A}
      {Q : A → World p → Type 0} {E : World p → Type 0}
      → ((w : World p) → P w → P' w)
      → Ensures P' m Q E
      → Ensures P m Q E
  weaken P' imp hm = record { run = λ w h. hm.run w (imp w h) }

module _ {p : Platform} {P : World p → Type 0} where
  pub bind_Keeps :
      {A B : Type 0} {m : Action (World p) A} {f : A → Action (World p) B}
      → Keeps P m
      → ((a : A) → Keeps P (f a))
      → Keeps P (m >>= f)
  bind_Keeps = bind_Ensures (λ _ w. P w)

  pub query-Keeps : {A : Type 0} {f : World p → A} → IgnoresFaults P → Keeps P (query f)
  query-Keeps {f = f} ign = record {
    run = λ w.
        external_at-Post P (λ _ v. P v) P (λ v. (ok (f v), v)) ign (λ v k. k) (λ v k. k) w.faults w;
  }

  pub command-Keeps :
      {f : World p → World p}
      → IgnoresFaults P
      → ((w : World p) → P w → P (f w))
      → Keeps P (command f)
  command-Keeps ign step = command-Ensures ign (λ v k. k) step

  pub write-Keeps :
      {R : Type 0} (res : World p → Option R) (e : Error) (f : R → World p → World p)
      → IgnoresFaults P
      → ((w : World p) (r : R) → res w ≡ some r → P w → P (f r w))
      → Keeps P (write res e f)
  write-Keeps {R} res e f ign step = record {
    run = λ w.
        external_at-Post P (λ _ v. P v) P
          (λ v. elim (res v) [ none ↦ (err e, v) | some x ↦ (ok tt, f x v) ]) ign (λ v k. k)
          (λ v k. written v k (res v) refl) w.faults w;
  }
    where
      written :
          (v : World p)
          → P v
          → (o : Option R) → res v ≡ o
          → Post {A = Unit {0}}
              (λ _ u. P u)
              P
              (elim o [ none ↦ (err e, v) | some x ↦ (ok tt, f x v) ])
      written v k none h = k
      written v k (some x) h = step v x h k

  pub throw_if-Keeps : (c : Bool) (e : Error) → Keeps P (throw_if c e)
  throw_if-Keeps true e = record { run = λ w h. h }
  throw_if-Keeps false e = record { run = λ w h. h }

  pub or_throw-Keeps : {A : Type 0} (o : Option A) (e : Error) → Keeps P (or_throw o e)
  or_throw-Keeps none e = record { run = λ w h. h }
  or_throw-Keeps (some a) e = record { run = λ w h. h }

  pub pure-Keeps : {A : Type 0} {a : A} → Keeps P (pure a)
  pure-Keeps = record { run = λ w h. h }

  pub has_io-Keeps : Keeps P has_io
  has_io-Keeps = record { run = λ w h. h }

  emit_kept :
      (io : Bool) (m : Emission) (w : World p)
      → ((v : World p) → (ms : List Emission) → P v → P (record v { sent = ms }))
      → P w
      → P (if io then record w { sent = m ∷ w.sent } else w)
  emit_kept true m w ign h = ign w (m ∷ w.sent) h
  emit_kept false m w ign h = h

  pub emit-Keeps :
      (m : Emission)
      → ((w : World p) (ms : List Emission) → P w → P (record w { sent = ms }))
      → Keeps P (emit m)
  emit-Keeps m ign = record { run = λ w h. emit_kept w.io m w ign h }

  pub throw-Keeps : {A : Type 0} {e : Error} → Keeps P (throw {A = A} e)
  throw-Keeps = record { run = λ w h. h }

  pub if_Keeps :
      {A : Type 0} (c : Bool) {m k : Action (World p) A}
      → Keeps P m
      → Keeps P k
      → Keeps P (if c then m else k)
  if_Keeps true hm hk = hm
  if_Keeps false hm hk = hk

  pub for_each-Keeps :
      {A : Type 0} {f : A → Action (World p) (Unit {0})}
      → ((a : A) → Keeps P (f a))
      → (xs : List A) → Keeps P (for_each f xs)
  for_each-Keeps hf [] = pure-Keeps
  for_each-Keeps hf (x ∷ xs) = bind_Keeps (hf x) (λ _. for_each-Keeps hf xs)

  pub try_catch-Keeps :
      {A : Type 0} {m : Action (World p) A} {h : Error → Action (World p) A}
      → Keeps P m
      → ((e : Error) → Keeps P (h e))
      → Keeps P (try_catch m h)
  try_catch-Keeps {A} {m} {h} hm hh = record { run = λ w k. caught (m w) (hm.run w k) }
    where
      caught :
          (r : Result A × World p)
          → Post (λ _ v. P v) P r
          → Post (λ _ v. P v) P (try_catch (λ w. r) h (r.1))
      caught (ok a, v) k = k
      caught (err e, v) k = (hh e).run v k

  -- what an action keeps, of the world after it
  pub kept_after :
      {A : Type 0} {m : Action (World p) A} → Keeps P m → (w : World p) → P w → P (m w).1
  kept_after {A} {m} k w h = after (m w) (k.run w h)
    where
      after : (r : Result A × World p) → Post (λ _ v. P v) P r → P r.1
      after (ok a, v) h = h
      after (err e, v) h = h

-- A predicate that speaks neither of the coming faults nor of what was sent.
pub record IsQuiet {p : Platform} (P : World p → Type 0) : Type 0 where
  pub faults : IgnoresFaults P
  pub sent : (w : World p) (ms : List Emission) → P w → P (record w { sent = ms })
