-- ===== src/Queue/Runs.antt =====
-- Runs of the queue service in which time passes before each call, against runs of a booth.
use ticket_queue_platform.Prelude.{
  ℕ, ◌<◌, ◌≤◌, sym, subst, Bool, true, false, ◌==◌, if◌then◌else◌, Option, none, some, List, [],
  ◌∷◌, All, pos, arith,
}
use ticket_queue_platform.Errors.{Error}
use ticket_queue_platform.Services.Redis.{Key, waiting, admitted, reconnect, without, place, number}
use ticket_queue_platform.Platform.{Platform, World, calm}
use ticket_queue_platform.Queue.Booth.{Booth, handle, forget}
use ticket_queue_platform.Queue.Exclusive.{is_waiting, del-QueueInv}
use ticket_queue_platform.Queue.Invariant.{Inv}
use ticket_queue_platform.Queue.Effects.{is_away, served, effect, perform-Left}
use ticket_queue_platform.Queue.Depicts.{Depicts, del-Depicts}
use ticket_queue_platform.Queue.Refinement.{sells, perform_refines}
use ticket_queue_platform.Queue.Reachable.{
  Call, enters, leaves, drops_out, comes_back, grace_ends, admits, perform, perform-Inv,
}

-- A call, or a key whose time to live is over.
pub data Deed : Type 0 where
  calls : Call → Deed
  expires : Key → Deed

module _ {p : Platform} where
  -- a deed at its time, where no call to a store fails
  abbrev pub play : ℕ → Deed → World p → World p
  play t (calls e) w = perform e (calm (record w { now = t }))
  play t (expires k) w = record w { now = t; redis = p.redis.del k w.redis }

  abbrev pub play_all : List (ℕ × Deed) → World p → World p
  play_all [] w = w
  play_all ((t, d) ∷ ds) w = play_all ds (play t d w)

abbrev pub attend : ℕ → Bool → Deed → Booth → Booth
attend c on_sale (calls e) booth = handle c on_sale e booth
attend c on_sale (expires k) booth = forget c k booth

abbrev pub attend_all : ℕ → Bool → List (ℕ × Deed) → Booth → Booth
attend_all c on_sale [] booth = booth
attend_all c on_sale ((t, d) ∷ ds) booth = attend_all c on_sale ds (attend c on_sale d booth)

-- Each deed comes later than the one before it.
abbrev pub Rising : ℕ → List (ℕ × Deed) → Type 0
Rising t [] = Unit
Rising t ((t', d) ∷ ds) = (t < t') × Rising t' ds

-- No score is later than a time.
abbrev pub UpTo : ℕ → List (ℕ × ℕ) → Type 0
UpTo t es = All (λ x. x.0 ≤ t) es

UpTo-later : (t t' : ℕ) (es : List (ℕ × ℕ)) → t < t' → UpTo t es → All (λ x. x.0 < t') es
UpTo-later t t' [] l h = tt
UpTo-later t t' (e ∷ es) l h = (omega arith, UpTo-later t t' es l h.1)

UpTo-trans : (t t' : ℕ) (es : List (ℕ × ℕ)) → t ≤ t' → UpTo t es → UpTo t' es
UpTo-trans t t' [] l h = tt
UpTo-trans t t' (e ∷ es) l h = (omega arith, UpTo-trans t t' es l h.1)

UpTo-without : (t u : ℕ) (es : List (ℕ × ℕ)) → UpTo t es → UpTo t (without u es)
UpTo-without t u [] h = tt
UpTo-without t u (e ∷ es) h = ground (arith, UpTo-without t u es h.1)

UpTo-place : (t u : ℕ) (es : List (ℕ × ℕ)) → UpTo t es → UpTo t (place t u es)
UpTo-place t u [] h = (omega arith, tt)
UpTo-place t u (e ∷ es) h = ground (arith, UpTo-place t u es h.1)

if-UpTo :
    (b : Bool) (t : ℕ) (es fs : List (ℕ × ℕ))
    → UpTo t es
    → UpTo t fs
    → UpTo t (if b then es else fs)
if-UpTo true t es fs h k = h
if-UpTo false t es fs h k = k

module _ {p : Platform} (c : ℕ) (w : World p)
    (h : UpTo w.now (p.redis.members (waiting c) w.redis)) where
  -- no score of the line in a store is later than now
  abbrev Early : p.redis.Store → Type 0
  Early s = UpTo w.now (p.redis.members (waiting c) s)

  zadd-Early : (d u : ℕ) → Early (p.redis.zadd (waiting d) w.now u w.redis)
  zadd-Early d u =
      rw (p.redis.members-zadd (waiting c) (waiting d) w.now u w.redis)
        (if-UpTo (d == c) w.now _ _ (UpTo-place w.now u _ (UpTo-without w.now u _ h)) h)

  zrem-Early : (d u : ℕ) → Early (p.redis.zrem (waiting d) u w.redis)
  zrem-Early d u =
      rw (p.redis.members-zrem (waiting c) (waiting d) u w.redis)
        (if-UpTo (d == c) w.now _ _ (UpTo-without w.now u _ h) h)

  if-Early : (b : Bool) (s t : p.redis.Store) → Early s → Early t → Early (if b then s else t)
  if-Early true s t k l = k
  if-Early false s t k l = l

  served-Early : (d : ℕ) (es : List (ℕ × ℕ)) → Early (served p d es w.redis)
  served-Early d [] = h
  served-Early d (e ∷ es) =
      rw
        (p.redis.members-set_ex (waiting c) (admitted d e.1) (number (pos 1)) 300
          (p.redis.zrem (waiting d) e.1 w.redis))
        (zrem-Early d e.1)

  entered-Early :
      (d u : ℕ) (o : Option Error)
      → Early (elim o [ none ↦ p.redis.zadd (waiting d) w.now u w.redis | some e ↦ w.redis ])
  entered-Early d u none = zadd-Early d u
  entered-Early d u (some e) = h

  effect-Early : (e : Call) → Early (effect e w)
  effect-Early (enters d u) = entered-Early d u _
  effect-Early (leaves d u) = if-Early _ _ _ (zrem-Early d u) h
  effect-Early (drops_out d u) =
      if-Early (is_waiting p d u w.redis)
        (p.redis.set_ex (reconnect d u) (number (pos 1)) 30 w.redis) w.redis
        (rw (p.redis.members-set_ex (waiting c) (reconnect d u) (number (pos 1)) 30 w.redis) h) h
  effect-Early (comes_back d u) =
      if-Early (is_away p d u w.redis) (p.redis.del (reconnect d u) w.redis) w.redis
        (rw (p.redis.members-del (waiting c) (reconnect d u) w.redis) h) h
  effect-Early (grace_ends d u) = if-Early _ _ _ h (zrem-Early d u)
  effect-Early (admits d) = if-Early _ _ _ h (served-Early d _)

  perform-UpTo :
      (e : Call)
      → UpTo (perform e (calm w)).now (p.redis.members (waiting c) (perform e (calm w)).redis)
  perform-UpTo e =
      let l = perform-Left e w in
      subst (λ t. UpTo t (p.redis.members (waiting c) (perform e (calm w)).redis)) (sym l.clock)
        (subst Early (sym l.stored) (effect-Early e))

module _ {p : Platform} (c : ℕ) where
  -- Any run of calls of the queue service, at this and other concerts, and of keys that expire, where
  -- each comes later than the one before and no call to a store fails: if the store depicts a booth,
  -- keeps the queue's invariant and has no score of this line in the future, then the store after the
  -- run depicts the booth after the same run. The line is thus first come first served, with at most
  -- one user inside, whatever the scores and keys are.
  pub queue_refines :
      (ds : List (ℕ × Deed)) (w : World p) (booth : Booth)
      → Inv w
      → UpTo w.now (p.redis.members (waiting c) w.redis)
      → Rising w.now ds
      → Depicts p c w.redis booth
      → Depicts p c
          (play_all ds w).redis
          (attend_all c (sells (p.concerts.find c w.concerts)) ds booth)
  queue_refines [] w booth inv early rising h = h
  queue_refines ((t, expires k) ∷ ds) w booth inv early (l, rising) h =
      queue_refines ds (play t (expires k) w) (forget c k booth) (del-QueueInv p k w.redis inv)
        (rw (p.redis.members-del (waiting c) k w.redis)
          (UpTo-trans w.now t (p.redis.members (waiting c) w.redis) (omega arith) early))
        rising (del-Depicts p c k w.redis booth h)
  queue_refines ((t, calls e) ∷ ds) w booth inv early (l, rising) h =
      let v : World p = record w { now = t } in
      let late = UpTo-later w.now t (p.redis.members (waiting c) w.redis) l early in
      let left = perform-Left e v in
      subst
        (λ rows. Depicts p c (play_all ds (perform e (calm v))).redis (
          attend_all c (sells (p.concerts.find c rows)) ds
            (handle c (sells (p.concerts.find c w.concerts)) e booth)))
        left.shown
        (queue_refines ds (perform e (calm v))
          (handle c (sells (p.concerts.find c w.concerts)) e booth) (perform-Inv e (calm v) inv)
          (perform-UpTo c v
            (UpTo-trans w.now t (p.redis.members (waiting c) w.redis) (omega arith) early) e)
          (subst (λ i. Rising i ds) (sym left.clock) rising)
          (perform_refines c v booth h inv e late))
