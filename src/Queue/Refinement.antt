-- ===== src/Queue/Refinement.antt =====
-- The queue service on Redis does what the booth of each concert promises, call by call and in any
-- run in which time passes between the calls.
use ticket_queue_platform.Prelude.{
  ℕ, ◌<◌, ◌≡◌, refl, sym, ap, subst, ◌∙◌, Bool, true, false, not, ◌&&◌, ◌==◌, if◌then◌else◌,
  is_some, Option, none, some, List, [], ◌∷◌, ◌++◌, All, contains, select, length, ltb, Bool-cases,
  inl, inr, pos, arith,
}
use ticket_queue_platform.Errors.{Error}
use ticket_queue_platform.Schema.{Concert, is_on_sale}
use ticket_queue_platform.Services.Redis.{waiting, number, reconnect}
use ticket_queue_platform.Platform.{Platform, World, calm}
use ticket_queue_platform.Queue.Entry.{refusal}
use ticket_queue_platform.Queue.Booth.{Booth, is_of, set_away, remove, serve, handle}
use ticket_queue_platform.Queue.Exclusive.{holds_admission, is_waiting}
use ticket_queue_platform.Queue.Invariant.{Inv}
use ticket_queue_platform.Queue.Counting.{counted-admitted, uncounted-vacant}
use ticket_queue_platform.Queue.Effects.{is_away, served, effect, perform-Left}
use ticket_queue_platform.Queue.Depicts.{
  Depicts, zadd-Depicts, zrem-Depicts, set_away-Depicts, del-Depicts, served_here, served_there,
  busy-Depicts,
}
use ticket_queue_platform.Queue.Reachable.{
  Call, enters, leaves, drops_out, comes_back, grace_ends, admits, perform,
}

-- whether a concert that was looked up is on sale
abbrev pub sells : Option Concert → Bool
sells none = false
sells (some concert) = is_on_sale concert.status

contains-remove : (u : ℕ) (us : List ℕ) → contains u us ≡ false → select (λ v. not (v == u)) us ≡ us
contains-remove u [] h = refl
contains-remove u (x ∷ us) h = ground (arith, contains-remove u us)

-- an entry that no reason speaks against
entry_allowed :
    (o : Option Concert) (waits admitted : Bool)
    → is_some (refusal o waits admitted) ≡ not (sells o && not waits && not admitted)
entry_allowed none waits admitted = refl
entry_allowed (some concert) waits admitted = ground arith

module _ {p : Platform} (c : ℕ) (w : World p) (booth : Booth) (h : Depicts p c w.redis booth)
    (inv : Inv w) where
  abbrev on_sale : Bool
  on_sale = sells (p.concerts.find c w.concerts)

  waits_here : (d u : ℕ) → d ≡ c → is_waiting p d u w.redis ≡ contains u booth.line
  waits_here d u e = ap (λ i. is_waiting p i u w.redis) e ∙ ap (contains u) h.in_line

  away_here : (d u : ℕ) → d ≡ c → is_away p d u w.redis ≡ booth.away u
  away_here d u e = ap (λ i. is_away p i u w.redis) e ∙ h.away u

  inside_here : (d u : ℕ) → d ≡ c → holds_admission p d u w.redis ≡ is_of booth.inside u
  inside_here d u e = ap (λ i. holds_admission p i u w.redis) e ∙ h.inside u

  -- the tests of the booth are those of the concert
  under :
      (s : p.redis.Store) (x : Booth) (b b' : Bool)
      → b ≡ b'
      → Depicts p c s (if b then x else booth)
      → Depicts p c s (if b' then x else booth)
  under s x b b' e k = subst (λ t. Depicts p c s (if t then x else booth)) e k

  sale_here : (d : ℕ) → d ≡ c → sells (p.concerts.find d w.concerts) ≡ on_sale
  sale_here d e = ap (λ i. sells (p.concerts.find i w.concerts)) e

  module _ (d u : ℕ) where
    abbrev reason : Option Error
    reason =
        refusal (p.concerts.find d w.concerts) (is_waiting p d u w.redis)
          (holds_admission p d u w.redis)

    reason_lem :
        is_some reason
        ≡ not (
            sells (p.concerts.find d w.concerts)
            && not (is_waiting p d u w.redis)
            && not (holds_admission p d u w.redis))
    reason_lem = entry_allowed (p.concerts.find d w.concerts) _ _

    -- the test of the booth, for a call at this concert
    admissible :
        (d == c) ≡ true
        → (on_sale && not (contains u booth.line) && not (is_of booth.inside u))
          ≡ not (is_some reason)
    admissible here = ground (
      arith,
      reason_lem,
      waits_here d u (ground arith),
      inside_here d u (ground arith),
      sale_here d (ground arith),
    )

    enters-Depicts :
        (o : Option Error)
        → o ≡ reason
        → All (λ x. x.0 < w.now) (p.redis.members (waiting c) w.redis)
        → Depicts p c
            (elim o [ none ↦ p.redis.zadd (waiting d) w.now u w.redis | some e ↦ w.redis ])
            (handle c on_sale (enters d u) booth)
    unfolding handle
    enters-Depicts none e late =
        under _ (record booth { line = booth.line ++ u ∷ [] }) (d == c) _
          (elim (Bool-cases (d == c)) [
            | inl here ↦ ground (arith, admissible here)
            | inr there ↦ ground arith
          ])
          (zadd-Depicts p c d u w.redis booth h w.now (ground (arith, reason_lem)) (λ k.
            subst (λ i. All (λ x. x.0 < w.now) (p.redis.members (waiting i) w.redis)) (sym k) late))
    enters-Depicts (some x) e late =
        under _ (record booth { line = booth.line ++ u ∷ [] }) false _
          (elim (Bool-cases (d == c)) [
            | inl here ↦ ground (arith, admissible here)
            | inr there ↦ ground arith
          ])
          h

    absent-Depicts :
        is_waiting p d u w.redis ≡ false
        → Depicts p c w.redis (if d == c then remove u booth else booth)
    absent-Depicts out = elim (Bool-cases (d == c)) [
      | inl here ↦ rw here (record {
        in_line =
            h.in_line
            ∙ sym (contains-remove u booth.line (sym (waits_here d u (ground arith)) ∙ out));
        inside = h.inside;
        away = h.away;
      })
      | inr there ↦ rw there h
    ]

    leaves-Depicts : Depicts p c (effect (leaves d u) w) (if d == c then remove u booth else booth)
    leaves-Depicts = elim (Bool-cases (is_waiting p d u w.redis)) [
      | inl e ↦ rw e (zrem-Depicts p c d u w.redis booth h)
      | inr e ↦ rw e (absent-Depicts e)
    ]

    drops-Depicts :
        Depicts p c
          (effect (drops_out d u) w)
          (if (d == c) && contains u booth.line then set_away u true booth else booth)
    drops-Depicts = elim (Bool-cases (is_waiting p d u w.redis)) [
      | inl e ↦ rw e (
          under _ (set_away u true booth) (d == c) _ (ground (arith, waits_here d u))
            (set_away-Depicts p c d u w.redis booth h (number (pos 1)) 30))
      | inr e ↦ rw e (under _ (set_away u true booth) false _ (ground (arith, waits_here d u)) h)
    ]

    back-Depicts :
        Depicts p c (effect (comes_back d u) w) (if d == c then set_away u false booth else booth)
    back-Depicts = elim (Bool-cases (is_away p d u w.redis)) [
      | inl e ↦ rw e (del-Depicts p c (reconnect d u) w.redis booth h)
      | inr e ↦ rw e (elim (Bool-cases (d == c)) [
        | inl here ↦ rw here (record {
          in_line = h.in_line;
          inside = h.inside;
          away = λ v. ground (arith, h.away v, away_here d u (ground arith));
        })
        | inr there ↦ rw there h
      ])
    ]

    grace-Depicts :
        Depicts p c
          (effect (grace_ends d u) w)
          (if (d == c) && not (booth.away u) then remove u booth else booth)
    grace-Depicts = elim (Bool-cases (is_away p d u w.redis)) [
      | inl e ↦ rw e (under _ (remove u booth) false _ (ground (arith, away_here d u)) h)
      | inr e ↦ rw e (
          under _ (remove u booth) (d == c) _ (ground (arith, away_here d u))
            (zrem-Depicts p c d u w.redis booth h))
    ]

  admits-Depicts :
      (d : ℕ)
      → Depicts p c
          (effect (admits d) w)
          (if d == c then serve booth.inside booth.line booth else booth)
  admits-Depicts d = elim (Bool-cases (ltb 0 (length (p.redis.scan_ends d w.redis).0))) [
    | inl e ↦
        let (u, held) = counted-admitted p d w.redis (ground arith) in
        rw e (busy-Depicts p c d u w.redis booth h held)
    | inr e ↦ rw e (elim (Bool-cases (d == c)) [
      | inl here ↦ rw here (
          subst
            (λ i.
              Depicts p c (served p i (p.redis.members (waiting i) w.redis) w.redis)
                (serve booth.inside booth.line booth))
            (ground arith)
            (served_here p c w.redis booth h (p.redis.members (waiting c) w.redis) refl (inv.line c)
              (λ u.
                ap (λ i. holds_admission p i u w.redis) (ground arith)
                ∙ uncounted-vacant p d w.redis e u)))
      | inr there ↦
          rw there (served_there p c w.redis booth h d (p.redis.members (waiting d) w.redis) there)
    ])
  ]

  effect-Depicts :
      (e : Call)
      → All (λ x. x.0 < w.now) (p.redis.members (waiting c) w.redis)
      → Depicts p c (effect e w) (handle c on_sale e booth)
  unfolding handle
  effect-Depicts (enters d u) late = enters-Depicts d u (reason d u) refl late
  effect-Depicts (leaves d u) late = leaves-Depicts d u
  effect-Depicts (drops_out d u) late = drops-Depicts d u
  effect-Depicts (comes_back d u) late = back-Depicts d u
  effect-Depicts (grace_ends d u) late = grace-Depicts d u
  effect-Depicts (admits d) late = admits-Depicts d

  -- One call at any concert, where no call to a store fails and the scores of the line of this
  -- concert are in the past: a store that depicts a booth depicts, after the call, the booth that has
  -- handled it.
  pub perform_refines :
      (e : Call)
      → All (λ x. x.0 < w.now) (p.redis.members (waiting c) w.redis)
      → Depicts p c (perform e (calm w)).redis (handle c on_sale e booth)
  perform_refines e late =
      subst (λ s. Depicts p c s (handle c on_sale e booth)) (sym (perform-Left e w).stored)
        (effect-Depicts e late)
