-- ===== src/Queue/Effects.antt =====
-- What each call of the queue service writes to Redis, where no call to a store fails.
use ticket_queue_platform.Prelude.{
  ℕ, ◌≡◌, refl, Bool, true, false, ltb, Option, none, some, List, [], ◌∷◌, take, length,
  if◌then◌else◌, is_some, ok, err, pos, Result, Bool-cases, inl, inr, ap, ◌∙◌, arith,
}
use ticket_queue_platform.Errors.{Error}
use ticket_queue_platform.Platform.{Platform, World, calm, queue_admitted}
use ticket_queue_platform.Platform.Rules.{IsQuiet, kept_after, bind_Keeps, emit-Keeps}
use ticket_queue_platform.Services.Redis.{waiting, reconnect, admitted, names, number}
use ticket_queue_platform.Queue.Repository.{queue_repository, get_top_waiting}
use ticket_queue_platform.Queue.Service.{
  QueuePositionResult, enter_queue, get_position_result, leave_queue, handle_disconnect,
  handle_reconnect, expire_disconnect, admit_top, admit_next_user,
}
use ticket_queue_platform.Queue.Readers.{get_position_result-Reads, broadcast_positions-Reads}
use ticket_queue_platform.Queue.Exclusive.{holds_admission, is_waiting}
use ticket_queue_platform.Queue.Line.{is_some-index_of}
use ticket_queue_platform.Queue.Entry.{refusal, joined, enter_queue-eq}
use ticket_queue_platform.Queue.Counting.{count_admitted_total}
use ticket_queue_platform.Queue.Reachable.{
  Call, enters, leaves, drops_out, comes_back, grace_ends, admits, perform,
}

module _ (p : Platform) where
  -- whether the user has the reconnect key of the concert
  abbrev pub is_away : ℕ → ℕ → p.redis.Store → Bool
  is_away c u s = is_some (p.redis.get (reconnect c u) s)

  -- the head of a line is served
  abbrev pub served : ℕ → List (ℕ × ℕ) → p.redis.Store → p.redis.Store
  served c [] s = s
  served c (e ∷ es) s =
      p.redis.set_ex (admitted c e.1) (number (pos 1)) 300 (p.redis.zrem (waiting c) e.1 s)

module _ {p : Platform} where
  -- the store after a call
  abbrev pub effect : Call → World p → p.redis.Store
  effect (enters c u) w =
      elim (refusal (p.concerts.find c w.concerts) (is_waiting p c u w.redis)
        (holds_admission p c u w.redis)) [
          | none ↦ p.redis.zadd (waiting c) w.now u w.redis
          | some e ↦ w.redis
        ]
  effect (leaves c u) w =
      if is_waiting p c u w.redis then p.redis.zrem (waiting c) u w.redis else w.redis
  effect (drops_out c u) w =
      if is_waiting p c u w.redis
      then p.redis.set_ex (reconnect c u) (number (pos 1)) 30 w.redis
      else w.redis
  effect (comes_back c u) w =
      if is_away p c u w.redis then p.redis.del (reconnect c u) w.redis else w.redis
  effect (grace_ends c u) w =
      if is_away p c u w.redis then w.redis else p.redis.zrem (waiting c) u w.redis
  effect (admits c) w =
      if ltb 0 (length (p.redis.scan_ends c w.redis).0)
      then w.redis
      else served p c (p.redis.members (waiting c) w.redis) w.redis

  -- The store is `s`, and the concerts and the clock are those of `w`.
  pub record Left (w : World p) (s : p.redis.Store) (v : World p) : Type 0 where
    pub stored : v.redis ≡ s
    pub shown : v.concerts ≡ w.concerts
    pub clock : v.now ≡ w.now

  Left-quiet : (w : World p) (s : p.redis.Store) → IsQuiet (Left w s)
  Left-quiet w s = record {
    faults = λ v fs h. record { stored = h.stored; shown = h.shown; clock = h.clock };
    sent = λ v ms h. record { stored = h.stored; shown = h.shown; clock = h.clock };
  }

  same-Left : (w : World p) (s : p.redis.Store) → Left w s (record w { redis = s; faults = [] })
  same-Left w s = record { stored = refl; shown = refl; clock = refl }

  rank_is :
      (c u : ℕ) (w : World p)
      → is_some (p.redis.zrank (waiting c) u w.redis) ≡ is_waiting p c u w.redis
  rank_is c u w =
      ap is_some (p.redis.zrank_lem (waiting c) u w.redis)
      ∙ is_some-index_of u (names (p.redis.members (waiting c) w.redis))

  enters-Left :
      (c u : ℕ) (w : World p) → Left w (effect (enters c u) w) (enter_queue c u (calm w)).1
  enters-Left c u w = rw (enter_queue-eq c u w) (
      by_reason (
        refusal (p.concerts.find c w.concerts) (is_waiting p c u w.redis)
          (holds_admission p c u w.redis)))
    where
      by_reason :
          (o : Option Error)
          → Left w
              (elim o [ none ↦ p.redis.zadd (waiting c) w.now u w.redis | some e ↦ w.redis ])
              (let r : Result QueuePositionResult × World p = elim o [
                | none ↦ get_position_result c u (joined c u w)
                | some e ↦ (err e, calm w)
              ] in
                r.1)
      by_reason none =
          kept_after (get_position_result-Reads (Left-quiet w _) c u) (joined c u w) (same-Left w _)
      by_reason (some e) = same-Left w w.redis

  leaves-Left :
      (c u : ℕ) (w : World p) → Left w (effect (leaves c u) w) (leave_queue c u (calm w)).1
  unfolding leave_queue queue_repository
  leaves-Left c u w = elim (Bool-cases (is_waiting p c u w.redis)) [
    | inl e ↦ rw (e, rank_is c u w ∙ e) (same-Left w _)
    | inr e ↦ rw (e, rank_is c u w ∙ e) (same-Left w _)
  ]

  drops-Left :
      (c u : ℕ) (w : World p) → Left w (effect (drops_out c u) w) (handle_disconnect c u (calm w)).1
  unfolding handle_disconnect queue_repository
  drops-Left c u w = elim (Bool-cases (is_waiting p c u w.redis)) [
    | inl e ↦ rw (e, rank_is c u w ∙ e) (same-Left w _)
    | inr e ↦ rw (e, rank_is c u w ∙ e) (same-Left w _)
  ]

  back-Left :
      (c u : ℕ) (w : World p) → Left w (effect (comes_back c u) w) (handle_reconnect c u (calm w)).1
  unfolding handle_reconnect queue_repository
  back-Left c u w = elim (Bool-cases (is_away p c u w.redis)) [
    | inl e ↦
        rw (e, p.redis.exists_lem (reconnect c u) w.redis ∙ e)
          (kept_after (get_position_result-Reads (Left-quiet w _) c u) _ (same-Left w _))
    | inr e ↦ rw (e, p.redis.exists_lem (reconnect c u) w.redis ∙ e) (same-Left w _)
  ]

  grace-Left :
      (c u : ℕ) (w : World p)
      → Left w (effect (grace_ends c u) w) (expire_disconnect c u (calm w)).1
  unfolding expire_disconnect queue_repository
  grace-Left c u w = elim (Bool-cases (is_away p c u w.redis)) [
    | inl e ↦ rw (e, p.redis.exists_lem (reconnect c u) w.redis ∙ e) (same-Left w _)
    | inr e ↦
        rw (e, p.redis.exists_lem (reconnect c u) w.redis ∙ e)
          (kept_after (broadcast_positions-Reads (Left-quiet w _) c) _ (same-Left w _))
  ]

  serves-Left :
      (c : ℕ) (es : List (ℕ × ℕ)) (w : World p)
      → Left w (served p c es w.redis) (admit_top c (take 1 (names es)) (calm w)).1
  unfolding admit_top queue_repository
  serves-Left c [] w = same-Left w _
  serves-Left c (e ∷ es) w =
      kept_after
        (bind_Keeps (emit-Keeps (queue_admitted e.1) (Left-quiet w _).sent)
          (λ _. broadcast_positions-Reads (Left-quiet w _) c))
        _ (same-Left w _)

  busy :
      (c : ℕ) (w : World p)
      → ltb 0 (length (p.redis.scan_ends c w.redis).0) ≡ true
      → admit_next_user c (calm w) ≡ (ok tt, calm w)
  unfolding admit_next_user
  busy c w h = ground (arith, count_admitted_total c w)

  free :
      (c : ℕ) (w : World p)
      → ltb 0 (length (p.redis.scan_ends c w.redis).0) ≡ false
      → admit_next_user c (calm w)
        ≡ admit_top c (take 1 (names (p.redis.members (waiting c) w.redis))) (calm w)
  unfolding admit_next_user get_top_waiting
  free c w h = ground (arith, count_admitted_total c w, p.redis.zrange_upto (waiting c) 0 w.redis)

  admits-Left : (c : ℕ) (w : World p) → Left w (effect (admits c) w) (admit_next_user c (calm w)).1
  admits-Left c w = elim (Bool-cases (ltb 0 (length (p.redis.scan_ends c w.redis).0))) [
    | inl e ↦ rw (busy c w e, e) (same-Left w _)
    | inr e ↦ rw (free c w e, e) (serves-Left c (p.redis.members (waiting c) w.redis) w)
  ]

  pub perform-Left : (e : Call) (w : World p) → Left w (effect e w) (perform e (calm w))
  unfolding perform
  perform-Left (enters c u) w = enters-Left c u w
  perform-Left (leaves c u) w = leaves-Left c u w
  perform-Left (drops_out c u) w = drops-Left c u w
  perform-Left (comes_back c u) w = back-Left c u w
  perform-Left (grace_ends c u) w = grace-Left c u w
  perform-Left (admits c) w = admits-Left c w
