-- ===== src/Queue/Admission.antt =====
-- Admission from the head of the line.
use ticket_queue_platform.Prelude.{
  ℕ, ◌≡◌, ap, ◌∙◌, true, false, List, [], ◌∷◌, take, ok, arith, pos, ◌>>◌,
}
use ticket_queue_platform.Platform.{Platform, World, calm, emit, queue_admitted}
use ticket_queue_platform.Platform.Rules.{IsQuiet, kept_after, bind_Keeps, emit-Keeps}
use ticket_queue_platform.Services.Redis.{admitted, waiting, names, number}
use ticket_queue_platform.Queue.Repository.{get_top_waiting, remove_from_waiting, set_admitted_key}
use ticket_queue_platform.Queue.Service.{admit_top, admit_next_user, broadcast_positions}
use ticket_queue_platform.Queue.Counting.{count_admitted_total, admitted-counted, vacant-uncounted}
use ticket_queue_platform.Queue.Line.{IsLine, without_head}
use ticket_queue_platform.Queue.Exclusive.{holds_admission}
use ticket_queue_platform.Queue.Readers.{broadcast_positions-Reads}

module _ {p : Platform} (c : ℕ) (w : World p) where
  abbrev scanned : List ℕ
  scanned = (p.redis.scan_ends c w.redis).0

  -- Where no call fails, nobody is admitted and nothing changes as long as a user of the concert
  -- holds the admitted key.
  pub admit_next_user_busy :
      (u : ℕ) → holds_admission p c u w.redis ≡ true → admit_next_user c (calm w) ≡ (ok tt, calm w)
  unfolding admit_next_user
  admit_next_user_busy u held =
      ground (arith, count_admitted_total c w, admitted-counted p c w.redis u held)

  admit_next_user_free :
      ((u : ℕ) → holds_admission p c u w.redis ≡ false)
      → admit_next_user c (calm w)
        ≡ admit_top c (p.redis.zrange (waiting c) (pos 0) w.redis) (calm w)
  unfolding admit_next_user get_top_waiting
  admit_next_user_free free =
      ground (arith, count_admitted_total c w, vacant-uncounted p c w.redis free)

  top_of_line :
      (e : ℕ × ℕ) (es : List (ℕ × ℕ))
      → p.redis.members (waiting c) w.redis ≡ e ∷ es
      → p.redis.zrange (waiting c) (pos 0) w.redis ≡ e.1 ∷ []
  top_of_line e es h = p.redis.zrange_upto (waiting c) 0 w.redis ∙ ap (λ xs. take 1 (names xs)) h

  -- the world when the head of the line has been admitted, before the messages
  abbrev served : ℕ → World p
  served u = record w {
    redis = p.redis.set_ex (admitted c u) (number (pos 1)) 300 (p.redis.zrem (waiting c) u w.redis);
    faults = [];
  }

  admit_next_user-eq :
      (e : ℕ × ℕ) (es : List (ℕ × ℕ))
      → p.redis.members (waiting c) w.redis ≡ e ∷ es
      → ((u : ℕ) → holds_admission p c u w.redis ≡ false)
      → admit_next_user c (calm w)
        ≡ (emit (queue_admitted e.1) >> broadcast_positions c) (served e.1)
  unfolding admit_top remove_from_waiting set_admitted_key
  admit_next_user-eq e es h free =
      admit_next_user_free free ∙ ap (λ top. admit_top c top (calm w)) (top_of_line e es h)

  -- Where no call fails, nobody is admitted and the line is sorted and not empty, its head is admitted
  -- and leaves the line, and those behind keep their order.
  pub admit_next_user_serves :
      (e : ℕ × ℕ) (es : List (ℕ × ℕ))
      → p.redis.members (waiting c) w.redis ≡ e ∷ es
      → IsLine (e ∷ es)
      → ((u : ℕ) → holds_admission p c u w.redis ≡ false)
      → let v = (admit_next_user c (calm w)).1 in
        (holds_admission p c e.1 v.redis ≡ true) × (p.redis.members (waiting c) v.redis ≡ es)
  admit_next_user_serves e es h sorted free = rw (admit_next_user-eq e es h free) (
      kept_after {P = Served}
        (bind_Keeps (emit-Keeps (queue_admitted e.1) (λ v ms k. k))
          (λ _. broadcast_positions-Reads quiet c))
        (served e.1) (held, gone))
    where
      Served : World p → Type 0
      Served v =
          (holds_admission p c e.1 v.redis ≡ true) × (p.redis.members (waiting c) v.redis ≡ es)

      quiet : IsQuiet Served
      quiet = record { faults = λ v fs k. k; sent = λ v ms k. k }

      held : holds_admission p c e.1 (served e.1).redis ≡ true
      held = ground (
        arith,
        p.redis.get-set_ex (admitted c e.1) (admitted c e.1) (number (pos 1)) 300
            (p.redis.zrem (waiting c) e.1 w.redis),
      )

      gone : p.redis.members (waiting c) (served e.1).redis ≡ es
      gone = ground (
        arith,
        p.redis.members-set_ex (waiting c) (admitted c e.1) (number (pos 1)) 300
            (p.redis.zrem (waiting c) e.1 w.redis),
        p.redis.members-zrem (waiting c) (waiting c) e.1 w.redis,
        without_head e es sorted,
      )
