-- ===== src/Reservation/Balance.antt =====
-- The changes of one row that keep the books of a zone in balance.
use ticket_queue_platform.Prelude.{
  ℕ, ◌+◌, ◌≡◌, sym, ◌∙◌, ap, true, false, ◌==◌, if◌then◌else◌, Option, none, some, ◌∷◌, contains,
  is_some, pos, arith,
}
use ticket_queue_platform.Schema.{ConcertZone, Reservation, is_pending}
use ticket_queue_platform.Platform.{Platform, World, ReservationExpiryPayload}
use ticket_queue_platform.Services.JobQueue.{Job}
use ticket_queue_platform.Services.Redis.{stock, number}
use ticket_queue_platform.Reservation.Totals.{
  total, override, total_cong, total-override, total-override_absent,
}
use ticket_queue_platform.Reservation.Books.{Books, Agrees, reserved, sold}

-- `v` is `w` with row `i` as `r`, and what the books read besides it.
pub record Changed {p : Platform} (z : ℕ) (w v : World p) (i : ℕ) (r : Reservation)
    (left remain : ℕ) : Type 0 where
  pub rows :
      (j : ℕ)
      → p.reservations.find j v.reservations
        ≡ (if i == j then some r else p.reservations.find j w.reservations)
  pub in_stock : p.redis.get (stock z) v.redis ≡ some (number (pos left))
  pub zone : ConcertZone
  pub zone_lem : p.zones.find z v.zones ≡ some zone
  pub remain_lem : zone.remain_quantity ≡ pos remain
  pub paid : is_pending r.status ≡ true → is_some (p.payments.find i v.payments) ≡ true
  pub payments :
      (j : ℕ)
      → is_some (p.payments.find j w.payments) ≡ true
      → is_some (p.payments.find j v.payments) ≡ true
  pub jobs :
      (j : ℕ) (x : Job ReservationExpiryPayload)
      → p.expiry.get_job j v.expiry ≡ some x
      → Agrees j x.payload (p.reservations.find j v.reservations)

module _ {p : Platform} {z n : ℕ} {w v : World p} {i : ℕ} {r : Reservation} {left remain : ℕ}
    (b : Books z n w) (c : Changed z w v i r left remain) where
  still_paid :
      (j : ℕ) (s : Reservation)
      → p.reservations.find j v.reservations ≡ some s
      → is_pending s.status ≡ true
      → is_some (p.payments.find j v.payments) ≡ true
  still_paid j s found open_ = ground (arith, c.rows j, c.paid, c.payments j, b.paid j s)

  weighed :
      (weight : Option Reservation → ℕ) (j : ℕ)
      → weight (p.reservations.find j v.reservations)
        ≡ override i (weight (some r)) (λ k. weight (p.reservations.find k w.reservations)) j
  weighed weight j = ground (arith, c.rows j)

  -- A row that was there before is replaced.
  pub replaced :
      (old : Reservation)
      → p.reservations.find i w.reservations ≡ some old
      → remain + sold z (some r) ≡ b.remain + sold z (some old)
      → left + reserved z (some r) + b.remain ≡ b.left + reserved z (some old) + remain
      → Books z n v
  replaced old found sales stocks = record {
    ids = b.ids;
    left = left;
    zone = c.zone;
    remain = remain;
    unique = b.unique;
    complete = λ j. ground (arith, c.rows j, b.complete j);
    in_stock = c.in_stock;
    zone_lem = c.zone_lem;
    remain_lem = c.remain_lem;
    unsold = omega (arith, moved (sold z), b.unsold, sales);
    balance = omega (arith, moved (reserved z), b.balance, stocks);
    paid = still_paid;
    jobs = c.jobs;
  }
    where
      known : contains i b.ids ≡ true
      known = b.complete i ∙ ap is_some found

      moved :
          (weight : Option Reservation → ℕ)
          → total (λ j. weight (p.reservations.find j v.reservations)) b.ids + weight (some old)
            ≡ total (λ j. weight (p.reservations.find j w.reservations)) b.ids + weight (some r)
      moved weight =
          rw (total_cong _ _ b.ids (weighed weight), sym (ap weight found))
            (total-override i (weight (some r)) (λ k. weight (p.reservations.find k w.reservations))
              b.ids b.unique known)

  -- A row is added under an id that was free.
  pub added :
      p.reservations.find i w.reservations ≡ none
      → remain + sold z (some r) ≡ b.remain
      → left + reserved z (some r) + b.remain ≡ b.left + remain
      → Books z n v
  added free sales stocks = record {
    ids = i ∷ b.ids;
    left = left;
    zone = c.zone;
    remain = remain;
    unique = (unknown, b.unique);
    complete = λ j. ground (arith, c.rows j, b.complete j);
    in_stock = c.in_stock;
    zone_lem = c.zone_lem;
    remain_lem = c.remain_lem;
    unsold = omega (arith, moved (sold z), b.unsold, sales);
    balance = omega (arith, moved (reserved z), b.balance, stocks);
    paid = still_paid;
    jobs = c.jobs;
  }
    where
      unknown : contains i b.ids ≡ false
      unknown = b.complete i ∙ ap is_some free

      here :
          (weight : Option Reservation → ℕ)
          → weight (p.reservations.find i v.reservations) ≡ weight (some r)
      here weight = ground (arith, c.rows i)

      moved :
          (weight : Option Reservation → ℕ)
          → total (λ j. weight (p.reservations.find j v.reservations)) (i ∷ b.ids)
            ≡ weight (some r) + total (λ j. weight (p.reservations.find j w.reservations)) b.ids
      moved weight = rw (total_cong _ _ b.ids (weighed weight)) (
          omega (
            arith,
            here weight,
            total-override_absent i (weight (some r))
                (λ k. weight (p.reservations.find k w.reservations)) b.ids unknown,
          ))
