-- ===== src/Reservation/Closing.antt =====
-- A pending reservation is closed: its tickets go back to the stock, or are sold.
use ticket_queue_platform.Prelude.{
  ℕ, ◌-◌, ◌≤◌, ◌≡◌, [], ◌∙◌, true, false, ◌==◌, if◌then◌else◌, none, some, pos, ◌-ℤ◌, is_some,
  arith, pos_sub,
}
use ticket_queue_platform.Schema.{ConcertZone, Reservation, ReservationStatus, is_pending}
use ticket_queue_platform.Platform.{Platform, World, ReservationExpiryPayload}
use ticket_queue_platform.Services.JobQueue.{Job}
use ticket_queue_platform.Services.Redis.{stock}
use ticket_queue_platform.Reservation.Repository.{set_status, release_script}
use ticket_queue_platform.Reservation.Preemption.{get-release}
use ticket_queue_platform.Reservation.Totals.{le-total}
use ticket_queue_platform.Reservation.Books.{Books, Agrees, is_confirmed, reserved}
use ticket_queue_platform.Reservation.Balance.{Changed, replaced}

module _ {p : Platform} {z n : ℕ} {w : World p} (b : Books z n w) (i : ℕ) (r : Reservation)
    (found : p.reservations.find i w.reservations ≡ some r) (open_ : is_pending r.status ≡ true)
    (st : ReservationStatus) (closed : is_pending st ≡ false) (pays : p.payments.Rows)
    (q : p.expiry.Jobs)
    (payments : (j : ℕ)
      → is_some (p.payments.find j w.payments) ≡ true
      → is_some (p.payments.find j pays) ≡ true)
    (jobs : (j : ℕ) (x : Job ReservationExpiryPayload)
      → p.expiry.get_job j q ≡ some x
      → p.expiry.get_job j w.expiry ≡ some x) where
  agrees :
      (j : ℕ) (x : Job ReservationExpiryPayload)
      → p.expiry.get_job j q ≡ some x
      → Agrees j x.payload
          (p.reservations.find j (p.reservations.modified i (set_status st none) w.reservations))
  agrees j x h = ground (
    arith,
    b.jobs j x (jobs j x h),
    p.reservations.find-modified i j (set_status st none) w.reservations,
  )

  rows :
      (j : ℕ)
      → p.reservations.find j (p.reservations.modified i (set_status st none) w.reservations)
        ≡ (if i == j then some (set_status st none r) else p.reservations.find j w.reservations)
  rows j = ground (arith, p.reservations.find-modified i j (set_status st none) w.reservations)

  -- the world in which the tickets are back in stock
  abbrev pub returned : World p
  returned = record w {
    redis = release_script p.redis r.concert_zone_id r.user_id r.quantity w.redis;
    reservations = p.reservations.modified i (set_status st none) w.reservations;
    payments = pays;
    expiry = q;
    faults = [];
  }

  pub returned-Books : is_confirmed st ≡ false → Books z n returned
  returned-Books unsold =
      replaced b
        (record {
          rows = rows;
          in_stock =
              get-release p.redis r.concert_zone_id r.user_id r.quantity w.redis z b.left
                b.in_stock;
          zone = b.zone;
          zone_lem = b.zone_lem;
          remain_lem = b.remain_lem;
          paid = λ k. ground arith;
          payments = payments;
          jobs = agrees;
        })
        r found (ground arith) (ground arith)

  abbrev pub decremented : ConcertZone → ConcertZone
  decremented x = record x { remain_quantity = x.remain_quantity -ℤ pos r.quantity }

  -- the world in which the tickets are sold
  abbrev pub bought : p.redis.Store → p.zones.Rows → World p
  bought s zs = record w {
    redis = s;
    zones = zs;
    reservations = p.reservations.modified i (set_status st none) w.reservations;
    payments = pays;
    expiry = q;
    faults = [];
  }

  -- The tickets of a pending row are among those that remain.
  covered : r.concert_zone_id ≡ z → r.quantity ≤ b.remain
  covered h = ground (
    arith,
    b.balance,
    b.complete i,
    le-total i (λ j. reserved z (p.reservations.find j w.reservations)) b.ids,
  )

  pub bought-Books :
      (s : p.redis.Store) (zs : p.zones.Rows)
      → is_confirmed st ≡ true
      → p.redis.get (stock z) s ≡ p.redis.get (stock z) w.redis
      → p.zones.find z zs ≡ some (if r.concert_zone_id == z then decremented b.zone else b.zone)
      → Books z n (bought s zs)
  bought-Books s zs sale same_stock wrote =
      replaced b change r found (ground (arith, covered)) (ground (arith, covered))
    where
      change :
          Changed z w
            (bought s zs)
            i
            (set_status st none r)
            b.left
            (if r.concert_zone_id == z then b.remain - r.quantity else b.remain)
      change = record {
        rows = rows;
        in_stock = same_stock ∙ b.in_stock;
        zone = if r.concert_zone_id == z then decremented b.zone else b.zone;
        zone_lem = wrote;
        remain_lem = ground (arith, b.remain_lem, pos_sub b.remain r.quantity, covered);
        paid = λ k. ground arith;
        payments = payments;
        jobs = agrees;
      }
