-- ===== src/Reservation/Opening.antt =====
-- `createReservation` keeps the books of a zone in balance.
use ticket_queue_platform.Prelude.{
  ℕ, ◌≡◌, ◌≤◌, ◌-◌, sym, subst, ◌∙◌, ap, true, ◌==◌, ◌&&◌, if◌then◌else◌, none, some, is_some, pos,
  arith, Option-cases, Bool-cases, inl, inr,
}
use ticket_queue_platform.Schema.{ConcertZone, Reservation, ReservationStatus}
use ticket_queue_platform.Platform.{Platform, World, calm}
use ticket_queue_platform.Services.Redis.{stock, admitted, number}
use ticket_queue_platform.Reservation.Repository.{set_status}
use ticket_queue_platform.Reservation.Preemption.{get-taken, get-release}
use ticket_queue_platform.Reservation.Service.{CreateReservationInput, lock_ttl, create_reservation}
use ticket_queue_platform.Reservation.Books.{Books, calm-Books}
use ticket_queue_platform.Reservation.Balance.{Changed, added}
use ticket_queue_platform.Reservation.Creation.{
  id, row, bill, inserted, job, entitled, in_stock, unlocked, preempted, turned_down,
  reserved_world, rolled_back, create_refused, create_turned_down, create_granted,
}

module _ {p : Platform} (u : ℕ) (input : CreateReservationInput) (w : World p) {z n : ℕ}
    (b : Books z n w) (x : ConcertZone) where
  abbrev cancelled_row : Reservation
  cancelled_row = set_status ReservationStatus.cancelled none (row u input w x)

  abbrev quantity_taken : ℕ
  quantity_taken = if input.concert_zone_id == z then input.quantity else 0

  opened :
      (j : ℕ)
      → p.reservations.find j (inserted u input w x) ≡ (
          if id u input w == j
          then some (row u input w x)
          else p.reservations.find j w.reservations)
  opened j = p.reservations.find-inserted (id u input w) j (row u input w x) w.reservations

  undone :
      (j : ℕ)
      → p.reservations.find j (
          p.reservations.modified
            (id u input w)
            (set_status ReservationStatus.cancelled none)
            (inserted u input w x))
        ≡ (if id u input w == j then some cancelled_row else p.reservations.find j w.reservations)
  undone j = ground (
    arith,
    opened j,
    p.reservations.find-modified (id u input w) j (set_status ReservationStatus.cancelled none)
        (inserted u input w x),
  )

  billed :
      (j : ℕ)
      → p.payments.find j (p.payments.inserted (id u input w) (bill u input w x) w.payments)
        ≡ (if id u input w == j then some (bill u input w x) else p.payments.find j w.payments)
  billed j = p.payments.find-inserted (id u input w) j (bill u input w x) w.payments

  -- The books have no job for the new id.
  unscheduled : p.expiry.get_job (id u input w) w.expiry ≡ none
  unscheduled = elim (Option-cases (p.expiry.get_job (id u input w) w.expiry)) [
    | inl h ↦ h
    | inr (j, h) ↦
        ground (arith, b.jobs (id u input w) j h, p.reservations.find-fresh w.reservations)
  ]

  scheduled :
      (j : ℕ)
      → p.expiry.get_job j (p.expiry.add (id u input w) (job u input w x) w.expiry)
        ≡ (if id u input w == j then some (job u input w x) else p.expiry.get_job j w.expiry)
  scheduled j =
      ground (arith, unscheduled, p.expiry.get_job-add (id u input w) j (job u input w x) w.expiry)

  turned_down-Books : Books z n (turned_down u input w x)
  turned_down-Books =
      added b change (p.reservations.find-fresh w.reservations) (ground arith) (ground arith)
    where
      change : Changed z w (turned_down u input w x) (id u input w) cancelled_row b.left b.remain
      change = record {
        rows = undone;
        in_stock =
            ground (arith, b.in_stock, p.redis.get-del (stock z) (admitted x.concert_id u) w.redis);
        zone = b.zone;
        zone_lem = b.zone_lem;
        remain_lem = b.remain_lem;
        paid = λ k. ground arith;
        payments = λ j h. h;
        jobs = λ j y h.
            ground (arith, b.jobs j y h, undone j, p.reservations.find-fresh w.reservations);
      }

  module _ (enough : in_stock u input w ≡ true) where
    covered : input.concert_zone_id ≡ z → input.quantity ≤ b.left
    covered h = ground (arith, b.in_stock)

    stock_taken :
        p.redis.get (stock z) (preempted u input w x)
        ≡ some
            (number (pos (if input.concert_zone_id == z then b.left - input.quantity else b.left)))
    stock_taken =
        get-taken p.redis input.concert_zone_id u input.quantity w.redis lock_ttl (id u input w) z
          b.left b.in_stock covered

    reserved_world-Books : Books z n (reserved_world u input w x)
    reserved_world-Books =
        added b change (p.reservations.find-fresh w.reservations) (ground arith)
          (ground (arith, covered))
      where
        change :
            Changed z w
              (reserved_world u input w x)
              (id u input w)
              (row u input w x)
              (if input.concert_zone_id == z then b.left - input.quantity else b.left)
              b.remain
        change = record {
          rows = opened;
          in_stock = ground (
            arith,
            stock_taken,
            p.redis.get-del (stock z) (admitted x.concert_id u) (preempted u input w x),
          );
          zone = b.zone;
          zone_lem = b.zone_lem;
          remain_lem = b.remain_lem;
          paid = λ k. ground (arith, billed (id u input w));
          payments = λ j h. ground (arith, h, billed j);
          jobs = λ j y h. ground (arith, b.jobs j y, scheduled j, opened j);
        }

    rolled_back-Books : Books z n (rolled_back u input w x)
    rolled_back-Books =
        added b change (p.reservations.find-fresh w.reservations) (ground arith)
          (ground (arith, covered))
      where
        change : Changed z w (rolled_back u input w x) (id u input w) cancelled_row b.left b.remain
        change = record {
          rows = undone;
          in_stock =
              get-release p.redis input.concert_zone_id u input.quantity (preempted u input w x) z
                (if input.concert_zone_id == z then b.left - input.quantity else b.left) stock_taken
              ∙ ground (arith, covered);
          zone = b.zone;
          zone_lem = b.zone_lem;
          remain_lem = b.remain_lem;
          paid = λ k. ground arith;
          payments = λ j h. h;
          jobs = λ j y h. ground (arith, b.jobs j y, scheduled j, undone j);
        }

-- A request for tickets keeps the books of every zone in balance, on each of its paths, where no call
-- fails.
pub create_reservation-Books :
    {p : Platform} (u : ℕ) (input : CreateReservationInput) (w : World p) {z n : ℕ}
    → Books z n w
    → Books z n (create_reservation u input (calm w)).1
create_reservation-Books {p} u input w {z} {n} b =
    elim (Bool-cases (entitled u input w (p.zones.find input.concert_zone_id w.zones))) [
      | inl may ↦ elim (Option-cases (p.zones.find input.concert_zone_id w.zones)) [
        | inl gone ↦ ground arith
        | inr (x, there) ↦ let_in x there (ground (arith, may))
      ]
      | inr may_not ↦ subst (Books z n) (sym (create_refused u input w may_not)) (calm-Books b)
    ]
  where
    made :
        (x : ConcertZone)
        → in_stock u input w ≡ true
        → Books z n (
            if is_some (p.payments.find (id u input w) w.payments)
            then rolled_back u input w x
            else reserved_world u input w x)
    made x enough = elim (Bool-cases (is_some (p.payments.find (id u input w) w.payments))) [
      | inl there ↦ rw (there) (rolled_back-Books u input w b x enough)
      | inr free ↦ rw (free) (reserved_world-Books u input w b x enough)
    ]

    let_in :
        (x : ConcertZone)
        → p.zones.find input.concert_zone_id w.zones ≡ some x
        → is_some (p.redis.get (admitted x.concert_id u) w.redis) ≡ true
        → Books z n (create_reservation u input (calm w)).1
    let_in x there may = elim (Bool-cases (in_stock u input w && unlocked u input w)) [
      | inl works ↦
          subst (Books z n)
            (sym (ap (λ v. v.1) (create_granted u input w x there may works) ∙ ground arith))
            (made x (ground (arith, works)))
      | inr fails ↦
          subst (Books z n)
            (sym (ap (λ v. v.1) (create_turned_down u input w x there may fails) ∙ ground arith))
            (turned_down-Books u input w b x)
    ]
