-- ===== src/Reservation/Creation.antt =====
-- `createReservation` on each of its paths, where no call fails.
use ticket_queue_platform.Prelude.{
  ℕ, ◌≡◌, ◌*◌, [], true, false, not, Bool, ◌&&◌, if◌then◌else◌, Option, none, some, is_some, ok,
  err, ℤ, pos, ltb_ℤ, arith, Option-cases, inl, inr,
}
use ticket_queue_platform.Errors.{app_error, text, unique_violation}
use ticket_queue_platform.Schema.{ConcertZone, Reservation, ReservationStatus, Payment, ready}
use ticket_queue_platform.Platform.{Platform, World, calm, ReservationExpiryPayload}
use ticket_queue_platform.Services.JobQueue.{Job}
use ticket_queue_platform.Services.Redis.{stock, lock, admitted}
use ticket_queue_platform.Queue.Repository.{queue_repository}
use ticket_queue_platform.Reservation.Repository.{
  to_number, set_status, new_reservation, preempt_script, release_script, reservation_repository,
}
use ticket_queue_platform.Reservation.Preemption.{taken}
use ticket_queue_platform.Reservation.Jobs.{add_reservation_expiry_job}
use ticket_queue_platform.Reservation.Service.{
  CreateReservationInput, lock_ttl, create_reservation, settle, reject, commit, roll_back,
}

module _ {p : Platform} (u : ℕ) (input : CreateReservationInput) (w : World p) where
  -- the id of the new row
  abbrev pub id : ℕ
  id = p.reservations.fresh w.reservations

  -- the zone is there, and the user is admitted to its concert
  abbrev pub entitled : Option ConcertZone → Bool
  entitled none = false
  entitled (some x) = is_some (p.redis.get (admitted x.concert_id u) w.redis)

  -- A request for a zone that does not exist or of a user who is not admitted changes nothing.
  pub create_refused :
      entitled (p.zones.find input.concert_zone_id w.zones) ≡ false
      → (create_reservation u input (calm w)).1 ≡ calm w
  unfolding create_reservation reservation_repository queue_repository
  create_refused h = elim (Option-cases (p.zones.find input.concert_zone_id w.zones)) [
    | inl gone ↦ ground arith
    | inr (x, there) ↦ ground (arith, p.redis.exists_lem (admitted x.concert_id u) w.redis)
  ]

  -- whether the preemption script gives the tickets
  abbrev pub available : Option ℤ → Bool
  available none = false
  available (some left) = not (ltb_ℤ left (pos input.quantity))

  abbrev pub in_stock : Bool
  in_stock = available (to_number (p.redis.get (stock input.concert_zone_id) w.redis))

  abbrev pub unlocked : Bool
  unlocked = not (is_some (p.redis.get (lock input.concert_zone_id u) w.redis))

  module _ (x : ConcertZone) where
    abbrev pub row : Reservation
    row = new_reservation u input.concert_zone_id input.quantity (x.price * input.quantity)

    abbrev pub inserted : p.reservations.Rows
    inserted = p.reservations.inserted id row w.reservations

    abbrev pub job : Job ReservationExpiryPayload
    job = record {
      payload = record {
        reservation_id = id;
        concert_zone_id = input.concert_zone_id;
        user_id = u;
        concert_id = x.concert_id;
        quantity = input.quantity;
      };
      delay = 300000;
    }

    -- the payment that is waited for
    abbrev pub bill : Payment
    bill = record {
      payment_key = none;
      amount = x.price * input.quantity;
      status = ready;
      paid_at = none;
    }

    -- the store after the preemption
    abbrev pub preempted : p.redis.Store
    preempted = taken p.redis input.concert_zone_id u input.quantity w.redis lock_ttl id

    -- the world when the script has refused
    abbrev pub turned_down : World p
    turned_down = record w {
      redis = p.redis.del (admitted x.concert_id u) w.redis;
      reservations =
          p.reservations.modified id (set_status ReservationStatus.cancelled none) inserted;
      faults = [];
    }

    -- the world when the reservation is made
    abbrev pub reserved_world : World p
    reserved_world = record w {
      redis = p.redis.del (admitted x.concert_id u) preempted;
      reservations = inserted;
      payments = p.payments.inserted id bill w.payments;
      expiry = p.expiry.add id job w.expiry;
      faults = [];
    }

    -- the world when the payment could not be written
    abbrev pub rolled_back : World p
    rolled_back = record w {
      redis = release_script p.redis input.concert_zone_id u input.quantity preempted;
      reservations =
          p.reservations.modified id (set_status ReservationStatus.cancelled none) inserted;
      expiry = p.expiry.add id job w.expiry;
      faults = [];
    }

    module _ (there : p.zones.find input.concert_zone_id w.zones ≡ some x)
        (may : is_some (p.redis.get (admitted x.concert_id u) w.redis) ≡ true) where
      pub create_turned_down :
          (in_stock && unlocked) ≡ false
          → create_reservation u input (calm w) ≡ (
              if in_stock
              then (err (app_error 409 (text "이미 진행 중인 예매가 있습니다")), turned_down)
              else (err (app_error 409 (text "해당 구역의 재고가 부족합니다")), turned_down))
      unfolding create_reservation settle reject preempt_script reservation_repository
          queue_repository
      create_turned_down fails = ground (
        arith,
        p.redis.exists_lem (admitted x.concert_id u) w.redis,
        p.redis.exists_lem (lock input.concert_zone_id u) w.redis,
        p.reservations.find-fresh w.reservations,
        p.reservations.create_lem id row w.reservations,
        p.reservations.find-inserted id id row w.reservations,
        p.reservations.update_lem id (set_status ReservationStatus.cancelled none) inserted,
      )

      pub create_granted :
          (in_stock && unlocked) ≡ true
          → create_reservation u input (calm w) ≡ (
              if is_some (p.payments.find id w.payments)
              then (err unique_violation, rolled_back)
              else (
                ok (record {
                  reservation_id = id;
                  total_price = x.price * input.quantity;
                  remain_seconds = lock_ttl;
                }),
                reserved_world,
              ))
      unfolding create_reservation settle commit roll_back preempt_script reservation_repository
          queue_repository add_reservation_expiry_job
      create_granted works = ground (
        arith,
        p.redis.exists_lem (admitted x.concert_id u) w.redis,
        p.redis.exists_lem (lock input.concert_zone_id u) w.redis,
        p.reservations.find-fresh w.reservations,
        p.reservations.create_lem id row w.reservations,
        p.reservations.find-inserted id id row w.reservations,
        p.reservations.update_lem id (set_status ReservationStatus.cancelled none) inserted,
        p.payments.create_lem id bill w.payments,
      )
