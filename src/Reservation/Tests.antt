-- ===== src/Reservation/Tests.antt =====
-- Reservations on the sample platform: runs of the operations, and instances of the theorems.
use ticket_queue_platform.Prelude.{
  ◌≡◌, ◌+◌, ◌*◌, ◌-ℤ◌, is_some, ◌≤◌, refl, true, false, some, none, [], ◌∷◌, pos, ok, err, arith,
}
use ticket_queue_platform.Prelude.Int.{◌+ℤ◌}
use ticket_queue_platform.Errors.{app_error, text, unavailable}
use ticket_queue_platform.Schema.{Reservation, ReservationStatus, PaymentStatus, pending, ready}
use ticket_queue_platform.Platform.{World, calm, ReservationExpiryPayload}
use ticket_queue_platform.Samples.{memory, opening, zone}
use ticket_queue_platform.Services.Redis.{admitted, lock, stock, number, word}
use ticket_queue_platform.Queue.Repository.{queue_repository}
use ticket_queue_platform.Reservation.Repository.{
  reservation_repository, set_status, set_payment, preempt_script,
}
use ticket_queue_platform.Reservation.Jobs.{add_reservation_expiry_job, process_expiry}
use ticket_queue_platform.Reservation.Service.{
  CreateReservationInput, TossWebhookBody, create_reservation, settle, commit, handle_webhook,
  cancel_reservation, extend_reservation, extend_ttl,
}
use ticket_queue_platform.Reservation.Totals.{total}
use ticket_queue_platform.Reservation.Books.{Books, sold, reserved}
use ticket_queue_platform.Reservation.Reachable.{
  creates, pays, perform, here, next, call, Reach-Books, sold-le,
}
use ticket_queue_platform.Reservation.Repeated.{webhook_idempotent}
use ticket_queue_platform.Reservation.Creation.{row, id, bill}
use ticket_queue_platform.Reservation.Purchase.{purchase_completes}
use ticket_queue_platform.Reservation.Extension.{replacement, extend_reservation_once}
use ticket_queue_platform.Reservation.Expiry.{process_expiry_unpaid}
use ticket_queue_platform.Reservation.Faults.{
  billing, create_reservation_restores, cancel_again_releases_twice,
}

-- User 7 is admitted to concert 1, and zone 5 has ten tickets.
abbrev chosen : World memory
chosen = record opening {
  redis = record opening.redis {
    strings = (admitted 1 7, (number (pos 1), pos 300)) ∷ (stock 5, (number (pos 10), pos 0)) ∷ [];
  };
}

abbrev order : CreateReservationInput
order = record { concert_zone_id = 5; quantity = 2 }

abbrev two_tickets : Reservation
two_tickets = record {
  user_id = 7;
  concert_zone_id = 5;
  quantity = 2;
  total_price = 200;
  status = pending;
  extended_at = none;
}

abbrev half_minute_job : ReservationExpiryPayload
half_minute_job = record {
  reservation_id = 1;
  concert_zone_id = 5;
  user_id = 7;
  concert_id = 1;
  quantity = 2;
}

-- Reservation 1 of user 7 waits for its payment, with half a minute left.
abbrev held : World memory
held = record opening {
  redis = record opening.redis {
    strings = (lock 5 7, (word 1, pos 30)) ∷ (stock 5, (number (pos 8), pos 0)) ∷ [];
  };
  reservations = (1, two_tickets) ∷ [];
  payments = (1, record { payment_key = none; amount = 200; status = ready; paid_at = none }) ∷ [];
  expiry = (1, record { payload = half_minute_job; delay = 300000 }) ∷ [];
}

-- the same, without the payment
abbrev unbilled : World memory
unbilled = record held { payments = [] }

abbrev paid_body : TossWebhookBody
paid_body = record {
  payment_key = "key";
  order_id = 1;
  status = "DONE";
  total_amount = some 200;
  amount = none;
}

creation_run :
    (create_reservation 7 order chosen).0
    ≡ ok (record { reservation_id = id 7 order chosen; total_price = 200; remain_seconds = 300 })
unfolding create_reservation settle commit preempt_script reservation_repository queue_repository
    add_reservation_expiry_job
creation_run = refl

chosen-Books : Books 5 10 chosen
chosen-Books = record {
  ids = [];
  left = 10;
  zone = zone;
  remain = 10;
  unique = tt;
  complete = λ i. refl;
  in_stock = refl;
  zone_lem = refl;
  remain_lem = refl;
  unsold = refl;
  balance = refl;
  paid = λ i r h. ground arith;
  jobs = λ i j h. ground arith;
}

Reach-Books_example : Books 5 10 (perform (pays paid_body) (perform (creates 7 order) chosen))
Reach-Books_example =
    Reach-Books chosen (perform (pays paid_body) (perform (creates 7 order) chosen)) chosen-Books (
      next (next here (call (creates 7 order) chosen))
        (call (pays paid_body) (perform (creates 7 order) chosen)))

sold-le_example :
    let v = perform (creates 7 order) chosen in
    total (λ i. sold 5 (memory.reservations.find i v.reservations)) (1 ∷ 2 ∷ [])
      + total (λ i. reserved 5 (memory.reservations.find i v.reservations)) (1 ∷ 2 ∷ [])
    ≤ 10
sold-le_example =
    sold-le chosen (perform (creates 7 order) chosen) chosen-Books
      (next here (call (creates 7 order) chosen)) (1 ∷ 2 ∷ []) (refl, (refl, tt))

webhook_idempotent_example :
    (handle_webhook paid_body (calm (handle_webhook paid_body (calm held)).1)).1
    ≡ (handle_webhook paid_body (calm held)).1
webhook_idempotent_example = webhook_idempotent paid_body held

create_reservation_restores_example :
    let r =
      create_reservation 7 order
        (record chosen { faults = false ∷ false ∷ false ∷ false ∷ false ∷ true ∷ [] }) in
    (r.0 ≡ err unavailable)
    × (memory.reservations.find (id 7 order chosen) r.1.reservations
        ≡ some (set_status ReservationStatus.cancelled none (row 7 order chosen zone)))
    × (memory.redis.get (lock 5 7) r.1.redis ≡ none)
    × (memory.redis.get (stock 5) r.1.redis ≡ some (number (pos 10)))
create_reservation_restores_example =
    create_reservation_restores 7 order chosen zone refl refl refl refl billing 5 (pos 10) refl

cancel_again_releases_twice_example :
    let first = cancel_reservation 1 7 (record held { faults = false ∷ false ∷ true ∷ [] }) in
    (first.0 ≡ err unavailable)
    × (memory.redis.get (stock 5) (cancel_reservation 1 7 first.1).1.redis ≡ some (number (pos 12)))
unfolding ◌+ℤ◌
cancel_again_releases_twice_example =
    cancel_again_releases_twice 1 7 held two_tickets refl refl (pos 8) refl

extend_reservation_once_example :
    let after = (extend_reservation 1 7 (calm held)).1 in
    ((extend_reservation 1 7 (calm held)).0 ≡ ok extend_ttl)
    × (memory.expiry.get_job 1 after.expiry ≡ some (replacement 1 7 held two_tickets 1))
    × (memory.redis.ttl (lock 5 7) after.redis ≡ pos extend_ttl)
    × (extend_reservation 1 7 after ≡ (err (app_error 409 (text "이미 결제 시간을 연장하셨습니다")), after))
extend_reservation_once_example = extend_reservation_once 1 7 held two_tickets refl refl zone refl

process_expiry_unpaid_example :
    (process_expiry half_minute_job (calm unbilled)).1 ≡ (record unbilled {
      reservations =
          memory.reservations.modified 1
            (set_status ReservationStatus.expired none)
            unbilled.reservations;
      faults = [];
    })
process_expiry_unpaid_example = process_expiry_unpaid half_minute_job unbilled refl refl

-- The webhook of the order of user 7.
abbrev order_paid : TossWebhookBody
order_paid = record paid_body { order_id = id 7 order chosen }

purchase_completes_example :
    let (answer, booked) = create_reservation 7 order (calm chosen) in
    let paid = (handle_webhook order_paid (calm (record booked { now = 9000 }))).1 in
    (answer
      ≡ ok (record {
        reservation_id = id 7 order chosen;
        total_price = 100 * 2;
        remain_seconds = 300;
      }))
    × (memory.reservations.find (id 7 order chosen) paid.reservations
        ≡ some (set_status ReservationStatus.confirmed none (row 7 order chosen zone)))
    × (memory.payments.find (id 7 order chosen) paid.payments
        ≡ some (set_payment PaymentStatus.done (some "key") (some 9000) (bill 7 order chosen zone)))
    × (memory.zones.find 5 paid.zones ≡ some (record zone { remain_quantity = pos 10 -ℤ pos 2 }))
    × (is_some (memory.redis.get (lock 5 7) paid.redis) ≡ false)
    × (is_some (memory.redis.get (admitted 1 7) paid.redis) ≡ false)
purchase_completes_example =
    purchase_completes 7 order chosen zone order_paid 9000 refl refl refl refl refl refl
