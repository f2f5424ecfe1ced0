-- ===== src/Client/CheckoutTests.antt =====
-- The payment page on a concert of two zones, with a payment that is cancelled and tried again.
use ticket_queue_platform.Prelude.{◌≡◌, refl, ◌≤◌, some, none, List, [], ◌∷◌, true, false, pos}
use ticket_queue_platform.Samples.{memory, opening}
use ticket_queue_platform.Schema.{Reservation, Payment, pending, ready, ReservationStatus}
use ticket_queue_platform.Platform.{World, calm}
use ticket_queue_platform.Reservation.Repository.{set_status}
use ticket_queue_platform.Reservation.Service.{TossWebhookBody, handle_webhook}
use ticket_queue_platform.Client.Failures.{Failure}
use ticket_queue_platform.Client.Checkout.{
  CheckoutState, CheckoutEvent, ConcertView, ZoneView, Purchase, new_checkout, respond, respond_all,
  format_time, loads, selects, adds, takes, presses_pay, reserves, pay_fails, ticks, reserving,
  handle_pay, loaded, add_one, take_one, select_zone, reserved, ask_payment, pay_failed,
  post_reservation, request_payment,
}
use ticket_queue_platform.Client.Checkout.Limits.{checkout_bounds}
use ticket_queue_platform.Client.Checkout.Retries.{posts, reserves_once, retry_at_any_price}

abbrev vip : ZoneView
vip = record { name = "VIP"; price = 100; remain_quantity = pos 10 }

abbrev standing : ZoneView
standing = record { name = "Standing"; price = 30; remain_quantity = pos 2 }

abbrev tour : ConcertView
tour = record { title = "Tour"; zones = (5, vip) ∷ (6, standing) ∷ [] }

abbrev cancelled_by_user : Failure
cancelled_by_user = record {
  is_axios = false;
  is_error = true;
  status = none;
  server_message = none;
  message = "cancelled";
  code = some "USER_CANCEL";
}

-- user 7 selects two tickets of the first zone and presses the button
abbrev up_to_payment : List CheckoutEvent
up_to_payment = loads tour 7 "kim" ∷ selects 5 ∷ adds ∷ ticks ∷ presses_pay ∷ []

abbrev at_payment : CheckoutState
at_payment = respond_all up_to_payment new_checkout

abbrev two_tickets : Purchase
two_tickets = record {
  zone_id = 5;
  zone = vip;
  title = "Tour";
  quantity = 2;
  total_price = 200;
  user_id = 7;
  nickname = some "kim";
}

posts_two : at_payment.sent ≡ post_reservation 5 2 ∷ []
unfolding respond handle_pay loaded add_one select_zone
posts_two = refl

-- The quantity of the first zone stays when a zone with fewer tickets is selected.
more_than_remains :
    (respond_all
      (loads tour 7 "kim" ∷ selects 5 ∷ adds ∷ adds ∷ selects 6 ∷ [])
      new_checkout).quantity
    ≡ 3
unfolding respond loaded add_one select_zone
more_than_remains = refl

checkout_bounds_example :
    let s = respond_all up_to_payment new_checkout in
    (1 ≤ s.quantity)
    × (s.quantity ≤ 4)
    × ((format_time s.remain_seconds).0 ≤ 5)
    × ((format_time s.remain_seconds).1 ≤ 59)
    × (s.left ≡ none → 1 ≤ s.remain_seconds)
checkout_bounds_example = checkout_bounds up_to_payment (tt, (tt, (tt, (tt, (tt, tt)))))

waits_for_reservation : at_payment.stage ≡ some (reserving two_tickets)
unfolding respond handle_pay loaded add_one select_zone
waits_for_reservation = refl

-- The payment is cancelled, one ticket is taken back, and the button is pressed again.
abbrev second_try : List CheckoutEvent
second_try = pay_fails cancelled_by_user ∷ takes ∷ presses_pay ∷ []

reserves_once_example :
    let t = respond_all second_try (respond (reserves 100 300) at_payment) in
    (t.reservation_id ≡ some 100) × (posts t.sent ≡ posts at_payment.sent)
reserves_once_example =
    reserves_once 100 300 two_tickets second_try at_payment waits_for_reservation

abbrev one_ticket_left : CheckoutState
one_ticket_left =
    respond_all (pay_fails cancelled_by_user ∷ takes ∷ []) (respond (reserves 100 300) at_payment)

abbrev two_reserved : Reservation
two_reserved = record {
  user_id = 7;
  concert_zone_id = 5;
  quantity = 2;
  total_price = 200;
  status = pending;
  extended_at = none;
}

abbrev bill_of_two : Payment
bill_of_two = record { payment_key = none; amount = 200; status = ready; paid_at = none }

abbrev unpaid : World memory
unpaid = record opening {
  reservations = (100, two_reserved) ∷ [];
  payments = (100, bill_of_two) ∷ [];
}

abbrev half_paid : TossWebhookBody
half_paid = record {
  payment_key = "key";
  order_id = 100;
  status = "DONE";
  total_amount = some 100;
  amount = none;
}

retry_at_any_price_example :
    ((respond presses_pay one_ticket_left).sent
      ≡ request_payment (record {
        customer_key = 7;
        value = 100;
        order_id = 100;
        order_name = ("Tour", "VIP");
        customer_name = some "kim";
      })
        ∷ one_ticket_left.sent)
    × (memory.reservations.find 100 (handle_webhook half_paid (calm unpaid)).1.reservations
        ≡ some (set_status ReservationStatus.confirmed none two_reserved))
unfolding respond handle_pay loaded add_one take_one select_zone reserved ask_payment pay_failed
retry_at_any_price_example =
    retry_at_any_price one_ticket_left (record two_tickets { quantity = 1; total_price = 100 })
      unpaid two_reserved half_paid refl refl refl refl refl refl refl
