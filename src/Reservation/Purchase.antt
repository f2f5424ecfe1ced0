-- ===== src/Reservation/Purchase.antt =====
-- A purchase from the request for tickets to the payment: createReservation, and the webhook later.
use ticket_queue_platform.Prelude.{
  ℕ, ◌≡◌, refl, ◌*◌, ap, true, false, ◌&&◌, [], none, some, is_some, ok, ◌-ℤ◌, pos, arith,
}
use ticket_queue_platform.Schema.{ConcertZone, confirmed, done}
use ticket_queue_platform.Platform.{Platform, World, calm}
use ticket_queue_platform.Services.Redis.{lock, admitted}
use ticket_queue_platform.Reservation.Repository.{set_status, set_payment}
use ticket_queue_platform.Reservation.Service.{
  CreateReservationInput, TossWebhookBody, create_reservation, handle_webhook,
}
use ticket_queue_platform.Reservation.Creation.{
  id, row, bill, in_stock, unlocked, reserved_world, create_granted, preempted,
}
use ticket_queue_platform.Reservation.Ending.{jobs_left}
use ticket_queue_platform.Reservation.Webhook.{is_success, webhook_confirms, settled}

module _ {p : Platform} (u : ℕ) (input : CreateReservationInput) (w : World p) (x : ConcertZone)
    (body : TossWebhookBody) (t : ℕ) where
  -- the world in which the webhook arrives
  abbrev pub later : World p
  later = record (reserved_world u input w x) { now = t }

  module _ (named : body.order_id ≡ id u input w) where
    row_there : p.reservations.find body.order_id later.reservations ≡ some (row u input w x)
    row_there = ground (
      arith,
      p.reservations.find-inserted (id u input w) body.order_id (row u input w x) w.reservations,
    )

    bill_there : p.payments.find body.order_id later.payments ≡ some (bill u input w x)
    bill_there =
        ground (
          arith,
          p.payments.find-inserted (id u input w) body.order_id (bill u input w x) w.payments,
        )

  module _ (named : body.order_id ≡ id u input w)
      (there : p.zones.find input.concert_zone_id w.zones ≡ some x)
      (success : is_success body ≡ true) where
    -- the world after the webhook
    webhook-eq : (handle_webhook body (calm later)).1 ≡ record later {
      redis = p.redis.del (lock input.concert_zone_id u) later.redis;
      zones =
          p.zones.modified input.concert_zone_id
            (λ z. record z { remain_quantity = z.remain_quantity -ℤ pos input.quantity })
            w.zones;
      reservations =
          p.reservations.modified body.order_id (set_status confirmed none) later.reservations;
      payments = settled body later;
      expiry = jobs_left body.order_id later;
      faults = [];
    }
    webhook-eq = ground (
      arith,
      webhook_confirms body later (row u input w x) (row_there named) refl
          (ap is_some (bill_there named)) success,
    )

  -- An admitted user asks for tickets of a zone that are in stock, without a lock on that zone, where no
  -- call fails and no payment has the id of the new reservation; later the webhook reports the
  -- payment. Then the request has answered with the price and 300 seconds; the reservation is
  -- confirmed, its payment is done with the key of the webhook and its time, the zone has that many
  -- tickets less to show, and neither the lock nor the admission is left.
  pub purchase_completes :
      body.order_id ≡ id u input w
      → p.zones.find input.concert_zone_id w.zones ≡ some x
      → is_some (p.redis.get (admitted x.concert_id u) w.redis) ≡ true
      → (in_stock u input w && unlocked u input w) ≡ true
      → p.payments.find (id u input w) w.payments ≡ none
      → is_success body ≡ true
      → let (answer, booked) = create_reservation u input (calm w) in
        let paid = (handle_webhook body (calm (record booked { now = t }))).1 in
        (answer
          ≡ ok (record {
            reservation_id = body.order_id;
            total_price = x.price * input.quantity;
            remain_seconds = 300;
          }))
        × (p.reservations.find body.order_id paid.reservations
            ≡ some (set_status confirmed none (row u input w x)))
        × (p.payments.find body.order_id paid.payments
            ≡ some (set_payment done (some body.payment_key) (some t) (bill u input w x)))
        × (p.zones.find input.concert_zone_id paid.zones
            ≡ some (record x { remain_quantity = x.remain_quantity -ℤ pos input.quantity }))
        × (is_some (p.redis.get (lock input.concert_zone_id u) paid.redis) ≡ false)
        × (is_some (p.redis.get (admitted x.concert_id u) paid.redis) ≡ false)
  purchase_completes named there may works unbilled success =
      rw (granted named there may works unbilled, webhook-eq named there success)
        (
          refl,
          ground (
            arith,
            row_there named,
            p.reservations.find-modified body.order_id body.order_id (set_status confirmed none)
                later.reservations,
          ),
          ground (
            arith,
            bill_there named,
            p.payments.find-modified body.order_id body.order_id
                (set_payment done (some body.payment_key) (some t)) later.payments,
          ),
          ground (
            arith,
            p.zones.find-modified input.concert_zone_id input.concert_zone_id
                (λ z. record z { remain_quantity = z.remain_quantity -ℤ pos input.quantity })
                w.zones,
          ),
          ground (
            arith,
            p.redis.get-del (lock input.concert_zone_id u) (lock input.concert_zone_id u)
                later.redis,
          ),
          ground (
            arith,
            p.redis.get-del (admitted x.concert_id u) (lock input.concert_zone_id u) later.redis,
            p.redis.get-del (admitted x.concert_id u) (admitted x.concert_id u)
                (preempted u input w x),
          ),
        )
    where
      granted :
          body.order_id ≡ id u input w
          → p.zones.find input.concert_zone_id w.zones ≡ some x
          → is_some (p.redis.get (admitted x.concert_id u) w.redis) ≡ true
          → (in_stock u input w && unlocked u input w) ≡ true
          → p.payments.find (id u input w) w.payments ≡ none
          → create_reservation u input (calm w) ≡ (
            ok (record {
              reservation_id = body.order_id;
              total_price = x.price * input.quantity;
              remain_seconds = 300;
            }),
            reserved_world u input w x,
          )
      granted named there may works unbilled =
          ground (arith, create_granted u input w x there may works)
