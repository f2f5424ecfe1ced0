-- ===== src/Reservation/Webhook.antt =====
-- `handleWebhook`: what it does where no call fails, and that the books stay in balance.
use package.text.Mathlib.Text.{◌==◌ as str_eq}
use ticket_queue_platform.Prelude.{
  ◌≡◌, [], true, false, Bool, ◌||◌, if◌then◌else◌, Option, none, some, pos, ◌-ℤ◌, is_some, arith,
}
use ticket_queue_platform.Schema.{
  Reservation, ReservationStatus, PaymentStatus, confirmed, done, is_pending,
}
use ticket_queue_platform.Platform.{Platform, World, calm}
use ticket_queue_platform.Services.Redis.{lock}
use ticket_queue_platform.Reservation.Repository.{
  set_status, set_payment, release_script, reservation_repository,
}
use ticket_queue_platform.Reservation.Jobs.{remove_reservation_expiry_job}
use ticket_queue_platform.Reservation.Service.{TossWebhookBody, confirm, decline, handle_webhook}
use ticket_queue_platform.Reservation.Ending.{jobs_left, payments_after}

-- a row that waits for its payment
abbrev pub awaiting : Option Reservation → Bool
awaiting none = false
awaiting (some r) = is_pending r.status

-- the statuses by which Toss says that a payment has failed
abbrev pub is_failure : TossWebhookBody → Bool
is_failure body =
    str_eq body.status "CANCELLED" || str_eq body.status "FAILED" || str_eq body.status "EXPIRED"

abbrev pub is_success : TossWebhookBody → Bool
is_success body = str_eq body.status "DONE"

abbrev pub closing_status : TossWebhookBody → ReservationStatus
closing_status body =
    if str_eq body.status "EXPIRED" then ReservationStatus.expired else ReservationStatus.cancelled

abbrev pub closing_payment : TossWebhookBody → PaymentStatus
closing_payment body =
    if str_eq body.status "CANCELLED" then PaymentStatus.cancelled else PaymentStatus.failed

module _ {p : Platform} (body : TossWebhookBody) (w : World p) where
  -- A webhook changes nothing for a reservation that is missing or has reached its last status, so that
  -- a repeated delivery does no harm.
  pub webhook_ignored :
      awaiting (p.reservations.find body.order_id w.reservations) ≡ false
      → (handle_webhook body (calm w)).1 ≡ calm w
  unfolding handle_webhook reservation_repository
  webhook_ignored h = ground arith

  pub webhook_unknown :
      is_success body ≡ false → is_failure body ≡ false → (handle_webhook body (calm w)).1 ≡ calm w
  unfolding handle_webhook reservation_repository
  webhook_unknown h k = ground arith

  -- the payment after a successful one
  abbrev pub settled : p.payments.Rows
  settled = payments_after body.order_id w (set_payment done (some body.payment_key) (some w.now))

  module _ (r : Reservation) (found : p.reservations.find body.order_id w.reservations ≡ some r)
      (open_ : is_pending r.status ≡ true)
      (paid : is_some (p.payments.find body.order_id w.payments) ≡ true) where
    -- A failed payment gives the tickets back and closes the reservation, its payment and its job.
    pub webhook_declines :
        is_failure body ≡ true
        → is_success body ≡ false
        → (handle_webhook body (calm w)).1 ≡ (record w {
          redis = release_script p.redis r.concert_zone_id r.user_id r.quantity w.redis;
          reservations =
              p.reservations.modified body.order_id
                (set_status (closing_status body) none)
                w.reservations;
          payments = payments_after body.order_id w (set_payment (closing_payment body) none none);
          expiry = jobs_left body.order_id w;
          faults = [];
        })
    unfolding handle_webhook decline reservation_repository remove_reservation_expiry_job
    webhook_declines failed other = ground (
      arith,
      p.reservations.update_lem body.order_id (set_status (closing_status body) none)
          w.reservations,
      p.payments.update_lem body.order_id (set_payment (closing_payment body) none none) w.payments,
    )

    -- A payment that succeeded confirms the reservation, takes the tickets from what remains of the zone,
    -- and frees the lock without a change of the stock. If the zone is gone, only the two rows change.
    pub webhook_confirms :
        is_success body ≡ true
        → (handle_webhook body (calm w)).1 ≡ (
            if is_some (p.zones.find r.concert_zone_id w.zones)
            then record w {
              redis = p.redis.del (lock r.concert_zone_id r.user_id) w.redis;
              zones =
                  p.zones.modified r.concert_zone_id
                    (λ x. record x { remain_quantity = x.remain_quantity -ℤ pos r.quantity })
                    w.zones;
              reservations =
                  p.reservations.modified body.order_id (set_status confirmed none) w.reservations;
              payments = settled;
              expiry = jobs_left body.order_id w;
              faults = [];
            }
            else record w {
              reservations =
                  p.reservations.modified body.order_id (set_status confirmed none) w.reservations;
              payments = settled;
              faults = [];
            })
    unfolding handle_webhook confirm reservation_repository remove_reservation_expiry_job
    webhook_confirms success = ground (
      arith,
      p.reservations.update_lem body.order_id (set_status confirmed none) w.reservations,
      p.payments.update_lem body.order_id (set_payment done (some body.payment_key) (some w.now))
          w.payments,
      p.zones.update_lem r.concert_zone_id
          (λ x. record x { remain_quantity = x.remain_quantity -ℤ pos r.quantity }) w.zones,
    )

  -- A webhook for a pending reservation without a payment changes nothing: the transaction is refused.
  pub webhook_unpaid :
      is_some (p.payments.find body.order_id w.payments) ≡ false
      → (handle_webhook body (calm w)).1 ≡ calm w
  unfolding handle_webhook confirm decline reservation_repository
  webhook_unpaid unpaid = ground (
    arith,
    p.payments.update_lem body.order_id (set_payment (closing_payment body) none none) w.payments,
    p.payments.update_lem body.order_id (set_payment done (some body.payment_key) (some w.now))
        w.payments,
  )
