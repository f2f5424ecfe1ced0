-- ===== src/Reservation/Repeated.antt =====
-- A webhook that is delivered again.
use ticket_queue_platform.Prelude.{
  ◌≡◌, refl, sym, subst, ◌∙◌, ap, true, false, none, some, is_some, arith, if_true, if_false,
  Option-cases, Bool-cases, inl, inr,
}
use ticket_queue_platform.Schema.{Reservation, ReservationStatus, confirmed, is_pending}
use ticket_queue_platform.Platform.{Platform, World, calm}
use ticket_queue_platform.Reservation.Repository.{set_status}
use ticket_queue_platform.Reservation.Service.{TossWebhookBody, handle_webhook}
use ticket_queue_platform.Reservation.Webhook.{
  awaiting, is_failure, is_success, closing_status, webhook_ignored, webhook_unknown,
  webhook_unpaid, webhook_confirms, webhook_declines,
}

module _ {p : Platform} (body : TossWebhookBody) (w : World p) where
  abbrev once : World p
  once = (handle_webhook body (calm w)).1

  still : once ≡ calm w → (handle_webhook body (calm once)).1 ≡ once
  still h = ap (λ v. (handle_webhook body (calm v)).1) h

  closed :
      (v : World p)
      → once ≡ v
      → calm v ≡ v
      → awaiting (p.reservations.find body.order_id v.reservations) ≡ false
      → (handle_webhook body (calm once)).1 ≡ once
  closed v h k over =
      subst (λ x. (handle_webhook body (calm x)).1 ≡ x) (sym h) (webhook_ignored body v over ∙ k)

  over :
      (r : Reservation) (st : ReservationStatus)
      → is_pending st ≡ false
      → p.reservations.find body.order_id w.reservations ≡ some r
      → awaiting (
          p.reservations.find body.order_id
            (p.reservations.modified body.order_id (set_status st none) w.reservations))
        ≡ false
  over r st h found = ground (
    arith,
    p.reservations.find-modified body.order_id body.order_id (set_status st none) w.reservations,
  )

  repeated :
      (r : Reservation)
      → p.reservations.find body.order_id w.reservations ≡ some r
      → is_pending r.status ≡ true
      → is_some (p.payments.find body.order_id w.payments) ≡ true
      → (handle_webhook body (calm once)).1 ≡ once
  repeated r found open_ paid = elim (Bool-cases (is_success body)) [
    | inl success ↦ elim (Bool-cases (is_some (p.zones.find r.concert_zone_id w.zones))) [
      | inl there ↦
          closed _ (webhook_confirms body w r found open_ paid success ∙ if_true _ _ there) refl
            (over r confirmed refl found)
      | inr gone ↦
          closed _ (webhook_confirms body w r found open_ paid success ∙ if_false _ _ gone) refl
            (over r confirmed refl found)
    ]
    | inr other ↦ elim (Bool-cases (is_failure body)) [
      | inl failed ↦
          closed _ (webhook_declines body w r found open_ paid failed other) refl
            (over r (closing_status body) (ground arith) found)
      | inr unknown ↦ still (webhook_unknown body w other unknown)
    ]
  ]

  -- Where no call fails, a webhook that is delivered twice leaves the world as the first delivery left it.
  pub webhook_idempotent :
      (handle_webhook body (calm (handle_webhook body (calm w)).1)).1
      ≡ (handle_webhook body (calm w)).1
  webhook_idempotent = elim (Option-cases (p.reservations.find body.order_id w.reservations)) [
    | inl gone ↦ still (webhook_ignored body w (ground arith))
    | inr (r, found) ↦ elim (Bool-cases (is_pending r.status)) [
      | inl open_ ↦ elim (Bool-cases (is_some (p.payments.find body.order_id w.payments))) [
        | inl paid ↦ repeated r found open_ paid
        | inr unpaid ↦ still (webhook_unpaid body w unpaid)
      ]
      | inr shut ↦ still (webhook_ignored body w (ground (arith, found)))
    ]
  ]
