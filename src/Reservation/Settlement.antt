-- ===== src/Reservation/Settlement.antt =====
-- `handleWebhook` keeps the books of a zone in balance.
use ticket_queue_platform.Prelude.{
  ℕ, ◌≡◌, refl, sym, subst, true, false, ◌==◌, if◌then◌else◌, none, some, pos, ◌-ℤ◌, is_some, arith,
  Option-cases, Bool-cases, inl, inr,
}
use ticket_queue_platform.Schema.{Reservation, confirmed, done, is_pending}
use ticket_queue_platform.Platform.{Platform, World, calm}
use ticket_queue_platform.Services.Redis.{stock, lock}
use ticket_queue_platform.Reservation.Repository.{set_payment}
use ticket_queue_platform.Reservation.Service.{TossWebhookBody, handle_webhook}
use ticket_queue_platform.Reservation.Books.{Books, calm-Books}
use ticket_queue_platform.Reservation.Ending.{
  jobs_left, jobs_left_lem, payments_after, payments_after_lem,
}
use ticket_queue_platform.Reservation.Closing.{returned-Books, bought-Books}
use ticket_queue_platform.Reservation.Webhook.{
  is_failure, is_success, closing_status, closing_payment, settled, webhook_ignored,
  webhook_unknown, webhook_confirms, webhook_declines,
}

module _ {p : Platform} (body : TossWebhookBody) (w : World p) where
  -- The books stay in balance when a payment succeeds.
  confirmed-Books :
      {z n : ℕ}
      → Books z n w
      → (r : Reservation) → p.reservations.find body.order_id w.reservations ≡ some r
      → is_pending r.status ≡ true
      → is_success body ≡ true
      → Books z n (handle_webhook body (calm w)).1
  confirmed-Books {z} {n} b r found open_ success =
      subst (Books z n) (sym (webhook_confirms body w r found open_ paid success))
        (elim (Bool-cases (is_some (p.zones.find r.concert_zone_id w.zones))) [
          | inl there ↦ rw (there) (
              bought-Books b body.order_id r found open_ confirmed refl (settled body w)
                (jobs_left body.order_id w) writes (jobs_left_lem body.order_id w)
                (p.redis.del (lock r.concert_zone_id r.user_id) w.redis)
                (p.zones.modified r.concert_zone_id
                  (λ x. record x { remain_quantity = x.remain_quantity -ℤ pos r.quantity }) w.zones)
                refl same_stock written)
          | inr gone ↦ rw (gone) (
              bought-Books b body.order_id r found open_ confirmed refl (settled body w) w.expiry
                writes (λ j x h. h) w.redis w.zones refl refl (ground (arith, b.zone_lem)))
        ])
    where
      paid : is_some (p.payments.find body.order_id w.payments) ≡ true
      paid = b.paid body.order_id r found open_

      writes :
          (j : ℕ)
          → is_some (p.payments.find j w.payments) ≡ true
          → is_some (p.payments.find j (settled body w)) ≡ true
      writes =
          payments_after_lem body.order_id w (set_payment done (some body.payment_key) (some w.now))

      same_stock :
          p.redis.get (stock z) (p.redis.del (lock r.concert_zone_id r.user_id) w.redis)
          ≡ p.redis.get (stock z) w.redis
      same_stock =
          ground (arith, p.redis.get-del (stock z) (lock r.concert_zone_id r.user_id) w.redis)

      written :
          p.zones.find z (
            p.zones.modified r.concert_zone_id
              (λ x. record x { remain_quantity = x.remain_quantity -ℤ pos r.quantity })
              w.zones)
          ≡ some (
              if r.concert_zone_id == z
              then record b.zone { remain_quantity = b.zone.remain_quantity -ℤ pos r.quantity }
              else b.zone)
      written = ground (
        arith,
        b.zone_lem,
        p.zones.find-modified r.concert_zone_id z
            (λ x. record x { remain_quantity = x.remain_quantity -ℤ pos r.quantity }) w.zones,
      )

  declined-Books :
      {z n : ℕ}
      → Books z n w
      → (r : Reservation) → p.reservations.find body.order_id w.reservations ≡ some r
      → is_pending r.status ≡ true
      → is_failure body ≡ true
      → is_success body ≡ false
      → Books z n (handle_webhook body (calm w)).1
  declined-Books {z} {n} b r found open_ failed other =
      subst (Books z n)
        (sym
          (webhook_declines body w r found open_ (b.paid body.order_id r found open_) failed other))
        (returned-Books b body.order_id r found open_ (closing_status body) (ground arith)
          (payments_after body.order_id w (set_payment (closing_payment body) none none))
          (jobs_left body.order_id w)
          (payments_after_lem body.order_id w (set_payment (closing_payment body) none none))
          (jobs_left_lem body.order_id w) (ground arith))

  pub handle_webhook-Books : {z n : ℕ} → Books z n w → Books z n (handle_webhook body (calm w)).1
  handle_webhook-Books {z} {n} b =
      elim (Option-cases (p.reservations.find body.order_id w.reservations)) [
        | inl gone ↦ subst (Books z n) (sym (webhook_ignored body w (ground arith))) (calm-Books b)
        | inr (r, found) ↦ elim (Bool-cases (is_pending r.status)) [
          | inl open_ ↦ elim (Bool-cases (is_success body)) [
            | inl success ↦ confirmed-Books b r found open_ success
            | inr other ↦ elim (Bool-cases (is_failure body)) [
              | inl failed ↦ declined-Books b r found open_ failed other
              | inr unknown ↦
                  subst (Books z n) (sym (webhook_unknown body w other unknown)) (calm-Books b)
            ]
          ]
          | inr over ↦
              subst (Books z n) (sym (webhook_ignored body w (ground (arith, found))))
                (calm-Books b)
        ]
      ]
