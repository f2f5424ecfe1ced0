-- ===== src/Client/Checkout/Retries.antt =====
-- Payments that fail and are tried again: one reservation, and the price of what is selected by then.
use ticket_queue_platform.Prelude.{
  ℕ, suc, Bool, true, false, ◌&&◌, if◌then◌else◌, ◌≡◌, Option, none, some, is_some, List, [], ◌∷◌,
  lookup, arith,
}
use ticket_queue_platform.Schema.{Reservation, is_pending, confirmed}
use ticket_queue_platform.Platform.{Platform, World, calm}
use ticket_queue_platform.Reservation.Service.{TossWebhookBody, handle_webhook}
use ticket_queue_platform.Reservation.Repository.{set_status}
use ticket_queue_platform.Reservation.Webhook.{webhook_confirms, is_success}
use ticket_queue_platform.Client.Checkout.{
  CheckoutState, CheckoutEvent, Purchase, PayStage, ZoneView, Outgoing, respond, respond_all,
  reserving, requesting, post_reservation, request_payment, post_extend, selected_zone, handle_pay,
  pay_with, purchase, ask_payment, reserved, is_shown, can_pay, if_reserving, with_zone,
  extend_with, handle_extend, reserves, selects, adds, takes, presses_pay, presses_extend, zones_of,
  select_zone, add_one, take_one, paid, pay_failed, extension_granted, extension_failed, loaded,
  load_failed, price_for,
}

-- how many calls to reserve were made
abbrev pub posts : List Outgoing → ℕ
posts [] = 0
posts (post_reservation z n ∷ os) = suc (posts os)
posts (request_payment r ∷ os) = posts os
posts (post_extend id ∷ os) = posts os

abbrev pub is_reserving : Option PayStage → Bool
is_reserving (some (reserving b)) = true
is_reserving (some requesting) = false
is_reserving none = false

-- The reservation is there, no call to reserve is under way, and `n` such calls were made.
abbrev pub Booked : ℕ → ℕ → CheckoutState → Type 0
Booked id n s = (s.reservation_id ≡ some id) × (is_reserving s.stage ≡ false) × (posts s.sent ≡ n)

module _ (id n : ℕ) where
  pay_with-Booked :
      (o : Option Purchase) (s : CheckoutState) → Booked id n s → Booked id n (pay_with o s)
  unfolding ask_payment
  pay_with-Booked none s h = h
  pay_with-Booked (some b) s h = ground arith

  extend_with-Booked :
      (o : Option ℕ) (s : CheckoutState) → Booked id n s → Booked id n (extend_with o s)
  extend_with-Booked none s h = h
  extend_with-Booked (some i) s h = h

  with_zone-Booked :
      (o : Option ZoneView) (f : ZoneView → CheckoutState) (s : CheckoutState)
      → ((z : ZoneView) → Booked id n (f z))
      → Booked id n s
      → Booked id n (with_zone o f s)
  with_zone-Booked none f s h k = k
  with_zone-Booked (some z) f s h k = h z

  if_reserving-Booked :
      (o : Option PayStage) (f : Purchase → CheckoutState) (s : CheckoutState)
      → is_reserving o ≡ false
      → Booked id n s
      → Booked id n (if_reserving o f s)
  if_reserving-Booked none f s h k = k
  if_reserving-Booked (some requesting) f s h k = k
  if_reserving-Booked (some (reserving b)) f s h k = ground arith

  if-Booked :
      (b : Bool) (s t : CheckoutState)
      → Booked id n s
      → Booked id n t
      → Booked id n (if b then s else t)
  if-Booked true s t h k = h
  if-Booked false s t h k = k

  respond-Booked :
      (e : CheckoutEvent) (s : CheckoutState) → Booked id n s → Booked id n (respond e s)
  unfolding respond loaded load_failed handle_pay handle_extend paid pay_failed extension_granted
      extension_failed select_zone add_one take_one
  respond-Booked presses_pay s h = if-Booked _ _ s (pay_with-Booked (purchase s) s h) h
  respond-Booked presses_extend s h = if-Booked _ _ s (extend_with-Booked s.reservation_id s h) h
  respond-Booked (selects i) s h =
      if-Booked _ _ s
        (with_zone-Booked (lookup i (zones_of s.concert)) (λ z. select_zone i z s) s
          (λ z. ground arith) h)
        h
  respond-Booked adds s h =
      if-Booked _ _ s
        (with_zone-Booked (selected_zone s) (λ z. add_one z s) s (λ z. ground arith) h) h
  respond-Booked takes s h =
      if-Booked _ _ s (with_zone-Booked (selected_zone s) (λ z. take_one s) s (λ z. ground arith) h)
        h
  respond-Booked (reserves i m) s h = if_reserving-Booked s.stage _ s h.1 h
  respond-Booked _ s h = ground arith

  respond_all-Booked :
      (es : List CheckoutEvent) (s : CheckoutState) → Booked id n s → Booked id n (respond_all es s)
  respond_all-Booked [] s h = h
  respond_all-Booked (e ∷ es) s h = respond_all-Booked es (respond e s) (respond-Booked e s h)

-- Once the payment page has its reservation, it keeps this reservation and posts no other, whatever
-- happens to it then: a payment that failed and is tried again is for the same order.
pub reserves_once :
    (id remain : ℕ) (b : Purchase) (es : List CheckoutEvent) (s : CheckoutState)
    → s.stage ≡ some (reserving b)
    → let t = respond_all es (respond (reserves id remain) s) in
      (t.reservation_id ≡ some id) × (posts t.sent ≡ posts s.sent)
unfolding respond reserved ask_payment
reserves_once id remain b es s e =
    let k =
      respond_all-Booked id (posts s.sent) es (respond (reserves id remain) s)
        (ground arith, ground arith, ground arith) in
    (k.0, k.2)

purchase_price :
    (s : CheckoutState) (b : Purchase)
    → purchase s ≡ some b
    → b.total_price ≡ price_for (selected_zone s) s.quantity
purchase_price s b h = ground arith

-- The pay button of a page that has a reservation asks for its payment at the price of the zone and
-- the quantity that are selected now. When the webhook reports that payment, it confirms the
-- reservation with its own quantity and price, whatever that price and the amount in the body are:
-- here the reservation waits for its payment, its payment is there, and no call fails.
pub retry_at_any_price :
    {p : Platform} (s : CheckoutState) (b : Purchase) (w : World p) (r : Reservation)
    (body : TossWebhookBody)
    → (is_shown s && can_pay s) ≡ true
    → s.reservation_id ≡ some body.order_id
    → purchase s ≡ some b
    → p.reservations.find body.order_id w.reservations ≡ some r
    → is_pending r.status ≡ true
    → is_some (p.payments.find body.order_id w.payments) ≡ true
    → is_success body ≡ true
    → ((respond presses_pay s).sent
        ≡ request_payment (record {
          customer_key = b.user_id;
          value = price_for (selected_zone s) s.quantity;
          order_id = body.order_id;
          order_name = (b.title, b.zone.name);
          customer_name = b.nickname;
        })
          ∷ s.sent)
      × (p.reservations.find body.order_id (handle_webhook body (calm w)).1.reservations
          ≡ some (set_status confirmed none r))
unfolding respond handle_pay ask_payment
retry_at_any_price {p} s b w r body h e k found open_ bill success = (
  ground (arith, purchase_price s b k),
  ground (
    arith,
    webhook_confirms body w r found open_ bill success,
    p.reservations.find-modified body.order_id body.order_id (set_status confirmed none)
        w.reservations,
  ),
)
