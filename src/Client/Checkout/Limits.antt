-- ===== src/Client/Checkout/Limits.antt =====
-- The bounds that the payment page keeps in any run.
use Prim.Native.String.{String}
use ticket_queue_platform.Prelude.{
  ℕ, ◌-◌, ◌*◌, ◌≤◌, ltb, Bool, true, false, if◌then◌else◌, ◌≡◌, refl, sym, subst, Option, none,
  some, is_some, List, [], ◌∷◌, All, arith,
}
use ticket_queue_platform.Client.Checkout.{
  CheckoutState, CheckoutEvent, Purchase, PayStage, ZoneView, ConcertView, Destination,
  to_reservations, request_payment, opens_with_code, loads, load_fails, ticks, selects, adds, takes,
  presses_pay, presses_extend, payment_done, pay_fails, extend_fails, new_checkout,
  set_remain_seconds, left_at, respond, respond_all, format_time, reserving, requesting, extends,
  reserves, selected_zone, purchase_of, start_payment, ask_payment, handle_pay, pay_with,
  extend_with, reserved, paid, pay_failed, handle_extend, extension_granted, extension_failed,
  add_one, take_one, select_zone, loaded, load_failed, with_zone, if_reserving, purchase,
}

-- what a run of `handlePay` has captured is a possible order at its price
abbrev pub Agreed : Option PayStage → Type 0
Agreed none = Unit
Agreed (some requesting) = Unit
Agreed (some (reserving b)) =
    (b.total_price ≡ b.zone.price * b.quantity) × (1 ≤ b.quantity) × (b.quantity ≤ 4)

pub record Fair (s : CheckoutState) : Type 0 where
  pub some_ticket : 1 ≤ s.quantity
  pub few_tickets : s.quantity ≤ 4
  pub in_time : s.remain_seconds ≤ 300
  pub runs_out : is_some s.left ≡ false → 1 ≤ s.remain_seconds
  pub waits : s.is_paying ≡ is_some s.stage
  pub agreed : Agreed s.stage

-- a reply of the server with at most 300 seconds
abbrev pub Timely : CheckoutEvent → Type 0
Timely (reserves id remain) = remain ≤ 300
Timely (extends remain) = remain ≤ 300
Timely _ = Unit

left_at-none : (n : ℕ) (o : Option Destination) → is_some (left_at n o) ≡ false → 1 ≤ n
left_at-none n none h = ground arith
left_at-none n (some to) h = ground arith

set_remain_seconds-Fair :
    (n : ℕ) (s : CheckoutState) → n ≤ 300 → Fair s → Fair (set_remain_seconds n s)
set_remain_seconds-Fair n s h k = record {
  some_ticket = k.some_ticket;
  few_tickets = k.few_tickets;
  in_time = h;
  runs_out = left_at-none n s.left;
  waits = k.waits;
  agreed = k.agreed;
}

purchase-Agreed :
    (z : Option ℕ) (c : Option ConcertView) (x : Option ZoneView) (u : Option ℕ) (s : CheckoutState)
    (b : Purchase)
    → x ≡ selected_zone s
    → 1 ≤ s.quantity
    → s.quantity ≤ 4
    → purchase_of z c x u s ≡ some b
    → Agreed (some (reserving b))
purchase-Agreed z c x u s b h k m e = (ground arith, ground arith, ground arith)

start_payment-Fair :
    (o : Option ℕ) (b : Purchase) (s : CheckoutState)
    → Agreed (some (reserving b))
    → Fair s
    → Fair (start_payment o b (record s { is_paying = true; pay_error = none }))
unfolding ask_payment
start_payment-Fair none b s h k = record {
  some_ticket = k.some_ticket;
  few_tickets = k.few_tickets;
  in_time = k.in_time;
  runs_out = k.runs_out;
  waits = refl;
  agreed = h;
}
start_payment-Fair (some id) b s h k = record {
  some_ticket = k.some_ticket;
  few_tickets = k.few_tickets;
  in_time = k.in_time;
  runs_out = k.runs_out;
  waits = refl;
  agreed = tt;
}

pay_with-Fair :
    (o : Option Purchase) (s : CheckoutState) → o ≡ purchase s → Fair s → Fair (pay_with o s)
pay_with-Fair none s e k = k
pay_with-Fair (some b) s e k =
    start_payment-Fair s.reservation_id b s
      (purchase-Agreed s.selected_zone_id s.concert (selected_zone s) s.user_id s b refl
        k.some_ticket k.few_tickets (sym e))
      k

abbrev pub Kept : CheckoutState → CheckoutState → Type 0
Kept s t =
    (t.remain_seconds ≡ s.remain_seconds)
    × (t.left ≡ s.left)
    × (t.is_paying ≡ s.is_paying)
    × (t.stage ≡ s.stage)

-- Fairness looks at few fields.
Kept-Fair : (s t : CheckoutState) → Kept s t → 1 ≤ t.quantity → t.quantity ≤ 4 → Fair s → Fair t
Kept-Fair s t (r, l, p, g) q m k = record {
  some_ticket = q;
  few_tickets = m;
  in_time = ground arith;
  runs_out = ground (arith, k.runs_out);
  waits = ground (arith, k.waits);
  agreed = subst Agreed (sym g) k.agreed;
}

reserved-Fair :
    (id n : ℕ) (b : Purchase) (s : CheckoutState)
    → n ≤ 300
    → s.is_paying ≡ true
    → Fair s
    → Fair (reserved id n b s)
unfolding reserved ask_payment
reserved-Fair id n b s h p k = record {
  some_ticket = k.some_ticket;
  few_tickets = k.few_tickets;
  in_time = h;
  runs_out = left_at-none n s.left;
  waits = p;
  agreed = tt;
}

if_reserving-Fair :
    (o : Option PayStage) (id n : ℕ) (s : CheckoutState)
    → o ≡ s.stage
    → n ≤ 300
    → Fair s
    → Fair (if_reserving o (λ b. reserved id n b s) s)
if_reserving-Fair none id n s e h k = k
if_reserving-Fair (some requesting) id n s e h k = k
if_reserving-Fair (some (reserving b)) id n s e h k = reserved-Fair id n b s h (ground arith) k

-- what the buttons of the quantity and the cards change
add_one-Fair : (z : ZoneView) (s : CheckoutState) → Fair s → Fair (add_one z s)
unfolding add_one
add_one-Fair z s k = Kept-Fair s (add_one z s) (ground arith) (ground arith) (ground arith) k

take_one-Fair : (s : CheckoutState) → Fair s → Fair (take_one s)
unfolding take_one
take_one-Fair s k = Kept-Fair s (take_one s) (ground arith) (ground arith) (ground arith) k

select_zone-Fair : (id : ℕ) (z : ZoneView) (s : CheckoutState) → Fair s → Fair (select_zone id z s)
unfolding select_zone
select_zone-Fair id z s k =
    Kept-Fair s (select_zone id z s) (ground arith) (ground arith) (ground arith) k

with_zone-Fair :
    (o : Option ZoneView) (f : ZoneView → CheckoutState) (s : CheckoutState)
    → ((z : ZoneView) → Fair (f z))
    → Fair s
    → Fair (with_zone o f s)
with_zone-Fair none f s h k = k
with_zone-Fair (some z) f s h k = h z

extend_with-Fair : (o : Option ℕ) (s : CheckoutState) → Fair s → Fair (extend_with o s)
extend_with-Fair none s k = k
extend_with-Fair (some id) s k =
    Kept-Fair s (extend_with (some id) s) (ground arith) k.some_ticket k.few_tickets k

if-Fair : (b : Bool) (s t : CheckoutState) → Fair s → Fair t → Fair (if b then s else t)
if-Fair true s t h k = h
if-Fair false s t h k = k

stopped-Fair :
    (s : CheckoutState) (m : Option String) (o : Option Destination)
    → (is_some o ≡ false → is_some s.left ≡ false)
    → Fair s
    → Fair (record s { pay_error = m; left = o; is_paying = false; stage = none })
stopped-Fair s m o f k = record {
  some_ticket = k.some_ticket;
  few_tickets = k.few_tickets;
  in_time = k.in_time;
  runs_out = λ h. k.runs_out (f h);
  waits = refl;
  agreed = tt;
}

respond-Fair : (e : CheckoutEvent) (s : CheckoutState) → Timely e → Fair s → Fair (respond e s)
unfolding respond loaded load_failed handle_pay handle_extend paid pay_failed extension_granted
    extension_failed
respond-Fair (reserves id n) s h k = if_reserving-Fair s.stage id n s refl h k
respond-Fair (extends n) s h k =
    if-Fair (ltb 0 s.extending) _ s
      (Kept-Fair (set_remain_seconds n s)
        (extension_granted n (record s { extending = s.extending - 1 })) (ground arith)
        k.some_ticket k.few_tickets (set_remain_seconds-Fair n s h k))
      k
respond-Fair (opens_with_code c m) s h k =
    Kept-Fair s (respond (opens_with_code c m) s) (ground arith) k.some_ticket k.few_tickets k
respond-Fair (loads c u n) s h k =
    if-Fair _ _ s (Kept-Fair s (loaded c u n s) (ground arith) k.some_ticket k.few_tickets k) k
respond-Fair (load_fails e) s h k =
    if-Fair _ _ s (Kept-Fair s (load_failed e s) (ground arith) k.some_ticket k.few_tickets k) k
respond-Fair ticks s h k =
    if-Fair _ s _ k (set_remain_seconds-Fair (s.remain_seconds - 1) s (ground (arith, k.in_time)) k)
respond-Fair (selects id) s h k =
    if-Fair _ _ s (with_zone-Fair _ _ s (λ z. select_zone-Fair id z s k) k) k
respond-Fair adds s h k = if-Fair _ _ s (with_zone-Fair _ _ s (λ z. add_one-Fair z s k) k) k
respond-Fair takes s h k = if-Fair _ _ s (with_zone-Fair _ _ s (λ z. take_one-Fair s k) k) k
respond-Fair presses_pay s h k = if-Fair _ _ s (pay_with-Fair (purchase s) s refl k) k
respond-Fair presses_extend s h k = if-Fair _ _ s (extend_with-Fair s.reservation_id s k) k
respond-Fair payment_done s h k =
    if-Fair _ _ s (stopped-Fair s s.pay_error (some to_reservations) (λ h. ground arith) k) k
respond-Fair (pay_fails e) s h k = if-Fair _ _ s (stopped-Fair s _ s.left (λ h. h) k) k
respond-Fair (extend_fails e) s h k =
    if-Fair _ _ s
      (Kept-Fair s (extension_failed e (record s { extending = s.extending - 1 })) (ground arith)
        k.some_ticket k.few_tickets k)
      k

respond_all-Fair :
    (es : List CheckoutEvent) (s : CheckoutState) → All Timely es → Fair s → Fair (respond_all es s)
respond_all-Fair [] s h k = k
respond_all-Fair (e ∷ es) s (h, hs) k = respond_all-Fair es (respond e s) hs (respond-Fair e s h k)

new_checkout-Fair : Fair new_checkout
new_checkout-Fair = record {
  some_ticket = ground arith;
  few_tickets = ground arith;
  in_time = ground arith;
  runs_out = λ h. ground arith;
  waits = refl;
  agreed = tt;
}

-- Whatever happens to the payment page, while the server grants at most 300 seconds at a time: the
-- quantity stays between 1 and 4, the countdown shows at most five minutes and a number of seconds
-- below 60, and a page that was not left has at least one second.
pub checkout_bounds :
    (es : List CheckoutEvent)
    → All Timely es
    → let s = respond_all es new_checkout in
      (1 ≤ s.quantity)
      × (s.quantity ≤ 4)
      × ((format_time s.remain_seconds).0 ≤ 5)
      × ((format_time s.remain_seconds).1 ≤ 59)
      × (s.left ≡ none → 1 ≤ s.remain_seconds)
unfolding format_time
checkout_bounds es h =
    let k = respond_all-Fair es new_checkout h new_checkout-Fair in
    (
      k.some_ticket,
      k.few_tickets,
      omega (arith, k.in_time),
      omega arith,
      λ e. k.runs_out (ground arith),
    )

-- In any run of the payment page, while the server grants at most 300 seconds at a time: an order that
-- waits for its reservation has one to four tickets, and when the reservation is there the page asks
-- for its payment at the price of just these tickets, whatever was selected in the meantime.
pub reserved_asks_price :
    (es : List CheckoutEvent) (b : Purchase) (id remain : ℕ)
    → All Timely es
    → let s = respond_all es new_checkout in
      s.stage ≡ some (reserving b)
      → (1 ≤ b.quantity)
        × (b.quantity ≤ 4)
        × ((respond (reserves id remain) s).sent
            ≡ request_payment (record {
              customer_key = b.user_id;
              value = b.zone.price * b.quantity;
              order_id = id;
              order_name = (b.title, b.zone.name);
              customer_name = b.nickname;
            })
              ∷ s.sent)
unfolding respond reserved ask_payment
reserved_asks_price es b id remain h e =
    let k = subst Agreed e (respond_all-Fair es new_checkout h new_checkout-Fair).agreed in
    (k.1, k.2, ground (arith, k.0))
