-- ===== src/Client/Checkout.antt =====
-- client/src/pages/ReservationPage.tsx, for one concert: the state of the page, what a payment that
-- is under way has captured, and the calls it has made. A page that was left ignores its own events,
-- while the replies to its calls still arrive. The redirect of a mobile payment is left out.
pub mod Limits
pub mod Retries
use Prim.Native.Nat.{◌%◌, min, max}
use Prim.Native.String.{String, ◌++◌ as append}
use package.text.Mathlib.Text.{◌==◌ as str_eq}
use ticket_queue_platform.Prelude.{
  ℕ, ◌+◌, ◌-◌, ◌*◌, ◌/◌, ◌==◌, leb, ltb, Bool, true, false, not, ◌&&◌, ◌||◌, if◌then◌else◌, Option,
  none, some, is_some, List, [], ◌∷◌, lookup, ℤ, pos, pos_part, ltb_ℤ, eq_ℤ,
}
use ticket_queue_platform.Client.Failures.{Failure, default, get_error_message}

-- the minutes and the seconds of `formatTime`, before they are padded
unfoldable pub format_time : ℕ → ℕ × ℕ
format_time s = (s / 60, s % 60)

pub record ZoneView : Type 0 where
  pub name : String
  pub price : ℕ
  pub remain_quantity : ℤ

pub record ConcertView : Type 0 where
  pub title : String
  pub zones : List (ℕ × ZoneView)

-- what a run of `handlePay` has captured
pub record Purchase : Type 0 where
  pub zone_id : ℕ
  pub zone : ZoneView
  pub title : String
  pub quantity : ℕ
  pub total_price : ℕ
  pub user_id : ℕ
  pub nickname : Option String

-- where a run of `handlePay` waits
pub data PayStage : Type 0 where
  reserving : Purchase → PayStage
  requesting : PayStage

-- the argument of `requestPayment`, with the customer key; the name of the order is in two parts
pub record PaymentRequest : Type 0 where
  pub customer_key : ℕ
  pub value : ℕ
  pub order_id : ℕ
  pub order_name : String × String
  pub customer_name : Option String

pub data Outgoing : Type 0 where
  post_reservation : ℕ → ℕ → Outgoing
  request_payment : PaymentRequest → Outgoing
  post_extend : ℕ → Outgoing

pub data Destination : Type 0 where
  to_reservations to_concert : Destination

pub record CheckoutState : Type 0 where
  pub concert : Option ConcertView
  pub nickname : Option String
  pub user_id : Option ℕ
  pub loading : Bool
  pub fetch_error : Option String
  pub reservation_id : Option ℕ
  pub remain_seconds : ℕ
  pub extended : Bool
  pub selected_zone_id : Option ℕ
  pub quantity : ℕ
  pub is_paying : Bool
  pub pay_error : Option String
  -- the run of `handlePay` that is under way
  pub stage : Option PayStage
  -- how many calls to extend have no reply yet
  pub extending : ℕ
  -- where the page has navigated to
  pub left : Option Destination
  -- the calls that were made, the latest first
  pub sent : List Outgoing

abbrev pub new_checkout : CheckoutState
new_checkout = record {
  concert = none;
  nickname = none;
  user_id = none;
  loading = true;
  fetch_error = none;
  reservation_id = none;
  remain_seconds = 300;
  extended = false;
  selected_zone_id = none;
  quantity = 1;
  is_paying = false;
  pay_error = none;
  stage = none;
  extending = 0;
  left = none;
  sent = [];
}

-- `concert?.zones.find((z) => z.id === selectedZoneId) ?? null`
abbrev pub zone_of : Option ConcertView → Option ℕ → Option ZoneView
zone_of none o = none
zone_of (some c) none = none
zone_of (some c) (some id) = lookup id c.zones

abbrev pub selected_zone : CheckoutState → Option ZoneView
selected_zone s = zone_of s.concert s.selected_zone_id

abbrev pub price_for : Option ZoneView → ℕ → ℕ
price_for none quantity = 0
price_for (some zone) quantity = zone.price * quantity

-- `totalPrice`
abbrev pub total_price : CheckoutState → ℕ
total_price s = price_for (selected_zone s) s.quantity

abbrev pub is_urgent : CheckoutState → Bool
is_urgent s = leb s.remain_seconds 60

abbrev pub can_pay : CheckoutState → Bool
can_pay s = is_some s.selected_zone_id && ltb 0 s.remain_seconds && not s.is_paying

-- whether the page shows the concert
abbrev pub is_shown : CheckoutState → Bool
is_shown s =
    not s.loading && not (is_some s.fetch_error) && is_some s.concert && not (is_some s.left)

-- the effect of the countdown, which leaves the page at 0
abbrev pub left_at : ℕ → Option Destination → Option Destination
left_at remain (some to) = some to
left_at remain none = if remain == 0 then some to_concert else none

abbrev pub set_remain_seconds : ℕ → CheckoutState → CheckoutState
set_remain_seconds remain s = record s { remain_seconds = remain; left = left_at remain s.left }

abbrev pub tick : CheckoutState → CheckoutState
tick s = set_remain_seconds (s.remain_seconds - 1) s

-- a failed payment in the parameters of the URL
abbrev pub failure_in_url : String → Option String → CheckoutState → CheckoutState
failure_in_url code message s = record s {
  pay_error =
      if str_eq code "USER_CANCEL"
      then some "결제를 취소했습니다."
      else some (default (append "결제 실패 (" (append code ")")) message);
}

-- the choice that `handlePay` reads, if its first line lets it pass
abbrev pub purchase_of :
    Option ℕ → Option ConcertView → Option ZoneView → Option ℕ → CheckoutState → Option Purchase
purchase_of (some zone_id) (some c) (some zone) (some user_id) s = some (record {
  zone_id = zone_id;
  zone = zone;
  title = c.title;
  quantity = s.quantity;
  total_price = total_price s;
  user_id = user_id;
  nickname = s.nickname;
})
purchase_of none _ _ _ s = none
purchase_of (some zone_id) none _ _ s = none
purchase_of (some zone_id) (some c) none _ s = none
purchase_of (some zone_id) (some c) (some zone) none s = none

abbrev pub purchase : CheckoutState → Option Purchase
purchase s = purchase_of s.selected_zone_id s.concert (selected_zone s) s.user_id s

-- the call of `requestPayment`
unfoldable pub ask_payment : ℕ → Purchase → CheckoutState → CheckoutState
ask_payment reservation_id b s = record s {
  stage = some requesting;
  sent =
      request_payment (record {
        customer_key = b.user_id;
        value = b.total_price;
        order_id = reservation_id;
        order_name = (b.title, b.zone.name);
        customer_name = b.nickname;
      })
      ∷ s.sent;
}

-- from `let newReservationId` to the first call
abbrev pub start_payment : Option ℕ → Purchase → CheckoutState → CheckoutState
start_payment none b s = record s {
  stage = some (reserving b);
  sent = post_reservation b.zone_id b.quantity ∷ s.sent;
}
start_payment (some id) b s = ask_payment id b s

abbrev pub pay_with : Option Purchase → CheckoutState → CheckoutState
pay_with none s = s
pay_with (some b) s =
    start_payment s.reservation_id b (record s { is_paying = true; pay_error = none })

unfoldable pub handle_pay : CheckoutState → CheckoutState
handle_pay s = pay_with (purchase s) s

-- the reply to the call that reserves
unfoldable pub reserved : ℕ → ℕ → Purchase → CheckoutState → CheckoutState
reserved id remain b s =
    ask_payment id b (set_remain_seconds remain (record s { reservation_id = some id }))

-- after `requestPayment`, and the finally block
unfoldable pub paid : CheckoutState → CheckoutState
paid s = record s { left = some to_reservations; is_paying = false; stage = none }

abbrev pub is_cancel : Option String → Bool
is_cancel none = false
is_cancel (some code) = str_eq code "USER_CANCEL"

-- the catch block and the finally block
unfoldable pub pay_failed : Failure → CheckoutState → CheckoutState
pay_failed e s = record s {
  pay_error =
      if is_cancel e.code then some "결제를 취소했습니다." else some (get_error_message e "결제 중 오류가 발생했습니다");
  is_paying = false;
  stage = none;
}

abbrev pub extend_with : Option ℕ → CheckoutState → CheckoutState
extend_with none s = s
extend_with (some id) s = record s {
  pay_error = none;
  extending = s.extending + 1;
  sent = post_extend id ∷ s.sent;
}

unfoldable pub handle_extend : CheckoutState → CheckoutState
handle_extend s = extend_with s.reservation_id s

unfoldable pub extension_granted : ℕ → CheckoutState → CheckoutState
extension_granted remain s = record (set_remain_seconds remain s) { extended = true }

unfoldable pub extension_failed : Failure → CheckoutState → CheckoutState
extension_failed e s = record s { pay_error = some (get_error_message e "시간 연장에 실패했습니다") }

-- Both buttons of the quantity are disabled at their ends, so what remains is a positive number where
-- it is compared.
unfoldable pub add_one : ZoneView → CheckoutState → CheckoutState
add_one zone s =
    if leb 4 s.quantity || not (ltb_ℤ (pos s.quantity) zone.remain_quantity)
    then s
    else record s { quantity = min (min 4 (s.quantity + 1)) (pos_part zone.remain_quantity) }

unfoldable pub take_one : CheckoutState → CheckoutState
take_one s = if leb s.quantity 1 then s else record s { quantity = max 1 (s.quantity - 1) }

-- A card of a zone that is sold out does not react.
unfoldable pub select_zone : ℕ → ZoneView → CheckoutState → CheckoutState
select_zone id zone s =
    if eq_ℤ zone.remain_quantity (pos 0) then s else record s { selected_zone_id = some id }

-- What happens to the page: its effects, the buttons, and the replies to its calls.
pub data CheckoutEvent : Type 0 where
  opens_with_code : String → Option String → CheckoutEvent
  loads : ConcertView → ℕ → String → CheckoutEvent
  load_fails : Failure → CheckoutEvent
  ticks adds takes presses_pay presses_extend payment_done : CheckoutEvent
  selects : ℕ → CheckoutEvent
  reserves : ℕ → ℕ → CheckoutEvent
  pay_fails extend_fails : Failure → CheckoutEvent
  extends : ℕ → CheckoutEvent

abbrev pub with_zone : Option ZoneView → (ZoneView → CheckoutState) → CheckoutState → CheckoutState
with_zone none f s = s
with_zone (some zone) f s = f zone

abbrev pub zones_of : Option ConcertView → List (ℕ × ZoneView)
zones_of none = []
zones_of (some c) = c.zones

-- a reply to the call that reserves, where one is waited for
abbrev pub if_reserving :
    Option PayStage → (Purchase → CheckoutState) → CheckoutState → CheckoutState
if_reserving (some (reserving b)) f s = f b
if_reserving (some requesting) f s = s
if_reserving none f s = s

abbrev pub is_requesting : Option PayStage → Bool
is_requesting (some requesting) = true
is_requesting (some (reserving b)) = false
is_requesting none = false

unfoldable pub loaded : ConcertView → ℕ → String → CheckoutState → CheckoutState
loaded c user_id nickname s = record s {
  concert = some c;
  nickname = some nickname;
  user_id = some user_id;
  loading = false;
}

unfoldable pub load_failed : Failure → CheckoutState → CheckoutState
load_failed e s = record s {
  fetch_error = some (get_error_message e "공연 정보를 불러올 수 없습니다");
  loading = false;
}

-- An event that the page does not wait for changes nothing.
unfoldable pub respond : CheckoutEvent → CheckoutState → CheckoutState
respond (opens_with_code code message) s = failure_in_url code message s
respond (loads c user_id nickname) s =
    if s.loading && not (is_some s.left) then loaded c user_id nickname s else s
respond (load_fails e) s = if s.loading && not (is_some s.left) then load_failed e s else s
respond ticks s = if is_some s.left then s else tick s
respond (selects id) s =
    if is_shown s
    then with_zone (lookup id (zones_of s.concert)) (λ zone. select_zone id zone s) s
    else s
respond adds s = if is_shown s then with_zone (selected_zone s) (λ zone. add_one zone s) s else s
respond takes s = if is_shown s then with_zone (selected_zone s) (λ zone. take_one s) s else s
respond presses_pay s = if is_shown s && can_pay s then handle_pay s else s
respond presses_extend s =
    if is_shown s && is_urgent s && not s.extended then handle_extend s else s
respond (reserves id remain) s = if_reserving s.stage (λ b. reserved id remain b s) s
respond payment_done s = if is_requesting s.stage then paid s else s
respond (pay_fails e) s = if is_some s.stage then pay_failed e s else s
respond (extends remain) s =
    if ltb 0 s.extending
    then extension_granted remain (record s { extending = s.extending - 1 })
    else s
respond (extend_fails e) s =
    if ltb 0 s.extending then extension_failed e (record s { extending = s.extending - 1 }) else s

abbrev pub respond_all : List CheckoutEvent → CheckoutState → CheckoutState
respond_all [] s = s
respond_all (e ∷ es) s = respond_all es (respond e s)
