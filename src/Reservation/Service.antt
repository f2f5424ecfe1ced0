-- ===== src/Reservation/Service.antt =====
-- src/services/reservation.service.ts.
use Prim.Native.String.{String}
use package.text.Mathlib.Text.{◌==◌ as str_eq}
use ticket_queue_platform.Prelude.{
  ℕ, ◌*◌, not, ◌==◌, ◌||◌, Option, none, some, ℤ, pos, negsuc, pos_part, ltb_ℤ, eq_ℤ, if◌then◌else◌,
  is_some, Action, ◌>>=◌, ◌>>◌, pure, throw, throw_if, or_throw, try_catch,
}
use ticket_queue_platform.Errors.{Error, app_error, text, time_left, type_error}
use ticket_queue_platform.Schema.{
  ConcertZone, pending, confirmed, ReservationStatus, PaymentStatus, is_pending,
}
use ticket_queue_platform.Platform.{Platform, World, now, emit, queue_extended}
use ticket_queue_platform.Queue.Repository.{is_admitted, delete_admitted_key}
use ticket_queue_platform.Reservation.Jobs.{
  add_reservation_expiry_job, remove_reservation_expiry_job,
}
use ticket_queue_platform.Reservation.Repository.{
  FoundReservation, preempt_stock, release_stock, delete_lock, get_lock_ttl, extend_lock,
  find_zone_by_id, decrement_zone_remain_quantity, create_reservation as insert_reservation,
  find_reservation_by_id, update_reservation_status, create_payment, update_payment_status,
  update_reservation_and_payment_in_tx,
}

abbrev pub lock_ttl : ℕ
lock_ttl = 300

abbrev pub extend_ttl : ℕ
extend_ttl = 300

abbrev pub extend_threshold : ℕ
extend_threshold = 60

pub record CreateReservationInput : Type 0 where
  pub concert_zone_id : ℕ
  pub quantity : ℕ

pub record Receipt : Type 0 where
  pub reservation_id : ℕ
  pub total_price : ℕ
  pub remain_seconds : ℕ

pub record TossWebhookBody : Type 0 where
  pub payment_key : String
  pub order_id : ℕ
  pub status : String
  pub total_amount : Option ℕ
  pub amount : Option ℕ

module _ {p : Platform} where
  -- what follows a refusal by the preemption script
  unfoldable pub reject : {A : Type 0} → ℕ → ℕ → ℕ → Error → Action (World p) A
  reject concert_id user_id reservation_id e = do
    update_reservation_status reservation_id ReservationStatus.cancelled none
    delete_admitted_key concert_id user_id
    throw e

  -- the body of the `try` after a successful preemption
  unfoldable pub commit :
      ℕ → CreateReservationInput → ConcertZone → ℕ → ℕ → Action (World p) Receipt
  commit user_id input zone total_price reservation_id = do
    add_reservation_expiry_job (record {
      reservation_id = reservation_id;
      concert_zone_id = input.concert_zone_id;
      user_id = user_id;
      concert_id = zone.concert_id;
      quantity = input.quantity;
    })
    create_payment reservation_id total_price
    delete_admitted_key zone.concert_id user_id
    pure (record {
      reservation_id = reservation_id;
      total_price = total_price;
      remain_seconds = lock_ttl;
    })

  -- its `catch`: give the stock back, and throw the error again whether that worked or not
  unfoldable pub roll_back :
      {A : Type 0} → ℕ → CreateReservationInput → ℕ → Error → Action (World p) A
  roll_back user_id input reservation_id e = do
    try_catch
        (do
          release_stock input.concert_zone_id user_id input.quantity
          update_reservation_status reservation_id ReservationStatus.cancelled none)
        (λ release_err. pure tt)
    throw e

  -- by the result of the preemption script
  unfoldable pub settle :
      ℕ → CreateReservationInput → ConcertZone → ℕ → ℕ → ℤ → Action (World p) Receipt
  settle user_id input zone total_price reservation_id result =
      if eq_ℤ result (negsuc 0)
      then reject zone.concert_id user_id reservation_id (app_error 409 (text "해당 구역의 재고가 부족합니다"))
      else if eq_ℤ result (negsuc 1)
      then reject zone.concert_id user_id reservation_id (app_error 409 (text "이미 진행 중인 예매가 있습니다"))
      else try_catch (commit user_id input zone total_price reservation_id)
          (roll_back user_id input reservation_id)

  unfoldable pub create_reservation : ℕ → CreateReservationInput → Action (World p) Receipt
  create_reservation user_id input = do
    found ← find_zone_by_id input.concert_zone_id
    zone ← or_throw found (app_error 404 (text "존재하지 않는 구역입니다"))
    admitted ← is_admitted zone.concert_id user_id
    throw_if (not admitted) (app_error 403 (text "입장 권한이 없습니다. 대기열을 통해 입장해주세요"))
    let total_price = zone.price * input.quantity
    reservation_id ← insert_reservation user_id input.concert_zone_id input.quantity total_price
    result ← preempt_stock input.concert_zone_id user_id input.quantity lock_ttl reservation_id
    settle user_id input zone total_price reservation_id result

  -- the checks that open the operations on one reservation
  unfoldable pub owned : ℕ → ℕ → Action (World p) FoundReservation
  owned reservation_id requester_id = do
    found ← find_reservation_by_id reservation_id
    reservation ← or_throw found (app_error 404 (text "예매를 찾을 수 없습니다"))
    throw_if (not (reservation.user_id == requester_id)) (app_error 403 (text "접근 권한이 없습니다"))
    pure reservation

  unfoldable pub get_reservation_detail : ℕ → ℕ → Action (World p) FoundReservation
  get_reservation_detail reservation_id requester_id = owned reservation_id requester_id

  unfoldable pub cancel_reservation : ℕ → ℕ → Action (World p) (Unit {0})
  cancel_reservation reservation_id requester_id = do
    reservation ← owned reservation_id requester_id
    throw_if (not (is_pending reservation.status)) (app_error 400 (text "결제 대기 중인 예매만 취소할 수 있습니다"))
    release_stock reservation.concert_zone_id requester_id reservation.quantity
    remove_reservation_expiry_job reservation_id
    update_reservation_status reservation_id ReservationStatus.cancelled none
    update_payment_status reservation_id PaymentStatus.cancelled none none

  unfoldable pub extend_reservation : ℕ → ℕ → Action (World p) ℕ
  extend_reservation reservation_id requester_id = do
    reservation ← owned reservation_id requester_id
    throw_if (not (is_pending reservation.status)) (app_error 400 (text "결제 대기 중인 예매가 아닙니다"))
    throw_if (is_some reservation.extended_at) (app_error 409 (text "이미 결제 시간을 연장하셨습니다"))
    ttl ← get_lock_ttl reservation.concert_zone_id requester_id
    throw_if (ltb_ℤ ttl (pos 0)) (app_error 400 (text "선점이 이미 만료되었습니다"))
    throw_if (ltb_ℤ (pos extend_threshold) ttl) (app_error 400 (time_left (pos_part ttl)))
    extend_lock reservation.concert_zone_id requester_id extend_ttl
    remove_reservation_expiry_job reservation_id
    zone ← or_throw reservation.concert_zone type_error
    add_reservation_expiry_job (record {
      reservation_id = reservation_id;
      concert_zone_id = reservation.concert_zone_id;
      user_id = requester_id;
      concert_id = zone.concert_id;
      quantity = reservation.quantity;
    })
    t ← now
    update_reservation_status reservation_id pending (some t)
    emit (queue_extended requester_id extend_ttl)
    pure extend_ttl

  -- the two branches of the webhook that change something
  unfoldable pub confirm : TossWebhookBody → FoundReservation → Action (World p) (Unit {0})
  confirm body reservation = do
    t ← now
    update_reservation_and_payment_in_tx body.order_id confirmed PaymentStatus.done
        (some body.payment_key) (some t)
    decrement_zone_remain_quantity reservation.concert_zone_id reservation.quantity
    delete_lock reservation.concert_zone_id reservation.user_id
    remove_reservation_expiry_job body.order_id

  unfoldable pub decline : TossWebhookBody → FoundReservation → Action (World p) (Unit {0})
  decline body reservation = do
    let reservation_status =
        if str_eq body.status "EXPIRED"
        then ReservationStatus.expired
        else ReservationStatus.cancelled
    let payment_status =
        if str_eq body.status "CANCELLED" then PaymentStatus.cancelled else PaymentStatus.failed
    update_reservation_and_payment_in_tx body.order_id reservation_status payment_status none none
    release_stock reservation.concert_zone_id reservation.user_id reservation.quantity
    remove_reservation_expiry_job body.order_id

  unfoldable pub handle_webhook : TossWebhookBody → Action (World p) (Unit {0})
  handle_webhook body = do
    found ← find_reservation_by_id body.order_id
    reservation ← or_throw found (app_error 404 (text "예매를 찾을 수 없습니다"))
    if not (is_pending reservation.status)
        then pure tt
        else if str_eq body.status "DONE"
        then confirm body reservation
        else if str_eq body.status "CANCELLED"
            || str_eq body.status "FAILED"
            || str_eq body.status "EXPIRED"
        then decline body reservation
        else pure tt
