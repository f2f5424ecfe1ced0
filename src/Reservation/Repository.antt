-- ===== src/Reservation/Repository.antt =====
-- src/repositories/reservation.repository.ts: the stock and lock keys with their Lua scripts, and the
-- reservation and payment tables.
use mathlib.Core.Option
use Prim.Native.String.{String}
use text.Mathlib.Text.{◌==◌ as str_eq}
use ticket_queue_platform.Prelude.{
  ℕ, both, given, Option, none, some, ℤ, pos, negsuc, ◌-ℤ◌, ltb_ℤ, if◌then◌else◌, Action, ok, ◌>>◌,
  pure,
}
use ticket_queue_platform.Errors.{record_not_found, unique_violation}
use ticket_queue_platform.Schema.{
  ConcertZone, Reservation, ReservationStatus, pending, Payment, PaymentStatus, ready,
}
use ticket_queue_platform.Platform.{Platform, World, external, query, command, write}
use ticket_queue_platform.Services.Redis.{Redis, Key, stock, lock, Value, number, word}

abbrev pub stock_key : ℕ → Key
stock_key zone_id = stock zone_id

abbrev pub lock_key : ℕ → ℕ → Key
lock_key zone_id user_id = lock zone_id user_id

-- Lua's `tonumber` on the reply of GET, where a missing key is `false`
abbrev pub to_number : Option Value → Option ℤ
to_number none = none
to_number (some (number n)) = some n
to_number (some (word w)) = none

-- The scripts run on a store at once. KEYS are the stock and the lock.
module _ (r : Redis) where
  unfoldable pub release_script : ℕ → ℕ → ℕ → r.Store → r.Store
  release_script zone_id user_id quantity s =
      r.del (lock_key zone_id user_id) (r.incrby (stock_key zone_id) (pos quantity) s)

  unfoldable pub preempt_script : ℕ → ℕ → ℕ → ℕ → ℕ → r.Store → ℤ × r.Store
  preempt_script zone_id user_id quantity ttl_seconds reservation_id s =
      elim (to_number (r.get (stock_key zone_id) s)) [
        | none ↦ (negsuc 0, s)
        | some left ↦
            if ltb_ℤ left (pos quantity)
            then (negsuc 0, s)
            else if r.exists (lock_key zone_id user_id) s
            then (negsuc 1, s)
            else (
              pos 1,
              r.set_ex (lock_key zone_id user_id) (word reservation_id) ttl_seconds
                  (r.decrby (stock_key zone_id) (pos quantity) s),
            )
      ]

-- `paymentKey && { paymentKey }`: the empty string is false
abbrev pub truthy : Option String → Option String
truthy none = none
truthy (some s) = if str_eq s "" then none else some s

abbrev pub set_status : ReservationStatus → Option ℕ → Reservation → Reservation
set_status status extended_at r = record r {
  status = status;
  extended_at = given extended_at r.extended_at;
}

abbrev pub set_payment : PaymentStatus → Option String → Option ℕ → Payment → Payment
set_payment status payment_key paid_at x = record x {
  payment_key = given (truthy payment_key) x.payment_key;
  status = status;
  paid_at = given paid_at x.paid_at;
}

abbrev pub new_reservation : ℕ → ℕ → ℕ → ℕ → Reservation
new_reservation user_id concert_zone_id quantity total_price = record {
  user_id = user_id;
  concert_zone_id = concert_zone_id;
  quantity = quantity;
  total_price = total_price;
  status = pending;
  extended_at = none;
}

-- a row with what `include` adds to it
pub record FoundReservation : Type 0 where
  pub row : Reservation
  pub open row use *
  pub concert_zone : Option ConcertZone

module _ {p : Platform} where
  abbrev pub with_zone : World p → Reservation → FoundReservation
  with_zone w r = record { row = r; concert_zone = p.zones.find r.concert_zone_id w.zones }

  unfoldable pub preempt_stock : ℕ → ℕ → ℕ → ℕ → ℕ → Action (World p) ℤ
  preempt_stock zone_id user_id quantity ttl_seconds reservation_id = external (λ w.
      let (result, s) =
        preempt_script p.redis zone_id user_id quantity ttl_seconds reservation_id w.redis in
      (ok result, record w { redis = s }))

  unfoldable pub release_stock : ℕ → ℕ → ℕ → Action (World p) (Unit {0})
  release_stock zone_id user_id quantity =
      command (λ w. record w { redis = release_script p.redis zone_id user_id quantity w.redis })

  unfoldable pub delete_lock : ℕ → ℕ → Action (World p) (Unit {0})
  delete_lock zone_id user_id =
      command (λ w. record w { redis = p.redis.del (lock_key zone_id user_id) w.redis })

  unfoldable pub get_lock_ttl : ℕ → ℕ → Action (World p) ℤ
  get_lock_ttl zone_id user_id = query (λ w. p.redis.ttl (lock_key zone_id user_id) w.redis)

  unfoldable pub extend_lock : ℕ → ℕ → ℕ → Action (World p) (Unit {0})
  extend_lock zone_id user_id ttl_seconds =
      command
        (λ w. record w { redis = p.redis.expire (lock_key zone_id user_id) ttl_seconds w.redis })

  unfoldable pub find_zone_by_id : ℕ → Action (World p) (Option ConcertZone)
  find_zone_by_id zone_id = query (λ w. p.zones.find zone_id w.zones)

  unfoldable pub decrement_zone_remain_quantity : ℕ → ℕ → Action (World p) (Unit {0})
  decrement_zone_remain_quantity zone_id quantity =
      write
        (λ w.
          p.zones.update zone_id
            (λ z. record z { remain_quantity = z.remain_quantity -ℤ pos quantity }) w.zones)
        record_not_found (λ rows w. record w { zones = rows })

  -- the id of the new row
  unfoldable pub create_reservation : ℕ → ℕ → ℕ → ℕ → Action (World p) ℕ
  create_reservation user_id concert_zone_id quantity total_price w =
      (do
        write
            (λ v.
              p.reservations.create (p.reservations.fresh w.reservations)
                (new_reservation user_id concert_zone_id quantity total_price) v.reservations)
            unique_violation (λ rows v. record v { reservations = rows })
        pure (p.reservations.fresh w.reservations))
        w

  unfoldable pub find_reservation_by_id : ℕ → Action (World p) (Option FoundReservation)
  find_reservation_by_id id =
      query (λ w. Option.map (with_zone w) (p.reservations.find id w.reservations))

  unfoldable pub update_reservation_status :
      ℕ → ReservationStatus → Option ℕ → Action (World p) (Unit {0})
  update_reservation_status id status extended_at =
      write (λ w. p.reservations.update id (set_status status extended_at) w.reservations)
        record_not_found (λ rows w. record w { reservations = rows })

  unfoldable pub create_payment : ℕ → ℕ → Action (World p) (Unit {0})
  create_payment reservation_id amount =
      write
        (λ w.
          p.payments.create reservation_id
            (record { payment_key = none; amount = amount; status = ready; paid_at = none })
            w.payments)
        unique_violation (λ rows w. record w { payments = rows })

  unfoldable pub update_payment_status :
      ℕ → PaymentStatus → Option String → Option ℕ → Action (World p) (Unit {0})
  update_payment_status reservation_id status payment_key paid_at =
      write
        (λ w. p.payments.update reservation_id (set_payment status payment_key paid_at) w.payments)
        record_not_found (λ rows w. record w { payments = rows })

  -- both updates or none
  unfoldable pub update_reservation_and_payment_in_tx :
      ℕ → ReservationStatus → PaymentStatus → Option String → Option ℕ → Action (World p) (Unit {0})
  update_reservation_and_payment_in_tx id reservation_status payment_status payment_key paid_at =
      write
        (λ w.
          both (p.reservations.update id (set_status reservation_status none) w.reservations)
            (p.payments.update id (set_payment payment_status payment_key paid_at) w.payments))
        record_not_found (λ rows w. record w { reservations = rows.0; payments = rows.1 })

-- Names every function of this file on the tables and on Redis, so that a proof opens them by one name.
unfoldable pub reservation_repository : Unit {0}
unfolding preempt_stock release_stock delete_lock get_lock_ttl extend_lock find_zone_by_id
    decrement_zone_remain_quantity create_reservation find_reservation_by_id
    update_reservation_status create_payment update_payment_status
    update_reservation_and_payment_in_tx
reservation_repository = tt
