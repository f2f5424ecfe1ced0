-- ===== src/Reservation/Listing.antt =====
-- The listing of a user's reservations: findReservationsByUser of
-- src/repositories/reservation.repository.ts, getMyReservations of the service, and
-- toReservationDetailResponse of src/dtos/reservation.dto.ts.
use Prim.Native.String.{String}
use ticket_queue_platform.Prelude.{ℕ, ◌==◌, Option, none, some, List, map, select, Action}
use ticket_queue_platform.Schema.{
  Concert, ConcertZone, Reservation, Payment, ReservationStatus, PaymentStatus,
}
use ticket_queue_platform.Platform.{Platform, World, query}

-- a reservation with what `include` adds to it
pub record IncludedReservation : Type 0 where
  pub id : ℕ
  pub row : Reservation
  pub concert_zone : Option ConcertZone
  pub concert : Option Concert
  pub payment : Option Payment

pub record ZoneResponse : Type 0 where
  pub id : ℕ
  pub name : String
  pub price : ℕ

pub record ConcertResponse : Type 0 where
  pub id : ℕ
  pub title : String
  pub artist : String
  pub venue : String
  pub concert_date : ℕ

pub record PaymentResponse : Type 0 where
  pub status : PaymentStatus
  pub amount : ℕ
  pub paid_at : Option ℕ

pub record ReservationDetailResponse : Type 0 where
  pub id : ℕ
  pub status : ReservationStatus
  pub quantity : ℕ
  pub total_price : ℕ
  pub extended_at : Option ℕ
  pub concert_zone : Option ZoneResponse
  pub concert : Option ConcertResponse
  pub payment : Option PaymentResponse

abbrev zone_response : ℕ → Option ConcertZone → Option ZoneResponse
zone_response id none = none
zone_response id (some z) = some (record { id = id; name = z.name; price = z.price })

-- the concert of the zone
abbrev concert_response : Option ConcertZone → Option Concert → Option ConcertResponse
concert_response (some z) (some c) = some (record {
  id = z.concert_id;
  title = c.title;
  artist = c.artist;
  venue = c.venue;
  concert_date = c.concert_date;
})
concert_response _ _ = none

abbrev payment_response : Option Payment → Option PaymentResponse
payment_response none = none
payment_response (some x) =
    some (record { status = x.status; amount = x.amount; paid_at = x.paid_at })

abbrev pub to_reservation_detail_response : IncludedReservation → ReservationDetailResponse
to_reservation_detail_response r = record {
  id = r.id;
  status = r.row.status;
  quantity = r.row.quantity;
  total_price = r.row.total_price;
  extended_at = r.row.extended_at;
  concert_zone = zone_response r.row.concert_zone_id r.concert_zone;
  concert = concert_response r.concert_zone r.concert;
  payment = payment_response r.payment;
}

module _ {p : Platform} where
  abbrev concert_of : Option ConcertZone → World p → Option Concert
  concert_of none w = none
  concert_of (some z) w = p.concerts.find z.concert_id w.concerts

  abbrev pub included : World p → ℕ × Reservation → IncludedReservation
  included w (i, r) = record {
    id = i;
    row = r;
    concert_zone = p.zones.find r.concert_zone_id w.zones;
    concert = concert_of (p.zones.find r.concert_zone_id w.zones) w;
    payment = p.payments.find i w.payments;
  }

  unfoldable pub find_reservations_by_user : ℕ → Action (World p) (List IncludedReservation)
  find_reservations_by_user user_id = query (λ w.
      map (included w) (select (λ e. e.1.user_id == user_id) (p.reservations.rows w.reservations)))

  unfoldable pub get_my_reservations : ℕ → Action (World p) (List IncludedReservation)
  get_my_reservations user_id = find_reservations_by_user user_id
