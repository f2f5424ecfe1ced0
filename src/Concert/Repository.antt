-- ===== src/Concert/Repository.antt =====
-- src/repositories/concert.repository.ts and src/repositories/concertZone.repository.ts. What the
-- database deletes along with a row (`onDelete: Cascade` in prisma/schema.prisma) is part of a deletion.
use mathlib.Core.Option
use Prim.Native.String.{String}
use package.text.Mathlib.Text.{◌==◌ as str_eq}
use ticket_queue_platform.Prelude.{
  ℕ, Bool, true, false, ◌&&◌, ◌==◌, leb, if◌then◌else◌, Option, none, some, List, [], ◌∷◌, ℤ, pos,
  or_else, is_some, length, select, map, Action, ok, ◌>>◌, pure,
}
use ticket_queue_platform.Errors.{record_not_found, unique_violation}
use ticket_queue_platform.Schema.{
  Concert, ConcertStatus, ConcertZone, Reservation, ReservationStatus, scheduled, on_sale, sold_out,
  ended, pending, confirmed, is_scheduled,
}
use ticket_queue_platform.Platform.{Platform, World, query, write, external}

pub record CreateConcertInput : Type 0 where
  pub title : String
  pub artist : String
  pub venue : String
  pub concert_date : ℕ
  pub sale_start_at : ℕ

pub record UpdateConcertInput : Type 0 where
  pub title : Option String
  pub artist : Option String
  pub venue : Option String
  pub concert_date : Option ℕ
  pub sale_start_at : Option ℕ

pub record CreateZoneInput : Type 0 where
  pub name : String
  pub price : ℕ
  pub total_quantity : ℕ

pub record UpdateZoneInput : Type 0 where
  pub name : Option String
  pub price : Option ℕ
  pub total_quantity : Option ℕ

abbrev pub new_concert : CreateConcertInput → Concert
new_concert input = record {
  title = input.title;
  artist = input.artist;
  venue = input.venue;
  concert_date = input.concert_date;
  sale_start_at = input.sale_start_at;
  status = scheduled;
}

-- the fields that are given
abbrev pub set_concert : UpdateConcertInput → Concert → Concert
set_concert input c = record c {
  title = or_else input.title c.title;
  artist = or_else input.artist c.artist;
  venue = or_else input.venue c.venue;
  concert_date = or_else input.concert_date c.concert_date;
  sale_start_at = or_else input.sale_start_at c.sale_start_at;
}

abbrev pub new_zone : ℕ → CreateZoneInput → ConcertZone
new_zone concert_id input = record {
  concert_id = concert_id;
  name = input.name;
  price = input.price;
  total_quantity = input.total_quantity;
  remain_quantity = pos input.total_quantity;
}

-- the fields that are given; a new total is also what remains
abbrev pub set_zone : UpdateZoneInput → ConcertZone → ConcertZone
set_zone input z = record z {
  name = or_else input.name z.name;
  price = or_else input.price z.price;
  total_quantity = or_else input.total_quantity z.total_quantity;
  remain_quantity = or_else (Option.map pos input.total_quantity) z.remain_quantity;
}

abbrev pub same_status : ConcertStatus → ConcertStatus → Bool
same_status scheduled scheduled = true
same_status on_sale on_sale = true
same_status sold_out sold_out = true
same_status ended ended = true
same_status _ _ = false

-- `where: status ? { status } : undefined`
abbrev pub has_status : Option ConcertStatus → Concert → Bool
has_status none c = true
has_status (some s) c = same_status s c.status

-- `orderBy: { saleStartAt: 'asc' }`
pub insert_by_sale : ℕ × Concert → List (ℕ × Concert) → List (ℕ × Concert)
insert_by_sale e [] = e ∷ []
insert_by_sale e (f ∷ fs) =
    if leb e.1.sale_start_at f.1.sale_start_at then e ∷ f ∷ fs else f ∷ insert_by_sale e fs

pub by_sale : List (ℕ × Concert) → List (ℕ × Concert)
by_sale [] = []
by_sale (e ∷ es) = insert_by_sale e (by_sale es)

-- `status: SCHEDULED, saleStartAt: { lte: now }`
abbrev pub is_due : ℕ → Concert → Bool
is_due t c = is_scheduled c.status && leb c.sale_start_at t

abbrev pub put_on_sale : Concert → Concert
put_on_sale c = record c { status = on_sale }

-- `concertId_name`
abbrev pub named : ℕ → String → List (ℕ × ConcertZone) → Option (ℕ × ConcertZone)
named concert_id name [] = none
named concert_id name (e ∷ es) =
    if (e.1.concert_id == concert_id) && str_eq e.1.name name
    then some e
    else named concert_id name es

-- `status: { in: [PENDING, CONFIRMED] }`
abbrev pub is_live : ReservationStatus → Bool
is_live pending = true
is_live confirmed = true
is_live _ = false

-- a concert with what `include` adds to it
pub record ConcertDetail : Type 0 where
  pub concert : Concert
  pub zones : List (ℕ × ConcertZone)

pub record ZoneStat : Type 0 where
  pub id : ℕ
  pub name : String
  pub total_quantity : ℕ
  pub remain_quantity : ℤ
  pub reservation_count : ℕ

abbrev pub is_in_zone : ℕ → Option Reservation → Bool
is_in_zone id none = false
is_in_zone id (some r) = r.concert_zone_id == id

abbrev pub is_of_concert : ℕ → Option ConcertZone → Bool
is_of_concert id none = false
is_of_concert id (some z) = z.concert_id == id

module _ {p : Platform} where
  unfoldable pub find_concert_by_id : ℕ → Action (World p) (Option Concert)
  find_concert_by_id id = query (λ w. p.concerts.find id w.concerts)

  abbrev pub zones_of : ℕ → World p → List (ℕ × ConcertZone)
  zones_of id w = select (λ e. e.1.concert_id == id) (p.zones.rows w.zones)

  -- The order of the zones by name is left out.
  unfoldable pub find_concert_with_zones : ℕ → Action (World p) (Option ConcertDetail)
  find_concert_with_zones id = query (λ w.
      Option.map (λ c. record { concert = c; zones = zones_of id w })
        (p.concerts.find id w.concerts))

  unfoldable pub find_all_concerts : Option ConcertStatus → Action (World p) (List (ℕ × Concert))
  unfolding by_sale insert_by_sale
  find_all_concerts status =
      query (λ w. by_sale (select (λ e. has_status status e.1) (p.concerts.rows w.concerts)))

  -- the id of the new row
  unfoldable pub create_concert : CreateConcertInput → Action (World p) ℕ
  create_concert input w =
      (do
        write (λ v. p.concerts.create (p.concerts.fresh w.concerts) (new_concert input) v.concerts)
            unique_violation (λ rows v. record v { concerts = rows })
        pure (p.concerts.fresh w.concerts))
        w

  unfoldable pub update_concert : ℕ → UpdateConcertInput → Action (World p) (Unit {0})
  update_concert id input =
      write (λ w. p.concerts.update id (set_concert input) w.concerts) record_not_found
        (λ rows w. record w { concerts = rows })

  -- whether a reservation is for a zone of the concert
  abbrev pub is_for_concert : ℕ → Option Reservation → World p → Bool
  is_for_concert id none w = false
  is_for_concert id (some r) w = is_of_concert id (p.zones.find r.concert_zone_id w.zones)

  -- the world without the zones of a concert, their reservations and the payments of those
  abbrev pub without_zones_of : ℕ → World p → World p
  without_zones_of id w = record w {
    zones = p.zones.delete_where (λ i z. z.concert_id == id) w.zones;
    reservations =
        p.reservations.delete_where
          (λ i r. is_of_concert id (p.zones.find r.concert_zone_id w.zones)) w.reservations;
    payments =
        p.payments.delete_where (λ i x. is_for_concert id (p.reservations.find i w.reservations) w)
          w.payments;
  }

  unfoldable pub delete_concert : ℕ → Action (World p) (Unit {0})
  delete_concert id =
      write (λ w. p.concerts.delete id w.concerts) record_not_found
        (λ rows w. record (without_zones_of id w) { concerts = rows })

  -- the number of rows that changed
  unfoldable pub update_scheduled_to_on_sale : ℕ → Action (World p) ℕ
  update_scheduled_to_on_sale t = external (λ w. (
    ok (length (select (λ e. is_due t e.1) (p.concerts.rows w.concerts))),
    record w { concerts = p.concerts.update_where (is_due t) put_on_sale w.concerts },
  ))

  unfoldable pub find_zone : ℕ → Action (World p) (Option ConcertZone)
  find_zone id = query (λ w. p.zones.find id w.zones)

  unfoldable pub find_zone_by_name : ℕ → String → Action (World p) (Option (ℕ × ConcertZone))
  find_zone_by_name concert_id name = query (λ w. named concert_id name (p.zones.rows w.zones))

  -- refused where the concert has a zone of this name
  unfoldable pub create_zone : ℕ → CreateZoneInput → Action (World p) ℕ
  create_zone concert_id input w =
      (do
        write
            (λ v.
              if is_some (named concert_id input.name (p.zones.rows v.zones))
              then none
              else p.zones.create (p.zones.fresh w.zones) (new_zone concert_id input) v.zones)
            unique_violation (λ rows v. record v { zones = rows })
        pure (p.zones.fresh w.zones))
        w

  unfoldable pub update_zone : ℕ → UpdateZoneInput → Action (World p) (Unit {0})
  update_zone id input =
      write (λ w. p.zones.update id (set_zone input) w.zones) record_not_found
        (λ rows w. record w { zones = rows })

  abbrev pub without_reservations_of : ℕ → World p → World p
  without_reservations_of id w = record w {
    reservations = p.reservations.delete_where (λ i r. r.concert_zone_id == id) w.reservations;
    payments =
        p.payments.delete_where (λ i x. is_in_zone id (p.reservations.find i w.reservations))
          w.payments;
  }

  unfoldable pub delete_zone : ℕ → Action (World p) (Unit {0})
  delete_zone id =
      write (λ w. p.zones.delete id w.zones) record_not_found
        (λ rows w. record (without_reservations_of id w) { zones = rows })

  abbrev pub stat_of : World p → ℕ × ConcertZone → ZoneStat
  stat_of w e = record {
    id = e.0;
    name = e.1.name;
    total_quantity = e.1.total_quantity;
    remain_quantity = e.1.remain_quantity;
    reservation_count = length (
        select (λ r. (r.1.concert_zone_id == e.0) && is_live r.1.status)
          (p.reservations.rows w.reservations));
  }

  -- Reservations of a zone are counted where they are pending or confirmed. The order by name is left
  -- out.
  unfoldable pub find_zone_stats : ℕ → Action (World p) (List ZoneStat)
  find_zone_stats concert_id = query (λ w. map (stat_of w) (zones_of concert_id w))

-- Names the functions of this file, so that a proof opens them by one name.
unfoldable pub concert_repository : Unit {0}
unfolding find_concert_by_id find_concert_with_zones find_all_concerts create_concert update_concert
    delete_concert update_scheduled_to_on_sale find_zone find_zone_by_name create_zone update_zone
    delete_zone find_zone_stats
concert_repository = tt
