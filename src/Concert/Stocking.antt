-- ===== src/Concert/Stocking.antt =====
-- A new zone, and the books of its tickets.
use ticket_queue_platform.Prelude.{
  ℕ, ◌≡◌, refl, ◌∙◌, true, false, ◌==◌, if◌then◌else◌, some, is_some, [], ok, err, arith, pos,
  Option-cases, inl, inr, if_true, if_false,
}
use ticket_queue_platform.Errors.{app_error, text}
use ticket_queue_platform.Schema.{Reservation}
use ticket_queue_platform.Platform.{Platform, World, calm}
use ticket_queue_platform.Services.Redis.{stock, number}
use ticket_queue_platform.Concert.Repository.{CreateZoneInput, new_zone, named, concert_repository}
use ticket_queue_platform.Concert.Service.{admin_create_zone, set_stock}
use ticket_queue_platform.Reservation.Totals.{total_zero}
use ticket_queue_platform.Reservation.Books.{Books, reserved, sold, Rows}

module _ {p : Platform} (c : ℕ) (input : CreateZoneInput) (w : World p) where
  -- the id of the new zone
  abbrev pub zone_id : ℕ
  zone_id = p.zones.fresh w.zones

  abbrev pub stocked : World p
  stocked = record w {
    redis = p.redis.set (stock zone_id) (number (pos input.total_quantity)) w.redis;
    zones = p.zones.inserted zone_id (new_zone c input) w.zones;
    faults = [];
  }

  -- A concert that is missing (404), or that has a zone of the name (409), is refused, and nothing
  -- changes.
  pub create_zone-eq : admin_create_zone c input (calm w) ≡ (
      if is_some (p.concerts.find c w.concerts)
      then (if is_some (named c input.name (p.zones.rows w.zones))
          then (err (app_error 409 (text "이미 존재하는 구역명입니다")), calm w)
          else (ok zone_id, stocked))
      else (err (app_error 404 (text "공연을 찾을 수 없습니다")), calm w))
  unfolding admin_create_zone set_stock concert_repository
  create_zone-eq =
      ground
        (arith, p.zones.find-fresh w.zones, p.zones.create_lem zone_id (new_zone c input) w.zones)

module _ {p : Platform} (c : ℕ) (input : CreateZoneInput) (w : World p) where
  module _ {z n : ℕ} (b : Books z n w) where
    other : (zone_id c input w == z) ≡ false
    other = ground (arith, b.zone_lem, p.zones.find-fresh w.zones)

    -- the books of the other zones
    stocked-Books : Books z n (stocked c input w)
    stocked-Books = record {
      ids = b.ids;
      left = b.left;
      zone = b.zone;
      remain = b.remain;
      unique = b.unique;
      complete = b.complete;
      in_stock = ground (
        arith,
        other,
        b.in_stock,
        p.redis.get-set (stock z) (stock (zone_id c input w)) (number (pos input.total_quantity))
            w.redis,
      );
      zone_lem = ground (
        arith,
        other,
        b.zone_lem,
        p.zones.find-inserted (zone_id c input w) z (new_zone c input) w.zones,
      );
      remain_lem = b.remain_lem;
      unsold = b.unsold;
      balance = b.balance;
      paid = b.paid;
      jobs = b.jobs;
    }

  module _ (b : Rows w)
      (unused : (i : ℕ) (r : Reservation)
        → p.reservations.find i w.reservations ≡ some r
        → (r.concert_zone_id == zone_id c input w) ≡ false) where
    unheld :
        (i : ℕ)
        → (reserved (zone_id c input w) (p.reservations.find i w.reservations) ≡ 0)
          × (sold (zone_id c input w) (p.reservations.find i w.reservations) ≡ 0)
    unheld i = elim (Option-cases (p.reservations.find i w.reservations)) [
      | inl none_there ↦ ground arith
      | inr (r, there) ↦ ground (arith, unused i r there)
    ]

    -- the books of the new zone, which has all its tickets
    opened-Books : Books (zone_id c input w) input.total_quantity (stocked c input w)
    opened-Books = record {
      ids = b.ids;
      left = input.total_quantity;
      zone = new_zone c input;
      remain = input.total_quantity;
      unique = b.unique;
      complete = b.complete;
      in_stock = ground (
        arith,
        p.redis.get-set (stock (zone_id c input w)) (stock (zone_id c input w))
            (number (pos input.total_quantity)) w.redis,
      );
      zone_lem = ground (
        arith,
        p.zones.find-inserted (zone_id c input w) (zone_id c input w) (new_zone c input) w.zones,
      );
      remain_lem = refl;
      unsold = omega (arith, total_zero _ b.ids (λ i. (unheld i).1));
      balance = omega (arith, total_zero _ b.ids (λ i. (unheld i).0));
      paid = b.paid;
      jobs = b.jobs;
    }

  -- Where no call fails, a new zone of an existing concert, the first one of all or a later one, opens
  -- with books for all its tickets, given that the concert has no zone of the name, that no reservation
  -- is for the new id, and that the reservations are those of a list of ids without repetition, each
  -- pending one with a payment, and each expiry job in agreement with the reservation of its id. The
  -- books of each zone that has balanced ones stay in balance.
  pub admin_create_zone-Books :
      is_some (p.concerts.find c w.concerts) ≡ true
      → is_some (named c input.name (p.zones.rows w.zones)) ≡ false
      → ((i : ℕ) (r : Reservation)
          → p.reservations.find i w.reservations ≡ some r
          → (r.concert_zone_id == zone_id c input w) ≡ false)
      → Rows w
      → let r = admin_create_zone c input (calm w) in
        (r.0 ≡ ok (zone_id c input w))
        × Books (zone_id c input w) input.total_quantity r.1
        × ((z n : ℕ) → Books z n w → Books z n r.1)
  admin_create_zone-Books there free unused rows =
      rw (made) (refl, opened-Books rows unused, λ z n b. stocked-Books b)
    where
      made : admin_create_zone c input (calm w) ≡ (ok (zone_id c input w), stocked c input w)
      made = create_zone-eq c input w ∙ if_true _ _ there ∙ if_false _ _ free
