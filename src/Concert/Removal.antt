-- ===== src/Concert/Removal.antt =====
-- Deleting a zone or a concert, with what the database deletes along with it.
use ticket_queue_platform.Prelude.{
  ℕ, ◌≡◌, refl, ◌∙◌, true, false, ◌==◌, none, some, is_some, [], ok, err, arith,
}
use ticket_queue_platform.Errors.{app_error, text}
use ticket_queue_platform.Schema.{Reservation}
use ticket_queue_platform.Platform.{Platform, World, calm, ReservationExpiryPayload}
use ticket_queue_platform.Services.Redis.{stock}
use ticket_queue_platform.Concert.Repository.{
  without_reservations_of, without_zones_of, is_of_concert, is_for_concert, concert_repository,
}
use ticket_queue_platform.Concert.Service.{admin_delete_zone, admin_delete_concert}
use ticket_queue_platform.Reservation.Repository.{reservation_repository}
use ticket_queue_platform.Reservation.Service.{create_reservation, TossWebhookBody, handle_webhook}
use ticket_queue_platform.Reservation.Jobs.{process_expiry}
use ticket_queue_platform.Reservation.Webhook.{awaiting, webhook_ignored}
use ticket_queue_platform.Reservation.Expiry.{expiry_ignored}
use ticket_queue_platform.Services.Table.{keep_unless}

module _ {p : Platform} (z : ℕ) (w : World p) where
  abbrev pub zone_gone : World p
  zone_gone = record (without_reservations_of z w) {
    zones = p.zones.deleted z w.zones;
    redis = p.redis.del (stock z) w.redis;
    faults = [];
  }

  delete_zone-eq :
      is_some (p.zones.find z w.zones) ≡ true → admin_delete_zone z (calm w) ≡ (ok tt, zone_gone)
  unfolding admin_delete_zone concert_repository
  delete_zone-eq h = ground (arith, p.zones.delete_lem z w.zones)

module _ {p : Platform} (z : ℕ) (w : World p) where
  -- a reservation of the zone is gone
  row_gone :
      (i : ℕ) (r : Reservation)
      → p.reservations.find i w.reservations ≡ some r
      → (r.concert_zone_id == z) ≡ true
      → awaiting (p.reservations.find i (zone_gone z w).reservations) ≡ false
  row_gone i r found of_zone = ground (
    arith,
    found,
    p.reservations.find-delete_where (λ j s. s.concert_zone_id == z) i w.reservations,
  )

  -- Where no call fails, a deleted zone takes its stock counter along, a later request for its tickets is
  -- refused with 404, and the job and the webhook of a reservation of it, when they come, change
  -- nothing, so that no stock comes back.
  pub admin_delete_zone_ends :
      (i u : ℕ) (r : Reservation) (x : ReservationExpiryPayload) (body : TossWebhookBody) (q : ℕ)
      → is_some (p.zones.find z w.zones) ≡ true
      → p.reservations.find i w.reservations ≡ some r
      → (r.concert_zone_id == z) ≡ true
      → x.reservation_id ≡ i
      → body.order_id ≡ i
      → let after = (admin_delete_zone z (calm w)).1 in
        (p.redis.get (stock z) after.redis ≡ none)
        × (create_reservation u (record { concert_zone_id = z; quantity = q }) after
            ≡ (err (app_error 404 (text "존재하지 않는 구역입니다")), after))
        × (process_expiry x after ≡ (ok tt, after))
        × ((handle_webhook body after).1 ≡ after)
  unfolding create_reservation reservation_repository
  admin_delete_zone_ends i u r x body q there found of_zone job order =
      rw (delete_zone-eq z w there) (
        p.redis.get-del (stock z) (stock z) w.redis ∙ ground arith,
        ground (arith, p.zones.find-deleted z z w.zones),
        expiry_ignored x (zone_gone z w) (rw (job) (row_gone i r found of_zone)),
        webhook_ignored body (zone_gone z w) (rw (order) (row_gone i r found of_zone)),
      )

module _ {p : Platform} (c : ℕ) (w : World p) where
  abbrev pub concert_gone : World p
  concert_gone = record (without_zones_of c w) {
    concerts = p.concerts.deleted c w.concerts;
    faults = [];
  }

  delete_concert-eq :
      is_some (p.concerts.find c w.concerts) ≡ true
      → admin_delete_concert c (calm w) ≡ (ok tt, concert_gone)
  unfolding admin_delete_concert concert_repository
  delete_concert-eq h = ground (arith, p.concerts.delete_lem c w.concerts)

  -- Where no call fails, a deleted concert takes its zones, their reservations and the payments of those
  -- along, keeps every other row of these tables, and leaves every key in Redis: the stock counters of
  -- the zones stay.
  pub admin_delete_concert_leaves :
      is_some (p.concerts.find c w.concerts) ≡ true
      → let after = (admin_delete_concert c (calm w)).1 in
        (p.concerts.find c after.concerts ≡ none)
        × ((j : ℕ)
            → p.zones.find j after.zones
              ≡ keep_unless (λ y. y.concert_id == c) (p.zones.find j w.zones))
        × ((j : ℕ)
            → p.reservations.find j after.reservations
              ≡ keep_unless
                  (λ s. is_of_concert c (p.zones.find s.concert_zone_id w.zones))
                  (p.reservations.find j w.reservations))
        × ((j : ℕ)
            → p.payments.find j after.payments
              ≡ keep_unless
                  (λ x. is_for_concert c (p.reservations.find j w.reservations) w)
                  (p.payments.find j w.payments))
        × (after.redis ≡ w.redis)
  admin_delete_concert_leaves there = rw (delete_concert-eq there) (
    p.concerts.find-deleted c c w.concerts ∙ ground arith,
    λ j. p.zones.find-delete_where (λ i y. y.concert_id == c) j w.zones,
    λ j.
        p.reservations.find-delete_where
          (λ i s. is_of_concert c (p.zones.find s.concert_zone_id w.zones)) j w.reservations,
    λ j.
        p.payments.find-delete_where
          (λ i x. is_for_concert c (p.reservations.find i w.reservations) w) j w.payments,
    refl,
  )
