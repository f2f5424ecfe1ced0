-- ===== src/Concert/Tests.antt =====
-- Zones on the sample platform: an instance of the theorem on their update.
use mathlib.Core.Option
use ticket_queue_platform.Prelude.{ℕ, ◌==◌, ◌≡◌, refl, some, none, [], ◌∷◌, ok, arith}
use ticket_queue_platform.Platform.{World, calm}
use ticket_queue_platform.Schema.{scheduled, pending, ready}
use ticket_queue_platform.Samples.{memory, opening, concert}
use ticket_queue_platform.Services.Table.{keep_unless}
use ticket_queue_platform.Concert.Repository.{
  UpdateZoneInput, CreateZoneInput, is_of_concert, is_for_concert,
}
use ticket_queue_platform.Concert.Service.{admin_create_zone, admin_delete_concert}
use ticket_queue_platform.Concert.Stocking.{admin_create_zone-Books}
use ticket_queue_platform.Concert.Removal.{admin_delete_concert_leaves}
use ticket_queue_platform.Reservation.Books.{Books, Rows}

abbrev twelve : UpdateZoneInput
twelve = record { name = none; price = none; total_quantity = some 12 }

abbrev seats : CreateZoneInput
seats = record { name = "R"; price = 50; total_quantity = 6 }

-- Concert 1 is not on sale yet, though its sale has begun.
abbrev due_world : World memory
due_world = record opening { concerts = (1, record concert { status = scheduled }) ∷ [] }

-- Reservation 1 of zone 5 waits for its payment.
abbrev booked : World memory
booked = record opening {
  reservations =
      (
        1,
        record {
          user_id = 7;
          concert_zone_id = 5;
          quantity = 2;
          total_price = 200;
          status = pending;
          extended_at = none;
        },
      )
      ∷ [];
  payments = (1, record { payment_key = none; amount = 200; status = ready; paid_at = none }) ∷ [];
}

booked-Rows : Rows booked
booked-Rows = record {
  ids = 1 ∷ [];
  unique = (refl, tt);
  complete = λ i. ground arith;
  paid = λ i r h k. ground arith;
  jobs = λ i j h. ground arith;
}

admin_create_zone-Books_example :
    let r = admin_create_zone 1 seats (calm booked) in
    (r.0 ≡ ok 6) × Books 6 6 r.1 × ((z n : ℕ) → Books z n booked → Books z n r.1)
admin_create_zone-Books_example =
    admin_create_zone-Books 1 seats booked refl refl (λ i r h. ground arith) booked-Rows

admin_delete_concert_leaves_example :
    let after = (admin_delete_concert 1 (calm booked)).1 in
    (memory.concerts.find 1 after.concerts ≡ none)
    × ((j : ℕ)
        → memory.zones.find j after.zones
          ≡ keep_unless (λ y. y.concert_id == 1) (memory.zones.find j booked.zones))
    × ((j : ℕ)
        → memory.reservations.find j after.reservations
          ≡ keep_unless
              (λ s. is_of_concert 1 (memory.zones.find s.concert_zone_id booked.zones))
              (memory.reservations.find j booked.reservations))
    × ((j : ℕ)
        → memory.payments.find j after.payments
          ≡ keep_unless
              (λ x. is_for_concert 1 (memory.reservations.find j booked.reservations) booked)
              (memory.payments.find j booked.payments))
    × (after.redis ≡ booked.redis)
admin_delete_concert_leaves_example = admin_delete_concert_leaves 1 booked refl
