-- ===== src/Reservation/Cancellation.antt =====
-- `cancelReservation`: what it does where no call fails, and that the books stay in balance.
use ticket_queue_platform.Prelude.{
  ℕ, ◌≡◌, [], refl, sym, subst, true, false, Bool, ◌==◌, ◌&&◌, Option, none, some, arith,
  Option-cases, Bool-cases, inl, inr,
}
use ticket_queue_platform.Schema.{Reservation, ReservationStatus, PaymentStatus, is_pending}
use ticket_queue_platform.Platform.{Platform, World, calm}
use ticket_queue_platform.Reservation.Repository.{
  set_status, set_payment, release_script, reservation_repository,
}
use ticket_queue_platform.Reservation.Jobs.{remove_reservation_expiry_job}
use ticket_queue_platform.Reservation.Service.{owned, cancel_reservation}
use ticket_queue_platform.Reservation.Books.{Books, calm-Books}
use ticket_queue_platform.Reservation.Ending.{
  jobs_left, jobs_left_lem, payments_after, payments_after_lem,
}
use ticket_queue_platform.Reservation.Closing.{returned-Books}

-- a reservation that a user may cancel: an own one that waits for its payment
abbrev pub cancellable : ℕ → Option Reservation → Bool
cancellable u none = false
cancellable u (some r) = (r.user_id == u) && is_pending r.status

module _ {p : Platform} (i u : ℕ) (w : World p) where
  cancel_refused :
      cancellable u (p.reservations.find i w.reservations) ≡ false
      → (cancel_reservation i u (calm w)).1 ≡ calm w
  unfolding cancel_reservation owned reservation_repository remove_reservation_expiry_job
  cancel_refused h = ground arith

  -- Where no call fails, the owner of a pending reservation that has a payment gives its tickets back, ends its job, and
  -- leaves both rows cancelled.
  pub cancel_reservation_effect :
      (r : Reservation)
      → p.reservations.find i w.reservations ≡ some r
      → cancellable u (some r) ≡ true
      → (cancel_reservation i u (calm w)).1 ≡ (record w {
        redis = release_script p.redis r.concert_zone_id r.user_id r.quantity w.redis;
        reservations =
            p.reservations.modified i (set_status ReservationStatus.cancelled none) w.reservations;
        payments = payments_after i w (set_payment PaymentStatus.cancelled none none);
        expiry = jobs_left i w;
        faults = [];
      })
  unfolding cancel_reservation owned reservation_repository remove_reservation_expiry_job
  cancel_reservation_effect r found may = ground (
    arith,
    p.reservations.update_lem i (set_status ReservationStatus.cancelled none) w.reservations,
    p.payments.update_lem i (set_payment PaymentStatus.cancelled none none) w.payments,
  )

  -- Cancelling keeps the books of every zone in balance, where no call fails.
  pub cancel_reservation-Books :
      {z n : ℕ} → Books z n w → Books z n (cancel_reservation i u (calm w)).1
  cancel_reservation-Books {z} {n} b =
      elim (Bool-cases (cancellable u (p.reservations.find i w.reservations))) [
        | inl may ↦ elim (Option-cases (p.reservations.find i w.reservations)) [
          | inl gone ↦ ground arith
          | inr (r, found) ↦
              subst (Books z n) (sym (cancel_reservation_effect r found (ground arith))) (
                returned-Books b i r found (ground arith) ReservationStatus.cancelled refl
                  (payments_after i w (set_payment PaymentStatus.cancelled none none))
                  (jobs_left i w)
                  (payments_after_lem i w (set_payment PaymentStatus.cancelled none none))
                  (jobs_left_lem i w) refl)
        ]
        | inr may_not ↦ subst (Books z n) (sym (cancel_refused may_not)) (calm-Books b)
      ]
