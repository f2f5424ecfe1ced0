-- ===== src/Reservation/Jobs.antt =====
-- src/queues/workers/reservation.worker.ts: the delayed job that ends an unpaid reservation.
use ticket_queue_platform.Prelude.{
  ℕ, Bool, false, not, Option, none, some, if◌then◌else◌, Action, ◌>>=◌, ◌>>◌, pure,
}
use ticket_queue_platform.Schema.{expired, failed, is_pending}
use ticket_queue_platform.Platform.{
  Platform, World, query, command, emit, queue_expired, ReservationExpiryPayload,
}
use ticket_queue_platform.Queue.Service.{admit_next_user}
use ticket_queue_platform.Reservation.Repository.{
  FoundReservation, release_stock, update_reservation_status, update_payment_status,
  find_reservation_by_id,
}

-- `!reservation || reservation.status !== 'PENDING'` does not hold
abbrev pub still_pending : Option FoundReservation → Bool
still_pending none = false
still_pending (some r) = is_pending r.status

module _ {p : Platform} where
  -- five minutes
  unfoldable pub add_reservation_expiry_job : ReservationExpiryPayload → Action (World p) (Unit {0})
  add_reservation_expiry_job payload = command (λ w. record w {
    expiry =
        p.expiry.add payload.reservation_id (record { payload = payload; delay = 300000 }) w.expiry;
  })

  unfoldable pub remove_reservation_expiry_job : ℕ → Action (World p) (Unit {0})
  remove_reservation_expiry_job reservation_id = do
    job ← query (λ w. p.expiry.get_job reservation_id w.expiry)
    elim job [
      | none ↦ pure tt
      | some j ↦ command (λ w. record w { expiry = p.expiry.remove reservation_id w.expiry })
    ]

  -- what the worker of `startReservationExpiryWorker` does with a job
  unfoldable pub process_expiry : ReservationExpiryPayload → Action (World p) (Unit {0})
  process_expiry job = do
    reservation ← find_reservation_by_id job.reservation_id
    if not (still_pending reservation) then pure tt else (do
      update_reservation_status job.reservation_id expired none
      update_payment_status job.reservation_id failed none none
      release_stock job.concert_zone_id job.user_id job.quantity
      admit_next_user job.concert_id
      emit (queue_expired job.user_id))
