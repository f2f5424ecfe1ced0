-- ===== src/Reservation/Ending.antt =====
-- What the ends of a reservation have in common: its job is removed and its payment is written.
use ticket_queue_platform.Prelude.{ℕ, ◌≡◌, true, none, some, if◌then◌else◌, is_some, arith}
use ticket_queue_platform.Schema.{Payment}
use ticket_queue_platform.Platform.{Platform, World, ReservationExpiryPayload}
use ticket_queue_platform.Services.JobQueue.{Job}

module _ {p : Platform} (i : ℕ) (w : World p) where
  -- the jobs without the one of the reservation, which `getJob` looks for first
  abbrev pub jobs_left : p.expiry.Jobs
  jobs_left = elim (p.expiry.get_job i w.expiry) [
    | none ↦ w.expiry
    | some j ↦ p.expiry.remove i w.expiry
  ]

  pub jobs_left_lem :
      (j : ℕ) (x : Job ReservationExpiryPayload)
      → p.expiry.get_job j jobs_left ≡ some x
      → p.expiry.get_job j w.expiry ≡ some x
  jobs_left_lem j x h = ground (arith, p.expiry.get_job-remove i j w.expiry)

  -- the payments when the one of the reservation is changed, if there is one
  abbrev pub payments_after : (Payment → Payment) → p.payments.Rows
  payments_after f =
      if is_some (p.payments.find i w.payments)
      then p.payments.modified i f w.payments
      else w.payments

  pub payments_after_lem :
      (f : Payment → Payment) (j : ℕ)
      → is_some (p.payments.find j w.payments) ≡ true
      → is_some (p.payments.find j (payments_after f)) ≡ true
  payments_after_lem f j h = ground (arith, p.payments.find-modified i j f w.payments)
