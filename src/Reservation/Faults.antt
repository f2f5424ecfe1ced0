-- ===== src/Reservation/Faults.antt =====
-- Calls that fail half-way: the stock after a failed reservation, and after a failed cancellation.
use ticket_queue_platform.Prelude.{
  ℕ, ◌*◌, ◌≡◌, ◌∷◌, [], List, Bool, refl, true, false, none, some, is_some, err, pos, ℤ, ◌+ℤ◌,
  arith, ◌&&◌,
}
use ticket_queue_platform.Errors.{unavailable}
use ticket_queue_platform.Schema.{ConcertZone, Reservation, ReservationStatus}
use ticket_queue_platform.Platform.{Platform, World}
use ticket_queue_platform.Services.Redis.{stock, lock, admitted, number}
use ticket_queue_platform.Queue.Repository.{queue_repository}
use ticket_queue_platform.Reservation.Repository.{
  set_status, release_script, preempt_script, reservation_repository,
}
use ticket_queue_platform.Reservation.Preemption.{count-release, release-taken, unlocked-release}
use ticket_queue_platform.Reservation.Jobs.{
  add_reservation_expiry_job, remove_reservation_expiry_job,
}
use ticket_queue_platform.Reservation.Service.{
  CreateReservationInput, owned, cancel_reservation, create_reservation, settle, commit, roll_back,
  lock_ttl,
}
use ticket_queue_platform.Reservation.Cancellation.{cancellable, cancel_reservation_effect}
use ticket_queue_platform.Reservation.Creation.{
  id, row, bill, inserted, in_stock, unlocked, preempted,
}

module _ {p : Platform} (i u : ℕ) (w : World p) (r : Reservation)
    (found : p.reservations.find i w.reservations ≡ some r)
    (may : cancellable u (some r) ≡ true) where
  -- the plan in which the look-up of the job fails, after the release
  abbrev interrupted : World p
  interrupted = record w { faults = false ∷ false ∷ true ∷ [] }

  abbrev pub half_cancelled : World p
  half_cancelled = record w {
    redis = release_script p.redis r.concert_zone_id r.user_id r.quantity w.redis;
    faults = [];
  }

  cancel_interrupted : cancel_reservation i u interrupted ≡ (err unavailable, half_cancelled)
  unfolding cancel_reservation owned reservation_repository remove_reservation_expiry_job
  cancel_interrupted = ground arith

  -- If the cancellation of an own pending reservation fails right after the release, it throws, and a
  -- second one in which no call fails has added the tickets to the stock counter, an integer, twice.
  pub cancel_again_releases_twice :
      (n : ℤ)
      → p.redis.get (stock r.concert_zone_id) w.redis ≡ some (number n)
      → let first = cancel_reservation i u interrupted in
        (first.0 ≡ err unavailable)
        × (p.redis.get (stock r.concert_zone_id) (cancel_reservation i u first.1).1.redis
            ≡ some (number (n +ℤ pos r.quantity +ℤ pos r.quantity)))
  cancel_again_releases_twice n h =
      rw (cancel_interrupted, cancel_reservation_effect i u half_cancelled r found may)
        (refl, twice)
    where
      twice :
          p.redis.get
            (stock r.concert_zone_id)
            (release_script p.redis r.concert_zone_id r.user_id r.quantity half_cancelled.redis)
          ≡ some (number (n +ℤ pos r.quantity +ℤ pos r.quantity))
      twice = ground (
        arith,
        count-release p.redis r.concert_zone_id r.user_id r.quantity w.redis r.concert_zone_id n h,
        count-release p.redis r.concert_zone_id r.user_id r.quantity half_cancelled.redis
            r.concert_zone_id (n +ℤ pos r.quantity),
      )

-- The calls of the body of the `try`.
pub data CommitCall : Type 0 where
  scheduling billing leaving : CommitCall

-- The plan in which the zone, the admission, the row and the script are served, and then one call of the
-- body of the `try` fails.
abbrev pub failing : CommitCall → List Bool
failing scheduling = true ∷ []
failing billing = false ∷ true ∷ []
failing leaving = false ∷ false ∷ true ∷ []

module _ {p : Platform} (u : ℕ) (input : CreateReservationInput) (w : World p) (x : ConcertZone)
    (there : p.zones.find input.concert_zone_id w.zones ≡ some x)
    (may : is_some (p.redis.get (admitted x.concert_id u) w.redis) ≡ true)
    (works : (in_stock u input w && unlocked u input w) ≡ true)
    (unpaid : is_some (p.payments.find (id u input w) w.payments) ≡ false) where
  abbrev RolledBack : World p → Type 0
  RolledBack v =
      (v.redis
        ≡ release_script p.redis input.concert_zone_id u input.quantity (preempted u input w x))
      × (v.reservations
          ≡ p.reservations.modified (id u input w) (set_status ReservationStatus.cancelled none)
              (inserted u input w x))

  -- the world after the preemption, with the rest of the plan
  abbrev reached : List Bool → World p
  reached fs = record w {
    redis = preempted u input w x;
    reservations = inserted u input w x;
    faults = fs;
  }

  create_reached :
      (fs : List Bool)
      → create_reservation u input (record w { faults = false ∷ false ∷ false ∷ false ∷ fs })
        ≡ settle u input x (x.price * input.quantity) (id u input w) (pos 1) (reached fs)
  unfolding create_reservation preempt_script reservation_repository queue_repository
  create_reached fs = ground (
    arith,
    p.redis.exists_lem (admitted x.concert_id u) w.redis,
    p.redis.exists_lem (lock input.concert_zone_id u) w.redis,
    p.reservations.find-fresh w.reservations,
    p.reservations.create_lem (id u input w) (row u input w x) w.reservations,
  )

  cancels_row :
      p.reservations.update
        (id u input w)
        (set_status ReservationStatus.cancelled none)
        (inserted u input w x)
      ≡ some (
          p.reservations.modified
            (id u input w)
            (set_status ReservationStatus.cancelled none)
            (inserted u input w x))
  cancels_row = ground (
    arith,
    p.reservations.find-inserted (id u input w) (id u input w) (row u input w x) w.reservations,
    p.reservations.update_lem (id u input w) (set_status ReservationStatus.cancelled none)
        (inserted u input w x),
  )

  settle_interrupted :
      (k : CommitCall)
      → let r =
          settle u input x
            (x.price * input.quantity)
            (id u input w)
            (pos 1)
            (reached (failing k)) in
        (r.0 ≡ err unavailable) × RolledBack r.1
  unfolding settle commit roll_back reservation_repository queue_repository
      add_reservation_expiry_job
  settle_interrupted scheduling = ground (arith, cancels_row)
  settle_interrupted billing = ground (arith, cancels_row)
  settle_interrupted leaving =
      ground
        (arith, cancels_row, p.payments.create_lem (id u input w) (bill u input w x) w.payments)

  -- If a request of an admitted user for tickets that are in stock, without a lock and without a payment
  -- under the new id, fails at one of the calls after the preemption and those of the `catch` do not, it
  -- throws, its reservation is cancelled, the lock is free, and every stock counter that is an integer
  -- is as it was.
  pub create_reservation_restores :
      (k : CommitCall) (y : ℕ) (n : ℤ)
      → p.redis.get (stock y) w.redis ≡ some (number n)
      → let r =
          create_reservation u input
            (record w { faults = false ∷ false ∷ false ∷ false ∷ failing k }) in
        (r.0 ≡ err unavailable)
        × (p.reservations.find (id u input w) r.1.reservations
            ≡ some (set_status ReservationStatus.cancelled none (row u input w x)))
        × (p.redis.get (lock input.concert_zone_id u) r.1.redis ≡ none)
        × (p.redis.get (stock y) r.1.redis ≡ some (number n))
  create_reservation_restores k y n h =
      rw (create_reached (failing k), (settle_interrupted k).1.0, (settle_interrupted k).1.1)
        (
          (settle_interrupted k).0,
          cancelled_row,
          unlocked-release p.redis input.concert_zone_id u input.quantity (preempted u input w x),
          release-taken p.redis input.concert_zone_id u input.quantity w.redis lock_ttl
              (id u input w) y n h,
        )
    where
      cancelled_row :
          p.reservations.find (id u input w) (
            p.reservations.modified
              (id u input w)
              (set_status ReservationStatus.cancelled none)
              (inserted u input w x))
          ≡ some (set_status ReservationStatus.cancelled none (row u input w x))
      cancelled_row = ground (
        arith,
        p.reservations.find-inserted (id u input w) (id u input w) (row u input w x) w.reservations,
        p.reservations.find-modified (id u input w) (id u input w)
            (set_status ReservationStatus.cancelled none) (inserted u input w x),
      )
