-- ===== src/Reservation/Extension.antt =====
-- `extendReservation`: what it does where no call fails, and that the books stay in balance.
use ticket_queue_platform.Prelude.{
  ℕ, ◌≡◌, ◌∷◌, List, [], refl, ◌∙◌, true, false, not, Bool, ◌==◌, ◌&&◌, if◌then◌else◌, Option, none,
  some, is_some, ok, err, ℤ, pos, ltb_ℤ, arith,
}
use ticket_queue_platform.Errors.{app_error, text}
use ticket_queue_platform.Schema.{Reservation, pending, is_pending}
use ticket_queue_platform.Platform.{
  Platform, World, calm, Emission, queue_extended, ReservationExpiryPayload,
}
use ticket_queue_platform.Services.JobQueue.{Job}
use ticket_queue_platform.Reservation.Repository.{set_status, lock_key, reservation_repository}
use ticket_queue_platform.Reservation.Jobs.{
  add_reservation_expiry_job, remove_reservation_expiry_job,
}
use ticket_queue_platform.Reservation.Service.{
  owned, extend_reservation, extend_ttl, extend_threshold,
}
use ticket_queue_platform.Reservation.Ending.{jobs_left}

-- A reservation that a user may extend when its lock has `ttl` to live: an own one that waits for its
-- payment, was not extended before, and has at most a minute left.
abbrev pub extendable : ℕ → ℤ → Option Reservation → Bool
extendable u ttl none = false
extendable u ttl (some r) =
    (r.user_id == u)
    && is_pending r.status
    && not (is_some r.extended_at)
    && not (ltb_ℤ ttl (pos 0))
    && not (ltb_ℤ (pos extend_threshold) ttl)

module _ {p : Platform} (i u : ℕ) (w : World p) where
  -- the time to live of the lock of a row
  abbrev pub time_to_live : Option Reservation → ℤ
  time_to_live none = pos 0
  time_to_live (some r) = p.redis.ttl (lock_key r.concert_zone_id u) w.redis

  abbrev pub may_extend : Bool
  may_extend =
      extendable u (time_to_live (p.reservations.find i w.reservations))
        (p.reservations.find i w.reservations)

  -- An extension that is refused changes nothing.
  pub extend_refused : may_extend ≡ false → (extend_reservation i u (calm w)).1 ≡ calm w
  unfolding extend_reservation owned reservation_repository
  extend_refused h = ground arith

  abbrev pub replacement : Reservation → ℕ → Job ReservationExpiryPayload
  replacement r concert_id = record {
    payload = record {
      reservation_id = i;
      concert_zone_id = r.concert_zone_id;
      user_id = u;
      concert_id = concert_id;
      quantity = r.quantity;
    };
    delay = 300000;
  }

  abbrev pub told : List Emission
  told = if w.io then queue_extended u extend_ttl ∷ w.sent else w.sent

  -- The world when the lock has five minutes again, the job is a new one, and the row has the time of
  -- the extension.
  abbrev pub extended : Reservation → ℕ → World p
  extended r concert_id = record w {
    redis = p.redis.expire (lock_key r.concert_zone_id u) extend_ttl w.redis;
    reservations = p.reservations.modified i (set_status pending (some w.now)) w.reservations;
    expiry = p.expiry.add i (replacement r concert_id) (jobs_left i w);
    sent = told;
    faults = [];
  }

  -- the world when the row of the zone is missing, which throws half-way
  abbrev pub stuck : Reservation → World p
  stuck r = record w {
    redis = p.redis.expire (lock_key r.concert_zone_id u) extend_ttl w.redis;
    expiry = jobs_left i w;
    faults = [];
  }

  module _ (r : Reservation) (found : p.reservations.find i w.reservations ≡ some r)
      (may : extendable u (p.redis.ttl (lock_key r.concert_zone_id u) w.redis) (some r)
        ≡ true) where
    pub extend_reservation_effect :
        (x : _)
        → p.zones.find r.concert_zone_id w.zones ≡ some x
        → extend_reservation i u (calm w) ≡ (ok extend_ttl, extended r x.concert_id)
    unfolding extend_reservation owned reservation_repository add_reservation_expiry_job
        remove_reservation_expiry_job
    extend_reservation_effect x there =
        ground (arith, p.reservations.update_lem i (set_status pending (some w.now)) w.reservations)

    pub extend_stuck :
        p.zones.find r.concert_zone_id w.zones ≡ none
        → (extend_reservation i u (calm w)).1 ≡ stuck r
    unfolding extend_reservation owned reservation_repository add_reservation_expiry_job
        remove_reservation_expiry_job
    extend_stuck gone = ground arith

    pub renewed :
        (c j : ℕ)
        → p.expiry.get_job j (p.expiry.add i (replacement r c) (jobs_left i w))
          ≡ (if i == j then some (replacement r c) else p.expiry.get_job j w.expiry)
    renewed c j = ground (
      arith,
      p.expiry.get_job-add i j (replacement r c) (jobs_left i w),
      p.expiry.get_job-remove i j w.expiry,
    )

    pub rows :
        (j : ℕ)
        → p.reservations.find j
            (p.reservations.modified i (set_status pending (some w.now)) w.reservations)
          ≡ (if i == j
              then some (set_status pending (some w.now) r)
              else p.reservations.find j w.reservations)
    rows j =
        ground
          (arith, p.reservations.find-modified i j (set_status pending (some w.now)) w.reservations)

    again :
        (c : ℕ)
        → extend_reservation i u (extended r c)
          ≡ (err (app_error 409 (text "이미 결제 시간을 연장하셨습니다")), extended r c)
    unfolding extend_reservation owned reservation_repository
    again c = ground (arith, rows i)

    alive :
        p.redis.ttl
          (lock_key r.concert_zone_id u)
          (p.redis.expire (lock_key r.concert_zone_id u) extend_ttl w.redis)
        ≡ pos extend_ttl
    alive = ground (
      arith,
      p.redis.ttl-expire (lock_key r.concert_zone_id u) (lock_key r.concert_zone_id u) extend_ttl
          w.redis,
      p.redis.ttl_missing (lock_key r.concert_zone_id u) w.redis,
    )

    -- Where no call fails, an own pending reservation that was not extended before and has at most a
    -- minute left is extended: the lock lives for five minutes more, a new job with the full delay takes
    -- the place of the old one, and a second extension is refused and changes nothing.
    pub extend_reservation_once :
        (x : _)
        → p.zones.find r.concert_zone_id w.zones ≡ some x
        → let after = (extend_reservation i u (calm w)).1 in
          ((extend_reservation i u (calm w)).0 ≡ ok extend_ttl)
          × (p.expiry.get_job i after.expiry ≡ some (replacement r x.concert_id))
          × (p.redis.ttl (lock_key r.concert_zone_id u) after.redis ≡ pos extend_ttl)
          × (extend_reservation i u after ≡ (err (app_error 409 (text "이미 결제 시간을 연장하셨습니다")), after))
    extend_reservation_once x there =
        rw (extend_reservation_effect x there)
          (refl, renewed x.concert_id i ∙ ground arith, alive, again x.concert_id)
