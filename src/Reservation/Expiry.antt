-- ===== src/Reservation/Expiry.antt =====
-- The worker of the expiry jobs: what it does where no call fails, and that the books stay in balance.
use ticket_queue_platform.Prelude.{
  ℕ, ◌≡◌, [], refl, sym, subst, ap, true, false, none, some, is_some, ok, arith, Option-cases,
  Bool-cases, inl, inr, ◌>>◌,
}
use ticket_queue_platform.Schema.{Reservation, expired, failed, is_pending}
use ticket_queue_platform.Platform.{
  Platform, World, calm, emit, queue_expired, ReservationExpiryPayload,
}
use ticket_queue_platform.Platform.Rules.{kept_after, bind_Keeps, emit-Keeps}
use ticket_queue_platform.Queue.Service.{admit_next_user}
use ticket_queue_platform.Reservation.Repository.{
  set_status, set_payment, release_script, reservation_repository,
}
use ticket_queue_platform.Reservation.Jobs.{process_expiry}
use ticket_queue_platform.Reservation.Books.{
  Books, Agrees, calm-Books, Books-IsQuiet, admit_next_user-Books,
}
use ticket_queue_platform.Reservation.Ending.{payments_after, payments_after_lem}
use ticket_queue_platform.Reservation.Closing.{returned-Books}
use ticket_queue_platform.Reservation.Webhook.{awaiting}

module _ {p : Platform} (x : ReservationExpiryPayload) (w : World p) where
  -- A job that comes when its reservation is gone or no longer pending changes nothing.
  pub expiry_ignored :
      awaiting (p.reservations.find x.reservation_id w.reservations) ≡ false
      → process_expiry x (calm w) ≡ (ok tt, calm w)
  unfolding process_expiry reservation_repository
  expiry_ignored h = ground arith

  -- the world when the tickets are back, before the next user is admitted
  abbrev pub lapsed : World p
  lapsed = record w {
    redis = release_script p.redis x.concert_zone_id x.user_id x.quantity w.redis;
    reservations =
        p.reservations.modified x.reservation_id (set_status expired none) w.reservations;
    payments = payments_after x.reservation_id w (set_payment failed none none);
    faults = [];
  }

  -- A job that finds its reservation pending, with a payment, expires both, gives the tickets back, and then
  -- admits the next user of the concert.
  pub process_expiry_effect :
      awaiting (p.reservations.find x.reservation_id w.reservations) ≡ true
      → is_some (p.payments.find x.reservation_id w.payments) ≡ true
      → process_expiry x (calm w)
        ≡ (admit_next_user x.concert_id >> emit (queue_expired x.user_id)) lapsed
  unfolding process_expiry reservation_repository
  process_expiry_effect h paid = ground (
    arith,
    p.reservations.update_lem x.reservation_id (set_status expired none) w.reservations,
    p.payments.update_lem x.reservation_id (set_payment failed none none) w.payments,
  )

  -- Where no call fails, the job of a pending reservation whose payment row is missing marks it as
  -- expired and changes nothing else: its tickets do not come back.
  pub process_expiry_unpaid :
      awaiting (p.reservations.find x.reservation_id w.reservations) ≡ true
      → is_some (p.payments.find x.reservation_id w.payments) ≡ false
      → (process_expiry x (calm w)).1 ≡ (record w {
        reservations =
            p.reservations.modified x.reservation_id (set_status expired none) w.reservations;
        faults = [];
      })
  unfolding process_expiry reservation_repository
  process_expiry_unpaid h unpaid = ground (
    arith,
    p.reservations.update_lem x.reservation_id (set_status expired none) w.reservations,
    p.payments.update_lem x.reservation_id (set_payment failed none none) w.payments,
  )

  lapsed-Books :
      {z n : ℕ}
      → Books z n w
      → (i : ℕ) (r : Reservation) → Agrees i x (some r)
      → p.reservations.find i w.reservations ≡ some r
      → is_pending r.status ≡ true
      → Books z n lapsed
  lapsed-Books {z} {n} b i r same found open_ = subst (Books z n) (ground arith) (
      returned-Books b i r found open_ expired refl
        (payments_after i w (set_payment failed none none)) w.expiry
        (payments_after_lem i w (set_payment failed none none)) (λ j y h. h) refl)

  pub process_expiry-Books :
      {z n : ℕ}
      → Books z n w
      → Agrees x.reservation_id x (p.reservations.find x.reservation_id w.reservations)
      → Books z n (process_expiry x (calm w)).1
  process_expiry-Books {z} {n} b same =
      elim (Option-cases (p.reservations.find x.reservation_id w.reservations)) [
        | inl gone ↦
            subst (Books z n) (sym (ap (λ v. v.1) (expiry_ignored (ground arith)))) (calm-Books b)
        | inr (r, found) ↦ elim (Bool-cases (is_pending r.status)) [
          | inl open_ ↦
              subst (Books z n)
                (sym (
                  ap (λ v. v.1)
                    (process_expiry_effect (ground arith) (b.paid x.reservation_id r found open_))))
                (kept_after
                  (bind_Keeps (admit_next_user-Books x.concert_id)
                    (λ _. emit-Keeps (queue_expired x.user_id) Books-IsQuiet.sent))
                  lapsed
                  (lapsed-Books b x.reservation_id r (subst (Agrees x.reservation_id x) found same)
                    found open_))
          | inr over ↦
              subst (Books z n) (sym (ap (λ v. v.1) (expiry_ignored (ground arith)))) (calm-Books b)
        ]
      ]
