-- ===== src/Reservation/Reachable.antt =====
-- Sequences of calls on reservations in which no call to a store fails.
use ticket_queue_platform.Prelude.{
  ℕ, ◌≡◌, ◌≤◌, ◌+◌, List, refl, sym, subst, true, false, none, some, arith, Option-cases, inl, inr,
}
use ticket_queue_platform.Platform.{Platform, World, calm, ReservationExpiryPayload}
use ticket_queue_platform.Platform.Rules.{kept_after}
use ticket_queue_platform.Services.JobQueue.{Job}
use ticket_queue_platform.Services.Redis.{Key, admitted, reconnect, lock, stock}
use ticket_queue_platform.Queue.Service.{admit_next_user}
use ticket_queue_platform.Reservation.Jobs.{process_expiry}
use ticket_queue_platform.Reservation.Service.{
  CreateReservationInput, TossWebhookBody, create_reservation, cancel_reservation,
  extend_reservation, handle_webhook,
}
use ticket_queue_platform.Reservation.Totals.{total, IsUnique, total_complete}
use ticket_queue_platform.Reservation.Books.{
  Books, Agrees, Agrees-id, sold, reserved, calm-Books, reread-Books, fewer_jobs-Books,
  admit_next_user-Books,
}
use ticket_queue_platform.Reservation.Opening.{create_reservation-Books}
use ticket_queue_platform.Reservation.Cancellation.{cancel_reservation-Books}
use ticket_queue_platform.Reservation.Renewal.{extend_reservation-Books}
use ticket_queue_platform.Reservation.Settlement.{handle_webhook-Books}
use ticket_queue_platform.Reservation.Expiry.{process_expiry-Books}

-- A request of a user, a webhook, the start of the job of a reservation, or an admission.
pub data Call : Type 0 where
  creates : ℕ → CreateReservationInput → Call
  cancels extends : ℕ → ℕ → Call
  pays : TossWebhookBody → Call
  fires admits : ℕ → Call

-- a key that can run out: the stock counters have no time to live
abbrev pub Volatile : Key → Type 0
Volatile (stock z) = true ≡ false
Volatile _ = true ≡ true

module _ {p : Platform} where
  abbrev pub fire : ℕ → World p → World p
  fire i w = elim (p.expiry.get_job i w.expiry) [
    | none ↦ w
    | some j ↦ (process_expiry j.payload (calm w)).1
  ]

  unfoldable pub perform : Call → World p → World p
  perform (creates u input) w = (create_reservation u input (calm w)).1
  perform (cancels i u) w = (cancel_reservation i u (calm w)).1
  perform (extends i u) w = (extend_reservation i u (calm w)).1
  perform (pays body) w = (handle_webhook body (calm w)).1
  perform (fires i) w = fire i w
  perform (admits c) w = (admit_next_user c (calm w)).1

  -- A call; a key whose time to live is over; a job that is done and forgotten; time passing.
  pub data Step : World p → World p → Type 0 where
    call : (e : Call) (w : World p) → Step w (perform e w)
    lapse :
        (k : Key) (w : World p) → Volatile k → Step w (record w { redis = p.redis.del k w.redis })
    forget : (i : ℕ) (w : World p) → Step w (record w { expiry = p.expiry.remove i w.expiry })
    wait : (w : World p) (t : ℕ) → w.now ≤ t → Step w (record w { now = t })

  pub data Reach (w : World p) : World p → Type 0 where
    here : Reach w w
    next : {v x : World p} → Reach w v → Step v x → Reach w x

  module _ {z n : ℕ} where
    fire-Books : (i : ℕ) (w : World p) → Books z n w → Books z n (fire i w)
    fire-Books i w b = elim (Option-cases (p.expiry.get_job i w.expiry)) [
      | inl gone ↦ rw (gone, fire) b
      | inr (j, there) ↦ rw (there, fire) (process_expiry-Books j.payload w b (agreed j there))
    ]
      where
        agreed :
            (j : Job ReservationExpiryPayload)
            → p.expiry.get_job i w.expiry ≡ some j
            → Agrees j.payload.reservation_id j.payload
                (p.reservations.find j.payload.reservation_id w.reservations)
        agreed j there =
            subst (λ k. Agrees k j.payload (p.reservations.find k w.reservations))
              (sym
                (Agrees-id i j.payload (p.reservations.find i w.reservations) (b.jobs i j there)))
              (b.jobs i j there)

    perform-Books : (e : Call) (w : World p) → Books z n w → Books z n (perform e w)
    unfolding perform
    perform-Books (creates u input) w b = create_reservation-Books u input w b
    perform-Books (cancels i u) w b = cancel_reservation-Books i u w b
    perform-Books (extends i u) w b = extend_reservation-Books i u w b
    perform-Books (pays body) w b = handle_webhook-Books body w b
    perform-Books (fires i) w b = fire-Books i w b
    perform-Books (admits c) w b = kept_after (admit_next_user-Books c) (calm w) (calm-Books b)

    lapse-Books :
        (k : Key) (w : World p)
        → Volatile k
        → Books z n w
        → Books z n (record w { redis = p.redis.del k w.redis })
    lapse-Books k w v b = reread-Books b (p.redis.del k w.redis) w.faults w.sent w.now (unread k v)
      where
        unread :
            (j : Key)
            → Volatile j
            → p.redis.get (stock z) (p.redis.del j w.redis) ≡ p.redis.get (stock z) w.redis
        unread (admitted c u) v = p.redis.get-del (stock z) (admitted c u) w.redis
        unread (reconnect c u) v = p.redis.get-del (stock z) (reconnect c u) w.redis
        unread (lock y u) v = p.redis.get-del (stock z) (lock y u) w.redis
        unread (stock y) v = ground arith

    Step-Books : {w v : World p} → Step w v → Books z n w → Books z n v
    Step-Books (call e w) b = perform-Books e w b
    Step-Books (lapse k w v) b = lapse-Books k w v b
    Step-Books (forget i w) b =
        fewer_jobs-Books b (p.expiry.remove i w.expiry)
          (λ j x h. ground (arith, h, p.expiry.get_job-remove i j w.expiry))
    Step-Books (wait w t le) b = reread-Books b w.redis w.faults w.sent t refl

    -- Where no call to a store fails, books that are in balance stay so through any sequence of calls,
    -- ends of locks and admissions, forgotten jobs and passing time.
    pub Reach-Books : (w v : World p) → Books z n w → Reach w v → Books z n v
    Reach-Books w v b here = b
    Reach-Books w v b (next r s) = Step-Books s (Reach-Books w _ b r)

    -- Where no call to a store fails and the books begin in balance, the tickets of a zone that are sold or reserved by any
    -- reservations, each counted once, are never more than the books began with.
    pub sold-le :
        (w v : World p)
        → Books z n w
        → Reach w v
        → (is : List ℕ) → IsUnique is
        → total (λ i. sold z (p.reservations.find i v.reservations)) is
            + total (λ i. reserved z (p.reservations.find i v.reservations)) is
          ≤ n
    sold-le w v b r is u = omega (
      arith,
      books.unsold,
      books.balance,
      total_complete (λ i. sold z (p.reservations.find i v.reservations)) is books.ids u
          books.unique (λ i h. ground (arith, books.complete i)),
      total_complete (λ i. reserved z (p.reservations.find i v.reservations)) is books.ids u
          books.unique (λ i h. ground (arith, books.complete i)),
    )
      where
        books : Books z n v
        books = Reach-Books w v b r
