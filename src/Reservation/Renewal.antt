-- ===== src/Reservation/Renewal.antt =====
-- `extendReservation` keeps the books of a zone in balance.
use ticket_queue_platform.Prelude.{
  ℕ, ◌≡◌, [], sym, subst, ◌∙◌, ap, true, some, arith, Option-cases, Bool-cases, inl, inr,
}
use ticket_queue_platform.Schema.{Reservation, pending}
use ticket_queue_platform.Platform.{Platform, World, calm}
use ticket_queue_platform.Services.Redis.{stock}
use ticket_queue_platform.Reservation.Repository.{set_status, lock_key}
use ticket_queue_platform.Reservation.Service.{extend_reservation, extend_ttl}
use ticket_queue_platform.Reservation.Books.{Books, calm-Books, fewer_jobs-Books, reread-Books}
use ticket_queue_platform.Reservation.Balance.{Changed, replaced}
use ticket_queue_platform.Reservation.Ending.{jobs_left, jobs_left_lem}
use ticket_queue_platform.Reservation.Extension.{
  extendable, may_extend, extended, stuck, renewed, rows, extend_refused, extend_stuck,
  extend_reservation_effect,
}

module _ {p : Platform} (i u : ℕ) (w : World p) where
  module _ {z n : ℕ} (b : Books z n w) (r : Reservation)
      (found : p.reservations.find i w.reservations ≡ some r)
      (may : extendable u (p.redis.ttl (lock_key r.concert_zone_id u) w.redis) (some r)
        ≡ true) where
    extended-Books : (c : ℕ) → Books z n (extended i u w r c)
    extended-Books c = replaced b change r found (ground arith) (ground arith)
      where
        change :
            Changed z w (extended i u w r c) i (set_status pending (some w.now) r) b.left b.remain
        change = record {
          rows = rows i u w r found may;
          in_stock =
              p.redis.get-expire (stock z) (lock_key r.concert_zone_id u) extend_ttl w.redis
                (omega arith)
              ∙ b.in_stock;
          zone = b.zone;
          zone_lem = b.zone_lem;
          remain_lem = b.remain_lem;
          paid = λ k. b.paid i r found (ground arith);
          payments = λ j h. h;
          jobs = λ j y h.
              ground (arith, b.jobs j y, renewed i u w r found may c j, rows i u w r found may j);
        }

    stuck-Books : Books z n (stuck i u w r)
    stuck-Books =
        fewer_jobs-Books
          (reread-Books b (p.redis.expire (lock_key r.concert_zone_id u) extend_ttl w.redis) []
            w.sent w.now
            (p.redis.get-expire (stock z) (lock_key r.concert_zone_id u) extend_ttl w.redis
              (omega arith)))
          (jobs_left i w) (jobs_left_lem i w)

  pub extend_reservation-Books :
      {z n : ℕ} → Books z n w → Books z n (extend_reservation i u (calm w)).1
  extend_reservation-Books {z} {n} b = elim (Bool-cases (may_extend i u w)) [
    | inl may ↦ elim (Option-cases (p.reservations.find i w.reservations)) [
      | inl gone ↦ ground arith
      | inr (r, found) ↦ granted r found (ground (arith, may))
    ]
    | inr may_not ↦ subst (Books z n) (sym (extend_refused i u w may_not)) (calm-Books b)
  ]
    where
      granted :
          (r : Reservation)
          → p.reservations.find i w.reservations ≡ some r
          → extendable u (p.redis.ttl (lock_key r.concert_zone_id u) w.redis) (some r) ≡ true
          → Books z n (extend_reservation i u (calm w)).1
      granted r found may = elim (Option-cases (p.zones.find r.concert_zone_id w.zones)) [
        | inl gone ↦
            subst (Books z n) (sym (extend_stuck i u w r found may gone))
              (stuck-Books b r found may)
        | inr (x, there) ↦
            subst (Books z n)
              (sym (ap (λ v. v.1) (extend_reservation_effect i u w r found may x there)))
              (extended-Books b r found may x.concert_id)
      ]
