-- ===== src/Reservation/Books.antt =====
-- The books of one zone: what the stock counter, the rows and the jobs say about each other, and the
-- changes of them that balance.
use ticket_queue_platform.Prelude.{
  ℕ, ◌+◌, ◌≡◌, refl, true, false, ◌&&◌, ◌==◌, if◌then◌else◌, Bool, Option, none, some, List, [],
  ◌∙◌, contains, is_some, pos,
}
use ticket_queue_platform.Schema.{
  ConcertZone, Reservation, ReservationStatus, confirmed, is_pending,
}
use ticket_queue_platform.Platform.{Platform, World, calm, Emission, ReservationExpiryPayload}
use ticket_queue_platform.Services.JobQueue.{Job}
use ticket_queue_platform.Services.Redis.{stock, number, waiting, admitted}
use ticket_queue_platform.Platform.Rules.{IsQuiet, Keeps}
use ticket_queue_platform.Queue.Service.{admit_next_user}
use ticket_queue_platform.Queue.Untouched.{admit_next_user-Keeps}
use ticket_queue_platform.Reservation.Totals.{total, IsUnique}

abbrev pub is_confirmed : ReservationStatus → Bool
is_confirmed confirmed = true
is_confirmed _ = false

-- the tickets of zone `z` that a row keeps from the stock while it waits for its payment
abbrev pub reserved : ℕ → Option Reservation → ℕ
reserved z none = 0
reserved z (some r) = if (r.concert_zone_id == z) && is_pending r.status then r.quantity else 0

-- the tickets of zone `z` that a row has sold
abbrev pub sold : ℕ → Option Reservation → ℕ
sold z none = 0
sold z (some r) = if (r.concert_zone_id == z) && is_confirmed r.status then r.quantity else 0

-- a job and the row that it ends
abbrev pub Agrees : ℕ → ReservationExpiryPayload → Option Reservation → Type 0
Agrees i x none = (x.reservation_id ≡ i) × (true ≡ false)
Agrees i x (some r) =
    (x.reservation_id ≡ i)
    × (x.concert_zone_id ≡ r.concert_zone_id)
    × (x.quantity ≡ r.quantity)
    × (x.user_id ≡ r.user_id)

pub Agrees-id :
    (i : ℕ) (x : ReservationExpiryPayload) (o : Option Reservation)
    → Agrees i x o
    → x.reservation_id ≡ i
Agrees-id i x none h = h.0
Agrees-id i x (some r) h = h.0

-- The ids of all reservations, each once. A pending row has a payment, and the job of a row agrees with
-- it.
pub record Rows {p : Platform} (w : World p) : Type 0 where
  pub ids : List ℕ
  pub unique : IsUnique ids
  pub complete : (i : ℕ) → contains i ids ≡ is_some (p.reservations.find i w.reservations)
  pub paid :
      (i : ℕ) (r : Reservation)
      → p.reservations.find i w.reservations ≡ some r
      → is_pending r.status ≡ true
      → is_some (p.payments.find i w.payments) ≡ true
  pub jobs :
      (i : ℕ) (j : Job ReservationExpiryPayload)
      → p.expiry.get_job i w.expiry ≡ some j
      → Agrees i j.payload (p.reservations.find i w.reservations)

-- All `n` tickets of zone `z` are in stock, reserved or sold, and `remain_quantity` counts what
-- is not sold. A pending row has a payment, and the job of a row agrees with it.
pub record Books {p : Platform} (z n : ℕ) (w : World p) : Type 0 where
  pub ids : List ℕ
  pub left : ℕ
  pub zone : ConcertZone
  pub remain : ℕ
  pub unique : IsUnique ids
  pub complete : (i : ℕ) → contains i ids ≡ is_some (p.reservations.find i w.reservations)
  pub in_stock : p.redis.get (stock z) w.redis ≡ some (number (pos left))
  pub zone_lem : p.zones.find z w.zones ≡ some zone
  pub remain_lem : zone.remain_quantity ≡ pos remain
  pub unsold : remain + total (λ i. sold z (p.reservations.find i w.reservations)) ids ≡ n
  pub balance : left + total (λ i. reserved z (p.reservations.find i w.reservations)) ids ≡ remain
  pub paid :
      (i : ℕ) (r : Reservation)
      → p.reservations.find i w.reservations ≡ some r
      → is_pending r.status ≡ true
      → is_some (p.payments.find i w.payments) ≡ true
  pub jobs :
      (i : ℕ) (j : Job ReservationExpiryPayload)
      → p.expiry.get_job i w.expiry ≡ some j
      → Agrees i j.payload (p.reservations.find i w.reservations)

-- Of Redis the books read the stock counter alone, and they read neither faults, messages nor the clock.
pub reread-Books :
    {p : Platform} {z n : ℕ} {w : World p}
    → Books z n w
    → (s : p.redis.Store) (fs : List Bool) (ms : List Emission) (t : ℕ)
    → p.redis.get (stock z) s ≡ p.redis.get (stock z) w.redis
    → Books z n (record w { redis = s; faults = fs; sent = ms; now = t })
reread-Books b s fs ms t h = record {
  ids = b.ids;
  left = b.left;
  zone = b.zone;
  remain = b.remain;
  unique = b.unique;
  complete = b.complete;
  in_stock = h ∙ b.in_stock;
  zone_lem = b.zone_lem;
  remain_lem = b.remain_lem;
  unsold = b.unsold;
  balance = b.balance;
  paid = b.paid;
  jobs = b.jobs;
}

pub calm-Books : {p : Platform} {z n : ℕ} {w : World p} → Books z n w → Books z n (calm w)
calm-Books {w = w} b = reread-Books b w.redis [] w.sent w.now refl

-- Admission leaves the books alone.
pub Books-IsQuiet : {p : Platform} {z n : ℕ} → IsQuiet {p = p} (Books z n)
Books-IsQuiet = record {
  faults = λ w fs b. reread-Books b w.redis fs w.sent w.now refl;
  sent = λ w ms b. reread-Books b w.redis w.faults ms w.now refl;
}

pub admit_next_user-Books :
    {p : Platform} {z n : ℕ} (c : ℕ) → Keeps (Books {p = p} z n) (admit_next_user c)
admit_next_user-Books {p} {z} c =
    admit_next_user-Keeps Books-IsQuiet
      (λ d u w b.
        reread-Books b (p.redis.zrem (waiting d) u w.redis) w.faults w.sent w.now
          (p.redis.get-zrem (stock z) (waiting d) u w.redis))
      (λ d u x k w b.
        reread-Books b (p.redis.set_ex (admitted d u) x k w.redis) w.faults w.sent w.now
          (p.redis.get-set_ex (stock z) (admitted d u) x k w.redis))
      c

-- Jobs that are gone do not matter.
pub fewer_jobs-Books :
    {p : Platform} {z n : ℕ} {w : World p}
    → Books z n w
    → (q : p.expiry.Jobs)
    → ((j : ℕ) (x : Job ReservationExpiryPayload)
        → p.expiry.get_job j q ≡ some x
        → p.expiry.get_job j w.expiry ≡ some x)
    → Books z n (record w { expiry = q })
fewer_jobs-Books b q sub = record {
  ids = b.ids;
  left = b.left;
  zone = b.zone;
  remain = b.remain;
  unique = b.unique;
  complete = b.complete;
  in_stock = b.in_stock;
  zone_lem = b.zone_lem;
  remain_lem = b.remain_lem;
  unsold = b.unsold;
  balance = b.balance;
  paid = b.paid;
  jobs = λ i j h. b.jobs i j (sub i j h);
}
