-- ===== src/Platform.antt =====
-- The state that all handlers share: Redis, the tables, the job queue, the socket server and the
-- clock, and the way a handler calls them. `faults` is the environment's plan for the coming calls:
-- `true` makes the next call throw before it takes effect, and an empty plan means that all succeed.
pub mod Rules
use Prim.Native.String.{String}
use ticket_queue_platform.Prelude.{
  ℕ, Bool, true, false, Option, none, some, List, [], ◌∷◌, Action, ok, err, if◌then◌else◌, contains,
  suc,
}
use ticket_queue_platform.Errors.{Error, unavailable}
use ticket_queue_platform.Schema.{
  Concert, ConcertZone, Reservation, Payment, RefreshToken, Post, Reply,
}
use ticket_queue_platform.Services.Redis.{Redis}
use ticket_queue_platform.Services.Table.{Table}
use ticket_queue_platform.Services.JobQueue.{JobQueue}
use ticket_queue_platform.Services.Accounts.{Users, Crypto}

-- `ReservationExpiryPayload`
pub record ReservationExpiryPayload : Type 0 where
  pub reservation_id : ℕ
  pub concert_zone_id : ℕ
  pub user_id : ℕ
  pub concert_id : ℕ
  pub quantity : ℕ

pub record Platform : Type 1 where
  pub redis : Redis
  pub concerts : Table Concert
  pub zones : Table ConcertZone
  pub reservations : Table Reservation
  -- by the id of the reservation, which is unique
  pub payments : Table Payment
  pub expiry : JobQueue ReservationExpiryPayload
  pub crypto : Crypto
  pub users : Users crypto.Digest
  -- by the digest of the token, which is unique
  pub tokens : Table RefreshToken
  pub posts : Table Post
  -- by the id of the post, which is unique
  pub replies : Table Reply
  -- `process.env.JWT_REFRESH_EXPIRES_IN`
  pub refresh_expires_in : Option String

-- A socket, with what the server keeps in its `data`, and the rooms of concerts that it is in.
pub record Connection : Type 0 where
  pub id : ℕ
  pub user_id : Option ℕ
  pub concert_id : Option ℕ
  pub rooms : List ℕ

-- What the server sends: to the personal room of a user, to the sockets of a user in a room, or to
-- one socket by its id. An error event carries the message of its error, or one of its own.
pub data Emission : Type 0 where
  queue_admitted queue_expired : ℕ → Emission
  queue_extended : ℕ → ℕ → Emission
  queue_position : ℕ → ℕ → ℕ → Emission
  socket_position : ℕ → ℕ → ℕ → Emission
  socket_error : ℕ → Error → Emission
  socket_refusal : ℕ → String → Emission

pub record World (p : Platform) : Type 0 where
  pub redis : p.redis.Store
  pub concerts : p.concerts.Rows
  pub zones : p.zones.Rows
  pub reservations : p.reservations.Rows
  pub payments : p.payments.Rows
  pub expiry : p.expiry.Jobs
  -- whether `initSocket` has run
  pub io : Bool
  pub sockets : List Connection
  -- the delayed jobs of disconnects, by concert and user
  pub disconnects : List (ℕ × ℕ)
  pub users : p.users.Rows
  pub tokens : p.tokens.Rows
  pub posts : p.posts.Rows
  pub replies : p.replies.Rows
  -- what `randomUUID`, or a salt, draws next
  pub random : ℕ
  -- what was emitted, the latest first
  pub sent : List Emission
  -- `Date.now()`
  pub now : ℕ
  pub faults : List Bool

-- the sockets of the room of a concert, by `data.userId`
abbrev pub in_room : ℕ → List Connection → List (Option ℕ)
in_room c [] = []
in_room c (s ∷ rest) = if contains c s.rooms then s.user_id ∷ in_room c rest else in_room c rest

-- The world with no fault ahead.
abbrev pub calm : {p : Platform} → World p → World p
calm w = record w { faults = [] }

module _ {p : Platform} {A : Type 0} where
  -- a call to a store, with the plan as it stands
  abbrev pub external_at : List Bool → Action (World p) A → Action (World p) A
  external_at [] f w = f w
  external_at (true ∷ rest) f w = (err unavailable, record w { faults = rest })
  external_at (false ∷ rest) f w = f (record w { faults = rest })

  -- One awaited call to a store.
  abbrev pub external : Action (World p) A → Action (World p) A
  external f w = external_at w.faults f w

  abbrev pub query : (World p → A) → Action (World p) A
  query f = external (λ w. (ok (f w), w))

module _ {p : Platform} where
  abbrev pub command : (World p → World p) → Action (World p) (Unit {0})
  command f = external (λ w. (ok tt, f w))

  -- A write that can be refused, and the world after it.
  abbrev pub write :
      {R : Type 0}
      → (World p → Option R)
      → Error
      → (R → World p → World p)
      → Action (World p) (Unit {0})
  write r e f = external (λ w. elim (r w) [ none ↦ (err e, w) | some x ↦ (ok tt, f x w) ])

  -- `io?.to(...).emit(...)`
  abbrev pub emit : Emission → Action (World p) (Unit {0})
  emit m w = (ok tt, if w.io then record w { sent = m ∷ w.sent } else w)

  -- `new Date()`, `Date.now()`
  abbrev pub now : Action (World p) ℕ
  now w = (ok w.now, w)

  -- a value that was not drawn before
  abbrev pub draw : Action (World p) ℕ
  draw w = (ok w.random, record w { random = suc w.random })

  -- `socket.emit(...)`
  abbrev pub socket_emit : Emission → Action (World p) (Unit {0})
  socket_emit m w = (ok tt, record w { sent = m ∷ w.sent })

  -- `io` as `initSocket` left it
  abbrev pub has_io : Action (World p) Bool
  has_io w = (ok w.io, w)
