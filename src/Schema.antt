-- ===== src/Schema.antt =====
-- prisma/schema.prisma: the enums and models. Ids are compared and never computed with, so they
-- are numbers; a date is a count of milliseconds.
use Prim.Native.Nat.{ℕ}
use Prim.Native.String.{String}
use mathlib.Core.Bool.{Bool, true, false}
use mathlib.Core.Option.{Option}
use ticket_queue_platform.Prelude.Int.{ℤ}

pub data ConcertStatus : Type 0 where
  scheduled on_sale sold_out ended : ConcertStatus

pub data ReservationStatus : Type 0 where
  pending confirmed cancelled expired : ReservationStatus

pub data PaymentStatus : Type 0 where
  ready done cancelled failed : PaymentStatus

pub data Role : Type 0 where
  admin user : Role

pub data PostStatus : Type 0 where
  pending answered : PostStatus

pub record Concert : Type 0 where
  pub title : String
  pub artist : String
  pub venue : String
  pub concert_date : ℕ
  pub sale_start_at : ℕ
  pub status : ConcertStatus

pub record ConcertZone : Type 0 where
  pub concert_id : ℕ
  pub name : String
  pub price : ℕ
  pub total_quantity : ℕ
  -- decremented without a check, so it can fall below 0
  pub remain_quantity : ℤ

pub record Reservation : Type 0 where
  pub user_id : ℕ
  pub concert_zone_id : ℕ
  pub quantity : ℕ
  pub total_price : ℕ
  pub status : ReservationStatus
  pub extended_at : Option ℕ

pub record Payment : Type 0 where
  pub payment_key : Option String
  pub amount : ℕ
  pub status : PaymentStatus
  pub paid_at : Option ℕ

-- `password` is the digest that bcrypt made; `created_at` is set by the database.
pub record User (Digest : Type 0) : Type 0 where
  pub email : String
  pub password : Digest
  pub nickname : String
  pub role : Role
  pub created_at : ℕ

-- by the digest of the token, which is unique
pub record RefreshToken : Type 0 where
  pub user_id : ℕ
  pub expires_at : ℕ

pub record Post : Type 0 where
  pub user_id : ℕ
  pub title : String
  pub content : String
  pub status : PostStatus

-- by the id of the post, which is unique
pub record Reply : Type 0 where
  pub admin_id : ℕ
  pub content : String

-- `status === 'ON_SALE'`
abbrev pub is_on_sale : ConcertStatus → Bool
is_on_sale on_sale = true
is_on_sale _ = false

-- `status === 'SCHEDULED'`
abbrev pub is_scheduled : ConcertStatus → Bool
is_scheduled scheduled = true
is_scheduled _ = false

-- `status === 'PENDING'`
abbrev pub is_pending : ReservationStatus → Bool
is_pending pending = true
is_pending _ = false
