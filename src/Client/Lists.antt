-- ===== src/Client/Lists.antt =====
-- The lists that the pages load: useReservations of client/src/pages/ReservationsPage.tsx, usePosts of
-- SupportPage.tsx, useAdminPosts of AdminSupportPage.tsx, useConcerts of ConcertsPage.tsx and
-- useConcertDetail of ConcertDetailPage.tsx, with what the pages show of them.
use Prim.Native.String.{String}
use ticket_queue_platform.Prelude.{
  ℕ, Bool, true, false, not, ◌&&◌, if◌then◌else◌, Option, none, some, List, [], ◌∷◌, select, length,
  ℤ, pos, eq_ℤ,
}
use ticket_queue_platform.Concert.Repository.{same_status}
use ticket_queue_platform.Schema.{
  ConcertStatus, scheduled, on_sale, sold_out, ended, PostStatus, is_on_sale,
}

pub record Loader {ℓ} (A : Type ℓ) : Type ℓ where
  pub data_ : A
  pub loading : Bool
  pub error : Option String

module _ {ℓ} {A : Type ℓ} where
  -- the start of a call of the hook
  abbrev pub fetch_starts : Loader A → Loader A
  fetch_starts s = record s { loading = true; error = none }

  -- A list of reservations or posts stays where its call fails.
  abbrev pub list_arrives : Option A → String → Loader A → Loader A
  list_arrives (some list) message s = record s { data_ = list; loading = false }
  list_arrives none message s = record s { error = some message; loading = false }

  -- The list of concerts and the detail of one are emptied then.
  abbrev pub concerts_arrive : Option A → A → String → Loader A → Loader A
  concerts_arrive (some list) empty message s = record {
    data_ = list;
    loading = false;
    error = none;
  }
  concerts_arrive none empty message s = record {
    data_ = empty;
    loading = false;
    error = some message;
  }

-- the tabs of the list of concerts
pub data FilterTab : Type 0 where
  all_tab : FilterTab
  status_tab : ConcertStatus → FilterTab

abbrev pub filtered : {A : Type 0} → (A → ConcertStatus) → FilterTab → List A → List A
filtered status all_tab concerts = concerts
filtered status (status_tab s) concerts = select (λ c. same_status (status c) s) concerts

abbrev pub is_answered : PostStatus → Bool
is_answered PostStatus.pending = false
is_answered PostStatus.answered = true

-- the two numbers over the list of the administration
abbrev pub count_posts : {A : Type 0} → (A → PostStatus) → List A → ℕ × ℕ
count_posts status posts = (
  length (select (λ p. not (is_answered (status p))) posts),
  length (select (λ p. is_answered (status p)) posts),
)

-- a zone in the detail of a concert
pub record DetailZone : Type 0 where
  pub name : String
  pub price : ℕ
  pub total_quantity : ℕ
  pub remain_quantity : ℤ

abbrev pub all_zones_empty : List DetailZone → Bool
all_zones_empty [] = true
all_zones_empty (z ∷ zs) = eq_ℤ z.remain_quantity (pos 0) && all_zones_empty zs

-- `concert.zones.length > 0 && concert.zones.every(...)`
abbrev pub all_sold_out : List DetailZone → Bool
all_sold_out [] = false
all_sold_out (z ∷ zs) = all_zones_empty (z ∷ zs)

abbrev pub can_enter_queue : ConcertStatus → List DetailZone → Bool
can_enter_queue status zones = is_on_sale status && not (all_sold_out zones)

unfoldable pub cta_label : ConcertStatus → List DetailZone → String
cta_label scheduled zones = "판매 예정"
cta_label ended zones = "판매 종료"
cta_label on_sale zones = if all_sold_out zones then "매진된 공연입니다" else "대기열 진입하기"
cta_label sold_out zones = if all_sold_out zones then "매진된 공연입니다" else "대기열 진입하기"
