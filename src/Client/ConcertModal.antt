-- ===== src/Client/ConcertModal.antt =====
-- client/src/pages/AdminPage.tsx: the dialog that makes or changes a concert with its zones. What
-- JavaScript makes of the text of a field is a parameter: `trim`, `Number` and
-- `new Date(text).toISOString()`. A date that is not one is left out: the field does not take it.
pub mod Saving
use Prim.Native.String.{String, slice, len, ◌++◌ as append}
use ticket_queue_platform.Prelude.{
  ℕ, suc, Bool, true, false, not, ◌&&◌, ◌||◌, ◌==◌, if◌then◌else◌, Option, none, some, List, [],
  ◌∷◌, ◌++◌, map, length, select, ℤ,
}
use ticket_queue_platform.Client.Failures.{Failure, get_error_message}

pub data Mode : Type 0 where
  create edit : Mode

abbrev pub is_create : Mode → Bool
is_create create = true
is_create edit = false

pub record ConcertForm : Type 0 where
  pub title : String
  pub artist : String
  pub venue : String
  pub concert_date : String
  pub sale_start_at : String

-- a concert of the list: its id, and the rest as the form has it
pub record ListedConcert : Type 0 where
  pub id : ℕ
  pub fields : ConcertForm

pub record ZoneStat : Type 0 where
  pub id : ℕ
  pub name : String
  pub total_quantity : ℕ
  pub remain_quantity : ℤ
  pub reservation_count : ℕ

pub record NewZoneRow : Type 0 where
  pub key : ℕ
  pub name : String
  pub price : String
  pub total_quantity : String

abbrev pub empty_concert_form : ConcertForm
empty_concert_form = record {
  title = "";
  artist = "";
  venue = "";
  concert_date = "";
  sale_start_at = "";
}

unfoldable pub make_zone_row : ℕ → NewZoneRow
make_zone_row uuid = record { key = uuid; name = ""; price = ""; total_quantity = "" }

-- what `Number(text)` can be: NaN, an infinity, or m · 2^e
pub data Number : Type 0 where
  nan : Number
  infinite : Bool → Number
  finite : ℤ → ℤ → Number

pub record ZoneBody : Type 0 where
  pub name : String
  pub price : Number
  pub total_quantity : Number

pub data AdminCall : Type 0 where
  post_concert : ConcertForm → AdminCall
  patch_concert : ℕ → ConcertForm → AdminCall
  post_zone : ℕ → ZoneBody → AdminCall
  get_stats : ℕ → AdminCall

-- where a run of `handleSubmit` waits: for the concert, with its zones, or for the first of the
-- zones that are left
pub data SaveStage : Type 0 where
  saving_concert : Mode → ℕ → List NewZoneRow → SaveStage
  saving_zone : Mode → ℕ → List NewZoneRow → SaveStage

pub record ModalState : Type 0 where
  -- the properties
  pub is_open : Bool
  pub mode : Mode
  pub initial : Option ListedConcert
  -- the state
  pub form : ConcertForm
  pub new_zones : List NewZoneRow
  pub existing_zones : List ZoneStat
  pub existing_zones_loading : Bool
  pub saving : Bool
  pub error : Option String
  pub stage : Option SaveStage
  -- how often `onSaved` was called
  pub saved : ℕ
  -- the calls that were made, the latest first
  pub sent : List AdminCall

-- the form of a concert, with its dates cut to what the field takes
abbrev pub form_of : ListedConcert → ConcertForm
form_of c = record c.fields {
  concert_date = slice c.fields.concert_date 0 16;
  sale_start_at = slice c.fields.sale_start_at 0 16;
}

abbrev pub fill_new : ℕ → ModalState → ModalState
fill_new uuid s = record s {
  form = empty_concert_form;
  new_zones = make_zone_row uuid ∷ [];
  existing_zones = [];
}

abbrev pub fill_by : Mode → Option ListedConcert → ℕ → ModalState → ModalState
fill_by edit (some c) uuid s = record s {
  form = form_of c;
  new_zones = [];
  existing_zones_loading = true;
  sent = get_stats c.id ∷ s.sent;
}
fill_by edit none uuid s = fill_new uuid s
fill_by create _ uuid s = fill_new uuid s

-- the effect when the dialog opens
unfoldable pub opens : Mode → Option ListedConcert → ℕ → ModalState → ModalState
opens mode initial uuid s =
    fill_by mode initial uuid
      (record s { is_open = true; mode = mode; initial = initial; error = none })

unfoldable pub stats_arrive : List ZoneStat → ModalState → ModalState
stats_arrive zones s = record s { existing_zones = zones; existing_zones_loading = false }

unfoldable pub stats_fail : ModalState → ModalState
stats_fail s = record s { existing_zones = []; existing_zones_loading = false }

unfoldable pub add_zone_row : ℕ → ModalState → ModalState
add_zone_row uuid s = record s { new_zones = s.new_zones ++ make_zone_row uuid ∷ [] }

-- The button is disabled for the only row of a new concert.
unfoldable pub remove_zone_row : ℕ → ModalState → ModalState
remove_zone_row key s =
    if is_create s.mode && length s.new_zones == 1
    then s
    else record s { new_zones = select (λ r. not (r.key == key)) s.new_zones }

-- by what the field of the row becomes
unfoldable pub update_zone_row : ℕ → (NewZoneRow → NewZoneRow) → ModalState → ModalState
update_zone_row key f s = record s {
  new_zones = map (λ r. if r.key == key then f r else r) s.new_zones;
}

-- `newZones.some(...)`
abbrev pub any_row : (NewZoneRow → Bool) → List NewZoneRow → Bool
any_row f [] = false
any_row f (r ∷ rs) = f r || any_row f rs

abbrev pub is_empty : {A : Type 0} → List A → Bool
is_empty [] = true
is_empty (x ∷ xs) = false

abbrev pub prefix : Mode → String
prefix create = "공연은 생성됐지만"
prefix edit = "공연은 수정됐지만"

-- after the last zone: `onSaved(); onClose();` and the finally block
abbrev pub finish : ModalState → ModalState
finish s = record s { saved = suc s.saved; is_open = false; saving = false; stage = none }

module _ (trim : String → String) (number : String → Number) (iso : String → String) where
  abbrev pub is_blank : String → Bool
  is_blank t = len (trim t) == 0

  abbrev pub is_unfilled : NewZoneRow → Bool
  is_unfilled z = is_blank z.name || is_blank z.price || is_blank z.total_quantity

  abbrev pub concert_body : ConcertForm → ConcertForm
  concert_body form = record form {
    concert_date = iso form.concert_date;
    sale_start_at = iso form.sale_start_at;
  }

  abbrev pub zone_body : NewZoneRow → ZoneBody
  zone_body z = record {
    name = trim z.name;
    price = number z.price;
    total_quantity = number z.total_quantity;
  }

  -- the loop over the zones, up to its next call
  abbrev pub post_zones : Mode → ℕ → List NewZoneRow → ModalState → ModalState
  post_zones mode concert_id [] s = finish s
  post_zones mode concert_id (z ∷ zs) s = record s {
    stage = some (saving_zone mode concert_id zs);
    sent = post_zone concert_id (zone_body z) ∷ s.sent;
  }

  -- the first call of the try block
  abbrev pub save_concert : Mode → Option ListedConcert → ModalState → ModalState
  save_concert create initial s = record s {
    stage = some (saving_concert create 0 s.new_zones);
    sent = post_concert (concert_body s.form) ∷ s.sent;
  }
  save_concert edit none s = s
  save_concert edit (some c) s = record s {
    stage = some (saving_concert edit c.id s.new_zones);
    sent = patch_concert c.id (concert_body s.form) ∷ s.sent;
  }

  -- The button is disabled while a save is under way.
  unfoldable pub handle_submit : ModalState → ModalState
  handle_submit s =
      if s.saving
      then s
      else if is_create s.mode && is_empty s.new_zones
      then record s { error = some "최소 1개 구역을 등록해야 합니다." }
      else if any_row is_unfilled s.new_zones
      then record s { error = some "모든 구역의 구역명, 가격, 수량을 입력해주세요." }
      else save_concert s.mode s.initial (record s { saving = true; error = none })

  -- the id of a new concert in the reply
  abbrev pub saved_id : Mode → ℕ → ℕ → ℕ
  saved_id create id created = created
  saved_id edit id created = id

  -- a reply to the call that is waited for; `created` is the id in the reply to a new concert
  abbrev pub save_goes_on : Option SaveStage → ℕ → ModalState → ModalState
  save_goes_on none created s = s
  save_goes_on (some (saving_concert mode id zones)) created s =
      post_zones mode (saved_id mode id created) zones s
  save_goes_on (some (saving_zone mode id rest)) created s = post_zones mode id rest s

  unfoldable pub call_succeeds : ℕ → ModalState → ModalState
  call_succeeds created s = save_goes_on s.stage created s

  -- the catch block and the finally block. A zone fails only where there are zones.
  abbrev pub save_stops : Option SaveStage → Failure → ModalState → ModalState
  save_stops none e s = s
  save_stops (some (saving_concert mode id zones)) e s = record s {
    error = some (get_error_message e "저장에 실패했습니다.");
    saving = false;
    stage = none;
  }
  save_stops (some (saving_zone mode id rest)) e s = record s {
    error = some (
        append (prefix mode) (
          append " 구역 등록 중 오류가 발생했습니다: "
            (append (get_error_message e "저장에 실패했습니다.") ". 공연 수정에서 구역을 추가해주세요.")));
    saved = suc s.saved;
    saving = false;
    stage = none;
  }

  unfoldable pub call_fails : Failure → ModalState → ModalState
  call_fails e s = save_stops s.stage e s
