-- ===== src/Client/ZoneModal.antt =====
-- client/src/pages/AdminPage.tsx: the dialog that changes a zone. `Number` and `String`
-- of a number are parameters.
use Prim.Native.String.{String}
use package.text.Mathlib.Text.{◌==◌ as str_eq}
use ticket_queue_platform.Prelude.{
  ℕ, suc, Bool, true, false, if◌then◌else◌, Option, none, some, List, ◌∷◌,
}
use ticket_queue_platform.Client.ConcertModal.{Number, ZoneStat}
use ticket_queue_platform.Client.Failures.{Failure, get_error_message}

pub record ZoneForm : Type 0 where
  pub name : String
  pub price : String
  pub total_quantity : String

-- `body`: a key that is there, with its value
pub record ZonePatch : Type 0 where
  pub name : Option String
  pub price : Option Number
  pub total_quantity : Option Number

pub record ZoneModalState : Type 0 where
  -- the properties
  pub is_open : Bool
  pub zone : Option ZoneStat
  -- the state
  pub form : ZoneForm
  pub saving : Bool
  pub error : Option String
  -- how often `onSaved` was called, and the calls that were made, the latest first
  pub saved : ℕ
  pub patches : List (ℕ × ZonePatch)

-- The empty string is false.
abbrev pub field {ℓ} : {A : Type ℓ} → (String → A) → String → Option A
field f text = if str_eq text "" then none else some (f text)

module _ (number : String → Number) (string : ℕ → String) where
  -- the effect when the dialog opens for a zone
  unfoldable pub opens_zone : ZoneStat → ZoneModalState → ZoneModalState
  opens_zone zone s = record s {
    is_open = true;
    zone = some zone;
    form = record { name = zone.name; price = ""; total_quantity = string zone.total_quantity };
    error = none;
  }

  abbrev pub zone_patch : ZoneForm → ZonePatch
  zone_patch form = record {
    name = field (λ t. t) form.name;
    price = field number form.price;
    total_quantity = field number form.total_quantity;
  }

  abbrev pub patch_for : Option ZoneStat → ZoneModalState → ZoneModalState
  patch_for none s = s
  patch_for (some zone) s = record s {
    saving = true;
    error = none;
    patches = (zone.id, zone_patch s.form) ∷ s.patches;
  }

  -- The button is disabled while a save is under way.
  unfoldable pub submit_zone : ZoneModalState → ZoneModalState
  submit_zone s = if s.saving then s else patch_for s.zone s

-- `onSaved(); onClose();` and the finally block
unfoldable pub zone_saved : ZoneModalState → ZoneModalState
zone_saved s = record s { saved = suc s.saved; is_open = false; zone = none; saving = false }

unfoldable pub zone_save_failed : Failure → ZoneModalState → ZoneModalState
zone_save_failed e s = record s { error = some (get_error_message e "저장에 실패했습니다."); saving = false }
