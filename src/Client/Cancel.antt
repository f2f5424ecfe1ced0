-- ===== src/Client/Cancel.antt =====
-- client/src/pages/ReservationsPage.tsx: the dialog that cancels a reservation, over its list. The
-- dialog covers the page while it is open.
pub mod Hidden
use Prim.Native.String.{String}
use ticket_queue_platform.Prelude.{
  ℕ, suc, Bool, true, false, not, ◌&&◌, if◌then◌else◌, Option, none, some, is_some, List, [], ◌∷◌,
  contains,
}

pub record CancelState : Type 0 where
  -- the ids of the list
  pub reservations : List ℕ
  pub cancel_target : Option ℕ
  pub cancel_loading : Bool
  pub cancel_error : Option String
  -- the deletion that is under way
  pub cancelling : Option ℕ
  -- the deletions that were posted, the latest first, and how often the list was loaded again
  pub posted : List ℕ
  pub retries : ℕ

-- `cancelError && !cancelTarget`
abbrev pub shows_error : CancelState → Bool
shows_error s = is_some s.cancel_error && not (is_some s.cancel_target)

unfoldable pub handle_cancel_click : ℕ → CancelState → CancelState
handle_cancel_click id s = if is_some s.cancel_target then s else record s {
  cancel_target = if contains id s.reservations then some id else none;
  cancel_error = none;
}

-- The buttons are disabled while a deletion is under way, and the backdrop is not.
unfoldable pub close_cancel : CancelState → CancelState
close_cancel s = record s { cancel_target = none; cancel_error = none }

abbrev pub confirm_for : Option ℕ → CancelState → CancelState
confirm_for none s = s
confirm_for (some id) s = record s {
  cancel_loading = true;
  cancel_error = none;
  cancelling = some id;
  posted = id ∷ s.posted;
}

unfoldable pub handle_cancel_confirm : CancelState → CancelState
handle_cancel_confirm s = if s.cancel_loading then s else confirm_for s.cancel_target s

unfoldable pub cancel_succeeds : CancelState → CancelState
cancel_succeeds s =
    if is_some s.cancelling
    then record s {
      cancel_target = none;
      cancelling = none;
      cancel_loading = false;
      retries = suc s.retries;
    }
    else s

unfoldable pub cancel_fails : CancelState → CancelState
cancel_fails s =
    if is_some s.cancelling
    then record s {
      cancel_error = some "취소 처리 중 오류가 발생했습니다";
      cancelling = none;
      cancel_loading = false;
    }
    else s

pub data CancelEvent : Type 0 where
  clicks_cancel : ℕ → CancelEvent
  closes confirms cancelled_ok cancel_error_arrives : CancelEvent

unfoldable pub cancel_step : CancelEvent → CancelState → CancelState
cancel_step (clicks_cancel id) s = handle_cancel_click id s
cancel_step closes s = close_cancel s
cancel_step confirms s = handle_cancel_confirm s
cancel_step cancelled_ok s = cancel_succeeds s
cancel_step cancel_error_arrives s = cancel_fails s

abbrev pub cancel_run : List CancelEvent → CancelState → CancelState
cancel_run [] s = s
cancel_run (e ∷ es) s = cancel_run es (cancel_step e s)

abbrev pub new_cancel : List ℕ → CancelState
new_cancel ids = record {
  reservations = ids;
  cancel_target = none;
  cancel_loading = false;
  cancel_error = none;
  cancelling = none;
  posted = [];
  retries = 0;
}
