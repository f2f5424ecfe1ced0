-- ===== src/Client/Cancel/Hidden.antt =====
-- The message of a cancellation that fails.
use ticket_queue_platform.Prelude.{
  ℕ, ◌≡◌, refl, Bool, true, false, not, ◌&&◌, ◌||◌, if◌then◌else◌, Option, none, some, is_some,
  List, [], ◌∷◌, arith,
}
use ticket_queue_platform.Client.Cancel.{
  CancelState, CancelEvent, closes, confirms, cancel_step, cancel_run, new_cancel, shows_error,
  handle_cancel_click, close_cancel, confirm_for, handle_cancel_confirm, cancel_succeeds,
  cancel_fails,
}

-- The dialog is not closed while its deletion is under way.
abbrev pub IsPatient : CancelEvent → CancelState → Type 0
IsPatient closes s = is_some s.cancelling ≡ false
IsPatient _ s = Unit

abbrev pub ArePatient : List CancelEvent → CancelState → Type 0
ArePatient [] s = Unit
ArePatient (e ∷ es) s = IsPatient e s × ArePatient es (cancel_step e s)

-- A message stands only over an open dialog, and a deletion is under way under an open dialog.
abbrev Covered : CancelState → Type 0
Covered s =
    ((is_some s.cancel_error && not (is_some s.cancel_target)) ≡ false)
    × ((is_some s.cancelling && (not (is_some s.cancel_target) || is_some s.cancel_error)) ≡ false)

confirm_for-Covered :
    (o : Option ℕ) (s : CancelState) → o ≡ s.cancel_target → Covered s → Covered (confirm_for o s)
confirm_for-Covered none s e h = h
confirm_for-Covered (some id) s e h = (ground arith, ground arith)

if-Covered : (b : Bool) (s t : CancelState) → Covered s → Covered t → Covered (if b then s else t)
if-Covered true s t h k = h
if-Covered false s t h k = k

cancel_step-Covered :
    (e : CancelEvent) (s : CancelState) → IsPatient e s → Covered s → Covered (cancel_step e s)
unfolding cancel_step handle_cancel_click close_cancel handle_cancel_confirm cancel_succeeds
    cancel_fails
cancel_step-Covered confirms s p h =
    if-Covered s.cancel_loading s _ h (confirm_for-Covered s.cancel_target s refl h)
cancel_step-Covered _ s p h = (ground arith, ground arith)

cancel_run-Covered :
    (es : List CancelEvent) (s : CancelState)
    → ArePatient es s
    → Covered s
    → Covered (cancel_run es s)
cancel_run-Covered [] s p h = h
cancel_run-Covered (e ∷ es) s (p, ps) h =
    cancel_run-Covered es (cancel_step e s) ps (cancel_step-Covered e s p h)

-- In any run of the page of reservations in which the dialog is not closed while its deletion is under
-- way, the page never shows the message of a cancellation that failed.
pub failure_hidden :
    (ids : List ℕ) (es : List CancelEvent)
    → ArePatient es (new_cancel ids)
    → shows_error (cancel_run es (new_cancel ids)) ≡ false
failure_hidden ids es p = (cancel_run-Covered es (new_cancel ids) p (refl, refl)).0
