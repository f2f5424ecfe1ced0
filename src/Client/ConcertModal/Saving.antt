-- ===== src/Client/ConcertModal/Saving.antt =====
-- What the dialog for a concert sends, where every call succeeds and where a zone fails.
use Prim.Native.String.{String}
use ticket_queue_platform.Prelude.{
  ℕ, zero, suc, true, false, ◌≡◌, refl, none, some, List, [], ◌∷◌, length, arith,
}
use ticket_queue_platform.Client.Failures.{Failure}
use ticket_queue_platform.Client.ConcertModal.{
  Number, ModalState, Mode, create, saving_concert, saving_zone, NewZoneRow, AdminCall,
  post_concert, post_zone, any_row, is_unfilled, finish, concert_body, zone_body, post_zones,
  handle_submit, call_succeeds, call_fails,
}

module _ (trim : String → String) (number : String → Number) (iso : String → String) where
  -- the calls for zones, over those that were made before
  abbrev pub zone_calls : ℕ → List NewZoneRow → List AdminCall → List AdminCall
  zone_calls id [] before = before
  zone_calls id (z ∷ zs) before =
      zone_calls id zs (post_zone id (zone_body trim number iso z) ∷ before)

  -- `n` calls that succeed
  abbrev pub all_succeed : ℕ → ℕ → ModalState → ModalState
  all_succeed zero created s = s
  all_succeed (suc n) created s = all_succeed n created (call_succeeds trim number iso created s)

  zones_saved :
      (m : Mode) (id created : ℕ) (zs : List NewZoneRow) (s : ModalState)
      → all_succeed (length zs) created (post_zones trim number iso m id zs s)
        ≡ finish (record s { sent = zone_calls id zs s.sent })
  unfolding call_succeeds
  zones_saved m id created [] s = refl
  zones_saved m id created (z ∷ zs) s = zones_saved m id created zs (record s {
    stage = some (saving_zone m id zs);
    sent = post_zone id (zone_body trim number iso z) ∷ s.sent;
  })

  -- A new concert whose rows are all filled, while no save is under way: when the calls succeed, the
  -- dialog has posted the concert and then its zones one by one, in their order and under the id of
  -- the reply, has reported one save, and is closed and ready again.
  pub create_saves :
      (s : ModalState) (z : NewZoneRow) (zs : List NewZoneRow) (created : ℕ)
      → s.saving ≡ false
      → s.mode ≡ create
      → s.new_zones ≡ z ∷ zs
      → any_row (is_unfilled trim number iso) s.new_zones ≡ false
      → all_succeed (suc (length s.new_zones)) created (handle_submit trim number iso s)
        ≡ record s {
          is_open = false;
          saving = false;
          error = none;
          stage = none;
          saved = suc s.saved;
          sent =
              zone_calls created s.new_zones
                (post_concert (concert_body trim number iso s.form) ∷ s.sent);
        }
  unfolding handle_submit call_succeeds
  create_saves s z zs created ready m rows filled = ground (
    arith,
    zones_saved create created created (z ∷ zs) (record s {
      saving = true;
      error = none;
      stage = some (saving_concert create 0 s.new_zones);
      sent = post_concert (concert_body trim number iso s.form) ∷ s.sent;
    }),
  )

  -- A zone of a new concert fails, while the dialog is still that of a new concert with filled rows:
  -- the button then posts the whole concert a second time.
  pub resubmit_posts_again :
      (s : ModalState) (e : Failure) (id : ℕ) (rest : List NewZoneRow) (z : NewZoneRow)
      (zs : List NewZoneRow)
      → s.stage ≡ some (saving_zone create id rest)
      → s.mode ≡ create
      → s.new_zones ≡ z ∷ zs
      → any_row (is_unfilled trim number iso) s.new_zones ≡ false
      → (handle_submit trim number iso (call_fails trim number iso e s)).sent
        ≡ post_concert (concert_body trim number iso s.form) ∷ s.sent
  unfolding handle_submit call_fails
  resubmit_posts_again s e id rest z zs waits m rows filled = ground arith
