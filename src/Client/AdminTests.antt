-- ===== src/Client/AdminTests.antt =====
-- The admin page: a concert with two zones is made, and a concert is deleted.
use Prim.Native.String.{String}
use ticket_queue_platform.Prelude.{pos, ◌≡◌, refl, some, none, List, [], ◌∷◌, true, false}
use ticket_queue_platform.Client.Failures.{Failure}
use ticket_queue_platform.Client.ConcertModal.{
  Number, finite, ModalState, ConcertForm, NewZoneRow, create, saving_zone, empty_concert_form,
  post_concert, concert_body, handle_submit, call_fails,
}
use ticket_queue_platform.Client.ConcertModal.Saving.{
  zone_calls, all_succeed, create_saves, resubmit_posts_again,
}
use ticket_queue_platform.Client.AdminPage.{
  AdminState, AdminEvent, asks, presses_delete, succeeds, closes, manage, manage_all,
}
use ticket_queue_platform.Client.AdminPage.Deleting.{deletes_once}

-- Fields that hold nothing but plain text, and numbers of two digits.
abbrev same_text : String → String
same_text t = t

abbrev ten : String → Number
ten t = finite (pos 10) (pos 0)

abbrev vip_row : NewZoneRow
vip_row = record { key = 1; name = "VIP"; price = "10"; total_quantity = "10" }

abbrev back_row : NewZoneRow
back_row = record { key = 2; name = "Back"; price = "10"; total_quantity = "10" }

abbrev tour_form : ConcertForm
tour_form = record empty_concert_form { title = "Tour"; artist = "Band"; venue = "Arena" }

abbrev filled_in : ModalState
filled_in = record {
  is_open = true;
  mode = create;
  initial = none;
  form = tour_form;
  new_zones = vip_row ∷ back_row ∷ [];
  existing_zones = [];
  existing_zones_loading = false;
  saving = false;
  error = none;
  stage = none;
  saved = 0;
  sent = [];
}

create_saves_example :
    all_succeed same_text ten same_text 3 77 (handle_submit same_text ten same_text filled_in)
    ≡ record filled_in {
      is_open = false;
      saved = 1;
      sent =
          zone_calls same_text ten same_text 77 filled_in.new_zones
            (post_concert (concert_body same_text ten same_text tour_form) ∷ []);
    }
create_saves_example =
    create_saves same_text ten same_text filled_in vip_row (back_row ∷ []) 77 refl refl refl refl

-- The concert is there, and its second zone is on its way.
abbrev half_saved : ModalState
half_saved = record filled_in { saving = true; stage = some (saving_zone create 77 []) }

abbrev taken_name : Failure
taken_name = record {
  is_axios = true;
  is_error = true;
  status = some 409;
  server_message = some "taken";
  message = "Request failed";
  code = none;
}

resubmit_posts_again_example :
    (handle_submit same_text ten same_text
      (call_fails same_text ten same_text taken_name half_saved)).sent
    ≡ post_concert (concert_body same_text ten same_text tour_form) ∷ []
resubmit_posts_again_example =
    resubmit_posts_again same_text ten same_text half_saved taken_name 77 [] vip_row (back_row ∷ [])
      refl refl refl refl

abbrev two_concerts : AdminState
two_concerts = record {
  concerts = [];
  concerts_loading = false;
  concerts_error = none;
  selected_concert = some 3;
  zones = [];
  zones_loading = false;
  delete_target = some 3;
  deleting = false;
  deletions = [];
  list_calls = 1;
  stats_calls = 3 ∷ [];
  deleted = [];
}

-- A second concert is chosen, and the button is pressed twice.
abbrev another_try : List AdminEvent
another_try = asks 4 ∷ presses_delete ∷ presses_delete ∷ closes ∷ []

deletes_once_example :
    (manage_all another_try (manage succeeds (manage presses_delete two_concerts))).deleted ≡ 3 ∷ []
deletes_once_example =
    deletes_once 3 another_try two_concerts refl refl refl (refl, (refl, (refl, (refl, tt))))
