-- ===== src/Client/AdminPage.antt =====
-- client/src/pages/AdminPage.tsx: the page with its list of concerts, the statistics of the selected
-- one, and the dialogs that delete a concert and change a zone. Calls are kept until their replies.
pub mod Deleting
use Prim.Native.String.{String}
use ticket_queue_platform.Prelude.{
  ℕ, suc, ◌+◌, ◌==◌, Bool, true, false, if◌then◌else◌, Option, none, some, List, [], ◌∷◌, ℤ, pos,
  ◌+ℤ◌, ◌-ℤ◌,
}
use ticket_queue_platform.Client.ConcertModal.{ListedConcert, ZoneStat}

-- the sums of StatsPanel
pub record Totals : Type 0 where
  pub total_quantity : ℕ
  pub remain_quantity : ℤ
  pub reservation_count : ℕ

abbrev pub total_of : Totals → List ZoneStat → Totals
total_of acc [] = acc
total_of acc (z ∷ zs) =
    total_of
      (record {
        total_quantity = acc.total_quantity + z.total_quantity;
        remain_quantity = acc.remain_quantity +ℤ z.remain_quantity;
        reservation_count = acc.reservation_count + z.reservation_count;
      })
      zs

abbrev pub total : List ZoneStat → Totals
total zones =
    total_of (record { total_quantity = 0; remain_quantity = pos 0; reservation_count = 0 }) zones

abbrev pub sold_total : Totals → ℤ
sold_total t = pos t.total_quantity -ℤ t.remain_quantity

-- a deletion that is under way: its concert, and the concert that was selected when it was started
pub record Deletion : Type 0 where
  pub concert : ℕ
  pub selected : Option ℕ

pub record AdminState : Type 0 where
  pub concerts : List ListedConcert
  pub concerts_loading : Bool
  pub concerts_error : Option String
  -- the id of `selectedConcert`
  pub selected_concert : Option ℕ
  pub zones : List ZoneStat
  pub zones_loading : Bool
  -- the id of `deleteTarget`
  pub delete_target : Option ℕ
  -- the state of the dialog that deletes
  pub deleting : Bool
  pub deletions : List Deletion
  -- the calls for the list and for statistics that were made, the latest first
  pub list_calls : ℕ
  pub stats_calls : List ℕ
  -- the deletions that were posted, the latest first
  pub deleted : List ℕ

unfoldable pub fetch_concerts : AdminState → AdminState
fetch_concerts s = record s {
  concerts_loading = true;
  concerts_error = none;
  list_calls = suc s.list_calls;
}

unfoldable pub concerts_arrive : Option (List ListedConcert) → AdminState → AdminState
concerts_arrive (some data_) s = record s { concerts = data_; concerts_loading = false }
concerts_arrive none s = record s {
  concerts_error = some "공연 목록을 불러오지 못했습니다.";
  concerts_loading = false;
}

unfoldable pub fetch_stats : ℕ → AdminState → AdminState
fetch_stats concert s = record s { zones_loading = true; stats_calls = concert ∷ s.stats_calls }

-- A reply is stored whatever concert it is for.
unfoldable pub stats_arrive : Option (List ZoneStat) → AdminState → AdminState
stats_arrive (some zones) s = record s { zones = zones; zones_loading = false }
stats_arrive none s = record s { zones = []; zones_loading = false }

unfoldable pub handle_row_click : ℕ → AdminState → AdminState
handle_row_click concert s = fetch_stats concert (record s { selected_concert = some concert })

abbrev pub fetch_stats_of : Option ℕ → AdminState → AdminState
fetch_stats_of none s = s
fetch_stats_of (some concert) s = fetch_stats concert s

unfoldable pub handle_saved : AdminState → AdminState
handle_saved s = fetch_stats_of s.selected_concert (fetch_concerts s)

abbrev pub was_selected : Option ℕ → ℕ → Bool
was_selected none i = false
was_selected (some j) i = j == i

-- by what the closure has captured
unfoldable pub handle_deleted : Deletion → AdminState → AdminState
handle_deleted d s =
    let t = fetch_concerts s in
    if was_selected d.selected d.concert
    then record t { selected_concert = none; zones = [] }
    else t

-- the cross of a row, and the buttons of the dialog
unfoldable pub ask_delete : ℕ → AdminState → AdminState
ask_delete concert s = record s { delete_target = some concert }

unfoldable pub close_dialog : AdminState → AdminState
close_dialog s = record s { delete_target = none }

abbrev pub delete_of : Option ℕ → AdminState → AdminState
delete_of none s = s
delete_of (some concert) s = record s {
  deleting = true;
  deletions = (record { concert = concert; selected = s.selected_concert }) ∷ s.deletions;
  deleted = concert ∷ s.deleted;
}

-- The button is disabled while `deleting`.
unfoldable pub handle_delete : AdminState → AdminState
handle_delete s = if s.deleting then s else delete_of s.delete_target s

-- the replies to the latest deletion
abbrev pub deletion_succeeds : List Deletion → AdminState → AdminState
deletion_succeeds [] s = s
deletion_succeeds (d ∷ ds) s = close_dialog (handle_deleted d (record s { deletions = ds }))

abbrev pub deletion_fails : List Deletion → AdminState → AdminState
deletion_fails [] s = s
deletion_fails (d ∷ ds) s = record s { deletions = ds; deleting = false }

-- A mount of the page: every state is as `useState` has it at first, and the effect loads the list.
-- Replies to deletions of an earlier page find no dialog.
unfoldable pub mount_page : AdminState → AdminState
mount_page s = fetch_concerts (record s {
  concerts = [];
  selected_concert = none;
  zones = [];
  zones_loading = false;
  delete_target = none;
  deleting = false;
  deletions = [];
})

pub data AdminEvent : Type 0 where
  opens_page closes presses_delete succeeds fails saves : AdminEvent
  clicks asks : ℕ → AdminEvent
  gets_concerts : Option (List ListedConcert) → AdminEvent
  gets_stats : Option (List ZoneStat) → AdminEvent

unfoldable pub manage : AdminEvent → AdminState → AdminState
manage opens_page s = mount_page s
manage closes s = close_dialog s
manage presses_delete s = handle_delete s
manage succeeds s = deletion_succeeds s.deletions s
manage fails s = deletion_fails s.deletions s
manage saves s = handle_saved s
manage (clicks concert) s = handle_row_click concert s
manage (asks concert) s = ask_delete concert s
manage (gets_concerts r) s = concerts_arrive r s
manage (gets_stats r) s = stats_arrive r s

abbrev pub manage_all : List AdminEvent → AdminState → AdminState
manage_all [] s = s
manage_all (e ∷ es) s = manage_all es (manage e s)
