-- ===== src/Client/AdminPage/Deleting.antt =====
-- Deletions of concerts on the admin page, and the sums that it shows.
use ticket_queue_platform.Prelude.{
  ℕ, ◌+◌, ◌≡◌, ◌∙◌, Bool, All, true, false, Option, none, some, List, [], ◌∷◌, ℤ, pos, ◌+ℤ◌, ◌-ℤ◌,
  int_laws, arith,
}
use ticket_queue_platform.Client.ConcertModal.{ZoneStat}
use ticket_queue_platform.Client.AdminPage.{
  AdminState, AdminEvent, Totals, opens_page, presses_delete, succeeds, saves, gets_concerts,
  gets_stats, manage, manage_all, handle_delete, handle_deleted, close_dialog, fetch_concerts,
  fetch_stats, fetch_stats_of, handle_row_click, handle_saved, ask_delete, concerts_arrive,
  stats_arrive, total_of, total, sold_total,
}

-- The dialog shows a deletion, but none is under way.
abbrev Stuck : List ℕ → AdminState → Type 0
Stuck l s = (s.deleting ≡ true) × (s.deletions ≡ []) × (s.deleted ≡ l)

fetch_stats_of-Stuck :
    (l : List ℕ) (o : Option ℕ) (s : AdminState) → Stuck l s → Stuck l (fetch_stats_of o s)
unfolding fetch_stats
fetch_stats_of-Stuck l none s h = h
fetch_stats_of-Stuck l (some c) s h = h

-- whether an event is a new mount of the page
abbrev pub is_mount : AdminEvent → Bool
is_mount opens_page = true
is_mount _ = false

manage-Stuck :
    (l : List ℕ) (e : AdminEvent) (s : AdminState)
    → is_mount e ≡ false
    → Stuck l s
    → Stuck l (manage e s)
unfolding manage handle_delete close_dialog fetch_concerts fetch_stats handle_row_click handle_saved
    ask_delete concerts_arrive stats_arrive
manage-Stuck l saves s m h = fetch_stats_of-Stuck l s.selected_concert (fetch_concerts s) h
manage-Stuck l (gets_concerts none) s m h = h
manage-Stuck l (gets_concerts (some d)) s m h = h
manage-Stuck l (gets_stats none) s m h = h
manage-Stuck l (gets_stats (some z)) s m h = h
manage-Stuck l _ s m h = ground arith

manage_all-Stuck :
    (l : List ℕ) (es : List AdminEvent) (s : AdminState)
    → All (λ e. is_mount e ≡ false) es
    → Stuck l s
    → Stuck l (manage_all es s)
manage_all-Stuck l [] s m h = h
manage_all-Stuck l (e ∷ es) s m h =
    manage_all-Stuck l es (manage e s) m.1 (manage-Stuck l e s m.0 h)

-- Once a concert was deleted by the dialog of the admin page, where no other deletion was under way,
-- no further deletion is posted until the page is mounted anew, whatever concert is chosen and
-- however often the button is pressed.
pub deletes_once :
    (c : ℕ) (es : List AdminEvent) (s : AdminState)
    → s.delete_target ≡ some c
    → s.deleting ≡ false
    → s.deletions ≡ []
    → All (λ e. is_mount e ≡ false) es
    → (manage_all es (manage succeeds (manage presses_delete s))).deleted ≡ c ∷ s.deleted
unfolding manage handle_delete handle_deleted close_dialog fetch_concerts
deletes_once c es s target idle none_left stays =
    (manage_all-Stuck (c ∷ s.deleted) es (manage succeeds (manage presses_delete s)) stays
      (ground arith, ground arith, ground arith)).2

-- what was sold of each zone, summed
abbrev pub sold_of : List ZoneStat → ℤ
sold_of [] = pos 0
sold_of (z ∷ zs) = pos z.total_quantity -ℤ z.remain_quantity +ℤ sold_of zs

next_sold :
    (t t' : ℕ) (r r' x : ℤ) → pos (t + t') -ℤ (r +ℤ r') +ℤ x ≡ pos t -ℤ r +ℤ (pos t' -ℤ r' +ℤ x)
next_sold t t' r r' x = omega int_laws

sold-from :
    (acc : Totals) (zs : List ZoneStat)
    → sold_total (total_of acc zs) ≡ sold_total acc +ℤ sold_of zs
sold-from acc [] = omega int_laws
sold-from acc (z ∷ zs) =
    sold-from
      (record {
        total_quantity = acc.total_quantity + z.total_quantity;
        remain_quantity = acc.remain_quantity +ℤ z.remain_quantity;
        reservation_count = acc.reservation_count + z.reservation_count;
      })
      zs
    ∙ next_sold acc.total_quantity z.total_quantity acc.remain_quantity z.remain_quantity
        (sold_of zs)

zero_sold : (x : ℤ) → pos 0 -ℤ pos 0 +ℤ x ≡ x
zero_sold x = omega int_laws

-- The number of sold tickets that the statistics show is the sum of what was sold of each zone, also
-- where fewer than no tickets remain of one.
pub sold_total_lem : (zs : List ZoneStat) → sold_total (total zs) ≡ sold_of zs
sold_total_lem zs =
    sold-from (record { total_quantity = 0; remain_quantity = pos 0; reservation_count = 0 }) zs
    ∙ zero_sold (sold_of zs)
