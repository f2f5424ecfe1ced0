-- ===== src/Client/Support.antt =====
-- client/src/pages/SupportPage.tsx and AdminSupportPage.tsx: the dialogs that write a post, answer one,
-- and delete one. `trim` is a parameter.
pub mod Answering
use Prim.Native.String.{String, len}
use ticket_queue_platform.Prelude.{
  ℕ, suc, ◌==◌, Bool, true, false, ◌&&◌, ◌||◌, if◌then◌else◌, Option, none, some, is_some, List, [],
  ◌∷◌,
}
use ticket_queue_platform.Schema.{PostStatus}
use ticket_queue_platform.Client.Lists.{is_answered}

-- a post in the list of the administration, with the text of its reply
pub record AdminPost : Type 0 where
  pub id : ℕ
  pub status : PostStatus
  pub reply : Option String

pub data PostCall : Type 0 where
  send_post : String → String → PostCall
  send_reply send_update : ℕ → String → PostCall
  send_deletion : ℕ → PostCall

-- `isEdit`
abbrev pub is_edit : AdminPost → Bool
is_edit post = is_answered post.status && is_some post.reply

abbrev pub text_of : Option String → String
text_of none = ""
text_of (some content) = content

abbrev pub initial_content : AdminPost → String
initial_content post = if is_edit post then text_of post.reply else ""

pub record FormState : Type 0 where
  pub title : String
  pub content : String
  pub loading : Bool
  pub error : Option String
  -- how often `onSuccess` was called
  pub successes : ℕ
  pub calls : List PostCall

abbrev pub new_form : String → FormState
new_form content = record {
  title = "";
  content = content;
  loading = false;
  error = none;
  successes = 0;
  calls = [];
}

module _ (trim : String → String) where
  abbrev pub is_empty_text : String → Bool
  is_empty_text t = len (trim t) == 0

  -- CreateModal. The button is disabled while a call is under way and for empty fields.
  unfoldable pub submit_post : FormState → FormState
  submit_post s =
      if s.loading || is_empty_text s.title || is_empty_text s.content then s else record s {
        loading = true;
        error = none;
        calls = send_post (trim s.title) (trim s.content) ∷ s.calls;
      }

  abbrev pub reply_call : AdminPost → String → PostCall
  reply_call post content =
      if is_edit post then send_update post.id content else send_reply post.id content

  -- ReplyModal, with the same button
  unfoldable pub submit_reply : AdminPost → FormState → FormState
  submit_reply post s = if s.loading || is_empty_text s.content then s else record s {
    loading = true;
    error = none;
    calls = reply_call post (trim s.content) ∷ s.calls;
  }

-- what follows the call of either dialog
unfoldable pub form_sent : FormState → FormState
form_sent s = record s { successes = suc s.successes; loading = false }

unfoldable pub form_failed : String → FormState → FormState
form_failed message s = record s { error = some message; loading = false }

-- the deletion of a post: the dialog closes whether the call succeeds or not
pub record DeletionState : Type 0 where
  pub delete_target : Option ℕ
  pub delete_loading : Bool
  pub retries : ℕ
  pub calls : List PostCall

abbrev pub delete_for : Option ℕ → DeletionState → DeletionState
delete_for none s = s
delete_for (some id) s = record s { delete_loading = true; calls = send_deletion id ∷ s.calls }

unfoldable pub handle_delete_confirm : DeletionState → DeletionState
handle_delete_confirm s = if s.delete_loading then s else delete_for s.delete_target s

unfoldable pub deletion_ends : Bool → DeletionState → DeletionState
deletion_ends succeeded s = record s {
  delete_target = none;
  delete_loading = false;
  retries = if succeeded then suc s.retries else s.retries;
}
