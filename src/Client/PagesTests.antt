-- ===== src/Client/PagesTests.antt =====
-- The smaller pages of the client at concrete inputs.
use Prim.Native.String.{String}
use mathlib.Core.List.{Memᴰ}
use ticket_queue_platform.Prelude.{
  ℕ, ◌≡◌, ◌↔◌, refl, ◌≤◌, ◌*◌, Option, some, none, List, [], ◌∷◌, true, false, ok, arith,
}
use ticket_queue_platform.Schema.{Role, Post, PostStatus}
use ticket_queue_platform.Samples.{memory, opening}
use ticket_queue_platform.Platform.{World, Connection, calm, queue_position}
use ticket_queue_platform.Services.Accounts.{JwtPayload}
use ticket_queue_platform.Services.Memory.Accounts.{SignedToken, access_token, refresh_token}
use ticket_queue_platform.Auth.Middleware.{bearer}
use ticket_queue_platform.Auth.Guards.{admin_guards}
use ticket_queue_platform.Socket.Handlers.{on_enter}
use ticket_queue_platform.Client.Api.{ApiState, Request, fails, step}
use ticket_queue_platform.Client.Failures.{Failure}
use ticket_queue_platform.Client.QueueHook.{new_page, on_position}
use ticket_queue_platform.Client.Access.{at_admin, admin_page, app_routes, follow}
use ticket_queue_platform.Client.Access.Pages.{admin_page_iff}
use ticket_queue_platform.Client.Login.{
  LoginState, new_login, logging_in, login_call_fails, browser_shows,
}
use ticket_queue_platform.Client.Login.Accounts.{login_error_lost}
use ticket_queue_platform.Client.Cancel.{
  CancelEvent, clicks_cancel, closes, confirms, cancel_error_arrives, cancel_step,
  handle_cancel_click, handle_cancel_confirm, cancel_fails, cancel_run, new_cancel, shows_error,
}
use ticket_queue_platform.Client.Cancel.Hidden.{failure_hidden}
use ticket_queue_platform.Post.Consistent.{Answers}
use ticket_queue_platform.Client.Support.{FormState, new_form, send_reply, submit_reply}
use ticket_queue_platform.Client.Support.Answering.{listed, received, reply_accepted}
use ticket_queue_platform.Client.Panel.{
  panel_position, people_ahead, estimated_minutes, panel_counts_line,
}

-- The client reads the role of a token of either kind.
abbrev read_role : SignedToken → Option (Option Role)
read_role (access_token x s) = some (some x.role)
read_role (refresh_token x s) = some (some x.role)

abbrev ann : JwtPayload
ann = record { sub = 2; email = "ann"; role = Role.admin; jti = 9 }

admin_page_iff_example :
    (follow read_role 2
        (some (access_token ann 2000))
        (app_routes read_role (some (access_token ann 2000)) at_admin)
      ≡ some admin_page)
    ↔ ((admin_guards {p = memory} (bearer (access_token ann 2000)) opening).0 ≡ ok tt)
admin_page_iff_example =
    admin_page_iff {p = memory} read_role (λ x s. refl) ann 2000 opening refl at_admin refl

abbrev filled_form : LoginState
filled_form = record new_login {
  signup_email = "kim";
  signup_password = "secret";
  signup_confirm = "secret";
  signup_nickname = "Kim";
}

abbrev wrong_password : Failure
wrong_password = record {
  is_axios = true;
  is_error = true;
  status = some 401;
  server_message = none;
  message = "Request failed";
  code = none;
}

abbrev login_request : Request
login_request = record { id = 1; authorization = none; retry = false }

abbrev signed_out : ApiState
signed_out = record {
  access_token = none;
  refresh_token = none;
  is_refreshing = false;
  wait_queue = [];
  posts = [];
  in_flight = login_request ∷ [];
  settled = [];
  issued = 1 ∷ [];
  at_login = false;
}

abbrev submitted : LoginState
submitted = record new_login { is_loading = true; stage = some logging_in }

login_error_lost_example :
    ((login_call_fails wrong_password submitted).login_error ≡ some "이메일 또는 비밀번호가 일치하지 않습니다")
    × (browser_shows
          (step (fails 0 (some 401)) signed_out)
          (login_call_fails wrong_password submitted)
        ≡ new_login)
login_error_lost_example =
    login_error_lost submitted signed_out 0 wrong_password login_request [] refl refl refl refl refl
      refl refl

abbrev a_failed_cancellation : List CancelEvent
a_failed_cancellation = clicks_cancel 4 ∷ confirms ∷ cancel_error_arrives ∷ closes ∷ []

failure_hidden_example :
    shows_error (cancel_run a_failed_cancellation (new_cancel (4 ∷ []))) ≡ false
unfolding cancel_step handle_cancel_click handle_cancel_confirm cancel_fails
failure_hidden_example = failure_hidden (4 ∷ []) a_failed_cancellation (tt, (tt, (tt, (refl, tt))))

abbrev a_question : Post
a_question = record {
  user_id = 7;
  title = "Seats";
  content = "Where?";
  status = PostStatus.pending;
}

abbrev one_question : World memory
one_question = record opening { posts = (3, a_question) ∷ [] }

abbrev written : FormState
written = new_form "There"

abbrev same_text : String → String
same_text t = t

reply_accepted_example :
    ((submit_reply same_text (listed 3 a_question none) written).calls ≡ send_reply 3 "There" ∷ [])
    × ((received 2 (send_reply 3 "There") (calm one_question)).0 ≡ ok tt)
reply_accepted_example =
    reply_accepted same_text 3 2 one_question a_question answers refl written refl refl
  where
    answers : Answers one_question
    answers i = ground arith

-- User 9 has opened the page of concert 1.
abbrev at_door : Connection
at_door = record { id = 99; user_id = some 9; concert_id = none; rooms = [] }

abbrev before_entry : World memory
before_entry = record opening { sockets = at_door ∷ opening.sockets }

panel_counts_line_example :
    (position : ℕ) × (total : ℕ) × Memᴰ
      (queue_position 9 position total)
      (on_enter 99 9 (some 1) before_entry).1.sent
    × (let t = on_position 1 position total (new_page none none) in
        (panel_position t.phase t.position t.total ≡ some position)
        × (people_ahead position ≡ 2)
        × (total ≡ 3)
        × (2 ≤ 3 * estimated_minutes position)
        × (3 * estimated_minutes position ≤ 4))
panel_counts_line_example =
    panel_counts_line 1 9 99 before_entry at_door (new_page none none) refl refl (omega arith)
      ((refl, tt), refl, (tt, refl, tt)) refl refl refl
