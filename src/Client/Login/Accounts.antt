-- ===== src/Client/Login/Accounts.antt =====
-- What the login page sends and shows, together with the interceptor of the API client.
use package.text.Mathlib.Text.{◌==◌ as str_eq}
use ticket_queue_platform.Prelude.{ℕ, ◌≡◌, true, false, none, some, List, ◌∷◌, arith}
use ticket_queue_platform.Client.Api.{
  ApiState, Request, on_error, fails, pick, step, refresh_failed,
}
use ticket_queue_platform.Client.Failures.{Failure}
use ticket_queue_platform.Client.Login.{
  LoginState, post_login, post_register, logging_in, new_login, parse_api_error,
  handle_signup_submit, login_call_succeeds, login_call_fails, browser_shows,
}

-- A registration with equal passwords, while nothing is under way and where both calls succeed: the
-- page posts the registration and then a login with the same email and password, stores the tokens
-- of the second reply, and goes to the list of concerts.
pub signup_logs_in :
    (s : LoginState) (access refresh a r : ℕ)
    → s.is_loading ≡ false
    → str_eq s.signup_password s.signup_confirm ≡ true
    → login_call_succeeds access refresh (login_call_succeeds a r (handle_signup_submit s))
      ≡ record s {
        signup_error = none;
        is_loading = false;
        stage = none;
        stored = some (access, refresh);
        went_home = true;
        calls =
            post_login s.signup_email s.signup_password
            ∷ post_register s.signup_email s.signup_password s.signup_nickname
            ∷ s.calls;
      }
unfolding handle_signup_submit login_call_succeeds
signup_logs_in s access refresh a r ready equal = ground arith

-- A login that the server refuses with 401, without a refresh token and while no refresh is under
-- way: the page sets the message for a wrong password, but the interceptor loads the page anew, and
-- the browser shows a page without a message and with empty fields.
pub login_error_lost :
    (s : LoginState) (api : ApiState) (n : ℕ) (e : Failure) (r : Request) (rest : List Request)
    → s.stage ≡ some logging_in
    → e.is_axios ≡ true
    → e.status ≡ some 401
    → pick n api.in_flight ≡ some (r, rest)
    → r.retry ≡ false
    → api.is_refreshing ≡ false
    → api.refresh_token ≡ none
    → ((login_call_fails e s).login_error ≡ some "이메일 또는 비밀번호가 일치하지 않습니다")
      × (browser_shows (step (fails n (some 401)) api) (login_call_fails e s) ≡ new_login)
unfolding login_call_fails parse_api_error step on_error refresh_failed
login_error_lost s api n e r rest waits axios status sent first idle bare =
    (ground arith, ground arith)
