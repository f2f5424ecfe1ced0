-- ===== src/Client/Login.antt =====
-- client/src/pages/LoginPage.tsx: the two forms, and what they store. A reply is for the call that the
-- page waits for.
pub mod Accounts
use Prim.Native.String.{String, len}
use package.text.Mathlib.Text.{◌==◌ as str_eq}
use ticket_queue_platform.Prelude.{
  ℕ, ◌==◌, ltb, Bool, true, false, not, ◌&&◌, ◌||◌, if◌then◌else◌, Option, none, some, List, [],
  ◌∷◌,
}
use ticket_queue_platform.Client.Api.{ApiState}
use ticket_queue_platform.Client.Failures.{Failure, default}

pub data Tab : Type 0 where
  login signup : Tab

abbrev pub is_status : ℕ → Option ℕ → Bool
is_status n none = false
is_status n (some status) = status == n

unfoldable pub parse_api_error : Failure → String → String
parse_api_error e fallback =
    if e.is_axios
    then (if is_status 401 e.status
        then "이메일 또는 비밀번호가 일치하지 않습니다"
        else if is_status 409 e.status
        then "이미 사용 중인 이메일입니다"
        else default fallback e.server_message)
    else fallback

pub data LoginCall : Type 0 where
  post_login : String → String → LoginCall
  post_register : String → String → String → LoginCall

-- Where a submission waits; the second call of a registration has the email and the password that
-- were submitted.
pub data LoginStage : Type 0 where
  logging_in : LoginStage
  registering : String → String → LoginStage
  logging_in_first : LoginStage

pub record LoginState : Type 0 where
  pub tab : Tab
  pub is_loading : Bool
  pub login_error : Option String
  pub signup_error : Option String
  pub login_email : String
  pub login_password : String
  pub signup_email : String
  pub signup_password : String
  pub signup_confirm : String
  pub signup_nickname : String
  pub stage : Option LoginStage
  -- the tokens that were stored, the access token first, and whether the page went to the list
  pub stored : Option (ℕ × ℕ)
  pub went_home : Bool
  -- the calls that were made, the latest first
  pub calls : List LoginCall

abbrev pub new_login : LoginState
new_login = record {
  tab = login;
  is_loading = false;
  login_error = none;
  signup_error = none;
  login_email = "";
  login_password = "";
  signup_email = "";
  signup_password = "";
  signup_confirm = "";
  signup_nickname = "";
  stage = none;
  stored = none;
  went_home = false;
  calls = [];
}

unfoldable pub switch_tab : Tab → LoginState → LoginState
switch_tab t s = record s { tab = t; login_error = none; signup_error = none }

-- The button is disabled while a submission is under way.
unfoldable pub handle_login_submit : LoginState → LoginState
handle_login_submit s = if s.is_loading then s else record s {
  login_error = none;
  is_loading = true;
  stage = some logging_in;
  calls = post_login s.login_email s.login_password ∷ s.calls;
}

abbrev pub password_mismatch : LoginState → Bool
password_mismatch s =
    ltb 0 (len s.signup_confirm) && not (str_eq s.signup_password s.signup_confirm)

-- The button is disabled by passwordMismatch, and the handler compares the passwords itself.
unfoldable pub handle_signup_submit : LoginState → LoginState
handle_signup_submit s =
    if s.is_loading || password_mismatch s || not (str_eq s.signup_password s.signup_confirm)
    then s
    else record s {
      signup_error = none;
      is_loading = true;
      stage = some (registering s.signup_email s.signup_password);
      calls = post_register s.signup_email s.signup_password s.signup_nickname ∷ s.calls;
    }

-- the reply to a call that logs in, and the finally block
abbrev pub logged_in : ℕ → ℕ → LoginState → LoginState
logged_in access refresh s = record s {
  stored = some (access, refresh);
  went_home = true;
  is_loading = false;
  stage = none;
}

-- the reply to a registration: the login that follows it
abbrev pub registered : String → String → LoginState → LoginState
registered email password s = record s {
  stage = some logging_in_first;
  calls = post_login email password ∷ s.calls;
}

-- The tokens of a reply to a registration, which has none, are not read.
abbrev pub succeed_at : Option LoginStage → ℕ → ℕ → LoginState → LoginState
succeed_at none access refresh s = s
succeed_at (some logging_in) access refresh s = logged_in access refresh s
succeed_at (some (registering email password)) access refresh s = registered email password s
succeed_at (some logging_in_first) access refresh s = logged_in access refresh s

unfoldable pub login_call_succeeds : ℕ → ℕ → LoginState → LoginState
login_call_succeeds access refresh s = succeed_at s.stage access refresh s

abbrev pub signup_failed : Failure → LoginState → LoginState
signup_failed e s = record s {
  signup_error = some (parse_api_error e "회원가입 중 오류가 발생했습니다");
  is_loading = false;
  stage = none;
}

abbrev pub fail_at : Option LoginStage → Failure → LoginState → LoginState
fail_at none e s = s
fail_at (some logging_in) e s = record s {
  login_error = some (parse_api_error e "로그인 중 오류가 발생했습니다");
  is_loading = false;
  stage = none;
}
fail_at (some (registering email password)) e s = signup_failed e s
fail_at (some logging_in_first) e s = signup_failed e s

unfoldable pub login_call_fails : Failure → LoginState → LoginState
login_call_fails e s = fail_at s.stage e s

-- What the browser shows: `window.location.href = '/login'` loads the page anew.
abbrev pub browser_shows : ApiState → LoginState → LoginState
browser_shows api s = if api.at_login then new_login else s
