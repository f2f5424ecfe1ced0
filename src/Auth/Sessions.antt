-- ===== src/Auth/Sessions.antt =====
-- A session from registration to logout, across the operations.
use package.text.Mathlib.TextPositions.{eq_refl}
use ticket_queue_platform.Prelude.{
  ℕ, suc, ◌+◌, ◌*◌, ◌/◌, ◌≡◌, ◌≤◌, refl, ap, ◌∙◌, true, false, ltb, none, some, is_some, or_else,
  [], List, Bool, ok, err, arith, if_true,
}
use ticket_queue_platform.Errors.{Error, app_error, text}
use ticket_queue_platform.Schema.{User, Role, RefreshToken}
use ticket_queue_platform.Platform.{Platform, World, calm}
use ticket_queue_platform.Services.Accounts.{JwtPayload}
use ticket_queue_platform.Auth.Emails.{register_all, register_all-Taken}
use ticket_queue_platform.Auth.Repository.{payload_of, account_repository}
use ticket_queue_platform.Auth.Service.{
  LoginResult, LoginInput, RegisterInput, to_user_dto, register, login, refresh, logout,
  refresh_days, day, account_service,
}
use ticket_queue_platform.Auth.Middleware.{bearer, require_auth}
use ticket_queue_platform.Auth.Rotation.{refresh_unknown, refresh-eq, redeemed, successor}

abbrev wrong_login : Error
wrong_login = app_error 401 (text "이메일 또는 비밀번호가 올바르지 않습니다")

module _ {p : Platform} (w : World p) (i : ℕ) (u : User p.crypto.Digest) where
  abbrev pub session : LoginResult p.crypto.Token
  session = record {
    access_token = p.crypto.sign_access (payload_of i u.email u.role w.random) w.now;
    refresh_token = p.crypto.sign_refresh (payload_of i u.email u.role (suc w.random)) w.now;
    user = to_user_dto i u;
  }

  abbrev pub session_name : ℕ
  session_name = p.crypto.hash_token session.refresh_token

  abbrev pub session_row : RefreshToken
  session_row = record { user_id = i; expires_at = w.now + refresh_days p.refresh_expires_in * day }

  -- the world after a login
  abbrev pub logged_in : World p
  logged_in = record w {
    tokens = p.tokens.inserted session_name session_row w.tokens;
    random = suc (suc w.random);
    faults = [];
  }

  module _ (input : LoginInput)
      (known : p.users.find_by_email input.email w.users ≡ some (i, u)) where
    pub login-eq :
        p.crypto.compare_password input.password u.password ≡ true
        → p.tokens.find session_name w.tokens ≡ none
        → login input (calm w) ≡ (ok session, logged_in)
    unfolding login account_repository account_service
    login-eq right fresh = ground (arith, p.tokens.create_lem session_name session_row w.tokens)

    -- A wrong password gives the same error as an unknown email, and changes nothing.
    pub login_wrong :
        p.crypto.compare_password input.password u.password ≡ false
        → login input (calm w) ≡ (err wrong_login, calm w)
    unfolding login account_repository account_service
    login_wrong wrong = ground arith

module _ {p : Platform} where
  pub login_unknown :
      (input : LoginInput) (w : World p)
      → p.users.find_by_email input.email w.users ≡ none
      → login input (calm w) ≡ (err wrong_login, calm w)
  unfolding login account_repository account_service
  login_unknown input w h = ground arith

  -- the guard of a route, at a token that was signed for access
  pub require_auth_signed :
      (x : JwtPayload) (s : ℕ) (w : World p)
      → ltb (w.now / 1000) (s / 1000 + p.crypto.access_ttl) ≡ true
      → require_auth (bearer (p.crypto.sign_access x s)) w
        ≡ (ok (record { id = x.sub; email = x.email; role = x.role }), w)
  unfolding require_auth account_repository
  require_auth_signed x s w h = ground (arith, p.crypto.verify_access-sign_access x s w.now)

module _ {p : Platform} (input : LoginInput) (w : World p) (i : ℕ) (u : User p.crypto.Digest)
    (known : p.users.find_by_email input.email w.users ≡ some (i, u))
    (right : p.crypto.compare_password input.password u.password ≡ true)
    (fresh : p.tokens.find (session_name w i u) w.tokens ≡ none) where
  abbrev s : LoginResult p.crypto.Token
  s = session w i u

  abbrev pub later : ℕ → World p
  later t = record (login input (calm w)).1 { now = t }

  abbrev signed_in : JwtPayload
  signed_in = payload_of i u.email u.role (suc w.random)

  -- Where no call fails, a login with the right password gives an access token that the guard accepts,
  -- for as long as it lives, as the same user with the role of the user.
  pub login-require_auth :
      (t : ℕ)
      → ltb (t / 1000) (w.now / 1000 + p.crypto.access_ttl) ≡ true
      → ((login input (calm w)).0 ≡ ok s)
        × ((require_auth (bearer s.access_token) (later t)).0
            ≡ ok (record { id = i; email = u.email; role = u.role }))
  login-require_auth t h = rw (login-eq w i u input known right fresh) (
    refl,
    ap (λ r. r.0)
        (require_auth_signed (payload_of i u.email u.role w.random) w.now
          (record (logged_in w i u) { now = t }) h),
  )

  -- Where no call fails, the refresh token of a login with the right password is exchanged for a new
  -- pair as long as it and its row live, given that neither of the two refresh tokens is in the table
  -- before it is issued.
  pub login-refresh :
      (t : ℕ)
      → ltb (t / 1000) (w.now / 1000 + p.crypto.refresh_ttl) ≡ true
      → t ≤ w.now + refresh_days p.refresh_expires_in * day
      → p.tokens.find
          (successor s.refresh_token (record (logged_in w i u) { now = t }) signed_in)
          (logged_in w i u).tokens
        ≡ none
      → ((login input (calm w)).0 ≡ ok s)
        × ((refresh s.refresh_token (later t)).0
            ≡ ok (redeemed s.refresh_token (record (logged_in w i u) { now = t }) signed_in))
  login-refresh t h k f = rw (login-eq w i u input known right fresh) (
    refl,
    ap (λ r. r.0)
        (refresh-eq s.refresh_token (record (logged_in w i u) { now = t }) signed_in
          (session_row w i u) genuine
          (p.tokens.find-inserted (session_name w i u) (session_name w i u) (session_row w i u)
              w.tokens
            ∙ ground arith)
          (ground arith) f),
  )
    where
      genuine : p.crypto.verify_refresh s.refresh_token t ≡ some signed_in
      genuine = ground (arith, p.crypto.verify_refresh-sign_refresh signed_in w.now t)

module _ {p : Platform} (raw : p.crypto.Token) (w : World p) where
  -- the world after a logout
  abbrev pub logged_out : World p
  logged_out = record w {
    tokens = p.tokens.deleted (p.crypto.hash_token raw) w.tokens;
    faults = [];
  }

  logout-eq :
      is_some (p.tokens.find (p.crypto.hash_token raw) w.tokens) ≡ true
      → logout raw (calm w) ≡ (ok tt, logged_out)
  unfolding logout account_repository
  logout-eq h = ground (arith, p.tokens.delete_lem (p.crypto.hash_token raw) w.tokens)

module _ {p : Platform} (raw : p.crypto.Token) (w : World p) where
  -- Where no call fails, after a logout with a token that is in the table the token buys no new pair, now
  -- or later, and a second logout with it is refused.
  pub logout_ends_session :
      (t : ℕ)
      → is_some (p.tokens.find (p.crypto.hash_token raw) w.tokens) ≡ true
      → let after = record (logout raw (calm w)).1 { now = t } in
        ((logout raw (calm w)).0 ≡ ok tt)
        × (refresh raw after ≡ (err (app_error 401 (text "유효하지 않은 토큰입니다")), after))
        × (logout raw after ≡ (err (app_error 401 (text "유효하지 않은 토큰입니다")), after))
  unfolding logout account_repository
  logout_ends_session t h =
      rw (logout-eq raw w h) (
        refl,
        refresh_unknown raw (record (logged_out raw w) { now = t }) gone,
        ground (arith, gone),
      )
    where
      gone : p.tokens.find (p.crypto.hash_token raw) (logged_out raw w).tokens ≡ none
      gone = ground (
        arith,
        p.tokens.find-deleted (p.crypto.hash_token raw) (p.crypto.hash_token raw) w.tokens,
      )

module _ {p : Platform} (input : RegisterInput) (w : World p) where
  abbrev pub new_user : User p.crypto.Digest
  new_user = record {
    email = input.email;
    password = p.crypto.hash_password input.password w.random;
    nickname = input.nickname;
    role = or_else input.role Role.user;
    created_at = w.now;
  }

  abbrev pub new_id : ℕ
  new_id = p.users.fresh w.users

  abbrev pub registered : World p
  registered = record w {
    users = p.users.inserted new_id new_user w.users;
    random = suc w.random;
    faults = [];
  }

  register-eq :
      p.users.find_by_email input.email w.users ≡ none
      → register input (calm w) ≡ (ok (to_user_dto new_id new_user), registered)
  unfolding register account_repository account_service
  register-eq free =
      ground (arith, p.users.create_lem new_id new_user w.users, p.users.find-fresh w.users)

  -- An email that is taken is refused, and nothing changes.
  pub register_taken :
      is_some (p.users.find_by_email input.email w.users) ≡ true
      → register input (calm w) ≡ (err (app_error 409 (text "이미 사용 중인 이메일입니다")), calm w)
  unfolding register account_repository account_service
  register_taken h = ground arith

module _ {p : Platform} (input : RegisterInput) (w : World p)
    (free : p.users.find_by_email input.email w.users ≡ none) where
  -- Where no call fails, who registers with a free email can log in with its password, given that the
  -- refresh token of the login is not in the table, gets the account with the role that was asked for,
  -- or USER, and from then on, after any later registrations, with whatever failing calls, a registration
  -- with the email, by whatever password, nickname and role, is refused with 409 and changes nothing.
  pub register-login :
      p.tokens.find (session_name (registered input w) (new_id input w) (new_user input w)) w.tokens
        ≡ none
      → let after = (register input (calm w)).1 in
        ((register input (calm w)).0 ≡ ok (to_user_dto (new_id input w) (new_user input w)))
        × ((login (record { email = input.email; password = input.password }) after).0
            ≡ ok (session (registered input w) (new_id input w) (new_user input w)))
        × ((others : List (List Bool × RegisterInput)) (again : RegisterInput) (v : World p)
            → again.email ≡ input.email
            → v.users ≡ (register_all others after).users
            → register again (calm v) ≡ (err (app_error 409 (text "이미 사용 중인 이메일입니다")), calm v))
  register-login fresh = rw (register-eq input w free) (
    refl,
    ap (λ r. r.0)
        (login-eq (registered input w) (new_id input w) (new_user input w)
          (record { email = input.email; password = input.password }) known
          (p.crypto.compare-hash input.password w.random) fresh),
    λ others again v same rows. register_taken again v (
        rw (same, rows)
          (register_all-Taken p input.email others (registered input w) (ap is_some known))),
  )
    where
      known :
          p.users.find_by_email input.email (registered input w).users
          ≡ some (new_id input w, new_user input w)
      known =
          p.users.find_by_email-inserted input.email (new_id input w) (new_user input w) w.users
          ∙ if_true _ _ (eq_refl input.email)
