-- ===== src/Auth/Tests.antt =====
-- Accounts on the sample platform: runs of the operations, and instances of the theorems.
use Prim.Native.String.{String}
use ticket_queue_platform.Prelude.{
  List, Bool, ◌≡◌, ℕ, ◌+◌, ◌*◌, refl, some, none, ok, err, ◌==◌, if◌then◌else◌,
}
use ticket_queue_platform.Errors.{app_error, text}
use ticket_queue_platform.Schema.{User, Role, RefreshToken}
use ticket_queue_platform.Platform.{World, calm}
use ticket_queue_platform.Samples.{memory, opening}
use ticket_queue_platform.Services.Accounts.{JwtPayload}
use ticket_queue_platform.Services.Memory.Accounts.{SignedToken, refresh_token}
use ticket_queue_platform.Auth.Repository.{payload_of}
use ticket_queue_platform.Auth.Service.{
  RegisterInput, LoginInput, register, login, refresh, refresh_days, day, to_user_dto,
}
use ticket_queue_platform.Auth.Rotation.{redeemed, successor, successor_row, refresh_rotates}
use ticket_queue_platform.Auth.Emails.{register_all}
use ticket_queue_platform.Auth.Sessions.{
  session, registered, new_id, new_user, logged_in, register-login,
}
use ticket_queue_platform.Auth.Middleware.{bearer}
use ticket_queue_platform.Auth.Guards.{admin_guards}
use ticket_queue_platform.Auth.Roles.{register_as_admin}

days_run : refresh_days (some "30d") ≡ 30
unfolding refresh_days
days_run = refl

default_days_run : refresh_days none ≡ 7
unfolding refresh_days
default_days_run = refl

abbrev sign_up : RegisterInput
sign_up = record { email = "a@b.kr"; password = "password"; nickname = "ann"; role = none }

abbrev sign_in : LoginInput
sign_in = record { email = "a@b.kr"; password = "password" }

-- Ann has an account.
abbrev ann : World memory
ann = registered sign_up opening

abbrev account : User String
account = new_user sign_up opening

abbrev ann_in : World memory
ann_in = logged_in ann 0 account

abbrev ticket : SignedToken
ticket = refresh_token (payload_of 0 "a@b.kr" Role.user 102) 3000

abbrev claims : JwtPayload
claims = payload_of 0 "a@b.kr" Role.user 102

abbrev row : RefreshToken
row = record { user_id = 0; expires_at = 3000 + refresh_days none * day }

register-login_example :
    let after = (register sign_up (calm opening)).1 in
    ((register sign_up (calm opening)).0 ≡ ok (to_user_dto 0 account))
    × ((login (record { email = sign_up.email; password = sign_up.password }) after).0
        ≡ ok (session ann 0 account))
    × ((others : List (List Bool × RegisterInput)) (again : RegisterInput) (v : World memory)
        → again.email ≡ sign_up.email
        → v.users ≡ (register_all others after).users
        → register again (calm v) ≡ (err (app_error 409 (text "이미 사용 중인 이메일입니다")), calm v))
register-login_example = register-login sign_up opening refl refl

refresh_rotates_example :
    let r = refresh ticket (calm ann_in) in
    (r.0 ≡ ok (redeemed ticket ann_in claims))
    × ((j : ℕ)
        → memory.tokens.find j r.1.tokens ≡ (
            if successor ticket ann_in claims == j
            then some (successor_row ticket ann_in claims)
            else if 205 == j
            then none
            else memory.tokens.find j ann_in.tokens))
    × (refresh ticket r.1 ≡ (err (app_error 401 (text "유효하지 않은 토큰입니다")), r.1))
unfolding refresh_days
refresh_rotates_example = refresh_rotates ticket ann_in claims row refl refl refl refl

-- Eve asks for the role of an administrator.
abbrev eve : RegisterInput
eve = record sign_up { role = some Role.admin }

register_as_admin_example :
    let after = (register eve (calm opening)).1 in
    let s = session (registered eve opening) (new_id eve opening) (new_user eve opening) in
    ((login (record { email = eve.email; password = eve.password }) after).0 ≡ ok s)
    × ((admin_guards {p = memory} (bearer s.access_token) opening).0 ≡ ok tt)
register_as_admin_example = register_as_admin eve opening opening refl refl refl refl
