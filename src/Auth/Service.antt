-- ===== src/Auth/Service.antt =====
-- src/services/auth.service.ts and src/utils/bcrypt.ts.
use Prim.Native.Char.{code}
use Prim.Native.String.{String}
use ticket_queue_platform.Prelude.{
  ℕ, ◌+◌, ◌*◌, ◌-◌, not, ◌&&◌, ◌==◌, leb, ltb, if◌then◌else◌, Bool, Option, is_some, or_else,
  Action, ◌>>=◌, ◌>>◌, pure, throw, throw_if, or_throw, when,
}
use ticket_queue_platform.Errors.{app_error, text}
use ticket_queue_platform.Schema.{User, Role, RefreshToken}
use ticket_queue_platform.Platform.{Platform, World, now, draw}
use ticket_queue_platform.Services.Accounts.{JwtPayload}
use ticket_queue_platform.Auth.Repository.{
  find_user_by_email, find_user_by_id, create_user, create_refresh_token, find_refresh_token_by_raw,
  delete_refresh_token_by_raw, sign_access_token, sign_refresh_token, verify_refresh_token,
}

pub record UserDto : Type 0 where
  pub id : ℕ
  pub email : String
  pub nickname : String
  pub role : Role
  pub created_at : ℕ

pub record LoginResult (Token : Type 0) : Type 0 where
  pub access_token : Token
  pub refresh_token : Token
  pub user : UserDto

pub record TokenPair (Token : Type 0) : Type 0 where
  pub access_token : Token
  pub refresh_token : Token

pub record RegisterInput : Type 0 where
  pub email : String
  pub password : String
  pub nickname : String
  pub role : Option Role

pub record LoginInput : Type 0 where
  pub email : String
  pub password : String

abbrev pub to_user_dto : {D : Type 0} → ℕ → User D → UserDto
to_user_dto id user = record {
  id = id;
  email = user.email;
  nickname = user.nickname;
  role = user.role;
  created_at = user.created_at;
}

-- `parseInt(s, 10)` of a text with no sign or blank in front, where 0 stands for NaN too
pub digits_from : ℕ → String → ℕ
digits_from acc String.[] = acc
digits_from acc (String.◌∷◌ c s) =
    let rest = digits_from (acc * 10 + (code c - 48)) s in
    if leb 48 (code c) && leb (code c) 57 then rest else acc

-- `parseInt(process.env.JWT_REFRESH_EXPIRES_IN ?? '7d', 10) || 7`
unfoldable pub refresh_days : Option String → ℕ
unfolding digits_from
refresh_days setting =
    let days = digits_from 0 (or_else setting "7d") in if days == 0 then 7 else days

abbrev pub day : ℕ
day = 86400000

module _ {p : Platform} where
  -- a salt is drawn
  unfoldable pub hash_password : String → Action (World p) p.crypto.Digest
  hash_password password = do salt ← draw; pure (p.crypto.hash_password password salt)

  unfoldable pub compare_password : String → p.crypto.Digest → Action (World p) Bool
  compare_password plain hashed = pure (p.crypto.compare_password plain hashed)

  unfoldable pub refresh_expires_at : Action (World p) ℕ
  refresh_expires_at = do t ← now; pure (t + refresh_days p.refresh_expires_in * day)

  unfoldable pub register : RegisterInput → Action (World p) UserDto
  register input = do
    existing ← find_user_by_email input.email
    throw_if (is_some existing) (app_error 409 (text "이미 사용 중인 이메일입니다"))
    hashed ← hash_password input.password
    t ← now
    let user : User p.crypto.Digest = record {
      email = input.email;
      password = hashed;
      nickname = input.nickname;
      role = or_else input.role Role.user;
      created_at = t;
    }
    id ← create_user user
    pure (to_user_dto id user)

  unfoldable pub login : LoginInput → Action (World p) (LoginResult p.crypto.Token)
  login input = do
    found ← find_user_by_email input.email
    user ← or_throw found (app_error 401 (text "이메일 또는 비밀번호가 올바르지 않습니다"))
    is_match ← compare_password input.password user.1.password
    throw_if (not is_match) (app_error 401 (text "이메일 또는 비밀번호가 올바르지 않습니다"))
    access_token ← sign_access_token user.0 user.1.email user.1.role
    refresh_token ← sign_refresh_token user.0 user.1.email user.1.role
    expires_at ← refresh_expires_at
    create_refresh_token user.0 refresh_token expires_at
    pure (record {
      access_token = access_token;
      refresh_token = refresh_token;
      user = to_user_dto user.0 user.1;
    })

  unfoldable pub logout : p.crypto.Token → Action (World p) (Unit {0})
  logout raw_token = do
    stored ← find_refresh_token_by_raw raw_token
    throw_if (not (is_some stored)) (app_error 401 (text "유효하지 않은 토큰입니다"))
    delete_refresh_token_by_raw raw_token

  -- from step 3 on, with the row of the token
  unfoldable pub rotate :
      p.crypto.Token → JwtPayload → RefreshToken → Action (World p) (TokenPair p.crypto.Token)
  rotate raw_token payload stored = do
    t ← now
    when (ltb stored.expires_at t)
        (do delete_refresh_token_by_raw raw_token; throw (app_error 401 (text "만료된 토큰입니다")))
    delete_refresh_token_by_raw raw_token
    new_access_token ← sign_access_token payload.sub payload.email payload.role
    new_refresh_token ← sign_refresh_token payload.sub payload.email payload.role
    expires_at ← refresh_expires_at
    create_refresh_token payload.sub new_refresh_token expires_at
    pure (record { access_token = new_access_token; refresh_token = new_refresh_token })

  unfoldable pub refresh : p.crypto.Token → Action (World p) (TokenPair p.crypto.Token)
  refresh raw_token = do
    verified ← verify_refresh_token raw_token
    payload ← or_throw verified (app_error 401 (text "유효하지 않은 토큰입니다"))
    found ← find_refresh_token_by_raw raw_token
    stored ← or_throw found (app_error 401 (text "유효하지 않은 토큰입니다"))
    rotate raw_token payload stored

  unfoldable pub get_me : ℕ → Action (World p) UserDto
  get_me user_id = do
    found ← find_user_by_id user_id
    user ← or_throw found (app_error 401 (text "사용자를 찾을 수 없습니다"))
    pure (to_user_dto user_id user)

-- Names the functions of this file that the services call.
unfoldable pub account_service : Unit {0}
unfolding hash_password compare_password refresh_expires_at rotate
account_service = tt
