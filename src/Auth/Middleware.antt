-- ===== src/Auth/Middleware.antt =====
-- src/middlewares/auth.middleware.ts.
use Prim.Native.String.{String}
use ticket_queue_platform.Prelude.{
  ℕ, Bool, true, false, not, Option, none, some, Action, ◌>>=◌, pure, or_throw, throw, throw_if,
}
use ticket_queue_platform.Errors.{app_error, text}
use ticket_queue_platform.Schema.{Role}
use ticket_queue_platform.Platform.{Platform, World}
use ticket_queue_platform.Auth.Repository.{verify_access_token}

-- `AuthUser`
pub record AuthUser : Type 0 where
  pub id : ℕ
  pub email : String
  pub role : Role

-- The Authorization header: what follows `Bearer ` is the text of a token.
pub data Header (Token : Type 0) : Type 0 where
  missing other_scheme : Header Token
  bearer : Token → Header Token

abbrev pub is_admin : Role → Bool
is_admin Role.admin = true
is_admin Role.user = false

-- `req.user?.role !== 'ADMIN'` does not hold
abbrev pub has_admin_role : Option AuthUser → Bool
has_admin_role none = false
has_admin_role (some u) = is_admin u.role

module _ {p : Platform} where
  -- `req.user`, where the request goes on
  unfoldable pub require_auth : Header p.crypto.Token → Action (World p) AuthUser
  require_auth missing = throw (app_error 401 (text "인증 토큰이 필요합니다"))
  require_auth other_scheme = throw (app_error 401 (text "인증 토큰이 필요합니다"))
  require_auth (bearer token) = do
    verified ← verify_access_token token
    payload ← or_throw verified (app_error 401 (text "유효하지 않은 토큰입니다"))
    pure (record { id = payload.sub; email = payload.email; role = payload.role })

  unfoldable pub require_admin : Option AuthUser → Action (World p) (Unit {0})
  require_admin user = throw_if (not (has_admin_role user)) (app_error 403 (text "관리자 권한이 필요합니다"))
