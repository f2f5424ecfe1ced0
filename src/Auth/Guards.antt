-- ===== src/Auth/Guards.antt =====
-- Who passes the guards of the routes, and what a failing store cannot undo.
use ticket_queue_platform.Prelude.{
  ◌≡◌, ◌↔◌, refl, false, ◌==◌, none, some, ok, arith, ◌>>=◌, Action, Option-cases, inl, inr,
}
use ticket_queue_platform.Schema.{Role}
use ticket_queue_platform.Platform.{Platform, World}
use ticket_queue_platform.Services.Accounts.{JwtPayload}
use ticket_queue_platform.Auth.Repository.{account_repository}
use ticket_queue_platform.Auth.Service.{refresh, account_service, TokenPair}
use ticket_queue_platform.Auth.Middleware.{
  Header, bearer, missing, other_scheme, require_auth, require_admin,
}
use ticket_queue_platform.Auth.Rotation.{name, successor, successor_row}

module _ {p : Platform} where
  -- the guards of an administrator's route, one after the other
  abbrev pub admin_guards : Header p.crypto.Token → Action (World p) (Unit {0})
  admin_guards h = require_auth h >>= λ u. require_admin (some u)

  -- A token of an administrator that is good now.
  abbrev pub IsAdminToken : Header p.crypto.Token → World p → Type 0
  IsAdminToken h w =
      (token : p.crypto.Token) × (x : JwtPayload) × (h ≡ bearer token)
      × (p.crypto.verify_access token w.now ≡ some x)
      × (x.role ≡ Role.admin)

  admits_admin :
      (h : Header p.crypto.Token) (w : World p) → IsAdminToken h w → (admin_guards h w).0 ≡ ok tt
  unfolding require_auth require_admin account_repository
  admits_admin h w (token, x, e, v, r) = rw e (ground arith)

  admits_only_admin :
      (h : Header p.crypto.Token) (w : World p) → (admin_guards h w).0 ≡ ok tt → IsAdminToken h w
  unfolding require_auth require_admin account_repository
  admits_only_admin missing w e = ground arith
  admits_only_admin other_scheme w e = ground arith
  admits_only_admin (bearer token) w e = elim (Option-cases (p.crypto.verify_access token w.now)) [
    | inl bad ↦ ground arith
    | inr (x, good) ↦ (token, x, refl, good, ground (arith, good))
  ]

  -- The guards of the administration let a request through just when its header has an access token
  -- that verifies and whose role is ADMIN.
  pub admin_guards_iff :
      (h : Header p.crypto.Token) (w : World p) → ((admin_guards h w).0 ≡ ok tt) ↔ IsAdminToken h w
  admin_guards_iff h w = (admits_only_admin h w, admits_admin h w)

  -- Whatever calls fail: if a refresh of a token with a good signature succeeds, and the new token has
  -- another digest, the old token is gone from the table.
  pub refresh_spends_token :
      (raw : p.crypto.Token) (w : World p) (x : JwtPayload) (pair : TokenPair p.crypto.Token)
      → p.crypto.verify_refresh raw w.now ≡ some x
      → (successor raw w x == name raw w) ≡ false
      → (refresh raw w).0 ≡ ok pair
      → p.tokens.find (name raw w) (refresh raw w).1.tokens ≡ none
  unfolding refresh account_repository account_service
  refresh_spends_token raw w x pair signed distinct e = ground (
    arith,
    p.tokens.delete_lem (name raw w) w.tokens,
    p.tokens.find-deleted (name raw w) (name raw w) w.tokens,
    p.tokens.create_lem (successor raw w x) (successor_row raw w x)
        (p.tokens.deleted (name raw w) w.tokens),
    p.tokens.find-inserted (successor raw w x) (name raw w) (successor_row raw w x)
        (p.tokens.deleted (name raw w) w.tokens),
  )
