-- ===== src/Auth/Repository.antt =====
-- src/repositories/user.repository.ts, src/repositories/refreshToken.repository.ts and src/utils/jwt.ts.
use Prim.Native.String.{String}
use ticket_queue_platform.Prelude.{ℕ, Option, Action, ok, ◌>>=◌, ◌>>◌, pure}
use ticket_queue_platform.Errors.{record_not_found, unique_violation}
use ticket_queue_platform.Schema.{User, Role, RefreshToken}
use ticket_queue_platform.Platform.{Platform, World, query, write, now, draw}
use ticket_queue_platform.Services.Accounts.{JwtPayload}

abbrev pub payload_of : ℕ → String → Role → ℕ → JwtPayload
payload_of sub email role jti = record { sub = sub; email = email; role = role; jti = jti }

module _ {p : Platform} where
  unfoldable pub find_user_by_email : String → Action (World p) (Option (ℕ × User p.crypto.Digest))
  find_user_by_email email = query (λ w. p.users.find_by_email email w.users)

  unfoldable pub find_user_by_id : ℕ → Action (World p) (Option (User p.crypto.Digest))
  find_user_by_id id = query (λ w. p.users.find id w.users)

  -- the id of the new row
  unfoldable pub create_user : User p.crypto.Digest → Action (World p) ℕ
  create_user user w =
      (do
        write (λ v. p.users.create (p.users.fresh w.users) user v.users) unique_violation
            (λ rows v. record v { users = rows })
        pure (p.users.fresh w.users))
        w

  unfoldable pub create_refresh_token : ℕ → p.crypto.Token → ℕ → Action (World p) (Unit {0})
  create_refresh_token user_id token expires_at =
      write
        (λ w.
          p.tokens.create (p.crypto.hash_token token)
            (record { user_id = user_id; expires_at = expires_at }) w.tokens)
        unique_violation (λ rows w. record w { tokens = rows })

  unfoldable pub find_refresh_token_by_raw : p.crypto.Token → Action (World p) (Option RefreshToken)
  find_refresh_token_by_raw token = query (λ w. p.tokens.find (p.crypto.hash_token token) w.tokens)

  unfoldable pub delete_refresh_token_by_raw : p.crypto.Token → Action (World p) (Unit {0})
  delete_refresh_token_by_raw token =
      write (λ w. p.tokens.delete (p.crypto.hash_token token) w.tokens) record_not_found
        (λ rows w. record w { tokens = rows })

  unfoldable pub sign_access_token : ℕ → String → Role → Action (World p) p.crypto.Token
  sign_access_token sub email role = do
    jti ← draw
    t ← now
    pure (p.crypto.sign_access (payload_of sub email role jti) t)

  unfoldable pub sign_refresh_token : ℕ → String → Role → Action (World p) p.crypto.Token
  sign_refresh_token sub email role = do
    jti ← draw
    t ← now
    pure (p.crypto.sign_refresh (payload_of sub email role jti) t)

  -- `none` where it throws
  unfoldable pub verify_access_token : p.crypto.Token → Action (World p) (Option JwtPayload)
  verify_access_token token w = (ok (p.crypto.verify_access token w.now), w)

  unfoldable pub verify_refresh_token : p.crypto.Token → Action (World p) (Option JwtPayload)
  verify_refresh_token token w = (ok (p.crypto.verify_refresh token w.now), w)

-- Names every function of this file, so that a proof opens them by one name.
unfoldable pub account_repository : Unit {0}
unfolding find_user_by_email find_user_by_id create_user create_refresh_token
    find_refresh_token_by_raw delete_refresh_token_by_raw sign_access_token sign_refresh_token
    verify_access_token verify_refresh_token
account_repository = tt
