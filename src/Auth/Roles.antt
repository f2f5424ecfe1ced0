-- ===== src/Auth/Roles.antt =====
-- The role that a registration asks for, up to the guards of the administration.
use ticket_queue_platform.Prelude.{◌+◌, ◌/◌, ◌≡◌, refl, ltb, none, some, true, ok, arith}
use ticket_queue_platform.Schema.{Role}
use ticket_queue_platform.Platform.{Platform, World, calm}
use ticket_queue_platform.Auth.Repository.{payload_of}
use ticket_queue_platform.Auth.Service.{RegisterInput, register, login}
use ticket_queue_platform.Auth.Middleware.{bearer}
use ticket_queue_platform.Auth.Guards.{admin_guards, admin_guards_iff}
use ticket_queue_platform.Auth.Sessions.{
  session, session_name, registered, new_id, new_user, register-login,
}

module _ {p : Platform} (input : RegisterInput) (w v : World p)
    (free : p.users.find_by_email input.email w.users ≡ none) where
  -- Where no call fails: who registers with a free email and asks for the role ADMIN in the body gets,
  -- by the login that follows, an access token that the guards of the administration let through at
  -- any later world before its expiry, given that the refresh token of the login is not in the table.
  pub register_as_admin :
      input.role ≡ some Role.admin
      → p.tokens.find
          (session_name (registered input w) (new_id input w) (new_user input w))
          w.tokens
        ≡ none
      → ltb (v.now / 1000) (w.now / 1000 + p.crypto.access_ttl) ≡ true
      → let after = (register input (calm w)).1 in
        let s = session (registered input w) (new_id input w) (new_user input w) in
        ((login (record { email = input.email; password = input.password }) after).0 ≡ ok s)
        × ((admin_guards (bearer s.access_token) v).0 ≡ ok tt)
  register_as_admin asked fresh lives = (
    (register-login input w free fresh).1,
    (admin_guards_iff
          (bearer (session (registered input w) (new_id input w) (new_user input w)).access_token)
          v).1
        (
          (session (registered input w) (new_id input w) (new_user input w)).access_token,
          payload_of (new_id input w) (new_user input w).email (new_user input w).role
              (registered input w).random,
          refl,
          ground (
            arith,
            p.crypto.verify_access-sign_access
                (payload_of (new_id input w) (new_user input w).email (new_user input w).role
                  (registered input w).random)
                w.now v.now,
          ),
          ground arith,
        ),
  )
