-- ===== src/Services/Memory/Accounts.antt =====
-- Users in memory, and a cryptography of tokens that carry what was signed.
use Prim.Native.String.{String}
use text.Mathlib.Text.{◌==◌ as str_eq}
use text.Mathlib.TextPositions.{eq_refl}
use ticket_queue_platform.Prelude.{
  ℕ, ◌+◌, ◌*◌, ◌/◌, refl, ◌||◌, ltb, if◌then◌else◌, Option, none, some, is_some, List, [], ◌∷◌,
  lookup,
}
use ticket_queue_platform.Schema.{User}
use ticket_queue_platform.Services.Accounts.{Users, JwtPayload, Crypto}
use ticket_queue_platform.Services.Memory.Assoc.{above, lookup-above}

module _ {D : Type 0} where
  abbrev by_email : String → List (ℕ × User D) → Option (ℕ × User D)
  by_email e [] = none
  by_email e (x ∷ xs) = if str_eq x.1.email e then some x else by_email e xs

abbrev pub users_in_memory : (D : Type 0) → Users D
users_in_memory D = record {
  Rows = List (ℕ × User D);
  find = lookup;
  find_by_email = by_email;
  fresh = above;
  create = λ i u r.
      if is_some (lookup i r) || is_some (by_email u.email r) then none else some ((i, u) ∷ r);
  inserted = λ i u r. (i, u) ∷ r;
  find-fresh = lookup-above;
  create_lem = λ i u r. refl;
  find-inserted = λ i j u r. refl;
  find_by_email-inserted = λ e i u r. refl;
}

pub data SignedToken : Type 0 where
  access_token refresh_token : JwtPayload → ℕ → SignedToken

abbrev verify_access : SignedToken → ℕ → Option JwtPayload
verify_access (access_token x s) t = if ltb (t / 1000) (s / 1000 + 900) then some x else none
verify_access (refresh_token x s) t = none

abbrev verify_refresh : SignedToken → ℕ → Option JwtPayload
verify_refresh (access_token x s) t = none
verify_refresh (refresh_token x s) t = if ltb (t / 1000) (s / 1000 + 604800) then some x else none

abbrev name_of : SignedToken → ℕ
name_of (access_token x s) = 2 * x.jti
name_of (refresh_token x s) = 2 * x.jti + 1

abbrev pub open_crypto : Crypto
open_crypto = record {
  Token = SignedToken;
  Digest = String;
  access_ttl = 900;
  refresh_ttl = 604800;
  sign_access = access_token;
  sign_refresh = refresh_token;
  verify_access = verify_access;
  verify_refresh = verify_refresh;
  hash_token = name_of;
  hash_password = λ s salt. s;
  compare_password = str_eq;
  verify_access-sign_access = λ x s t. refl;
  verify_refresh-sign_refresh = λ x s t. refl;
  verify_access-sign_refresh = λ x s t. refl;
  verify_refresh-sign_access = λ x s t. refl;
  compare-hash = λ s salt. eq_refl s;
}
