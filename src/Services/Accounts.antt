-- ===== src/Services/Accounts.antt =====
-- The table of users, which has two unique keys, and the cryptography that accounts rest on
-- (jsonwebtoken, bcrypt, node:crypto), as interfaces.
use Prim.Native.String.{String}
use text.Mathlib.Text.{◌==◌ as str_eq}
use ticket_queue_platform.Prelude.{
  ℕ, ◌+◌, ◌/◌, ◌≡◌, Bool, true, ◌||◌, ltb, ◌==◌, if◌then◌else◌, Option, none, some, is_some,
}
use ticket_queue_platform.Schema.{User, Role}

-- Users by id and by email.
pub record Users (Digest : Type 0) : Type 1 where
  pub Rows : Type 0
  pub find : ℕ → Rows → Option (User Digest)
  pub find_by_email : String → Rows → Option (ℕ × User Digest)
  pub fresh : Rows → ℕ
  pub create : ℕ → User Digest → Rows → Option Rows
  pub inserted : ℕ → User Digest → Rows → Rows
  pub find-fresh : (r : Rows) → find (fresh r) r ≡ none
  pub create_lem :
      (i : ℕ) (u : User Digest) (r : Rows)
      → create i u r ≡ (
          if is_some (find i r) || is_some (find_by_email u.email r)
          then none
          else some (inserted i u r))
  pub find-inserted :
      (i j : ℕ) (u : User Digest) (r : Rows)
      → find j (inserted i u r) ≡ (if i == j then some u else find j r)
  pub find_by_email-inserted :
      (e : String) (i : ℕ) (u : User Digest) (r : Rows)
      → find_by_email e (inserted i u r)
        ≡ (if str_eq u.email e then some (i, u) else find_by_email e r)

-- `JwtPayload`
pub record JwtPayload : Type 0 where
  pub sub : ℕ
  pub email : String
  pub role : Role
  pub jti : ℕ

-- Times of JWT are whole seconds; a token is refused from its expiry on. The secrets of the two
-- kinds of token differ.
pub record Crypto : Type 1 where
  pub Token : Type 0
  pub Digest : Type 0
  pub access_ttl : ℕ
  pub refresh_ttl : ℕ
  pub sign_access : JwtPayload → ℕ → Token
  pub sign_refresh : JwtPayload → ℕ → Token
  -- `none` where `jwt.verify` throws
  pub verify_access : Token → ℕ → Option JwtPayload
  pub verify_refresh : Token → ℕ → Option JwtPayload
  -- SHA-256, which names a token in the table
  pub hash_token : Token → ℕ
  -- bcrypt with a salt
  pub hash_password : String → ℕ → Digest
  pub compare_password : String → Digest → Bool
  pub verify_access-sign_access :
      (x : JwtPayload) (s t : ℕ)
      → verify_access (sign_access x s) t
        ≡ (if ltb (t / 1000) (s / 1000 + access_ttl) then some x else none)
  pub verify_refresh-sign_refresh :
      (x : JwtPayload) (s t : ℕ)
      → verify_refresh (sign_refresh x s) t
        ≡ (if ltb (t / 1000) (s / 1000 + refresh_ttl) then some x else none)
  pub verify_access-sign_refresh :
      (x : JwtPayload) (s t : ℕ) → verify_access (sign_refresh x s) t ≡ none
  pub verify_refresh-sign_access :
      (x : JwtPayload) (s t : ℕ) → verify_refresh (sign_access x s) t ≡ none
  pub compare-hash : (s : String) (salt : ℕ) → compare_password s (hash_password s salt) ≡ true
