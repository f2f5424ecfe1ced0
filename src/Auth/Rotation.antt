-- ===== src/Auth/Rotation.antt =====
-- The rotation of refresh tokens.
use ticket_queue_platform.Prelude.{
  ℕ, suc, ◌+◌, ◌*◌, ◌≡◌, refl, ◌∙◌, true, false, ◌==◌, ltb, if◌then◌else◌, none, some, [], ok, err,
  arith,
}
use ticket_queue_platform.Errors.{app_error, text}
use ticket_queue_platform.Schema.{RefreshToken}
use ticket_queue_platform.Platform.{Platform, World, calm}
use ticket_queue_platform.Services.Accounts.{JwtPayload}
use ticket_queue_platform.Auth.Repository.{payload_of, account_repository}
use ticket_queue_platform.Auth.Service.{TokenPair, refresh, refresh_days, day, account_service}

module _ {p : Platform} (raw : p.crypto.Token) (w : World p) where
  abbrev pub name : ℕ
  name = p.crypto.hash_token raw

  abbrev pub redeemed : JwtPayload → TokenPair p.crypto.Token
  redeemed x = record {
    access_token = p.crypto.sign_access (payload_of x.sub x.email x.role w.random) w.now;
    refresh_token = p.crypto.sign_refresh (payload_of x.sub x.email x.role (suc w.random)) w.now;
  }

  abbrev pub successor : JwtPayload → ℕ
  successor x = p.crypto.hash_token (redeemed x).refresh_token

  abbrev pub successor_row : JwtPayload → RefreshToken
  successor_row x = record {
    user_id = x.sub;
    expires_at = w.now + refresh_days p.refresh_expires_in * day;
  }

  -- the world after a refresh
  abbrev pub rotated : JwtPayload → World p
  rotated x = record w {
    tokens = p.tokens.inserted (successor x) (successor_row x) (p.tokens.deleted name w.tokens);
    random = suc (suc w.random);
    faults = [];
  }

  -- A token that is not in the table is refused, whatever its signature says, and nothing changes.
  pub refresh_unknown :
      p.tokens.find name w.tokens ≡ none
      → refresh raw (calm w) ≡ (err (app_error 401 (text "유효하지 않은 토큰입니다")), calm w)
  unfolding refresh account_repository
  refresh_unknown h = ground arith

  module _ (x : JwtPayload) (st : RefreshToken)
      (signed : p.crypto.verify_refresh raw w.now ≡ some x)
      (stored : p.tokens.find name w.tokens ≡ some st) where
    pub refresh-eq :
        ltb st.expires_at w.now ≡ false
        → p.tokens.find (successor x) w.tokens ≡ none
        → refresh raw (calm w) ≡ (ok (redeemed x), rotated x)
    unfolding refresh account_repository account_service
    refresh-eq alive fresh = ground (
      arith,
      p.tokens.delete_lem name w.tokens,
      p.tokens.find-deleted name (successor x) w.tokens,
      p.tokens.create_lem (successor x) (successor_row x) (p.tokens.deleted name w.tokens),
    )

    -- An expired row is removed, and the token is refused.
    pub refresh_expired :
        ltb st.expires_at w.now ≡ true
        → refresh raw (calm w) ≡ (
          err (app_error 401 (text "만료된 토큰입니다")),
          record w { tokens = p.tokens.deleted name w.tokens; faults = [] },
        )
    unfolding refresh account_repository account_service
    refresh_expired late = ground (arith, p.tokens.delete_lem name w.tokens)

module _ {p : Platform} (raw : p.crypto.Token) (w : World p) (x : JwtPayload) (st : RefreshToken)
    (signed : p.crypto.verify_refresh raw w.now ≡ some x)
    (stored : p.tokens.find (name raw w) w.tokens ≡ some st) where
  -- Where no call fails, a token that is in the table and not expired, and whose signature is good, is
  -- exchanged for a pair with a new token, given that the new one is not in the table: its row gives
  -- way to that of the new one, which has a new term, the rows of other tokens stay, and a second use
  -- of the old token is refused.
  pub refresh_rotates :
      ltb st.expires_at w.now ≡ false
      → p.tokens.find (successor raw w x) w.tokens ≡ none
      → let r = refresh raw (calm w) in
        (r.0 ≡ ok (redeemed raw w x))
        × ((j : ℕ)
            → p.tokens.find j r.1.tokens ≡ (
                if successor raw w x == j
                then some (successor_row raw w x)
                else if name raw w == j
                then none
                else p.tokens.find j w.tokens))
        × (refresh raw r.1 ≡ (err (app_error 401 (text "유효하지 않은 토큰입니다")), r.1))
  refresh_rotates alive fresh =
      rw (refresh-eq raw w x st signed stored alive fresh) (refl, rows, used)
    where
      rows :
          (j : ℕ)
          → p.tokens.find j (rotated raw w x).tokens ≡ (
              if successor raw w x == j
              then some (successor_row raw w x)
              else if name raw w == j
              then none
              else p.tokens.find j w.tokens)
      rows j = ground (
        arith,
        p.tokens.find-inserted (successor raw w x) j (successor_row raw w x)
            (p.tokens.deleted (name raw w) w.tokens),
        p.tokens.find-deleted (name raw w) j w.tokens,
      )

      distinct :
          (if successor raw w x == name raw w
            then some (successor_row raw w x)
            else if name raw w == name raw w
            then none
            else p.tokens.find (name raw w) w.tokens)
          ≡ none
      distinct = ground (arith, stored, fresh)

      used :
          refresh raw (rotated raw w x)
          ≡ (err (app_error 401 (text "유효하지 않은 토큰입니다")), rotated raw w x)
      used = refresh_unknown raw (rotated raw w x) (rows (name raw w) ∙ distinct)
