-- ===== src/Http/Refusals.antt =====
-- The requests that never reach a service: without a token, without the role, or with a bad body.
use ticket_queue_platform.Prelude.{
  ℕ, Bool, true, false, ◌≡◌, refl, if◌then◌else◌, Option, none, some, Option-cases, inl, inr, arith,
  ok, err,
}
use ticket_queue_platform.Errors.{Message, app_error, text}
use ticket_queue_platform.Platform.{Platform, World}
use ticket_queue_platform.Services.Accounts.{JwtPayload}
use ticket_queue_platform.Auth.Repository.{verify_access_token}
use ticket_queue_platform.Auth.Middleware.{
  AuthUser, Header, missing, other_scheme, bearer, is_admin, require_auth, require_admin,
}
use ticket_queue_platform.Http.Response.{
  Parsed, valid, invalid, Response, Handler, with_body, as_user, as_admin,
}
use ticket_queue_platform.Http.Controllers.{
  cancel_reservation_handler, create_concert_handler, create_post_handler, create_reply_handler,
  create_reservation_handler, create_zone_handler, delete_concert_handler, delete_post_handler,
  delete_zone_handler, enter_queue_handler, extend_reservation_handler, get_all_posts_handler,
  get_concert_stats_handler, get_my_posts_handler, get_post_detail_handler,
  get_queue_status_handler, get_reservation_detail_handler, get_my_reservations_handler,
  leave_queue_handler, me_handler, update_concert_handler, update_reply_handler,
  update_zone_handler,
}
use ticket_queue_platform.Http.Routes.{
  UserRequest, AdminRequest, serve_user, serve_admin, get_me, get_posts, post_enter, delete_leave,
  get_status, post_reservation, get_reservation, get_reservations, delete_reservation, post_extend,
  post_post, get_post, delete_post, post_concert, patch_concert, delete_concert, get_stats,
  post_zone, patch_zone, delete_zone, get_all_posts, post_reply, patch_reply,
}

abbrev pub is_valid : {A : Type 0} → Parsed A → Bool
is_valid (valid x) = true
is_valid (invalid issues) = false

-- whether zod took the body of a request, if it has one
abbrev pub user_body_ok : UserRequest → Bool
user_body_ok (post_reservation body) = is_valid body
user_body_ok (post_post body) = is_valid body
user_body_ok _ = true

abbrev pub admin_body_ok : AdminRequest → Bool
admin_body_ok (post_concert body) = is_valid body
admin_body_ok (patch_concert id body) = is_valid body
admin_body_ok (post_zone id body) = is_valid body
admin_body_ok (patch_zone id body) = is_valid body
admin_body_ok (post_reply id body) = is_valid body
admin_body_ok (patch_reply id body) = is_valid body
admin_body_ok _ = true

-- the status of a request that the guards or zod refuse
abbrev pub user_refusal : Option JwtPayload → Bool → Option ℕ
user_refusal none body_ok = some 401
user_refusal (some x) body_ok = if body_ok then none else some 400

abbrev pub admin_refusal : Option JwtPayload → Bool → Option ℕ
admin_refusal none body_ok = some 401
admin_refusal (some x) body_ok =
    if is_admin x.role then (if body_ok then none else some 400) else some 403

abbrev user_from : JwtPayload → AuthUser
user_from x = record { id = x.sub; email = x.email; role = x.role }

module _ {p : Platform} where
  -- the claims of the token in a header
  abbrev pub verified : Header p.crypto.Token → World p → Option JwtPayload
  verified (bearer token) w = p.crypto.verify_access token w.now
  verified _ w = none

  -- an error with a status, and no change
  abbrev pub Refused : {A : Type 0} → ℕ → World p → Response A × World p → Type 0
  Refused n w r = (r.0.status ≡ n) × (r.0.success ≡ false) × (r.1 ≡ w)

  bad_body-Refused :
      {A B : Type 0} (body : Parsed B) (f : B → Handler p A) (w : World p)
      → is_valid body ≡ false
      → Refused 400 w (with_body body f w)
  bad_body-Refused (valid x) f w h = ground (arith, h)
  bad_body-Refused (invalid issues) f w h = (refl, refl, refl)

  kept_out :
      (h : Header p.crypto.Token) (w : World p)
      → verified h w ≡ none
      → (m : Message) × (require_auth h w ≡ (err (app_error 401 m), w))
  unfolding require_auth verify_access_token
  kept_out missing w e = (text "인증 토큰이 필요합니다", refl)
  kept_out other_scheme w e = (text "인증 토큰이 필요합니다", refl)
  kept_out (bearer token) w e = (text "유효하지 않은 토큰입니다", ground (arith, e))

  let_in :
      (h : Header p.crypto.Token) (w : World p) (x : JwtPayload)
      → verified h w ≡ some x
      → require_auth h w ≡ (ok (user_from x), w)
  unfolding require_auth verify_access_token
  let_in missing w x e = ground (arith, e)
  let_in other_scheme w x e = ground (arith, e)
  let_in (bearer token) w x e = ground (arith, e)

  module _ {A : Type 0} (h : Header p.crypto.Token) (f : AuthUser → Handler p A) (w : World p)
      (body_ok : Bool) (bad : (u : AuthUser) → body_ok ≡ false → Refused 400 w (f u w)) where
    as_user-Refused :
        (n : ℕ) → user_refusal (verified h w) body_ok ≡ some n → Refused n w (as_user {p = p} h f w)
    as_user-Refused n e = elim (Option-cases (verified h w)) [
      | inl none_ ↦ let (m, k) = kept_out h w none_ in ground (arith, e, none_, k)
      | inr (x, some_) ↦ ground (arith, e, some_, let_in h w x some_, bad (user_from x))
    ]

    as_admin-Refused :
        (n : ℕ)
        → admin_refusal (verified h w) body_ok ≡ some n
        → Refused n w (as_admin {p = p} h f w)
    unfolding require_admin
    as_admin-Refused n e = elim (Option-cases (verified h w)) [
      | inl none_ ↦ let (m, k) = kept_out h w none_ in ground (arith, e, none_, k)
      | inr (x, some_) ↦ ground (arith, e, some_, let_in h w x some_, bad (user_from x))
    ]

    -- the routes of two routers
    as_admin_twice-Refused :
        (n : ℕ)
        → admin_refusal (verified h w) body_ok ≡ some n
        → Refused n w (as_admin {p = p} h (λ u. as_admin {p = p} h f) w)
    unfolding require_admin
    as_admin_twice-Refused n e = elim (Option-cases (verified h w)) [
      | inl none_ ↦ let (m, k) = kept_out h w none_ in ground (arith, e, none_, k)
      | inr (x, some_) ↦ ground (arith, e, some_, let_in h w x some_, bad (user_from x))
    ]

  -- a request without a body
  module _ {A : Type 0} (h : Header p.crypto.Token) (f : AuthUser → Handler p A) (w : World p)
      (n : ℕ) where
    bodiless_user : user_refusal (verified h w) true ≡ some n → Refused n w (as_user {p = p} h f w)
    bodiless_user = as_user-Refused h f w true (λ u k. ground (arith, k)) n

    bodiless_admin :
        admin_refusal (verified h w) true ≡ some n → Refused n w (as_admin {p = p} h f w)
    bodiless_admin = as_admin-Refused h f w true (λ u k. ground (arith, k)) n

  -- A request to an endpoint of a user gets 401 if the header has no access token that verifies, and
  -- else 400 if zod refuses its body; then it has no success and changes nothing, on every such
  -- endpoint and whatever calls would fail.
  pub serve_user-Refused :
      (h : Header p.crypto.Token) (req : UserRequest) (w : World p) (n : ℕ)
      → user_refusal (verified h w) (user_body_ok req) ≡ some n
      → Refused n w (serve_user {p = p} h req w)
  unfolding serve_user
  serve_user-Refused h get_me w n = bodiless_user h me_handler w n
  serve_user-Refused h (post_enter c) w n = bodiless_user h (enter_queue_handler c) w n
  serve_user-Refused h (delete_leave c) w n = bodiless_user h (leave_queue_handler c) w n
  serve_user-Refused h (get_status c) w n = bodiless_user h (get_queue_status_handler c) w n
  serve_user-Refused h (post_reservation body) w n =
      as_user-Refused h (create_reservation_handler body) w (is_valid body)
        (λ u. bad_body-Refused body _ w) n
  serve_user-Refused h get_reservations w n = bodiless_user h get_my_reservations_handler w n
  serve_user-Refused h (get_reservation id) w n =
      bodiless_user h (get_reservation_detail_handler id) w n
  serve_user-Refused h (delete_reservation id) w n =
      bodiless_user h (cancel_reservation_handler id) w n
  serve_user-Refused h (post_extend id) w n = bodiless_user h (extend_reservation_handler id) w n
  serve_user-Refused h (post_post body) w n =
      as_user-Refused h (create_post_handler body) w (is_valid body)
        (λ u. bad_body-Refused body _ w) n
  serve_user-Refused h get_posts w n = bodiless_user h get_my_posts_handler w n
  serve_user-Refused h (get_post id) w n = bodiless_user h (get_post_detail_handler id) w n
  serve_user-Refused h (delete_post id) w n = bodiless_user h (delete_post_handler id) w n

  -- A request to an endpoint of the administration gets 401 if the header has no access token that
  -- verifies, else 403 if the role of the token is not ADMIN, and else 400 if zod refuses its body;
  -- then it has no success and changes nothing, on every such endpoint and whatever calls would fail.
  pub serve_admin-Refused :
      (h : Header p.crypto.Token) (req : AdminRequest) (w : World p) (n : ℕ)
      → admin_refusal (verified h w) (admin_body_ok req) ≡ some n
      → Refused n w (serve_admin {p = p} h req w)
  unfolding serve_admin
  serve_admin-Refused h (post_concert body) w n =
      as_admin-Refused h (λ _. create_concert_handler body) w (is_valid body)
        (λ u. bad_body-Refused body _ w) n
  serve_admin-Refused h (patch_concert id body) w n =
      as_admin-Refused h (λ _. update_concert_handler id body) w (is_valid body)
        (λ u. bad_body-Refused body _ w) n
  serve_admin-Refused h (delete_concert id) w n =
      bodiless_admin h (λ _. delete_concert_handler id) w n
  serve_admin-Refused h (get_stats id) w n =
      bodiless_admin h (λ _. get_concert_stats_handler id) w n
  serve_admin-Refused h (post_zone id body) w n =
      as_admin-Refused h (λ _. create_zone_handler id body) w (is_valid body)
        (λ u. bad_body-Refused body _ w) n
  serve_admin-Refused h (patch_zone id body) w n =
      as_admin-Refused h (λ _. update_zone_handler id body) w (is_valid body)
        (λ u. bad_body-Refused body _ w) n
  serve_admin-Refused h (delete_zone id) w n = bodiless_admin h (λ _. delete_zone_handler id) w n
  serve_admin-Refused h get_all_posts w n =
      as_admin_twice-Refused h (λ _. get_all_posts_handler) w true (λ u k. ground (arith, k)) n
  serve_admin-Refused h (post_reply id body) w n =
      as_admin_twice-Refused h (create_reply_handler id body) w (is_valid body)
        (λ u. bad_body-Refused body _ w) n
  serve_admin-Refused h (patch_reply id body) w n =
      as_admin_twice-Refused h (λ _. update_reply_handler id body) w (is_valid body)
        (λ u. bad_body-Refused body _ w) n
