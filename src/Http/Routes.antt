-- ===== src/Http/Routes.antt =====
-- src/routes and the mounts of src/index.ts: which guards and which handler a request meets. The
-- requests are those of the endpoints, with the ids of their paths, what zod returned for their bodies,
-- and the Authorization header.
use Prim.Native.String.{String}
use ticket_queue_platform.Prelude.{ℕ, Option}
use ticket_queue_platform.Schema.{ConcertStatus}
use ticket_queue_platform.Platform.{Platform}
use ticket_queue_platform.Auth.Middleware.{Header}
use ticket_queue_platform.Auth.Service.{RegisterInput, LoginInput}
use ticket_queue_platform.Concert.Repository.{
  CreateConcertInput, UpdateConcertInput, CreateZoneInput, UpdateZoneInput,
}
use ticket_queue_platform.Reservation.Service.{CreateReservationInput, TossWebhookBody}
use ticket_queue_platform.Post.Repository.{CreatePostInput}
use ticket_queue_platform.Http.Response.{Parsed, as_user, as_admin}
use ticket_queue_platform.Http.Controllers.{
  Endpoint, register_handler, login_handler, logout_handler, refresh_handler, me_handler,
  list_concerts_handler, get_concert_detail_handler, create_concert_handler, update_concert_handler,
  delete_concert_handler, get_concert_stats_handler, create_zone_handler, update_zone_handler,
  delete_zone_handler, enter_queue_handler, leave_queue_handler, get_queue_status_handler,
  create_reservation_handler, get_reservation_detail_handler, get_my_reservations_handler,
  cancel_reservation_handler, extend_reservation_handler, toss_webhook_handler, create_post_handler,
  get_my_posts_handler, get_post_detail_handler, delete_post_handler, get_all_posts_handler,
  create_reply_handler, update_reply_handler,
}

-- the endpoints without a guard
pub data OpenRequest (Token : Type 0) : Type 0 where
  post_register : Parsed RegisterInput → OpenRequest Token
  post_login : Parsed LoginInput → OpenRequest Token
  post_logout post_refresh : Parsed Token → OpenRequest Token
  get_concerts : Parsed (Option ConcertStatus) → OpenRequest Token
  get_concert : ℕ → OpenRequest Token
  post_webhook : Parsed TossWebhookBody → OpenRequest Token

-- the endpoints behind requireAuth
pub data UserRequest : Type 0 where
  get_me get_posts get_reservations : UserRequest
  post_enter delete_leave get_status : ℕ → UserRequest
  post_reservation : Parsed CreateReservationInput → UserRequest
  get_reservation delete_reservation post_extend : ℕ → UserRequest
  post_post : Parsed CreatePostInput → UserRequest
  get_post delete_post : ℕ → UserRequest

-- the endpoints behind requireAuth and requireAdmin
pub data AdminRequest : Type 0 where
  post_concert : Parsed CreateConcertInput → AdminRequest
  patch_concert : ℕ → Parsed UpdateConcertInput → AdminRequest
  delete_concert get_stats : ℕ → AdminRequest
  post_zone : ℕ → Parsed CreateZoneInput → AdminRequest
  patch_zone : ℕ → Parsed UpdateZoneInput → AdminRequest
  delete_zone : ℕ → AdminRequest
  get_all_posts : AdminRequest
  post_reply patch_reply : ℕ → Parsed String → AdminRequest

module _ {p : Platform} where
  unfoldable pub serve_open : OpenRequest p.crypto.Token → Endpoint p
  serve_open (post_register body) = register_handler body
  serve_open (post_login body) = login_handler body
  serve_open (post_logout body) = logout_handler body
  serve_open (post_refresh body) = refresh_handler body
  serve_open (get_concerts query) = list_concerts_handler query
  serve_open (get_concert id) = get_concert_detail_handler id
  serve_open (post_webhook body) = toss_webhook_handler body

  unfoldable pub serve_user : Header p.crypto.Token → UserRequest → Endpoint p
  serve_user h get_me = as_user h me_handler
  serve_user h (post_enter c) = as_user h (enter_queue_handler c)
  serve_user h (delete_leave c) = as_user h (leave_queue_handler c)
  serve_user h (get_status c) = as_user h (get_queue_status_handler c)
  serve_user h (post_reservation body) = as_user h (create_reservation_handler body)
  serve_user h get_reservations = as_user h get_my_reservations_handler
  serve_user h (get_reservation id) = as_user h (get_reservation_detail_handler id)
  serve_user h (delete_reservation id) = as_user h (cancel_reservation_handler id)
  serve_user h (post_extend id) = as_user h (extend_reservation_handler id)
  serve_user h (post_post body) = as_user h (create_post_handler body)
  serve_user h get_posts = as_user h get_my_posts_handler
  serve_user h (get_post id) = as_user h (get_post_detail_handler id)
  serve_user h (delete_post id) = as_user h (delete_post_handler id)

  -- The routes of posts pass the same guards twice, since both routers are mounted on their path.
  unfoldable pub serve_admin : Header p.crypto.Token → AdminRequest → Endpoint p
  serve_admin h (post_concert body) = as_admin h (λ _. create_concert_handler body)
  serve_admin h (patch_concert id body) = as_admin h (λ _. update_concert_handler id body)
  serve_admin h (delete_concert id) = as_admin h (λ _. delete_concert_handler id)
  serve_admin h (get_stats id) = as_admin h (λ _. get_concert_stats_handler id)
  serve_admin h (post_zone id body) = as_admin h (λ _. create_zone_handler id body)
  serve_admin h (patch_zone id body) = as_admin h (λ _. update_zone_handler id body)
  serve_admin h (delete_zone id) = as_admin h (λ _. delete_zone_handler id)
  serve_admin h get_all_posts = as_admin h (λ _. as_admin h (λ _. get_all_posts_handler))
  serve_admin h (post_reply id body) = as_admin h (λ _. as_admin h (create_reply_handler id body))
  serve_admin h (patch_reply id body) =
      as_admin h (λ _. as_admin h (λ _. update_reply_handler id body))
