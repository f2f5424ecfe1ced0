-- ===== src/Http/Controllers.antt =====
-- src/controllers: what each handler asks of its service, and the response it makes of the answer.
use Prim.Native.String.{String}
use ticket_queue_platform.Prelude.{ℕ, Option, none, some, List, map}
use ticket_queue_platform.Errors.{text}
use ticket_queue_platform.Schema.{Concert, ConcertStatus, Post}
use ticket_queue_platform.Platform.{Platform}
use ticket_queue_platform.Auth.Middleware.{AuthUser}
use ticket_queue_platform.Auth.Service.{
  UserDto, LoginResult, TokenPair, RegisterInput, LoginInput, register, login, logout, refresh,
  get_me,
}
use ticket_queue_platform.Concert.Repository.{
  CreateConcertInput, UpdateConcertInput, CreateZoneInput, UpdateZoneInput, ConcertDetail, ZoneStat,
}
use ticket_queue_platform.Concert.Service.{
  admin_create_concert, admin_update_concert, admin_delete_concert, get_concert_stats,
  admin_create_zone, admin_update_zone, admin_delete_zone, list_concerts, get_concert_detail,
}
use ticket_queue_platform.Queue.Service.{
  QueuePositionResult, QueueStatusResult, enter_queue, leave_queue, get_queue_status,
}
use ticket_queue_platform.Reservation.Repository.{FoundReservation}
use ticket_queue_platform.Reservation.Service.{
  CreateReservationInput, Receipt, TossWebhookBody, create_reservation, get_reservation_detail,
  cancel_reservation, extend_reservation, handle_webhook,
}
use ticket_queue_platform.Reservation.Listing.{
  ReservationDetailResponse, to_reservation_detail_response, get_my_reservations,
}
use ticket_queue_platform.Post.Repository.{CreatePostInput, FoundPost, PostSummary}
use ticket_queue_platform.Post.Service.{
  create_post, get_my_posts, get_post_detail, delete_post, get_all_posts, create_reply,
  update_reply,
}
use ticket_queue_platform.Http.Response.{Parsed, Handler, Note, said, answer, with_body}

-- The data of a response. A row that was written is known by its id.
pub data Payload (Token : Type 0) : Type 0 where
  row_id : ℕ → Payload Token
  row_written : Payload Token
  of_user : UserDto → Payload Token
  of_session : LoginResult Token → Payload Token
  of_tokens : TokenPair Token → Payload Token
  of_concerts : List (ℕ × Concert) → Payload Token
  of_concert : ConcertDetail → Payload Token
  of_stats : List ZoneStat → Payload Token
  of_position : QueuePositionResult → Payload Token
  of_status : QueueStatusResult → Payload Token
  of_receipt : Receipt → Payload Token
  of_reservation : FoundReservation → Payload Token
  of_reservations : List ReservationDetailResponse → Payload Token
  of_extension : ℕ → Payload Token
  of_posts : List (ℕ × Post) → Payload Token
  of_post : FoundPost → Payload Token
  of_summaries : List PostSummary → Payload Token

abbrev note : String → Option Note
note s = some (said (text s))

abbrev pub Endpoint : Platform → Type 0
Endpoint p = Handler p (Payload p.crypto.Token)

module _ {p : Platform} where
  -- auth.controller.ts
  abbrev pub register_handler : Parsed RegisterInput → Endpoint p
  register_handler body =
      with_body body λ input. answer 201 (λ u. some (of_user u)) none (register input)

  abbrev pub login_handler : Parsed LoginInput → Endpoint p
  login_handler body =
      with_body body λ input. answer 200 (λ r. some (of_session r)) none (login input)

  abbrev pub logout_handler : Parsed p.crypto.Token → Endpoint p
  logout_handler body =
      with_body body λ token. answer 200 (λ _. none) (note "로그아웃되었습니다") (logout token)

  abbrev pub refresh_handler : Parsed p.crypto.Token → Endpoint p
  refresh_handler body =
      with_body body λ token. answer 200 (λ r. some (of_tokens r)) none (refresh token)

  abbrev pub me_handler : AuthUser → Endpoint p
  me_handler user = answer 200 (λ u. some (of_user u)) none (get_me user.id)

  -- concert.controller.ts
  abbrev pub list_concerts_handler : Parsed (Option ConcertStatus) → Endpoint p
  list_concerts_handler body =
      with_body body λ status. answer 200 (λ cs. some (of_concerts cs)) none (list_concerts status)

  abbrev pub get_concert_detail_handler : ℕ → Endpoint p
  get_concert_detail_handler id = answer 200 (λ c. some (of_concert c)) none (get_concert_detail id)

  -- adminConcert.controller.ts
  abbrev pub create_concert_handler : Parsed CreateConcertInput → Endpoint p
  create_concert_handler body =
      with_body body λ input. answer 201 (λ id. some (row_id id)) none (admin_create_concert input)

  abbrev pub update_concert_handler : ℕ → Parsed UpdateConcertInput → Endpoint p
  update_concert_handler id body =
      with_body body
        λ input. answer 200 (λ _. some row_written) none (admin_update_concert id input)

  abbrev pub delete_concert_handler : ℕ → Endpoint p
  delete_concert_handler id = answer 200 (λ _. none) (note "공연이 삭제되었습니다") (admin_delete_concert id)

  abbrev pub get_concert_stats_handler : ℕ → Endpoint p
  get_concert_stats_handler id = answer 200 (λ zs. some (of_stats zs)) none (get_concert_stats id)

  abbrev pub create_zone_handler : ℕ → Parsed CreateZoneInput → Endpoint p
  create_zone_handler id body =
      with_body body λ input. answer 201 (λ z. some (row_id z)) none (admin_create_zone id input)

  abbrev pub update_zone_handler : ℕ → Parsed UpdateZoneInput → Endpoint p
  update_zone_handler id body =
      with_body body λ input. answer 200 (λ _. some row_written) none (admin_update_zone id input)

  abbrev pub delete_zone_handler : ℕ → Endpoint p
  delete_zone_handler id = answer 200 (λ _. none) (note "구역이 삭제되었습니다") (admin_delete_zone id)

  -- queue.controller.ts
  abbrev pub enter_queue_handler : ℕ → AuthUser → Endpoint p
  enter_queue_handler c user = answer 200 (λ r. some (of_position r)) none (enter_queue c user.id)

  abbrev pub leave_queue_handler : ℕ → AuthUser → Endpoint p
  leave_queue_handler c user = answer 200 (λ _. none) (note "대기열에서 이탈했습니다") (leave_queue c user.id)

  abbrev pub get_queue_status_handler : ℕ → AuthUser → Endpoint p
  get_queue_status_handler c user =
      answer 200 (λ r. some (of_status r)) none (get_queue_status c user.id)

  -- reservation.controller.ts
  abbrev pub create_reservation_handler : Parsed CreateReservationInput → AuthUser → Endpoint p
  create_reservation_handler body user =
      with_body body
        λ input. answer 201 (λ r. some (of_receipt r)) none (create_reservation user.id input)

  abbrev pub get_my_reservations_handler : AuthUser → Endpoint p
  get_my_reservations_handler user =
      answer 200 (λ rs. some (of_reservations (map to_reservation_detail_response rs))) none
        (get_my_reservations user.id)

  abbrev pub get_reservation_detail_handler : ℕ → AuthUser → Endpoint p
  get_reservation_detail_handler id user =
      answer 200 (λ r. some (of_reservation r)) none (get_reservation_detail id user.id)

  abbrev pub cancel_reservation_handler : ℕ → AuthUser → Endpoint p
  cancel_reservation_handler id user =
      answer 200 (λ _. none) (note "예매가 취소되었습니다") (cancel_reservation id user.id)

  abbrev pub extend_reservation_handler : ℕ → AuthUser → Endpoint p
  extend_reservation_handler id user =
      answer 200 (λ r. some (of_extension r)) none (extend_reservation id user.id)

  -- payment.controller.ts, without its log
  abbrev pub toss_webhook_handler : Parsed TossWebhookBody → Endpoint p
  toss_webhook_handler body =
      with_body body λ x. answer 200 (λ _. none) (note "Webhook 처리 완료") (handle_webhook x)

  -- post.controller.ts
  abbrev pub create_post_handler : Parsed CreatePostInput → AuthUser → Endpoint p
  create_post_handler body user =
      with_body body λ input. answer 201 (λ id. some (row_id id)) none (create_post user.id input)

  abbrev pub get_my_posts_handler : AuthUser → Endpoint p
  get_my_posts_handler user = answer 200 (λ ps. some (of_posts ps)) none (get_my_posts user.id)

  abbrev pub get_post_detail_handler : ℕ → AuthUser → Endpoint p
  get_post_detail_handler id user =
      answer 200 (λ x. some (of_post x)) none (get_post_detail id user.id)

  abbrev pub delete_post_handler : ℕ → AuthUser → Endpoint p
  delete_post_handler id user = answer 200 (λ _. none) (note "문의가 삭제되었습니다") (delete_post id user.id)

  -- adminPost.controller.ts
  abbrev pub get_all_posts_handler : Endpoint p
  get_all_posts_handler = answer 200 (λ ps. some (of_summaries ps)) none get_all_posts

  abbrev pub create_reply_handler : ℕ → Parsed String → AuthUser → Endpoint p
  create_reply_handler id body user =
      with_body body
        λ content. answer 201 (λ _. some row_written) none (create_reply id user.id content)

  abbrev pub update_reply_handler : ℕ → Parsed String → Endpoint p
  update_reply_handler id body =
      with_body body λ content. answer 200 (λ _. some row_written) none (update_reply id content)
