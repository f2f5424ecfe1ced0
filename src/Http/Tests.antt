-- ===== src/Http/Tests.antt =====
-- Requests to the sample platform: runs, and instances of the theorems.
use ticket_queue_platform.Prelude.{◌≡◌, refl, none, some, [], ◌∷◌}
use ticket_queue_platform.Schema.{Role}
use ticket_queue_platform.Samples.{memory, opening}
use ticket_queue_platform.Services.Memory.Accounts.{SignedToken, access_token}
use ticket_queue_platform.Auth.Repository.{payload_of, account_repository}
use ticket_queue_platform.Auth.Middleware.{bearer, require_auth}
use ticket_queue_platform.Queue.Repository.{queue_repository}
use ticket_queue_platform.Queue.Service.{get_queue_status}
use ticket_queue_platform.Http.Response.{invalid, success_response}
use ticket_queue_platform.Http.Controllers.{of_status}
use ticket_queue_platform.Http.Routes.{
  serve_user, serve_admin, get_status, post_reservation, delete_zone,
}
use ticket_queue_platform.Http.Refusals.{Refused, serve_user-Refused, serve_admin-Refused}
use ticket_queue_platform.Queue.Service.{waiting}

-- the token of user 8, who is no administrator
abbrev ticket : SignedToken
ticket = access_token (payload_of 8 "b@b.kr" Role.user 101) 3000

status_run :
    serve_user {p = memory} (bearer ticket) (get_status 1) opening
    ≡ (success_response 200 (some (of_status (waiting 2 2))) none, opening)
unfolding serve_user require_auth account_repository get_queue_status queue_repository
status_run = refl

serve_user-Refused_example : Refused {p = memory} 400 opening (
    serve_user {p = memory}
      (bearer ticket)
      (post_reservation (invalid ("최대 4장까지 구매 가능합니다" ∷ [])))
      opening)
serve_user-Refused_example =
    serve_user-Refused (bearer ticket) (post_reservation (invalid ("최대 4장까지 구매 가능합니다" ∷ [])))
      opening 400 refl

serve_admin-Refused_example :
    Refused {p = memory} 403 opening
      (serve_admin {p = memory} (bearer ticket) (delete_zone 5) opening)
serve_admin-Refused_example = serve_admin-Refused (bearer ticket) (delete_zone 5) opening 403 refl
