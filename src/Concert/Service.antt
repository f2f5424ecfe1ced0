-- ===== src/Concert/Service.antt =====
-- src/services/concert.service.ts.
use ticket_queue_platform.Prelude.{
  ℕ, not, is_some, Option, none, some, List, pos, ◌-ℤ◌, Action, ◌>>=◌, ◌>>◌, pure, or_throw,
  throw_if,
}
use ticket_queue_platform.Errors.{app_error, text}
use ticket_queue_platform.Schema.{Concert, ConcertStatus, ConcertZone}
use ticket_queue_platform.Platform.{Platform, World, command, now}
use ticket_queue_platform.Services.Redis.{stock, number}
use ticket_queue_platform.Concert.Repository.{
  CreateConcertInput, UpdateConcertInput, CreateZoneInput, UpdateZoneInput, ZoneStat, ConcertDetail,
  find_concert_by_id, find_concert_with_zones, find_all_concerts, create_concert, update_concert,
  delete_concert, update_scheduled_to_on_sale, find_zone, find_zone_by_name, create_zone,
  update_zone, delete_zone, find_zone_stats,
}

module _ {p : Platform} where
  unfoldable pub admin_create_concert : CreateConcertInput → Action (World p) ℕ
  admin_create_concert input = create_concert input

  unfoldable pub admin_update_concert : ℕ → UpdateConcertInput → Action (World p) (Unit {0})
  admin_update_concert id input = do
    existing ← find_concert_by_id id
    throw_if (not (is_some existing)) (app_error 404 (text "공연을 찾을 수 없습니다"))
    update_concert id input

  unfoldable pub admin_delete_concert : ℕ → Action (World p) (Unit {0})
  admin_delete_concert id = do
    existing ← find_concert_by_id id
    throw_if (not (is_some existing)) (app_error 404 (text "공연을 찾을 수 없습니다"))
    delete_concert id

  unfoldable pub get_concert_stats : ℕ → Action (World p) (List ZoneStat)
  get_concert_stats id = do
    existing ← find_concert_by_id id
    throw_if (not (is_some existing)) (app_error 404 (text "공연을 찾을 수 없습니다"))
    find_zone_stats id

  unfoldable pub set_stock : ℕ → ℕ → Action (World p) (Unit {0})
  set_stock zone_id total =
      command (λ w. record w { redis = p.redis.set (stock zone_id) (number (pos total)) w.redis })

  -- the id of the new zone
  unfoldable pub admin_create_zone : ℕ → CreateZoneInput → Action (World p) ℕ
  admin_create_zone concert_id input = do
    concert ← find_concert_by_id concert_id
    throw_if (not (is_some concert)) (app_error 404 (text "공연을 찾을 수 없습니다"))
    duplicate ← find_zone_by_name concert_id input.name
    throw_if (is_some duplicate) (app_error 409 (text "이미 존재하는 구역명입니다"))
    zone_id ← create_zone concert_id input
    set_stock zone_id input.total_quantity
    pure zone_id

  -- the stock counter follows a new total by the difference
  unfoldable pub shift_stock : ℕ → UpdateZoneInput → ConcertZone → Action (World p) (Unit {0})
  shift_stock id input existing = elim input.total_quantity [
    | none ↦ pure tt
    | some total ↦ command (λ w. record w {
      redis = p.redis.incrby (stock id) (pos total -ℤ pos existing.total_quantity) w.redis;
    })
  ]

  unfoldable pub admin_update_zone : ℕ → UpdateZoneInput → Action (World p) (Unit {0})
  admin_update_zone id input = do
    found ← find_zone id
    existing ← or_throw found (app_error 404 (text "구역을 찾을 수 없습니다"))
    update_zone id input
    shift_stock id input existing

  unfoldable pub admin_delete_zone : ℕ → Action (World p) (Unit {0})
  admin_delete_zone id = do
    existing ← find_zone id
    throw_if (not (is_some existing)) (app_error 404 (text "구역을 찾을 수 없습니다"))
    delete_zone id
    command (λ w. record w { redis = p.redis.del (stock id) w.redis })

  unfoldable pub list_concerts : Option ConcertStatus → Action (World p) (List (ℕ × Concert))
  list_concerts status = find_all_concerts status

  unfoldable pub get_concert_detail : ℕ → Action (World p) ConcertDetail
  get_concert_detail id = do
    concert ← find_concert_with_zones id
    or_throw concert (app_error 404 (text "공연을 찾을 수 없습니다"))

  -- the number of concerts that went on sale
  unfoldable pub tick_concert_status : Action (World p) ℕ
  tick_concert_status = do t ← now; update_scheduled_to_on_sale t
