-- ===== src/Queue/Entry.antt =====
-- Entering the line: who is refused, and where a newcomer stands.
use ticket_queue_platform.Prelude.{
  ℕ, ◌+◌, ◌<◌, ◌≡◌, refl, ap, ◌∙◌, not, Bool, false, Option, none, some, List, [], ◌∷◌, ◌++◌, All,
  length, length-append, index_of, is_some, if◌then◌else◌, ok, err, arith,
}
use ticket_queue_platform.Errors.{Error, app_error, text}
use ticket_queue_platform.Schema.{Concert, is_on_sale}
use ticket_queue_platform.Platform.{Platform, World, calm}
use ticket_queue_platform.Services.Redis.{waiting, names}
use ticket_queue_platform.Concert.Repository.{find_concert_by_id}
use ticket_queue_platform.Queue.Repository.{admitted_key, queue_repository}
use ticket_queue_platform.Queue.Service.{enter_queue, get_position_result}
use ticket_queue_platform.Queue.Line.{is_some-index_of, without_absent, place_last, index_of_last}
use ticket_queue_platform.Queue.Exclusive.{holds_admission, is_waiting}

-- The reason to refuse an entry, in the order of the checks.
abbrev pub refusal : Option Concert → Bool → Bool → Option Error
refusal none waits admitted = some (app_error 404 (text "공연을 찾을 수 없습니다"))
refusal (some concert) waits admitted =
    if not (is_on_sale concert.status)
    then some (app_error 400 (text "현재 판매 중인 공연이 아닙니다"))
    else if waits
    then some (app_error 409 (text "이미 대기열에 등록되어 있습니다"))
    else if admitted
    then some (app_error 409 (text "이미 입장한 상태입니다"))
    else none

module _ {p : Platform} (c u : ℕ) (w : World p) where
  abbrev line : List (ℕ × ℕ)
  line = p.redis.members (waiting c) w.redis

  abbrev pub joined : World p
  joined = record w { redis = p.redis.zadd (waiting c) w.now u w.redis; faults = [] }

  -- the outcome in terms of what the checks read
  enter_queue-refusal :
      (concert : Option Concert) (waits admitted : Bool)
      → p.concerts.find c w.concerts ≡ concert
      → is_some (p.redis.zrank (waiting c) u w.redis) ≡ waits
      → p.redis.exists (admitted_key c u) w.redis ≡ admitted
      → enter_queue c u (calm w) ≡ (elim (refusal concert waits admitted) [
        | none ↦ get_position_result c u joined
        | some e ↦ (err e, calm w)
      ])
  unfolding enter_queue find_concert_by_id queue_repository
  enter_queue-refusal none waits admitted ec ew ea = rw ec
  enter_queue-refusal (some concert) waits admitted ec ew ea = ground arith

  -- the checks in terms of the line and the admitted key
  pub enter_queue-eq :
      enter_queue c u (calm w)
      ≡ (elim (refusal
          (p.concerts.find c w.concerts)
          (is_waiting p c u w.redis)
          (holds_admission p c u w.redis)) [
            | none ↦ get_position_result c u joined
            | some e ↦ (err e, calm w)
          ])
  enter_queue-eq =
      enter_queue-refusal (p.concerts.find c w.concerts) _ _ refl
        (ap is_some (p.redis.zrank_lem (waiting c) u w.redis) ∙ is_some-index_of u (names line))
        (p.redis.exists_lem (admitted_key c u) w.redis)

  -- Where no call fails, a user is refused for the first of these reasons that applies, and the world
  -- stays as it was: the concert does not exist (404) or is not on sale (400), the user waits already
  -- (409), or is admitted already (409).
  pub enter_queue_refused :
      (e : Error)
      → refusal
          (p.concerts.find c w.concerts)
          (is_waiting p c u w.redis)
          (holds_admission p c u w.redis)
        ≡ some e
      → enter_queue c u (calm w) ≡ (err e, calm w)
  enter_queue_refused e h = rw (enter_queue-eq, h) refl

  position-joined :
      is_waiting p c u w.redis ≡ false
      → All (λ e. e.0 < w.now) line
      → (p.redis.members (waiting c) joined.redis ≡ line ++ (w.now, u) ∷ [])
        × (get_position_result c u joined
            ≡ (ok (record { position = length line + 1; total = length line + 1 }), joined))
  unfolding get_position_result queue_repository
  position-joined out late = (members_after, rw (rank_after, card_after))
    where
      members_after : p.redis.members (waiting c) joined.redis ≡ line ++ (w.now, u) ∷ []
      members_after = ground (
        arith,
        p.redis.members-zadd (waiting c) (waiting c) w.now u w.redis,
        without_absent u line out,
        place_last w.now u line late,
      )

      rank_after : p.redis.zrank (waiting c) u joined.redis ≡ some (length line)
      rank_after =
          p.redis.zrank_lem (waiting c) u joined.redis
          ∙ ap (λ es. index_of u (names es)) members_after
          ∙ index_of_last w.now u line out

      card_after : p.redis.zcard (waiting c) joined.redis ≡ length line + 1
      card_after =
          p.redis.zcard_lem (waiting c) joined.redis
          ∙ ap length members_after
          ∙ length-append line ((w.now, u) ∷ [])

  -- the reply and the world after an entry at the end of the line
  pub enter_queue-joined :
      refusal
          (p.concerts.find c w.concerts)
          (is_waiting p c u w.redis)
          (holds_admission p c u w.redis)
        ≡ none
      → is_waiting p c u w.redis ≡ false
      → All (λ e. e.0 < w.now) line
      → (p.redis.members (waiting c) joined.redis ≡ line ++ (w.now, u) ∷ [])
        × (enter_queue c u (calm w)
            ≡ (ok (record { position = length line + 1; total = length line + 1 }), joined))
  enter_queue-joined h out late =
      let (after, answer) = position-joined out late in (after, rw (enter_queue-eq, h) answer)

  -- Where no call fails and no reason to refuse applies, a user who comes later than all who wait
  -- goes to the end of the line and is told the last position; the others keep their places.
  pub enter_queue_joins :
      refusal
          (p.concerts.find c w.concerts)
          (is_waiting p c u w.redis)
          (holds_admission p c u w.redis)
        ≡ none
      → is_waiting p c u w.redis ≡ false
      → All (λ e. e.0 < w.now) line
      → let (r, v) = enter_queue c u (calm w) in
        (r ≡ ok (record { position = length line + 1; total = length line + 1 }))
        × (p.redis.members (waiting c) v.redis ≡ line ++ (w.now, u) ∷ [])
  enter_queue_joins h out late =
      let (after, answer) = enter_queue-joined h out late in rw answer (refl, after)
