-- ===== src/Queue/Service.antt =====
-- src/services/queue.service.ts: entering and leaving the line, reconnecting, and admission.
use ticket_queue_platform.Prelude.{
  ℕ, suc, ◌+◌, not, Option, none, some, List, [], ◌∷◌, ltb, ◌==◌, if◌then◌else◌, length, Action,
  ◌>>=◌, ◌>>◌, pure, throw_if, or_throw, for_each,
}
use ticket_queue_platform.Errors.{app_error, text}
use ticket_queue_platform.Schema.{is_on_sale}
use ticket_queue_platform.Platform.{
  Platform, World, in_room, query, emit, has_io, queue_admitted, queue_position,
}
use ticket_queue_platform.Concert.Repository.{find_concert_by_id}
use ticket_queue_platform.Queue.Repository.{
  add_to_waiting, remove_from_waiting, get_waiting_rank, get_waiting_count, is_in_waiting,
  get_top_waiting, get_all_waiting, set_admitted_key, is_admitted, count_admitted,
  set_reconnect_key, delete_reconnect_key, has_reconnect_key,
}

pub record QueuePositionResult : Type 0 where
  pub position : ℕ
  pub total : ℕ

pub data QueueStatusResult : Type 0 where
  admitted not_in_queue : QueueStatusResult
  waiting : ℕ → ℕ → QueueStatusResult

-- `rank ?? 0`
abbrev pub or_zero : Option ℕ → ℕ
or_zero none = 0
or_zero (some n) = n

-- `rankMap.get(uid)`, where a later pair of `new Map` replaces an earlier one.
abbrev pub rank_in : ℕ → List ℕ → Option ℕ
rank_in uid [] = none
rank_in uid (x ∷ xs) = elim (rank_in uid xs) [
  | some idx ↦ some (suc idx)
  | none ↦ if x == uid then some 0 else none
]

module _ {p : Platform} where
  unfoldable pub get_position_result : ℕ → ℕ → Action (World p) QueuePositionResult
  get_position_result c u = do
    rank ← get_waiting_rank c u
    total ← get_waiting_count c
    pure (record { position = or_zero rank + 1; total = total })

  -- The body of the loop over the sockets of a room.
  unfoldable pub push_position : List ℕ → Option ℕ → Action (World p) (Unit {0})
  push_position members none = pure tt
  push_position members (some uid) = elim (rank_in uid members) [
    | none ↦ pure tt
    | some rank ↦ emit (queue_position uid (rank + 1) (length members))
  ]

  -- `if (sockets.length === 0) return;` and what follows it
  unfoldable pub push_positions : ℕ → List (Option ℕ) → Action (World p) (Unit {0})
  push_positions c [] = pure tt
  push_positions c (s ∷ rest) = do
    members ← get_all_waiting c
    for_each (push_position members) (s ∷ rest)

  unfoldable pub broadcast_positions : ℕ → Action (World p) (Unit {0})
  broadcast_positions c = do
    ready ← has_io
    if ready
        then (do sockets ← query (λ w. in_room c w.sockets); push_positions c sockets)
        else pure tt

  unfoldable pub enter_queue : ℕ → ℕ → Action (World p) QueuePositionResult
  enter_queue concert_id user_id = do
    found ← find_concert_by_id concert_id
    concert ← or_throw found (app_error 404 (text "공연을 찾을 수 없습니다"))
    throw_if (not (is_on_sale concert.status)) (app_error 400 (text "현재 판매 중인 공연이 아닙니다"))
    already_in ← is_in_waiting concert_id user_id
    throw_if already_in (app_error 409 (text "이미 대기열에 등록되어 있습니다"))
    is_in ← is_admitted concert_id user_id
    throw_if is_in (app_error 409 (text "이미 입장한 상태입니다"))
    add_to_waiting concert_id user_id
    get_position_result concert_id user_id

  unfoldable pub leave_queue : ℕ → ℕ → Action (World p) (Unit {0})
  leave_queue concert_id user_id = do
    in_queue ← is_in_waiting concert_id user_id
    throw_if (not in_queue) (app_error 404 (text "대기열에 없는 유저입니다"))
    remove_from_waiting concert_id user_id

  unfoldable pub get_queue_status : ℕ → ℕ → Action (World p) QueueStatusResult
  get_queue_status concert_id user_id = do
    is_in ← is_admitted concert_id user_id
    if is_in then pure admitted else (do
      rank ← get_waiting_rank concert_id user_id
      elim rank [
        | none ↦ pure not_in_queue
        | some r ↦ do total ← get_waiting_count concert_id; pure (waiting (r + 1) total)
      ])

  unfoldable pub handle_disconnect : ℕ → ℕ → Action (World p) (Unit {0})
  handle_disconnect concert_id user_id = do
    in_queue ← is_in_waiting concert_id user_id
    if in_queue then set_reconnect_key concert_id user_id else pure tt

  unfoldable pub handle_reconnect : ℕ → ℕ → Action (World p) QueuePositionResult
  handle_reconnect concert_id user_id = do
    has_key ← has_reconnect_key concert_id user_id
    throw_if (not has_key) (app_error 400 (text "재연결 유예 시간이 만료되었습니다"))
    delete_reconnect_key concert_id user_id
    get_position_result concert_id user_id

  -- the job of a disconnect
  unfoldable pub expire_disconnect : ℕ → ℕ → Action (World p) (Unit {0})
  expire_disconnect concert_id user_id = do
    still_alive ← has_reconnect_key concert_id user_id
    if still_alive
        then pure tt
        else (do remove_from_waiting concert_id user_id; broadcast_positions concert_id)

  -- what `admitNextUser` does with the reply for the head of the line
  unfoldable pub admit_top : ℕ → List ℕ → Action (World p) (Unit {0})
  admit_top concert_id [] = pure tt
  admit_top concert_id (user_id ∷ rest) = do
    remove_from_waiting concert_id user_id
    set_admitted_key concert_id user_id
    emit (queue_admitted user_id)
    broadcast_positions concert_id

  unfoldable pub admit_next_user : ℕ → Action (World p) (Unit {0})
  admit_next_user concert_id = do
    admitted_count ← count_admitted concert_id
    if ltb 0 admitted_count
        then pure tt
        else (do top ← get_top_waiting concert_id 1; admit_top concert_id top)
