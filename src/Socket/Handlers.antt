-- ===== src/Socket/Handlers.antt =====
-- src/socket/queue.socket.ts: the events of a socket. A handler takes the id of its socket and the
-- user whom `authenticate` found.
use ticket_queue_platform.Prelude.{
  ℕ, Option, none, some, List, [], ◌∷◌, map, select, not, length, for_each, ◌+◌, ◌==◌,
  if◌then◌else◌, Action, ok, ◌>>=◌, ◌>>◌, pure, try_catch,
}
use ticket_queue_platform.Platform.{
  Platform, World, Connection, emit, queue_position, in_room, query, draw, has_io, socket_emit,
  socket_position, socket_error, socket_refusal,
}
use ticket_queue_platform.Services.Accounts.{JwtPayload}
use ticket_queue_platform.Auth.Repository.{verify_access_token}
use ticket_queue_platform.Auth.Middleware.{AuthUser}
use ticket_queue_platform.Queue.Repository.{get_all_waiting}
use ticket_queue_platform.Queue.Service.{
  rank_in, enter_queue, leave_queue, handle_disconnect, handle_reconnect,
}
use ticket_queue_platform.Socket.Jobs.{schedule_disconnect_job}

-- the socket of an id
abbrev pub find_socket : ℕ → List Connection → Option Connection
find_socket sid [] = none
find_socket sid (s ∷ rest) = if s.id == sid then some s else find_socket sid rest

-- the sockets, with a change to the one of an id
abbrev pub at_socket : ℕ → (Connection → Connection) → List Connection → List Connection
at_socket sid f = map (λ s. if s.id == sid then f s else s)

abbrev pub user_of : Option JwtPayload → Option AuthUser
user_of none = none
user_of (some payload) =
    some (record { id = payload.sub; email = payload.email; role = payload.role })

-- `payload?.concertId ?? socket.data.concertId`
abbrev pub concert_or_data : Option ℕ → Option Connection → Option ℕ
concert_or_data (some c) s = some c
concert_or_data none none = none
concert_or_data none (some s) = s.concert_id

-- `socket.join(room); socket.data.concertId = concertId`
abbrev pub seated : ℕ → Connection → Connection
seated c s = record s { concert_id = some c; rooms = c ∷ s.rooms }

-- `socket.leave(room); socket.data.concertId = undefined`
abbrev pub unseated : ℕ → Connection → Connection
unseated c s = record s { concert_id = none; rooms = select (λ r. not (r == c)) s.rooms }

module _ {p : Platform} where
  -- The body of the loop of this file's own `broadcastPositions`.
  unfoldable pub tell_position : List ℕ → Option ℕ → Action (World p) (Unit {0})
  tell_position members none = pure tt
  tell_position members (some uid) = elim (rank_in uid members) [
    | none ↦ pure tt
    | some rank ↦ emit (queue_position uid (rank + 1) (length members))
  ]

  -- `if (sockets.length === 0) return;` and what follows it
  unfoldable pub tell_positions : ℕ → List (Option ℕ) → Action (World p) (Unit {0})
  tell_positions concert_id [] = pure tt
  tell_positions concert_id (s ∷ rest) = do
    members ← get_all_waiting concert_id
    for_each (tell_position members) (s ∷ rest)

  unfoldable pub broadcast_positions : ℕ → Action (World p) (Unit {0})
  broadcast_positions concert_id = do
    ready ← has_io
    if ready
        then (do
          sockets ← query (λ w. in_room concert_id w.sockets)
          tell_positions concert_id sockets)
        else pure tt

  unfoldable pub authenticate : Option p.crypto.Token → Action (World p) (Option AuthUser)
  authenticate none = pure none
  authenticate (some token) = do payload ← verify_access_token token; pure (user_of payload)

  abbrev pub set_socket : ℕ → (Connection → Connection) → Action (World p) (Unit {0})
  set_socket sid f w = (ok tt, record w { sockets = at_socket sid f w.sockets })

  -- `socket.disconnect(true)` leaves no socket behind.
  abbrev pub accept : Option AuthUser → Action (World p) (Unit {0})
  accept none = pure tt
  accept (some user) = do
    sid ← draw
    λ w. (
      ok tt,
      record w {
        sockets =
            (record { id = sid; user_id = some user.id; concert_id = none; rooms = [] })
            ∷ w.sockets;
      },
    )

  unfoldable pub on_connection : Option p.crypto.Token → Action (World p) (Unit {0})
  on_connection token = do user ← authenticate token; accept user

  unfoldable pub on_enter : ℕ → ℕ → Option ℕ → Action (World p) (Unit {0})
  on_enter sid user_id none = socket_emit (socket_refusal sid "concertId가 필요합니다")
  on_enter sid user_id (some concert_id) =
      try_catch
        (do
          enter_queue concert_id user_id
          set_socket sid (seated concert_id)
          broadcast_positions concert_id)
        (λ e. socket_emit (socket_error sid e))

  abbrev pub leave_line : ℕ → ℕ → Option ℕ → Action (World p) (Unit {0})
  leave_line sid user_id none = pure tt
  leave_line sid user_id (some concert_id) =
      try_catch
        (do
          leave_queue concert_id user_id
          set_socket sid (unseated concert_id)
          broadcast_positions concert_id)
        (λ e. socket_emit (socket_error sid e))

  unfoldable pub on_leave : ℕ → ℕ → Option ℕ → Action (World p) (Unit {0})
  on_leave sid user_id concert_id w =
      leave_line sid user_id (concert_or_data concert_id (find_socket sid w.sockets)) w

  unfoldable pub on_reconnect : ℕ → ℕ → Option ℕ → Action (World p) (Unit {0})
  on_reconnect sid user_id none = socket_emit (socket_refusal sid "concertId가 필요합니다")
  on_reconnect sid user_id (some concert_id) =
      try_catch
        (do
          result ← handle_reconnect concert_id user_id
          set_socket sid (seated concert_id)
          socket_emit (socket_position sid result.position result.total))
        (λ e. socket_emit (socket_error sid e))

  abbrev pub drop_line : ℕ → Option ℕ → Action (World p) (Unit {0})
  drop_line user_id none = pure tt
  drop_line user_id (some concert_id) = do
    handle_disconnect concert_id user_id
    schedule_disconnect_job concert_id user_id

  -- The socket has left its rooms when the handler runs.
  unfoldable pub on_disconnect : ℕ → ℕ → Action (World p) (Unit {0})
  on_disconnect sid user_id w =
      drop_line user_id (concert_or_data none (find_socket sid w.sockets))
        (record w { sockets = select (λ s. not (s.id == sid)) w.sockets })
