-- ===== src/Client/Attempts.antt =====
-- What the queue hook tells the server: at a reload, after a lost connection, at a second attempt.
use Prim.Native.String.{String}
use ticket_queue_platform.Prelude.{ℕ, true, false, ◌≡◌, none, some, [], ◌∷◌, is_some, arith}
use ticket_queue_platform.Client.QueueHook.{
  HookState, in_queue, entering, idle, status_waiting, queue_enter, queue_reconnect, saved_is,
  on_connect, on_disconnect, on_error, connect_socket, disconnect_socket, mount, concert_loads,
  status_loads, handle_before_unload, enter_queue, leave_queue, clear_error, react, react_all,
  mounts, concert_is_there, connects, drops, asks_enter, reloads, gets_error, gets_status, clears,
}

-- Names the handlers, so that a proof opens them by one name.
unfoldable pub hook : Unit {0}
unfolding on_connect on_disconnect on_error connect_socket disconnect_socket mount concert_loads
    status_loads handle_before_unload enter_queue leave_queue clear_error react
hook = tt

saved_self : (c : ℕ) → saved_is c (some c) ≡ true
saved_self c = ground arith

module _ (c : ℕ) (s : HookState) where
  -- A page with a token that is reloaded while its user waits, and whose user waits still by the
  -- answer of the server, shows the place that it answers, and asks for a reconnection once, when its
  -- new socket connects, not again when that socket connects again.
  pub reload_reconnects :
      (pos tot : ℕ)
      → s.phase ≡ in_queue
      → is_some s.token ≡ true
      → let back =
          react_all c
            (reloads
              ∷ mounts
              ∷ concert_is_there
              ∷ gets_status (some (status_waiting (some pos) (some tot)))
              ∷ connects
              ∷ [])
            s in
        (back.phase ≡ in_queue)
        × (back.position ≡ some pos)
        × (back.total ≡ some tot)
        × (back.is_connected ≡ true)
        × (back.emitted ≡ queue_reconnect c ∷ [])
        × ((react_all c (drops ∷ connects ∷ []) back).emitted ≡ queue_reconnect c ∷ [])
  unfolding hook
  reload_reconnects pos tot h k = ground (arith, h, k, saved_self c)

  -- A page that waits in the line, with no concert saved for a reconnection and no entry asked for,
  -- loses its connection and connects again without a reload: it tells the server nothing, and shows
  -- the same place as before.
  pub lost_connection_is_silent :
      s.phase ≡ in_queue
      → s.saved_id ≡ none
      → s.is_entering ≡ false
      → is_some s.socket ≡ true
      → let back = react_all c (drops ∷ connects ∷ []) s in
        (back.emitted ≡ s.emitted)
        × (back.phase ≡ in_queue)
        × (back.position ≡ s.position)
        × (back.is_connected ≡ true)
  unfolding hook
  lost_connection_is_silent h i j k = ground (arith, h, i, j, k)

  -- A user with a token, without a socket and with no saved reconnection to the concert enters the
  -- line: the request is emitted when the socket connects. If the server refuses it, the page is idle with the message; when the user asks again
  -- on the same connection, nothing is emitted, and the page shows that it is entering.
  pub second_attempt_is_silent :
      (message : String)
      → is_some s.token ≡ true
      → s.socket ≡ none
      → saved_is c s.saved_id ≡ false
      → let first = react_all c (asks_enter ∷ connects ∷ []) s in
        let refused = react_all c (gets_error message ∷ []) first in
        let again = react_all c (clears ∷ asks_enter ∷ []) refused in
        (first.emitted ≡ queue_enter c ∷ s.emitted)
        × (refused.phase ≡ idle)
        × (refused.error_message ≡ some message)
        × (again.emitted ≡ first.emitted)
        × (again.phase ≡ entering)
  unfolding hook
  second_attempt_is_silent message h k l = ground (arith, h, k, l)
