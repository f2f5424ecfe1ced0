-- ===== src/Client/QueueHook.antt =====
-- client/src/hooks/useQueue.ts, for one concert: the state of the hook, the current socket with its
-- `connected` flag, and what of the browser's storage it reads. A socket that connectSocket has
-- replaced is left out.
use Prim.Native.String.{String}
use ticket_queue_platform.Prelude.{
  ℕ, Bool, true, false, ◌==◌, if◌then◌else◌, Option, none, some, List, [], ◌∷◌, is_some,
}

pub data Phase : Type 0 where
  loading no_auth concert_error idle entering in_queue admitted : Phase

-- `status` of `QueueStatusResponse`, with the optional position and total of the first
pub data QueueStatus : Type 0 where
  status_waiting : Option ℕ → Option ℕ → QueueStatus
  status_admitted status_not_in_queue : QueueStatus

-- what the hook emits to the server
pub data Message : Type 0 where
  queue_enter queue_leave queue_reconnect : ℕ → Message

pub record HookState : Type 0 where
  pub phase : Phase
  -- whether the concert is there
  pub concert : Bool
  pub concert_failure : Option String
  pub position : Option ℕ
  pub total : Option ℕ
  pub is_connected : Bool
  pub error_message : Option String
  -- `socketRef.current`, with its `connected`
  pub socket : Option Bool
  -- `enteringRef.current`
  pub is_entering : Bool
  -- `queue_reconnect_id` of sessionStorage
  pub saved_id : Option ℕ
  pub token : Option ℕ
  -- what was emitted, the latest first
  pub emitted : List Message

abbrev pub is_open : Option Bool → Bool
is_open none = false
is_open (some connected) = connected

abbrev pub is_waiting_phase : Phase → Bool
is_waiting_phase in_queue = true
is_waiting_phase _ = false

abbrev pub saved_is : ℕ → Option ℕ → Bool
saved_is c none = false
saved_is c (some saved) = saved == c

-- a page that loads: what of the browser's storage it finds
abbrev pub new_page : Option ℕ → Option ℕ → HookState
new_page saved token = record {
  phase = loading;
  concert = false;
  concert_failure = none;
  position = none;
  total = none;
  is_connected = false;
  error_message = none;
  socket = none;
  is_entering = false;
  saved_id = saved;
  token = token;
  emitted = [];
}

module _ (concert_id : ℕ) where
  abbrev emit : Message → HookState → HookState
  emit m s = record s { emitted = m ∷ s.emitted }

  -- the handlers of attachSocketEvents
  unfoldable pub on_connect : HookState → HookState
  on_connect s =
      let t = record s { is_connected = true; socket = some true } in
      if saved_is concert_id s.saved_id
      then emit (queue_reconnect concert_id) (record t { saved_id = none })
      else if s.is_entering
      then emit (queue_enter concert_id) t
      else t

  unfoldable pub on_disconnect : HookState → HookState
  on_disconnect s = record s { is_connected = false; socket = some false }

  unfoldable pub on_position : ℕ → ℕ → HookState → HookState
  on_position pos tot s = record s {
    is_entering = false;
    position = some pos;
    total = some tot;
    phase = in_queue;
  }

  unfoldable pub on_admitted : HookState → HookState
  on_admitted s = record s { is_entering = false; phase = admitted }

  unfoldable pub on_error : String → HookState → HookState
  on_error message s =
      let t = if s.is_entering then record s { is_entering = false; phase = idle } else s in
      record t { error_message = some message }

  -- A new socket is not connected yet.
  unfoldable pub connect_socket : HookState → HookState
  connect_socket s =
      if is_open s.socket
      then s
      else if is_some s.token
      then record s { socket = some false }
      else s

  unfoldable pub disconnect_socket : HookState → HookState
  disconnect_socket s = record s { socket = none; is_connected = false }

  -- the effect that loads the concert, up to its first call
  unfoldable pub mount : HookState → HookState
  mount s =
      if is_some s.token
      then record s { phase = loading; concert_failure = none }
      else record s { phase = no_auth }

  unfoldable pub concert_loads : HookState → HookState
  concert_loads s = record s { concert = true }

  unfoldable pub concert_fails : String → HookState → HookState
  concert_fails message s = record s { concert_failure = some message; phase = concert_error }

  -- the answer to the call for the status, or none where it fails
  unfoldable pub status_loads : Option QueueStatus → HookState → HookState
  status_loads none s = record s { phase = idle }
  status_loads (some (status_waiting pos tot)) s =
      connect_socket (record s { position = pos; total = tot; phase = in_queue })
  status_loads (some status_admitted) s = record s { phase = admitted }
  status_loads (some status_not_in_queue) s = record s { phase = idle }

  unfoldable pub handle_before_unload : HookState → HookState
  handle_before_unload s =
      if is_waiting_phase s.phase then record s { saved_id = some concert_id } else s

  unfoldable pub enter_queue : HookState → HookState
  enter_queue s =
      if is_some s.token
      then connect_socket (record s { phase = entering; is_entering = true })
      else record s { phase = no_auth }

  unfoldable pub leave_queue : HookState → HookState
  leave_queue s =
      let t = if is_open s.socket then emit (queue_leave concert_id) s else s in
      record (disconnect_socket (record t { saved_id = none })) {
        position = none;
        total = none;
        phase = idle;
      }

  unfoldable pub clear_error : HookState → HookState
  clear_error s = record s { error_message = none }

-- What happens to the hook; a reload of the page runs the handler of beforeunload first.
pub data HookEvent : Type 0 where
  mounts concert_is_there connects drops is_admitted asks_enter asks_leave clears reloads :
      HookEvent
  concert_is_missing gets_error : String → HookEvent
  gets_status : Option QueueStatus → HookEvent
  gets_position : ℕ → ℕ → HookEvent
  sets_token : Option ℕ → HookEvent

-- A socket that is not there has no events.
abbrev pub if_socket : Option Bool → HookState → HookState → HookState
if_socket none s t = s
if_socket (some b) s t = t

module _ (concert_id : ℕ) where
  unfoldable pub react : HookEvent → HookState → HookState
  react mounts s = mount concert_id s
  react concert_is_there s = concert_loads concert_id s
  react (concert_is_missing m) s = concert_fails concert_id m s
  react (gets_status r) s = status_loads concert_id r s
  react connects s = if_socket s.socket s (on_connect concert_id s)
  react drops s = if_socket s.socket s (on_disconnect concert_id s)
  react (gets_position pos tot) s = if_socket s.socket s (on_position concert_id pos tot s)
  react is_admitted s = if_socket s.socket s (on_admitted concert_id s)
  react (gets_error m) s = if_socket s.socket s (on_error concert_id m s)
  react asks_enter s = enter_queue concert_id s
  react asks_leave s = leave_queue concert_id s
  react clears s = clear_error concert_id s
  react reloads s = new_page (handle_before_unload concert_id s).saved_id s.token
  react (sets_token t) s = record s { token = t }

  abbrev pub react_all : List HookEvent → HookState → HookState
  react_all [] s = s
  react_all (e ∷ es) s = react_all es (react e s)
