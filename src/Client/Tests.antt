-- ===== src/Client/Tests.antt =====
-- The client's requests and the queue hook: runs, and instances of the theorems.
use ticket_queue_platform.Prelude.{◌≡◌, refl, true, false, none, some, [], ◌∷◌}
use ticket_queue_platform.Client.Api.{
  Request, ApiState, Event, on_error, step, run, issues, fails, refreshes, refresh_fails,
}
use ticket_queue_platform.Client.Requests.{Sound, run-Sound}
use ticket_queue_platform.Client.QueueHook.{
  HookState, new_page, in_queue, entering, idle, status_waiting, queue_enter, queue_reconnect,
  react_all, mounts, concert_is_there, connects, drops, asks_enter, reloads, gets_error,
  gets_status, clears,
}
use ticket_queue_platform.Client.Attempts.{
  reload_reconnects, lost_connection_is_silent, second_attempt_is_silent,
}
use ticket_queue_platform.Client.Waiting.{is_reply, refresh_failure_strands}

-- a page after a login
abbrev fresh : ApiState
fresh = record {
  access_token = some 1;
  refresh_token = some 2;
  is_refreshing = false;
  wait_queue = [];
  posts = [];
  in_flight = [];
  settled = [];
  issued = [];
  at_login = false;
}

abbrev marked : Request
marked = record { id = 10; authorization = some 1; retry = true }

abbrev also_marked : Request
also_marked = record { id = 11; authorization = some 1; retry = true }

-- two requests that both found the token expired
abbrev waiting_one : ApiState
waiting_one = record fresh {
  is_refreshing = true;
  wait_queue = also_marked ∷ [];
  posts = (2, marked) ∷ [];
  issued = 11 ∷ 10 ∷ [];
}

two_expired_run :
    run (issues 10 ∷ issues 11 ∷ fails 0 (some 401) ∷ fails 0 (some 401) ∷ []) fresh ≡ waiting_one
unfolding step on_error
two_expired_run = refl

run-Sound_example : Sound (run (issues 10 ∷ fails 0 (some 401) ∷ refreshes 0 3 4 ∷ []) fresh)
run-Sound_example =
    run-Sound (issues 10 ∷ fails 0 (some 401) ∷ refreshes 0 3 4 ∷ []) fresh
      (record { accounted = λ i. refl; single = refl })

refresh_failure_strands_example :
    let v = step (refresh_fails 0) waiting_one in
    (v.access_token ≡ none)
    × (v.refresh_token ≡ none)
    × (v.settled ≡ (10, false) ∷ [])
    × (v.wait_queue ≡ also_marked ∷ [])
    × ((e : Event) → is_reply e ≡ true → step e v ≡ v)
refresh_failure_strands_example = refresh_failure_strands 0 waiting_one (2, marked) refl refl

-- a page that waits in the line of concert 1
abbrev in_line : HookState
in_line = record (new_page none (some 1)) {
  phase = in_queue;
  concert = true;
  position = some 3;
  total = some 9;
  is_connected = true;
  socket = some true;
  emitted = queue_enter 1 ∷ [];
}

reload_reconnects_example :
    let back =
      react_all 1
        (reloads
          ∷ mounts
          ∷ concert_is_there
          ∷ gets_status (some (status_waiting (some 2) (some 8)))
          ∷ connects
          ∷ [])
        in_line in
    (back.phase ≡ in_queue)
    × (back.position ≡ some 2)
    × (back.total ≡ some 8)
    × (back.is_connected ≡ true)
    × (back.emitted ≡ queue_reconnect 1 ∷ [])
    × ((react_all 1 (drops ∷ connects ∷ []) back).emitted ≡ queue_reconnect 1 ∷ [])
reload_reconnects_example = reload_reconnects 1 in_line 2 8 refl refl

lost_connection_is_silent_example :
    let back = react_all 1 (drops ∷ connects ∷ []) in_line in
    (back.emitted ≡ queue_enter 1 ∷ [])
    × (back.phase ≡ in_queue)
    × (back.position ≡ some 3)
    × (back.is_connected ≡ true)
lost_connection_is_silent_example = lost_connection_is_silent 1 in_line refl refl refl refl

second_attempt_is_silent_example :
    let first = react_all 1 (asks_enter ∷ connects ∷ []) (new_page none (some 1)) in
    let refused = react_all 1 (gets_error "full" ∷ []) first in
    let again = react_all 1 (clears ∷ asks_enter ∷ []) refused in
    (first.emitted ≡ queue_enter 1 ∷ [])
    × (refused.phase ≡ idle)
    × (refused.error_message ≡ some "full")
    × (again.emitted ≡ first.emitted)
    × (again.phase ≡ entering)
second_attempt_is_silent_example =
    second_attempt_is_silent 1 (new_page none (some 1)) "full" refl refl refl
