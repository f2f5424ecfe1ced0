-- ===== src/Socket/Seats.antt =====
-- What the handlers of a socket and the jobs keep, given what the calls of the queue service keep.
use ticket_queue_platform.Prelude.{
  ℕ, ◌+◌, length, pure, Option, none, some, List, [], ◌∷◌, select, not, ◌==◌,
}
use ticket_queue_platform.Platform.{
  Platform, World, Connection, Emission, emit, queue_position, socket_emit, socket_position,
  socket_error,
}
use ticket_queue_platform.Platform.Rules.{
  IsQuiet, Keeps, bind_Keeps, query-Keeps, command-Keeps, pure-Keeps, if_Keeps, for_each-Keeps,
  has_io-Keeps, try_catch-Keeps, emit-Keeps,
}
use ticket_queue_platform.Auth.Repository.{verify_access_token}
use ticket_queue_platform.Auth.Middleware.{AuthUser}
use ticket_queue_platform.Concert.Repository.{find_all_concerts}
use ticket_queue_platform.Queue.Service.{
  enter_queue, leave_queue, handle_disconnect, handle_reconnect, expire_disconnect, admit_next_user,
  rank_in,
}
use ticket_queue_platform.Queue.Readers.{get_all_waiting-Reads}
use ticket_queue_platform.Socket.Jobs.{
  process_admission, process_disconnect, schedule_disconnect_job,
}
use ticket_queue_platform.Socket.Handlers.{
  tell_position, tell_positions, at_socket, seated, unseated, set_socket, accept, authenticate,
  broadcast_positions, concert_or_data, find_socket, leave_line, drop_line, on_connection, on_enter,
  on_leave, on_reconnect, on_disconnect,
}

abbrev pub fresh_socket : ℕ → ℕ → Connection
fresh_socket sid user_id = record {
  id = sid;
  user_id = some user_id;
  concert_id = none;
  rooms = [];
}

-- A property of the world that calls of the queue service, and changes of sockets and of the jobs of
-- disconnects, keep.
pub record Stands {p : Platform} (P : World p → Type 0) : Type 0 where
  pub quiet : IsQuiet P
  pub enters : (c u : ℕ) → Keeps P (enter_queue c u)
  pub leaves : (c u : ℕ) → Keeps P (leave_queue c u)
  pub drops_out : (c u : ℕ) → Keeps P (handle_disconnect c u)
  pub comes_back : (c u : ℕ) → Keeps P (handle_reconnect c u)
  pub grace_ends : (c u : ℕ) → Keeps P (expire_disconnect c u)
  pub admits : (c : ℕ) → Keeps P (admit_next_user c)
  pub draws : (w : World p) (n : ℕ) → P w → P (record w { random = n })
  pub jobs : (w : World p) (js : List (ℕ × ℕ)) → P w → P (record w { disconnects = js })
  pub opens :
      (w : World p) (sid u : ℕ) → P w → P (record w { sockets = fresh_socket sid u ∷ w.sockets })
  pub sits :
      (w : World p) (sid c : ℕ)
      → P w
      → P (record w { sockets = at_socket sid (seated c) w.sockets })
  pub rises :
      (w : World p) (sid c : ℕ)
      → P w
      → P (record w { sockets = at_socket sid (unseated c) w.sockets })
  pub closes :
      (w : World p) (sid : ℕ)
      → P w
      → P (record w { sockets = select (λ s. not (s.id == sid)) w.sockets })

module _ {p : Platform} {P : World p → Type 0} (stands : Stands P) where
  socket_emit-Keeps : (m : Emission) → Keeps P (socket_emit m)
  socket_emit-Keeps m = record { run = λ w h. stands.quiet.sent w _ h }

  sit-Keeps : (sid c : ℕ) → Keeps P (set_socket sid (seated c))
  sit-Keeps sid c = record { run = λ w h. stands.sits w sid c h }

  rise-Keeps : (sid c : ℕ) → Keeps P (set_socket sid (unseated c))
  rise-Keeps sid c = record { run = λ w h. stands.rises w sid c h }

  told-Keeps :
      (u n : ℕ) (rank : Option ℕ)
      → Keeps P (elim rank [ none ↦ pure tt | some r ↦ emit (queue_position u (r + 1) n) ])
  told-Keeps u n none = pure-Keeps
  told-Keeps u n (some r) = emit-Keeps _ stands.quiet.sent

  tell_position-Keeps : (members : List ℕ) (s : Option ℕ) → Keeps P (tell_position members s)
  unfolding tell_position
  tell_position-Keeps members none = pure-Keeps
  tell_position-Keeps members (some u) = told-Keeps u (length members) (rank_in u members)

  tell_positions-Keeps : (c : ℕ) (sockets : List (Option ℕ)) → Keeps P (tell_positions c sockets)
  unfolding tell_positions
  tell_positions-Keeps c [] = pure-Keeps
  tell_positions-Keeps c (s ∷ rest) =
      bind_Keeps (get_all_waiting-Reads stands.quiet c)
        λ members. for_each-Keeps (tell_position-Keeps members) (s ∷ rest)

  broadcast_positions-Keeps : (c : ℕ) → Keeps P (broadcast_positions c)
  unfolding broadcast_positions
  broadcast_positions-Keeps c = bind_Keeps has_io-Keeps λ ready.
      if_Keeps ready
        (bind_Keeps (query-Keeps stands.quiet.faults) λ sockets. tell_positions-Keeps c sockets)
        pure-Keeps

  schedule_disconnect_job-Keeps : (c u : ℕ) → Keeps P (schedule_disconnect_job c u)
  unfolding schedule_disconnect_job
  schedule_disconnect_job-Keeps c u =
      try_catch-Keeps (command-Keeps stands.quiet.faults (λ w h. stands.jobs w _ h))
        (λ e. pure-Keeps)

  accept-Keeps : (user : Option AuthUser) → Keeps P (accept user)
  accept-Keeps none = pure-Keeps
  accept-Keeps (some user) = record { run = λ w h. stands.opens _ _ user.id (stands.draws w _ h) }

  authenticate-Keeps : (token : Option p.crypto.Token) → Keeps P (authenticate token)
  unfolding authenticate verify_access_token
  authenticate-Keeps none = pure-Keeps
  authenticate-Keeps (some token) = record { run = λ w h. h }

  pub on_connection-Keeps : (token : Option p.crypto.Token) → Keeps P (on_connection token)
  unfolding on_connection
  on_connection-Keeps token = bind_Keeps (authenticate-Keeps token) accept-Keeps

  pub on_enter-Keeps : (sid u : ℕ) (c : Option ℕ) → Keeps P (on_enter sid u c)
  unfolding on_enter
  on_enter-Keeps sid u none = socket_emit-Keeps _
  on_enter-Keeps sid u (some c) =
      try_catch-Keeps
        (bind_Keeps (stands.enters c u)
          λ _. bind_Keeps (sit-Keeps sid c) λ _. broadcast_positions-Keeps c)
        (λ e. socket_emit-Keeps _)

  leave_line-Keeps : (sid u : ℕ) (c : Option ℕ) → Keeps P (leave_line sid u c)
  leave_line-Keeps sid u none = pure-Keeps
  leave_line-Keeps sid u (some c) =
      try_catch-Keeps
        (bind_Keeps (stands.leaves c u)
          λ _. bind_Keeps (rise-Keeps sid c) λ _. broadcast_positions-Keeps c)
        (λ e. socket_emit-Keeps _)

  pub on_leave-Keeps : (sid u : ℕ) (c : Option ℕ) → Keeps P (on_leave sid u c)
  unfolding on_leave
  on_leave-Keeps sid u c = record {
    run = λ w. (leave_line-Keeps sid u (concert_or_data c (find_socket sid w.sockets))).run w;
  }

  pub on_reconnect-Keeps : (sid u : ℕ) (c : Option ℕ) → Keeps P (on_reconnect sid u c)
  unfolding on_reconnect
  on_reconnect-Keeps sid u none = socket_emit-Keeps _
  on_reconnect-Keeps sid u (some c) =
      try_catch-Keeps
        (bind_Keeps (stands.comes_back c u) λ result.
          bind_Keeps (sit-Keeps sid c)
            λ _. socket_emit-Keeps (socket_position sid result.position result.total))
        (λ e. socket_emit-Keeps (socket_error sid e))

  drop_line-Keeps : (u : ℕ) (c : Option ℕ) → Keeps P (drop_line u c)
  drop_line-Keeps u none = pure-Keeps
  drop_line-Keeps u (some c) =
      bind_Keeps (stands.drops_out c u) λ _. schedule_disconnect_job-Keeps c u

  pub on_disconnect-Keeps : (sid u : ℕ) → Keeps P (on_disconnect sid u)
  unfolding on_disconnect
  on_disconnect-Keeps sid u = record {
    run = λ w h.
        (drop_line-Keeps u (concert_or_data none (find_socket sid w.sockets))).run _
          (stands.closes w sid h);
  }

  pub process_admission-Keeps : Keeps P process_admission
  unfolding process_admission find_all_concerts
  process_admission-Keeps =
      bind_Keeps (query-Keeps stands.quiet.faults)
        λ concerts. for_each-Keeps (λ concert. stands.admits concert.0) concerts

  pub process_disconnect-Keeps : (job : ℕ × ℕ) → Keeps P (process_disconnect job)
  unfolding process_disconnect
  process_disconnect-Keeps (c, u) = stands.grace_ends c u
