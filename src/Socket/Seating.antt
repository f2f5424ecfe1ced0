-- ===== src/Socket/Seating.antt =====
-- A socket that remembers a concert is in its room: what keeps this, of the queue service and of the
-- changes to the sockets.
use ticket_queue_platform.Prelude.{
  ℕ, Bool, true, ◌≡◌, refl, Option, none, some, List, [], ◌∷◌, All, contains, select, not, ◌==◌,
  arith,
}
use ticket_queue_platform.Schema.{Concert, is_on_sale}
use ticket_queue_platform.Platform.{Platform, World, Connection}
use ticket_queue_platform.Platform.Rules.{
  IsQuiet, Keeps, bind_Keeps, query-Keeps, command-Keeps, pure-Keeps, if_Keeps, throw_if-Keeps,
  or_throw-Keeps, bind_Ensures, now-Ensures,
}
use ticket_queue_platform.Queue.Repository.{
  add_to_waiting, remove_from_waiting, is_admitted, set_reconnect_key, delete_reconnect_key,
}
use ticket_queue_platform.Queue.Service.{
  enter_queue, leave_queue, handle_disconnect, handle_reconnect, expire_disconnect,
}
use ticket_queue_platform.Queue.Readers.{
  find_concert_by_id-Reads, is_in_waiting-Reads, get_position_result-Reads,
  broadcast_positions-Reads, has_reconnect_key-Reads,
}
use ticket_queue_platform.Queue.Untouched.{admit_next_user-Keeps}
use ticket_queue_platform.Socket.Handlers.{at_socket, seated, unseated}
use ticket_queue_platform.Socket.Seats.{Stands}

abbrev pub is_seated : Option ℕ → List ℕ → Bool
is_seated none rooms = true
is_seated (some c) rooms = contains c rooms

abbrev pub AllSeated : List Connection → Type 0
AllSeated = All (λ s. is_seated s.concert_id s.rooms ≡ true)

sits-AllSeated :
    (sid c : ℕ) (ss : List Connection) → AllSeated ss → AllSeated (at_socket sid (seated c) ss)
sits-AllSeated sid c [] h = tt
sits-AllSeated sid c (s ∷ ss) h = (ground (arith, h.0), sits-AllSeated sid c ss h.1)

rises-AllSeated :
    (sid c : ℕ) (ss : List Connection) → AllSeated ss → AllSeated (at_socket sid (unseated c) ss)
rises-AllSeated sid c [] h = tt
rises-AllSeated sid c (s ∷ ss) h = (ground (arith, h.0), rises-AllSeated sid c ss h.1)

closes-AllSeated :
    (sid : ℕ) (ss : List Connection) → AllSeated ss → AllSeated (select (λ s. not (s.id == sid)) ss)
closes-AllSeated sid [] h = tt
closes-AllSeated sid (s ∷ ss) h = ground (arith, h.0, closes-AllSeated sid ss h.1)

-- What does not speak of Redis, of the plan of faults and of what was sent, is kept by the calls of
-- the queue service.
module _ {p : Platform} {P : World p → Type 0} (quiet : IsQuiet P)
    (store : (w : World p) (s : p.redis.Store) → P w → P (record w { redis = s })) where
  add_to_waiting-Keeps : (c u : ℕ) → Keeps P (add_to_waiting c u)
  unfolding add_to_waiting
  add_to_waiting-Keeps c u =
      bind_Ensures (λ _ w. P w) (now-Ensures (λ w h. h))
        λ t. command-Keeps quiet.faults (λ w h. store w _ h)

  enter_queue-Keeps : (c u : ℕ) → Keeps P (enter_queue c u)
  unfolding enter_queue is_admitted
  enter_queue-Keeps c u = bind_Keeps (find_concert_by_id-Reads quiet c) λ found.
      bind_Keeps {A = Concert} (or_throw-Keeps found _) λ concert.
        bind_Keeps (throw_if-Keeps (not (is_on_sale concert.status)) _) λ _.
          bind_Keeps (is_in_waiting-Reads quiet c u) λ already_in.
            bind_Keeps (throw_if-Keeps already_in _) λ _.
              bind_Keeps (query-Keeps quiet.faults) λ is_in.
                bind_Keeps (throw_if-Keeps is_in _) λ _.
                  bind_Keeps (add_to_waiting-Keeps c u) λ _. get_position_result-Reads quiet c u

  leave_queue-Keeps : (c u : ℕ) → Keeps P (leave_queue c u)
  unfolding leave_queue remove_from_waiting
  leave_queue-Keeps c u = bind_Keeps (is_in_waiting-Reads quiet c u) λ in_queue.
      bind_Keeps (throw_if-Keeps _ _) λ _. command-Keeps quiet.faults (λ w h. store w _ h)

  handle_disconnect-Keeps : (c u : ℕ) → Keeps P (handle_disconnect c u)
  unfolding handle_disconnect set_reconnect_key
  handle_disconnect-Keeps c u =
      bind_Keeps (is_in_waiting-Reads quiet c u)
        λ in_queue. if_Keeps in_queue (command-Keeps quiet.faults (λ w h. store w _ h)) pure-Keeps

  handle_reconnect-Keeps : (c u : ℕ) → Keeps P (handle_reconnect c u)
  unfolding handle_reconnect delete_reconnect_key
  handle_reconnect-Keeps c u = bind_Keeps (has_reconnect_key-Reads quiet c u) λ has_key.
      bind_Keeps (throw_if-Keeps _ _) λ _.
        bind_Keeps (command-Keeps quiet.faults (λ w h. store w _ h))
          λ _. get_position_result-Reads quiet c u

  expire_disconnect-Keeps : (c u : ℕ) → Keeps P (expire_disconnect c u)
  unfolding expire_disconnect remove_from_waiting
  expire_disconnect-Keeps c u = bind_Keeps (has_reconnect_key-Reads quiet c u) λ still_alive.
      if_Keeps still_alive pure-Keeps (
        bind_Keeps (command-Keeps quiet.faults (λ w h. store w _ h))
          λ _. broadcast_positions-Reads quiet c)

module _ {p : Platform} where
  abbrev pub Seating : World p → Type 0
  Seating w = AllSeated w.sockets

  quiet : IsQuiet Seating
  quiet = record { faults = λ w fs h. h; sent = λ w ms h. h }

  pub Seating-Stands : Stands Seating
  Seating-Stands = record {
    quiet = quiet;
    enters = enter_queue-Keeps quiet (λ w s h. h);
    leaves = leave_queue-Keeps quiet (λ w s h. h);
    drops_out = handle_disconnect-Keeps quiet (λ w s h. h);
    comes_back = handle_reconnect-Keeps quiet (λ w s h. h);
    grace_ends = expire_disconnect-Keeps quiet (λ w s h. h);
    admits = admit_next_user-Keeps quiet (λ c u w h. h) (λ c u v n w h. h);
    draws = λ w n h. h;
    jobs = λ w js h. h;
    opens = λ w sid u h. (refl, h);
    sits = λ w sid c h. sits-AllSeated sid c w.sockets h;
    rises = λ w sid c h. rises-AllSeated sid c w.sockets h;
    closes = λ w sid h. closes-AllSeated sid w.sockets h;
  }
