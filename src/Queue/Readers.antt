-- ===== src/Queue/Readers.antt =====
-- What only reads the queue, or sends positions, leaves Redis as it is, also where a call fails.
use ticket_queue_platform.Prelude.{ℕ, Option, none, some, List, [], ◌∷◌, pure, ◌+◌, length}
use ticket_queue_platform.Platform.{Platform, World, emit, queue_position}
use ticket_queue_platform.Platform.Rules.{
  IsQuiet, Keeps, has_io-Keeps, emit-Keeps, bind_Keeps, query-Keeps, pure-Keeps, if_Keeps,
  for_each-Keeps,
}
use ticket_queue_platform.Concert.Repository.{find_concert_by_id}
use ticket_queue_platform.Queue.Repository.{
  get_waiting_rank, get_waiting_count, is_in_waiting, get_all_waiting, has_reconnect_key,
}
use ticket_queue_platform.Queue.Service.{
  get_position_result, push_position, push_positions, broadcast_positions, rank_in,
}

module _ {p : Platform} {P : World p → Type 0} (quiet : IsQuiet P) where
  pub find_concert_by_id-Reads : (c : ℕ) → Keeps P (find_concert_by_id c)
  unfolding find_concert_by_id
  find_concert_by_id-Reads c = query-Keeps quiet.faults

  pub get_waiting_rank-Reads : (c u : ℕ) → Keeps P (get_waiting_rank c u)
  unfolding get_waiting_rank
  get_waiting_rank-Reads c u = query-Keeps quiet.faults

  pub get_waiting_count-Reads : (c : ℕ) → Keeps P (get_waiting_count c)
  unfolding get_waiting_count
  get_waiting_count-Reads c = query-Keeps quiet.faults

  pub is_in_waiting-Reads : (c u : ℕ) → Keeps P (is_in_waiting c u)
  unfolding is_in_waiting
  is_in_waiting-Reads c u = bind_Keeps (query-Keeps quiet.faults) (λ rank. pure-Keeps)

  pub get_position_result-Reads : (c u : ℕ) → Keeps P (get_position_result c u)
  unfolding get_position_result
  get_position_result-Reads c u =
      bind_Keeps (get_waiting_rank-Reads c u)
        λ rank. bind_Keeps (get_waiting_count-Reads c) λ total. pure-Keeps

  pub get_all_waiting-Reads : (c : ℕ) → Keeps P (get_all_waiting c)
  unfolding get_all_waiting
  get_all_waiting-Reads c = query-Keeps quiet.faults

  position_of-Reads :
      (u n : ℕ) (rank : Option ℕ)
      → Keeps P (elim rank [ none ↦ pure tt | some r ↦ emit (queue_position u (r + 1) n) ])
  position_of-Reads u n none = pure-Keeps
  position_of-Reads u n (some r) = emit-Keeps _ quiet.sent

  push_position-Reads : (members : List ℕ) (s : Option ℕ) → Keeps P (push_position members s)
  unfolding push_position
  push_position-Reads members none = pure-Keeps
  push_position-Reads members (some u) = position_of-Reads u (length members) (rank_in u members)

  pub push_positions-Reads :
      (c : ℕ) (sockets : List (Option ℕ)) → Keeps P (push_positions c sockets)
  unfolding push_positions
  push_positions-Reads c [] = pure-Keeps
  push_positions-Reads c (s ∷ rest) =
      bind_Keeps (get_all_waiting-Reads c)
        λ members. for_each-Keeps (push_position-Reads members) (s ∷ rest)

  pub broadcast_positions-Reads : (c : ℕ) → Keeps P (broadcast_positions c)
  unfolding broadcast_positions
  broadcast_positions-Reads c = bind_Keeps has_io-Keeps λ ready.
      if_Keeps ready
        (bind_Keeps (query-Keeps quiet.faults) λ sockets. push_positions-Reads c sockets) pure-Keeps

  pub has_reconnect_key-Reads : (c u : ℕ) → Keeps P (has_reconnect_key c u)
  unfolding has_reconnect_key
  has_reconnect_key-Reads c u = query-Keeps quiet.faults
