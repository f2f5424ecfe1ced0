-- ===== src/Socket/Positions.antt =====
-- What a broadcast tells the sockets of a room.
use ticket_queue_platform.Prelude.{
  ℕ, suc, ◌≡◌, refl, ap, ◌∙◌, true, false, if◌then◌else◌, Option, none, some, List, [], ◌∷◌,
  contains, index_of, length, ok, err, for_each, arith,
}
use ticket_queue_platform.Platform.{Platform, World, Emission, calm, in_room, queue_position}
use ticket_queue_platform.Services.Redis.{waiting, names}
use ticket_queue_platform.Queue.Repository.{queue_repository}
use ticket_queue_platform.Queue.Service
use ticket_queue_platform.Queue.Service.{
  QueuePositionResult, get_position_result, push_position, push_positions, rank_in, or_zero,
}
use ticket_queue_platform.Queue.Line.{IsLine, is_some-index_of}
use ticket_queue_platform.Queue.Exclusive.{is_waiting}
use ticket_queue_platform.Socket.Handlers.{broadcast_positions, tell_position, tell_positions}

index_of_absent : (u : ℕ) (xs : List ℕ) → contains u xs ≡ false → index_of u xs ≡ none
index_of_absent u [] h = refl
index_of_absent u (x ∷ xs) h = ground (arith, index_of_absent u xs)

rank_in_absent : (u : ℕ) (xs : List ℕ) → contains u xs ≡ false → rank_in u xs ≡ none
rank_in_absent u [] h = refl
rank_in_absent u (x ∷ xs) h = ground (arith, rank_in_absent u xs)

-- In a line, where no member stands twice, the map of the ranks has the index of every member.
rank_in-index_of :
    (u : ℕ) (es : List (ℕ × ℕ)) → IsLine es → rank_in u (names es) ≡ index_of u (names es)
rank_in-index_of u [] h = refl
rank_in-index_of u (e ∷ es) h =
    ground (arith, rank_in-index_of u es h.2, rank_in_absent u (names es))

length-names : (es : List (ℕ × ℕ)) → length (names es) ≡ length es
length-names [] = refl
length-names (e ∷ es) = ap suc (length-names es)

module _ {p : Platform} (c : ℕ) (w : World p) where
  -- what a user is told: the own position, if the user waits
  abbrev pub told : ℕ → List Emission → List Emission
  told u ms =
      if is_waiting p c u w.redis
      then (elim (get_position_result c u (calm w)).0 [
        | ok result ↦ queue_position u result.position result.total ∷ ms
        | err e ↦ ms
      ])
      else ms

  abbrev pub announced : List (Option ℕ) → List Emission → List Emission
  announced [] ms = ms
  announced (none ∷ rest) ms = announced rest ms
  announced (some u ∷ rest) ms = announced rest (told u ms)

  abbrev after : List Emission → World p
  after ms = record w { sent = ms; faults = [] }

  module _ (sorted : IsLine (p.redis.members (waiting c) w.redis)) (ready : w.io ≡ true) where
    push_position-eq :
        (u : ℕ) (ms : List Emission)
        → push_position (names (p.redis.members (waiting c) w.redis)) (some u) (after ms)
          ≡ (ok tt, after (told u ms))
    unfolding push_position get_position_result queue_repository
    push_position-eq u ms = ground (
      arith,
      rank_in-index_of u (p.redis.members (waiting c) w.redis) sorted,
      is_some-index_of u (names (p.redis.members (waiting c) w.redis)),
      length-names (p.redis.members (waiting c) w.redis),
      p.redis.zrank_lem (waiting c) u w.redis,
      p.redis.zcard_lem (waiting c) w.redis,
    )

    each_told :
        (sockets : List (Option ℕ)) (ms : List Emission)
        → for_each (push_position (names (p.redis.members (waiting c) w.redis))) sockets (after ms)
          ≡ (ok tt, after (announced sockets ms))
    unfolding push_position
    each_told [] ms = refl
    each_told (none ∷ rest) ms = each_told rest ms
    each_told (some u ∷ rest) ms = ground (arith, push_position-eq u ms, each_told rest (told u ms))

    push_positions-eq :
        (sockets : List (Option ℕ))
        → push_positions c sockets (after w.sent) ≡ (ok tt, after (announced sockets w.sent))
    unfolding push_positions queue_repository
    push_positions-eq [] = refl
    push_positions-eq (s ∷ rest) =
        ap (λ members. for_each (push_position members) (s ∷ rest) (after w.sent))
          (p.redis.zrange_all (waiting c) w.redis)
        ∙ each_told (s ∷ rest) w.sent

    tell_position-eq :
        (u : ℕ) (ms : List Emission)
        → tell_position (names (p.redis.members (waiting c) w.redis)) (some u) (after ms)
          ≡ (ok tt, after (told u ms))
    unfolding tell_position get_position_result queue_repository
    tell_position-eq u ms = ground (
      arith,
      rank_in-index_of u (p.redis.members (waiting c) w.redis) sorted,
      is_some-index_of u (names (p.redis.members (waiting c) w.redis)),
      length-names (p.redis.members (waiting c) w.redis),
      p.redis.zrank_lem (waiting c) u w.redis,
      p.redis.zcard_lem (waiting c) w.redis,
    )

    each_told_by_socket :
        (sockets : List (Option ℕ)) (ms : List Emission)
        → for_each (tell_position (names (p.redis.members (waiting c) w.redis))) sockets (after ms)
          ≡ (ok tt, after (announced sockets ms))
    unfolding tell_position
    each_told_by_socket [] ms = refl
    each_told_by_socket (none ∷ rest) ms = each_told_by_socket rest ms
    each_told_by_socket (some u ∷ rest) ms =
        ground (arith, tell_position-eq u ms, each_told_by_socket rest (told u ms))

    tell_positions-eq :
        (sockets : List (Option ℕ))
        → tell_positions c sockets (after w.sent) ≡ (ok tt, after (announced sockets w.sent))
    unfolding tell_positions queue_repository
    tell_positions-eq [] = refl
    tell_positions-eq (s ∷ rest) =
        ap (λ members. for_each (tell_position members) (s ∷ rest) (after w.sent))
          (p.redis.zrange_all (waiting c) w.redis)
        ∙ each_told_by_socket (s ∷ rest) w.sent

    -- Where no call fails, the server has begun and the line of the concert is in order, with nobody in
    -- it twice, a broadcast for the concert tells each socket in its room just the position and the
    -- total that getPositionResult returns for the user of the socket, tells those who do not wait
    -- nothing, and changes nothing else. That of the socket layer and that of the service do the same.
    pub broadcasts_agree :
        (broadcast_positions c (calm w) ≡ (ok tt, after (announced (in_room c w.sockets) w.sent)))
        × (Service.broadcast_positions c (calm w)
            ≡ (ok tt, after (announced (in_room c w.sockets) w.sent)))
    unfolding broadcast_positions Service.broadcast_positions
    broadcasts_agree = (
      ground (arith, ready, tell_positions-eq (in_room c w.sockets)),
      ground (arith, ready, push_positions-eq (in_room c w.sockets)),
    )
