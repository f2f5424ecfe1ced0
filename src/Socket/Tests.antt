-- ===== src/Socket/Tests.antt =====
-- Sockets on the sample platform: runs of the handlers, and instances of the theorems.
use ticket_queue_platform.Prelude.{◌≡◌, refl, true, some, [], ◌∷◌, ok, arith}
use ticket_queue_platform.Platform.{calm, queue_position}
use ticket_queue_platform.Samples.{memory, opening}
use ticket_queue_platform.Services.Redis.{reconnect}
use ticket_queue_platform.Queue.Repository.{queue_repository}
use ticket_queue_platform.Queue.Service
use ticket_queue_platform.Queue.Service.{enter_queue, leave_queue, get_position_result}
use ticket_queue_platform.Queue.Exclusive.{QueueInv, is_waiting}
use ticket_queue_platform.Socket.Handlers.{
  broadcast_positions, tell_position, tell_positions, on_leave, on_disconnect,
}
use ticket_queue_platform.Socket.Jobs.{process_disconnect}
use ticket_queue_platform.Socket.Positions.{broadcasts_agree}
use ticket_queue_platform.Socket.Seating.{Seating}
use ticket_queue_platform.Socket.Reachable.{
  leaves, disconnects, handle, here, next, event, Reach-Sound,
}
use ticket_queue_platform.Socket.Lines.{second_line_stays}

opening-QueueInv : QueueInv memory opening.redis
opening-QueueInv = record {
  line = λ c. ((refl, tt), refl, (tt, refl, tt));
  exclusive = λ c u h. ground arith;
  single = λ c u v h k. ground arith;
}

broadcasts_agree_example :
    (broadcast_positions 1 (calm opening)
      ≡ (ok tt, record opening { sent = queue_position 8 2 2 ∷ queue_position 7 1 2 ∷ [] }))
    × (Service.broadcast_positions 1 (calm opening)
        ≡ (ok tt, record opening { sent = queue_position 8 2 2 ∷ queue_position 7 1 2 ∷ [] }))
unfolding get_position_result queue_repository
broadcasts_agree_example = broadcasts_agree 1 opening (opening-QueueInv.line 1) refl

Reach-Sound_example :
    let v = handle disconnects 80 8 (handle (leaves (some 1)) 70 7 opening) in
    QueueInv memory v.redis × Seating v
unfolding handle on_leave leave_queue broadcast_positions tell_positions tell_position
    queue_repository
Reach-Sound_example =
    Reach-Sound opening _ opening-QueueInv (refl, (refl, (refl, tt)))
      (next (next here (event (leaves (some 1)) 70 7 opening refl))
        (event disconnects 80 8 (handle (leaves (some 1)) 70 7 opening) refl))

second_line_stays_example :
    let dropped = (on_disconnect 70 7 opening).1 in
    (dropped.disconnects ≡ (1, 7) ∷ [])
    × (is_waiting memory 2 7 dropped.redis ≡ true)
    × (is_waiting memory 2 7
          (process_disconnect
            (1, 7)
            (record dropped { redis = memory.redis.del (reconnect 1 7) dropped.redis })).1.redis
        ≡ true)
second_line_stays_example =
    second_line_stays 70 7 1 opening
      (record { id = 70; user_id = some 7; concert_id = some 1; rooms = 1 ∷ [] }) 2 refl refl refl
      refl refl
