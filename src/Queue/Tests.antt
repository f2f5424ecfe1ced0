-- ===== src/Queue/Tests.antt =====
-- The queue on the sample platform: runs of the operations, and instances of the theorems.
use ticket_queue_platform.Prelude.{ℕ, List, none, ◌≡◌, refl, true, false, [], ◌∷◌, pos, arith}
use ticket_queue_platform.Platform.{World, queue_admitted, queue_position}
use ticket_queue_platform.Samples.{memory, opening}
use ticket_queue_platform.Services.Redis.{admitted, reconnect, number}
use ticket_queue_platform.Queue.Repository.{queue_repository, count_admitted}
use ticket_queue_platform.Queue.Service.{
  handle_reconnect, expire_disconnect, admit_next_user, admit_top, push_position, push_positions,
  broadcast_positions,
}
use ticket_queue_platform.Queue.Counting.{Ends, count_admitted-Ends}
use ticket_queue_platform.Queue.Exclusive.{QueueInv, is_waiting}
use ticket_queue_platform.Queue.Reachable.{
  enters, drops_out, grace_ends, admits, perform, here, next, call, Reach-Inv,
}
use ticket_queue_platform.Queue.Booth.{Booth, handle}
use ticket_queue_platform.Queue.Depicts.{Depicts}
use ticket_queue_platform.Queue.Runs.{Deed, calls, expires, play_all, attend_all, queue_refines}
use ticket_queue_platform.Queue.Grace.{reconnect_then_expire}

-- User 7 is admitted to concert 1.
abbrev busy : World memory
busy = record opening {
  redis = record opening.redis {
    strings = (admitted 1 7, (number (pos 1), pos 300)) ∷ [];
    sets = λ k. (2500, 8) ∷ [];
  };
}

-- User 8 has dropped out and may come back.
abbrev dropped : World memory
dropped = record opening {
  redis = record opening.redis { strings = (reconnect 1 8, (number (pos 1), pos 30)) ∷ [] };
}

admission_run : (admit_next_user 1 opening).1.sent ≡ queue_position 8 1 1 ∷ queue_admitted 7 ∷ []
unfolding admit_next_user admit_top broadcast_positions push_positions push_position
    queue_repository
admission_run = refl

opening-QueueInv : QueueInv memory opening.redis
opening-QueueInv = record {
  line = λ c. ((refl, tt), refl, (tt, refl, tt));
  exclusive = λ c u h. ground arith;
  single = λ c u v h k. ground arith;
}

count_admitted-Ends_example : Ends 1 busy 1 (count_admitted 1 busy)
count_admitted-Ends_example = count_admitted-Ends 1 busy

Reach-Inv_example : QueueInv memory (perform (admits 1) (perform (enters 1 9) opening)).redis
Reach-Inv_example =
    Reach-Inv opening (perform (admits 1) (perform (enters 1 9) opening)) opening-QueueInv (
      next (next here (call (enters 1 9) opening)) (call (admits 1) (perform (enters 1 9) opening)))

reconnect_then_expire_example :
    is_waiting memory 1 8 (expire_disconnect 1 8 (handle_reconnect 1 8 dropped).1).1.redis ≡ false
reconnect_then_expire_example = (reconnect_then_expire 1 8 dropped refl).1

-- Users 7 and 8 wait and nobody is inside.
abbrev two_in_line : Booth
two_in_line = record { line = 7 ∷ 8 ∷ []; inside = none; away = λ u. false }

opening-Depicts : Depicts memory 1 opening.redis two_in_line
opening-Depicts = record { in_line = refl; inside = λ u. refl; away = λ u. refl }

-- User 9 enters, user 7 is admitted, and user 8 drops out and does not come back in time.
abbrev a_day : List (ℕ × Deed)
a_day =
    (4000, calls (enters 1 9))
    ∷ (5000, calls (admits 1))
    ∷ (6000, calls (drops_out 1 8))
    ∷ (40000, expires (reconnect 1 8))
    ∷ (41000, calls (grace_ends 1 8))
    ∷ []

booth_after : (attend_all 1 true a_day two_in_line).line ≡ 9 ∷ []
unfolding handle
booth_after = refl

queue_refines_example :
    Depicts memory 1 (play_all a_day opening).redis (attend_all 1 true a_day two_in_line)
queue_refines_example =
    queue_refines 1 a_day opening two_in_line opening-QueueInv (omega arith) (omega arith)
      opening-Depicts
