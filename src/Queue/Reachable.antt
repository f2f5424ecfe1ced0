-- ===== src/Queue/Reachable.antt =====
-- The queue under any sequence of calls, failures, expiring keys and passing time.
use ticket_queue_platform.Prelude.{ℕ, ◌≤◌, Bool, List}
use ticket_queue_platform.Platform.{Platform, World}
use ticket_queue_platform.Platform.Rules.{kept_after}
use ticket_queue_platform.Services.Redis.{Key}
use ticket_queue_platform.Queue.Service.{
  enter_queue, leave_queue, handle_disconnect, handle_reconnect, expire_disconnect, admit_next_user,
}
use ticket_queue_platform.Queue.Exclusive.{del-QueueInv}
use ticket_queue_platform.Queue.Invariant.{
  Inv, enter_queue-Inv, leave_queue-Inv, handle_disconnect-Inv, handle_reconnect-Inv,
  expire_disconnect-Inv, admit_next_user-Inv,
}

-- A call of the queue service, by a request, a socket or a job.
pub data Call : Type 0 where
  enters leaves drops_out comes_back grace_ends : ℕ → ℕ → Call
  admits : ℕ → Call

module _ {p : Platform} where
  -- the world after a call, returned or thrown
  unfoldable pub perform : Call → World p → World p
  perform (enters c u) w = (enter_queue c u w).1
  perform (leaves c u) w = (leave_queue c u w).1
  perform (drops_out c u) w = (handle_disconnect c u w).1
  perform (comes_back c u) w = (handle_reconnect c u w).1
  perform (grace_ends c u) w = (expire_disconnect c u w).1
  perform (admits c) w = (admit_next_user c w).1

  -- A call; a key whose time to live is over; time passing, and which of the next calls will fail.
  pub data Step : World p → World p → Type 0 where
    call : (e : Call) (w : World p) → Step w (perform e w)
    lapse : (k : Key) (w : World p) → Step w (record w { redis = p.redis.del k w.redis })
    wait :
        (w : World p) (t : ℕ) (fs : List Bool)
        → w.now ≤ t
        → Step w (record w { now = t; faults = fs })

  pub data Reach (w : World p) : World p → Type 0 where
    here : Reach w w
    next : {v x : World p} → Reach w v → Step v x → Reach w x

  pub perform-Inv : (e : Call) (w : World p) → Inv w → Inv (perform e w)
  unfolding perform
  perform-Inv (enters c u) = kept_after (enter_queue-Inv c u)
  perform-Inv (leaves c u) = kept_after (leave_queue-Inv c u)
  perform-Inv (drops_out c u) = kept_after (handle_disconnect-Inv c u)
  perform-Inv (comes_back c u) = kept_after (handle_reconnect-Inv c u)
  perform-Inv (grace_ends c u) = kept_after (expire_disconnect-Inv c u)
  perform-Inv (admits c) = kept_after (admit_next_user-Inv c)

  Step-Inv : {w v : World p} → Step w v → Inv w → Inv v
  Step-Inv (call e w) h = perform-Inv e w h
  Step-Inv (lapse k w) h = del-QueueInv p k w.redis h
  Step-Inv (wait w t fs le) h = h

  -- From a store whose lines are sorted and whose admissions are exclusive, every reachable world
  -- has sorted lines without repeats, no user who both waits for a concert and is admitted to it,
  -- and no concert with two admitted users.
  pub Reach-Inv : (w v : World p) → Inv w → Reach w v → Inv v
  Reach-Inv w v h here = h
  Reach-Inv w v h (next r s) = Step-Inv s (Reach-Inv w _ h r)
