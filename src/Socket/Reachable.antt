-- ===== src/Socket/Reachable.antt =====
-- The queue as sockets and jobs drive it, under any sequence of events, failures, expiring keys and
-- passing time.
use ticket_queue_platform.Prelude.{ℕ, ◌≤◌, Bool, Option, none, some, List, ◌∷◌, ◌≡◌}
use ticket_queue_platform.Platform.{Platform, World, Connection}
use ticket_queue_platform.Platform.Rules.{kept_after}
use ticket_queue_platform.Services.Redis.{Key}
use ticket_queue_platform.Queue.Exclusive.{del-QueueInv}
use ticket_queue_platform.Queue.Invariant.{
  Inv, Inv-quiet, enter_queue-Inv, leave_queue-Inv, handle_disconnect-Inv, handle_reconnect-Inv,
  expire_disconnect-Inv, admit_next_user-Inv,
}
use ticket_queue_platform.Socket.Jobs.{process_admission, process_disconnect}
use ticket_queue_platform.Socket.Handlers.{
  find_socket, on_connection, on_enter, on_leave, on_reconnect, on_disconnect,
}
use ticket_queue_platform.Socket.Seats.{
  Stands, on_connection-Keeps, on_enter-Keeps, on_leave-Keeps, on_reconnect-Keeps,
  on_disconnect-Keeps, process_admission-Keeps, process_disconnect-Keeps,
}
use ticket_queue_platform.Socket.Seating.{Seating, Seating-Stands}

-- An event of a connected socket, with the concert of its payload.
pub data Event : Type 0 where
  enters leaves reconnects : Option ℕ → Event
  disconnects : Event

abbrev pub user_at : Option Connection → Option ℕ
user_at none = none
user_at (some s) = s.user_id

module _ {p : Platform} where
  -- the handler that `registerQueueSocket` registers for an event, with the user of its closure
  unfoldable pub handle : Event → ℕ → ℕ → World p → World p
  handle (enters c) sid u w = (on_enter sid u c w).1
  handle (leaves c) sid u w = (on_leave sid u c w).1
  handle (reconnects c) sid u w = (on_reconnect sid u c w).1
  handle disconnects sid u w = (on_disconnect sid u w).1

  -- A connection with a token, or none; an event of a socket; the five-second job; the first of the
  -- waiting jobs of disconnects; a key whose time to live is over; time passing, and which of the next
  -- calls will fail.
  pub data Step : World p → World p → Type 0 where
    connect : (token : Option p.crypto.Token) (w : World p) → Step w (on_connection token w).1
    event :
        (e : Event) (sid u : ℕ) (w : World p)
        → user_at (find_socket sid w.sockets) ≡ some u
        → Step w (handle e sid u w)
    admission : (w : World p) → Step w (process_admission w).1
    grace :
        (w : World p) (job : ℕ × ℕ) (rest : List (ℕ × ℕ))
        → w.disconnects ≡ job ∷ rest
        → Step w (process_disconnect job (record w { disconnects = rest })).1
    lapse : (k : Key) (w : World p) → Step w (record w { redis = p.redis.del k w.redis })
    wait :
        (w : World p) (t : ℕ) (fs : List Bool)
        → w.now ≤ t
        → Step w (record w { now = t; faults = fs })

  pub data Reach (w : World p) : World p → Type 0 where
    here : Reach w w
    next : {v x : World p} → Reach w v → Step v x → Reach w x

  module _ {P : World p → Type 0} (stands : Stands P)
      (lapses : (w : World p) (k : Key) → P w → P (record w { redis = p.redis.del k w.redis }))
      (waits : (w : World p) (t : ℕ) (fs : List Bool)
        → P w
        → P (record w { now = t; faults = fs })) where
    handle_kept : (e : Event) (sid u : ℕ) (w : World p) → P w → P (handle e sid u w)
    unfolding handle
    handle_kept (enters c) sid u = kept_after (on_enter-Keeps stands sid u c)
    handle_kept (leaves c) sid u = kept_after (on_leave-Keeps stands sid u c)
    handle_kept (reconnects c) sid u = kept_after (on_reconnect-Keeps stands sid u c)
    handle_kept disconnects sid u = kept_after (on_disconnect-Keeps stands sid u)

    Step_kept : {w v : World p} → Step w v → P w → P v
    Step_kept (connect token w) h = kept_after (on_connection-Keeps stands token) w h
    Step_kept (event e sid u w at) h = handle_kept e sid u w h
    Step_kept (admission w) h = kept_after (process_admission-Keeps stands) w h
    Step_kept (grace w job rest e) h =
        kept_after (process_disconnect-Keeps stands job) _ (stands.jobs w rest h)
    Step_kept (lapse k w) h = lapses w k h
    Step_kept (wait w t fs le) h = waits w t fs h

    Reach_kept : {w v : World p} → Reach w v → P w → P v
    Reach_kept here h = h
    Reach_kept (next r s) h = Step_kept s (Reach_kept r h)

  Inv-Stands : Stands {p = p} Inv
  Inv-Stands = record {
    quiet = Inv-quiet;
    enters = enter_queue-Inv;
    leaves = leave_queue-Inv;
    drops_out = handle_disconnect-Inv;
    comes_back = handle_reconnect-Inv;
    grace_ends = expire_disconnect-Inv;
    admits = admit_next_user-Inv;
    draws = λ w n h. h;
    jobs = λ w js h. h;
    opens = λ w sid u h. h;
    sits = λ w sid c h. h;
    rises = λ w sid c h. h;
    closes = λ w sid h. h;
  }

  -- Through any sequence of connections, socket events, admission jobs, jobs of disconnects, expiring
  -- keys, passing time and failing store calls, the lines stay sorted and free of repeats, nobody both
  -- waits for a concert and is admitted to it, no concert has two admitted users, and a socket that
  -- remembers a concert is in its room, provided that this holds of the first world.
  pub Reach-Sound : (w v : World p) → Inv w → Seating w → Reach w v → Inv v × Seating v
  Reach-Sound w v inv seating r = (
    Reach_kept Inv-Stands (λ w k h. del-QueueInv p k w.redis h) (λ w t fs h. h) r inv,
    Reach_kept Seating-Stands (λ w k h. h) (λ w t fs h. h) r seating,
  )
