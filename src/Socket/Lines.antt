-- ===== src/Socket/Lines.antt =====
-- What the handlers of one socket do to its user's place in the lines.
use ticket_queue_platform.Prelude.{
  ℕ, ◌≡◌, ap, true, false, not, ◌==◌, some, [], ◌∷◌, ◌++◌, select, ok, err, arith, pos,
}
use ticket_queue_platform.Errors.{Error}
use ticket_queue_platform.Platform.{Platform, World, Connection, calm, socket_error}
use ticket_queue_platform.Services.Redis.{waiting, reconnect, names, number}
use ticket_queue_platform.Platform.Rules.{
  Keeps, bind_Keeps, query-Keeps, command-Keeps, pure-Keeps, if_Keeps, kept_after,
}
use ticket_queue_platform.Queue.Line.{is_some-index_of}
use ticket_queue_platform.Queue.Readers.{broadcast_positions-Reads}
use ticket_queue_platform.Queue.Repository.{queue_repository}
use ticket_queue_platform.Queue.Service.{enter_queue, handle_disconnect, expire_disconnect}
use ticket_queue_platform.Queue.Exclusive.{is_waiting, is_waiting-zrem}
use ticket_queue_platform.Socket.Jobs.{process_disconnect, schedule_disconnect_job}
use ticket_queue_platform.Socket.Handlers.{find_socket, on_enter, on_disconnect}

module _ {p : Platform} (sid u c : ℕ) (w : World p) where
  -- If enterQueue throws, whichever call failed, the handler itself returns, the client gets an error
  -- event after all that was sent before, and every socket keeps its rooms and its data.
  pub on_enter_fails :
      (e : Error)
      → (enter_queue c u w).0 ≡ err e
      → let v = (enter_queue c u w).1 in
        on_enter sid u (some c) w ≡ (ok tt, record v { sent = socket_error sid e ∷ v.sent })
  unfolding on_enter
  on_enter_fails e h = ground (arith, h)

  -- the world after a disconnect, and the one after its job, which runs when the key has expired
  abbrev dropped : World p
  dropped = (on_disconnect sid u (calm w)).1

  abbrev expired : World p
  expired =
      (process_disconnect (c, u)
        (record dropped { redis = p.redis.del (reconnect c u) dropped.redis })).1

  dropped-eq :
      (s : Connection)
      → find_socket sid w.sockets ≡ some s
      → s.concert_id ≡ some c
      → is_waiting p c u w.redis ≡ true
      → dropped ≡ record w {
        sockets = select (λ x. not (x.id == sid)) w.sockets;
        redis = p.redis.set_ex (reconnect c u) (number (pos 1)) 30 w.redis;
        disconnects = w.disconnects ++ (c, u) ∷ [];
        faults = [];
      }
  unfolding on_disconnect handle_disconnect schedule_disconnect_job queue_repository
  dropped-eq s found at waits = ground (
    arith,
    found,
    at,
    p.redis.zrank_lem (waiting c) u w.redis,
    is_some-index_of u (names (p.redis.members (waiting c) w.redis)),
  )

  abbrev Waits : ℕ → World p → Type 0
  Waits d v = is_waiting p d u v.redis ≡ true

  other_line_kept : (d : ℕ) → (c == d) ≡ false → Keeps (Waits d) (process_disconnect (c, u))
  unfolding process_disconnect expire_disconnect queue_repository
  other_line_kept d other = bind_Keeps (query-Keeps (λ v fs h. h)) λ still_alive.
      if_Keeps still_alive pure-Keeps (
        bind_Keeps
          (command-Keeps (λ v fs h. h)
            (λ v h. ground (arith, other, h, is_waiting-zrem p d u c u v.redis)))
          λ _. broadcast_positions-Reads (record { faults = λ v fs h. h; sent = λ v ms h. h }) c)

  -- Where no call fails, a socket that remembers one concert, of a user who waits for two, gets a job
  -- for the remembered one only when it disconnects: the user goes on waiting for the other one, after
  -- the disconnect and after the job.
  pub second_line_stays :
      (s : Connection) (d : ℕ)
      → find_socket sid w.sockets ≡ some s
      → s.concert_id ≡ some c
      → (c == d) ≡ false
      → is_waiting p c u w.redis ≡ true
      → is_waiting p d u w.redis ≡ true
      → (dropped.disconnects ≡ w.disconnects ++ (c, u) ∷ [])
        × (is_waiting p d u dropped.redis ≡ true)
        × (is_waiting p d u expired.redis ≡ true)
  second_line_stays s d found at other waits also = (
    ap (λ v. v.disconnects) (dropped-eq s found at waits),
    stays,
    kept_after (other_line_kept d other) _
        (rw (p.redis.members-del (waiting d) (reconnect c u) dropped.redis) stays),
  )
    where
      stays : Waits d dropped
      stays =
          rw (dropped-eq s found at waits) (
            rw (p.redis.members-set_ex (waiting d) (reconnect c u) (number (pos 1)) 30 w.redis)
              also)
