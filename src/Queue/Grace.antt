-- ===== src/Queue/Grace.antt =====
-- The thirty seconds after a disconnect: the reconnect key, and the job that ends them.
use ticket_queue_platform.Prelude.{
  [], if◌then◌else◌, ◌==◌, ℕ, ◌≡◌, ◌∙◌, ap, true, false, is_some, arith,
}
use ticket_queue_platform.Platform.{Platform, World, calm}
use ticket_queue_platform.Services.Redis.{reconnect, waiting}
use ticket_queue_platform.Queue.Repository.{queue_repository}
use ticket_queue_platform.Queue.Service.{
  get_position_result, handle_reconnect, expire_disconnect, broadcast_positions,
}
use ticket_queue_platform.Queue.Exclusive.{is_waiting, is_waiting-zrem}
use ticket_queue_platform.Platform.Rules.{IsQuiet, kept_after}
use ticket_queue_platform.Queue.Readers.{broadcast_positions-Reads}

module _ {p : Platform} (c u : ℕ) (w : World p) where
  abbrev returned : World p
  returned = record w { redis = p.redis.del (reconnect c u) w.redis; faults = [] }

  handle_reconnect-eq :
      is_some (p.redis.get (reconnect c u) w.redis) ≡ true
      → handle_reconnect c u (calm w) ≡ get_position_result c u returned
  unfolding handle_reconnect queue_repository
  handle_reconnect-eq h = ground (arith, p.redis.exists_lem (reconnect c u) w.redis)

  expire_disconnect-eq :
      is_some (p.redis.get (reconnect c u) w.redis) ≡ false
      → expire_disconnect c u (calm w)
        ≡ broadcast_positions c
            (record w { redis = p.redis.zrem (waiting c) u w.redis; faults = [] })
  unfolding expire_disconnect queue_repository
  expire_disconnect-eq h = ground (arith, p.redis.exists_lem (reconnect c u) w.redis)

  -- Where no call fails, the job of a disconnect takes the user out of the line if the reconnect key
  -- is gone, and nobody else.
  pub expire_disconnect_removes :
      is_some (p.redis.get (reconnect c u) w.redis) ≡ false
      → (v : ℕ)
      → is_waiting p c v (expire_disconnect c u (calm w)).1.redis
        ≡ (if u == v then false else is_waiting p c v w.redis)
  expire_disconnect_removes h v = rw (expire_disconnect-eq h) (
      kept_after (broadcast_positions-Reads quiet c)
        (record w { redis = p.redis.zrem (waiting c) u w.redis; faults = [] })
        (ground (arith, is_waiting-zrem p c v c u w.redis)))
    where
      Removed : World p → Type 0
      Removed x = is_waiting p c v x.redis ≡ (if u == v then false else is_waiting p c v w.redis)

      quiet : IsQuiet Removed
      quiet = record { faults = λ x fs k. k; sent = λ x ms k. k }

  back-eq :
      is_some (p.redis.get (reconnect c u) w.redis) ≡ true
      → (handle_reconnect c u (calm w)).1 ≡ returned
  unfolding get_position_result queue_repository
  back-eq h = ap (λ r. r.1) (handle_reconnect-eq h)

module _ {p : Platform} (c u : ℕ) (w : World p) where
  -- Where no call fails: a user who comes back in time keeps the place in the line, and the job of
  -- the disconnect, which runs later, takes the same user out of it, since coming back has deleted
  -- the key that the job looks for.
  pub reconnect_then_expire :
      is_some (p.redis.get (reconnect c u) w.redis) ≡ true
      → let back = (handle_reconnect c u (calm w)).1 in
        (p.redis.members (waiting c) back.redis ≡ p.redis.members (waiting c) w.redis)
        × (is_waiting p c u (expire_disconnect c u back).1.redis ≡ false)
  reconnect_then_expire h = rw (back-eq c u w h) (
    p.redis.members-del (waiting c) (reconnect c u) w.redis,
    expire_disconnect_removes c u (returned c u w) gone u ∙ ground arith,
  )
    where
      gone : is_some (p.redis.get (reconnect c u) (returned c u w).redis) ≡ false
      gone = ground (arith, p.redis.get-del (reconnect c u) (reconnect c u) w.redis)
