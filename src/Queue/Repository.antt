-- ===== src/Queue/Repository.antt =====
-- src/repositories/queue.repository.ts: the waiting line and the admitted and reconnect keys.
use ticket_queue_platform.Prelude.{
  ℕ, zero, suc, ◌+◌, Bool, Option, List, length, pos, negsuc, sub_ℕ, Action, ◌>>=◌, pure, throw,
  is_some,
}
use ticket_queue_platform.Errors.{out_of_fuel}
use ticket_queue_platform.Platform.{Platform, World, query, command, now}
use ticket_queue_platform.Services.Redis.{
  Key, admitted, reconnect, SetKey, waiting, number, Scans, last, more,
}

abbrev pub waiting_key : ℕ → SetKey
waiting_key c = waiting c

abbrev pub admitted_key : ℕ → ℕ → Key
admitted_key c u = admitted c u

abbrev pub reconnect_key : ℕ → ℕ → Key
reconnect_key c u = reconnect c u

-- The replies of a complete scan: how many there are.
abbrev pub pages :
    {reply : ℕ → ℕ × List ℕ} {cursor : ℕ} {keys : List ℕ} → Scans reply cursor keys → ℕ
pages (last cursor e) = 1
pages (more cursor next e rest) = suc (pages rest)

module _ {p : Platform} where
  unfoldable pub add_to_waiting : ℕ → ℕ → Action (World p) (Unit {0})
  add_to_waiting c u = do
    t ← now
    command (λ w. record w { redis = p.redis.zadd (waiting_key c) t u w.redis })

  unfoldable pub remove_from_waiting : ℕ → ℕ → Action (World p) (Unit {0})
  remove_from_waiting c u =
      command (λ w. record w { redis = p.redis.zrem (waiting_key c) u w.redis })

  unfoldable pub get_waiting_rank : ℕ → ℕ → Action (World p) (Option ℕ)
  get_waiting_rank c u = query (λ w. p.redis.zrank (waiting_key c) u w.redis)

  unfoldable pub get_waiting_count : ℕ → Action (World p) ℕ
  get_waiting_count c = query (λ w. p.redis.zcard (waiting_key c) w.redis)

  unfoldable pub is_in_waiting : ℕ → ℕ → Action (World p) Bool
  is_in_waiting c u = do
    rank ← query (λ w. p.redis.zrank (waiting_key c) u w.redis)
    pure (is_some rank)

  unfoldable pub get_top_waiting : ℕ → ℕ → Action (World p) (List ℕ)
  get_top_waiting c count = query (λ w. p.redis.zrange (waiting_key c) (sub_ℕ count 1) w.redis)

  unfoldable pub get_all_waiting : ℕ → Action (World p) (List ℕ)
  get_all_waiting c = query (λ w. p.redis.zrange (waiting_key c) (negsuc 0) w.redis)

  -- five minutes
  unfoldable pub set_admitted_key : ℕ → ℕ → Action (World p) (Unit {0})
  set_admitted_key c u =
      command
        (λ w. record w { redis = p.redis.set_ex (admitted_key c u) (number (pos 1)) 300 w.redis })

  unfoldable pub delete_admitted_key : ℕ → ℕ → Action (World p) (Unit {0})
  delete_admitted_key c u =
      command (λ w. record w { redis = p.redis.del (admitted_key c u) w.redis })

  unfoldable pub is_admitted : ℕ → ℕ → Action (World p) Bool
  is_admitted c u = query (λ w. p.redis.exists (admitted_key c u) w.redis)

  -- The `do … while (cursor !== '0')` loop, from a cursor and the count so far.
  unfoldable pub count_from : ℕ → ℕ → ℕ → ℕ → Action (World p) ℕ
  count_from zero c cursor count = throw out_of_fuel
  count_from (suc fuel) c cursor count = do
    reply ← query (λ w. p.redis.scan_admitted c w.redis cursor)
    elim reply.0 [
      | zero ↦ pure (count + length reply.1)
      | suc next ↦ count_from fuel c (suc next) (count + length reply.1)
    ]

  unfoldable pub count_admitted : ℕ → Action (World p) ℕ
  count_admitted c w = count_from (pages (p.redis.scan_ends c w.redis).1) c 0 0 w

  unfoldable pub set_reconnect_key : ℕ → ℕ → Action (World p) (Unit {0})
  set_reconnect_key c u =
      command
        (λ w. record w { redis = p.redis.set_ex (reconnect_key c u) (number (pos 1)) 30 w.redis })

  unfoldable pub delete_reconnect_key : ℕ → ℕ → Action (World p) (Unit {0})
  delete_reconnect_key c u =
      command (λ w. record w { redis = p.redis.del (reconnect_key c u) w.redis })

  unfoldable pub has_reconnect_key : ℕ → ℕ → Action (World p) Bool
  has_reconnect_key c u = query (λ w. p.redis.exists (reconnect_key c u) w.redis)

-- Names every function of this file, so that a proof or a test opens them by one name.
unfoldable pub queue_repository : Unit {0}
unfolding add_to_waiting remove_from_waiting get_waiting_rank get_waiting_count is_in_waiting
    get_top_waiting get_all_waiting set_admitted_key delete_admitted_key is_admitted count_from
    count_admitted set_reconnect_key delete_reconnect_key has_reconnect_key
queue_repository = tt
