-- ===== src/Queue/Untouched.antt =====
-- What admission leaves alone: all that neither leaving the line nor an admitted key can change.
use ticket_queue_platform.Prelude.{ℕ, zero, suc, ◌+◌, List, [], ◌∷◌, length, ltb, pure}
use ticket_queue_platform.Platform.{Platform, World}
use ticket_queue_platform.Platform.Rules.{
  IsQuiet, Keeps, bind_Keeps, query-Keeps, command-Keeps, pure-Keeps, throw-Keeps, emit-Keeps,
  if_Keeps,
}
use ticket_queue_platform.Services.Redis.{waiting, admitted, Value}
use ticket_queue_platform.Queue.Repository.{
  get_top_waiting, remove_from_waiting, set_admitted_key, count_from, count_admitted,
}
use ticket_queue_platform.Queue.Service.{admit_top, admit_next_user}
use ticket_queue_platform.Queue.Readers.{broadcast_positions-Reads}

module _ {p : Platform} {P : World p → Type 0} (quiet : IsQuiet P)
    (leaves : (c u : ℕ) (w : World p)
      → P w
      → P (record w { redis = p.redis.zrem (waiting c) u w.redis }))
    (enters : (c u : ℕ) (v : Value) (n : ℕ) (w : World p)
      → P w
      → P (record w { redis = p.redis.set_ex (admitted c u) v n w.redis })) where
  count_from-Keeps : (fuel c cursor count : ℕ) → Keeps P (count_from fuel c cursor count)
  unfolding count_from
  count_from-Keeps zero c cursor count = throw-Keeps
  count_from-Keeps (suc fuel) c cursor count =
      bind_Keeps (query-Keeps quiet.faults)
        λ reply. page_Keeps reply (λ n. count_from-Keeps fuel c (suc n) (count + length reply.1))
    where
      page_Keeps :
          (reply : ℕ × List ℕ)
          → ((n : ℕ) → Keeps P (count_from fuel c (suc n) (count + length reply.1)))
          → Keeps P (elim reply.0 [
            | zero ↦ pure (count + length reply.1)
            | suc next ↦ count_from fuel c (suc next) (count + length reply.1)
          ])
      page_Keeps (zero, keys) more = pure-Keeps
      page_Keeps (suc n, keys) more = more n

  count_admitted-Keeps : (c : ℕ) → Keeps P (count_admitted c)
  unfolding count_admitted
  count_admitted-Keeps c = record { run = λ w. (count_from-Keeps _ c 0 0).run w }

  admit_top-Keeps : (c : ℕ) (top : List ℕ) → Keeps P (admit_top c top)
  unfolding admit_top remove_from_waiting set_admitted_key
  admit_top-Keeps c [] = pure-Keeps
  admit_top-Keeps c (u ∷ rest) = bind_Keeps (command-Keeps quiet.faults (leaves c u)) λ _.
      bind_Keeps (command-Keeps quiet.faults (enters c u _ _))
        λ _. bind_Keeps (emit-Keeps _ quiet.sent) λ _. broadcast_positions-Reads quiet c

  pub admit_next_user-Keeps : (c : ℕ) → Keeps P (admit_next_user c)
  unfolding admit_next_user get_top_waiting
  admit_next_user-Keeps c = bind_Keeps (count_admitted-Keeps c) λ n.
      if_Keeps (ltb 0 n) pure-Keeps
        (bind_Keeps (query-Keeps quiet.faults) λ top. admit_top-Keeps c top)
