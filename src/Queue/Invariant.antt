-- ===== src/Queue/Invariant.antt =====
-- The invariant of the queue holds after every operation, also where a call to a store fails.
use ticket_queue_platform.Prelude.{
  ℕ, ◌≡◌, refl, Bool, true, false, not, List, [], ◌∷◌, Action, arith, Result, inl, inr, pure, ltb,
  length, sym, ◌∙◌, if◌then◌else◌,
}
use ticket_queue_platform.Schema.{Concert, is_on_sale}
use ticket_queue_platform.Platform.{Platform, World}
use ticket_queue_platform.Platform.Rules.{
  IsQuiet, Ensures, Keeps, Post, emit-Keeps, now-Ensures, weaken, bind_Ensures, query-Ensures,
  command-Ensures, throw_if-Ensures, bind_Keeps, command-Keeps, throw_if-Keeps, or_throw-Keeps,
  pure-Keeps, if_Keeps,
}
use ticket_queue_platform.Queue.Repository.{
  admitted_key, waiting_key, add_to_waiting, remove_from_waiting, get_top_waiting, set_admitted_key,
  is_admitted, count_admitted, set_reconnect_key, delete_reconnect_key,
}
use ticket_queue_platform.Queue.Service.{
  enter_queue, leave_queue, handle_disconnect, handle_reconnect, expire_disconnect, admit_top,
  admit_next_user,
}
use ticket_queue_platform.Queue.Readers.{
  find_concert_by_id-Reads, is_in_waiting-Reads, get_position_result-Reads,
  broadcast_positions-Reads, has_reconnect_key-Reads,
}
use ticket_queue_platform.Queue.Counting.{count_admitted-Ends, Ends, uncounted-vacant}
use ticket_queue_platform.Queue.Exclusive.{
  holds_admission, is_waiting, QueueInv, zadd-QueueInv, zrem-QueueInv, is_waiting-zrem,
  set_reconnect-QueueInv, set_admitted-QueueInv, del-QueueInv,
}

module _ {p : Platform} where
  abbrev pub Inv : World p → Type 0
  Inv w = QueueInv p w.redis

  pub Inv-quiet : IsQuiet Inv
  Inv-quiet = record { faults = λ w fs h. h; sent = λ w ms h. h }

  remove_from_waiting-Inv : (c u : ℕ) → Keeps Inv (remove_from_waiting c u)
  unfolding remove_from_waiting
  remove_from_waiting-Inv c u = command-Keeps (λ w fs h. h) (λ w h. zrem-QueueInv p c u w.redis h)

  pub leave_queue-Inv : (c u : ℕ) → Keeps Inv (leave_queue c u)
  unfolding leave_queue
  leave_queue-Inv c u =
      bind_Keeps (is_in_waiting-Reads Inv-quiet c u)
        λ in_queue. bind_Keeps (throw_if-Keeps _ _) λ _. remove_from_waiting-Inv c u

  -- the last check makes sure that the user is not admitted when the line takes him in
  add_to_waiting-Inv :
      (c u : ℕ)
      → Ensures
          (λ w. Inv w × (holds_admission p c u w.redis ≡ false))
          (add_to_waiting c u)
          (λ _ w. Inv w)
          Inv
  unfolding add_to_waiting
  add_to_waiting-Inv c u =
      bind_Ensures (λ _ w. Inv w × (holds_admission p c u w.redis ≡ false)) (now-Ensures (λ w h. h))
        λ t.
          command-Ensures (λ w fs h. h) (λ w h. h.0) (λ w h. zadd-QueueInv p c t u w.redis h.1 h.0)

  is_admitted-Inv :
      (c u : ℕ)
      → Ensures Inv (is_admitted c u) (λ b w. Inv w × (holds_admission p c u w.redis ≡ b)) Inv
  unfolding is_admitted
  is_admitted-Inv c u =
      query-Ensures (λ w fs h. h) (λ w h. h)
        (λ w h. (h, sym (p.redis.exists_lem (admitted_key c u) w.redis)))

  pub enter_queue-Inv : (c u : ℕ) → Keeps Inv (enter_queue c u)
  unfolding enter_queue
  enter_queue-Inv c u = bind_Keeps (find_concert_by_id-Reads Inv-quiet c) λ found.
      bind_Keeps {A = Concert} (or_throw-Keeps found _) λ concert.
        bind_Keeps (throw_if-Keeps (not (is_on_sale concert.status)) _) λ _.
          bind_Keeps (is_in_waiting-Reads Inv-quiet c u) λ already_in.
            bind_Keeps (throw_if-Keeps already_in _) λ _.
              bind_Ensures (λ b w. Inv w × (holds_admission p c u w.redis ≡ b))
                (is_admitted-Inv c u)
                λ is_in.
                  bind_Ensures (λ _ w. Inv w × (holds_admission p c u w.redis ≡ false))
                    (throw_if-Ensures is_in _ (λ w h. h.0) (λ w h e. (h.0, h.1 ∙ e)))
                    λ _.
                      bind_Ensures (λ _ w. Inv w) (add_to_waiting-Inv c u)
                        λ _. get_position_result-Reads Inv-quiet c u

  pub handle_disconnect-Inv : (c u : ℕ) → Keeps Inv (handle_disconnect c u)
  unfolding handle_disconnect set_reconnect_key
  handle_disconnect-Inv c u = bind_Keeps (is_in_waiting-Reads Inv-quiet c u) λ in_queue.
      if_Keeps in_queue
        (command-Keeps (λ w fs h. h) (λ w h. set_reconnect-QueueInv p c u _ _ w.redis h)) pure-Keeps

  pub handle_reconnect-Inv : (c u : ℕ) → Keeps Inv (handle_reconnect c u)
  unfolding handle_reconnect delete_reconnect_key
  handle_reconnect-Inv c u = bind_Keeps (has_reconnect_key-Reads Inv-quiet c u) λ has_key.
      bind_Keeps (throw_if-Keeps _ _) λ _.
        bind_Keeps (command-Keeps (λ w fs h. h) (λ w h. del-QueueInv p _ w.redis h))
          λ _. get_position_result-Reads Inv-quiet c u

  pub expire_disconnect-Inv : (c u : ℕ) → Keeps Inv (expire_disconnect c u)
  unfolding expire_disconnect
  expire_disconnect-Inv c u = bind_Keeps (has_reconnect_key-Reads Inv-quiet c u) λ still_alive.
      if_Keeps still_alive pure-Keeps
        (bind_Keeps (remove_from_waiting-Inv c u) λ _. broadcast_positions-Reads Inv-quiet c)

  -- Nobody has an admitted key of the concert.
  abbrev Vacant : ℕ → World p → Type 0
  Vacant c w = (u : ℕ) → holds_admission p c u w.redis ≡ false

  counted :
      (c : ℕ) (w : World p) (r : Result ℕ × World p)
      → Inv w
      → Ends c w (length (p.redis.scan_ends c w.redis).0) r
      → Post (λ n v. Inv v × (ltb 0 n ≡ false → Vacant c v)) Inv r
  counted c w r h (fs, inl e) = rw e (h, λ z u. uncounted-vacant p c w.redis z u)
  counted c w r h (fs, inr e) = rw e h

  count_admitted-Inv :
      (c : ℕ) → Ensures Inv (count_admitted c) (λ n w. Inv w × (ltb 0 n ≡ false → Vacant c w)) Inv
  count_admitted-Inv c = record {
    run = λ w h. counted c w (count_admitted c w) h (count_admitted-Ends c w);
  }

  admit_top-Inv :
      (c : ℕ) (top : List ℕ)
      → Ensures (λ w. Inv w × Vacant c w) (admit_top c top) (λ _ w. Inv w) Inv
  unfolding admit_top remove_from_waiting set_admitted_key
  admit_top-Inv c [] = record { run = λ w h. h.0 }
  admit_top-Inv c (u ∷ rest) =
      bind_Ensures (λ _ w. Inv w × Vacant c w × (is_waiting p c u w.redis ≡ false))
        (command-Ensures (λ w fs h. h) (λ w h. h.0)
          (λ w h. (
            zrem-QueueInv p c u w.redis h.0,
            λ v. rw (p.redis.get-zrem (admitted_key c v) (waiting_key c) u w.redis) (h.1 v),
            ground (arith, is_waiting-zrem p c u c u w.redis),
          )))
        λ _.
          bind_Ensures (λ _ w. Inv w)
            (command-Ensures (λ w fs h. h) (λ w h. h.0)
              (λ w h. set_admitted-QueueInv p c u _ _ w.redis h.1 h.2 h.0))
            λ _. bind_Keeps (emit-Keeps _ (λ w ms h. h)) λ _. broadcast_positions-Reads Inv-quiet c

  pub admit_next_user-Inv : (c : ℕ) → Keeps Inv (admit_next_user c)
  unfolding admit_next_user get_top_waiting
  admit_next_user-Inv c =
      bind_Ensures (λ n w. Inv w × (ltb 0 n ≡ false → Vacant c w)) (count_admitted-Inv c)
        λ n. vacant_if (ltb 0 n) (
          bind_Ensures (λ _ w. Inv w × Vacant c w)
            (query-Ensures (λ w fs h. h) (λ w h. h.0) (λ w h. h)) λ top. admit_top-Inv c top)
    where
      vacant_if :
          (b : Bool) {m : Action (World p) (Unit {0})}
          → Ensures (λ w. Inv w × Vacant c w) m (λ _ w. Inv w) Inv
          → Ensures
              (λ w. Inv w × (b ≡ false → Vacant c w))
              (if b then pure tt else m)
              (λ _ w. Inv w)
              Inv
      vacant_if true hm = record { run = λ w h. h.0 }
      vacant_if false hm = weaken _ (λ w h. (h.0, h.1 refl)) hm
