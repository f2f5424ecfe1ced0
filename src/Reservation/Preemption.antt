-- ===== src/Reservation/Preemption.antt =====
-- What the two Lua scripts do to the stock counters, and to the lines.
use ticket_queue_platform.Prelude.{
  ℤ, ◌+ℤ◌, ◌-ℤ◌, sub-add_cancel, ◌∙◌, ℕ, ◌+◌, ◌-◌, ◌≤◌, ◌≡◌, false, ◌==◌, if◌then◌else◌, none, some,
  pos, is_some, arith, pos_add, pos_sub,
}
use ticket_queue_platform.Services.Redis.{Redis, stock, lock, number, word}
use ticket_queue_platform.Reservation.Repository.{release_script, preempt_script}

module _ (r : Redis) (z u q : ℕ) (s : r.Store) where
  -- Releasing adds to the counter of the zone, also where that is negative, and changes no other
  -- counter.
  pub count-release :
      (y : ℕ) (n : ℤ)
      → r.get (stock y) s ≡ some (number n)
      → r.get (stock y) (release_script r z u q s)
        ≡ some (number (if z == y then n +ℤ pos q else n))
  unfolding release_script
  count-release y n h = ground (
    arith,
    r.get-del (stock y) (lock z u) (r.incrby (stock z) (pos q) s),
    r.get-incrby (stock y) (stock z) (pos q) n s,
    r.get-incrby_other (stock y) (stock z) (pos q) s,
  )

  pub get-release :
      (y n : ℕ)
      → r.get (stock y) s ≡ some (number (pos n))
      → r.get (stock y) (release_script r z u q s)
        ≡ some (number (pos (if z == y then n + q else n)))
  get-release y n h = count-release y (pos n) h ∙ ground (arith, pos_add n q)

  pub unlocked-release : r.get (lock z u) (release_script r z u q s) ≡ none
  unfolding release_script
  unlocked-release = ground (arith, r.get-del (lock z u) (lock z u) (r.incrby (stock z) (pos q) s))

  module _ (ttl i : ℕ) where
    abbrev pub taken : r.Store
    taken = r.set_ex (lock z u) (word i) ttl (r.decrby (stock z) (pos q) s)

    preempt_granted :
        (n : ℕ)
        → r.get (stock z) s ≡ some (number (pos n))
        → q ≤ n
        → is_some (r.get (lock z u) s) ≡ false
        → preempt_script r z u q ttl i s ≡ (pos 1, taken)
    unfolding preempt_script
    preempt_granted n h le free = ground (arith, r.exists_lem (lock z u) s)

    -- Taking takes from the counter of the zone, and from no other.
    pub count-taken :
        (y : ℕ) (n : ℤ)
        → r.get (stock y) s ≡ some (number n)
        → r.get (stock y) taken ≡ some (number (if z == y then n -ℤ pos q else n))
    count-taken y n h = ground (
      arith,
      r.get-set_ex (stock y) (lock z u) (word i) ttl (r.decrby (stock z) (pos q) s),
      r.get-decrby (stock y) (stock z) (pos q) n s,
      r.get-decrby_other (stock y) (stock z) (pos q) s,
    )

    pub get-taken :
        (y n : ℕ)
        → r.get (stock y) s ≡ some (number (pos n))
        → (z ≡ y → q ≤ n)
        → r.get (stock y) taken ≡ some (number (pos (if z == y then n - q else n)))
    get-taken y n h le = count-taken y (pos n) h ∙ ground (arith, pos_sub n q)

module _ (r : Redis) (z u q : ℕ) (s : r.Store) (ttl i : ℕ) where
  -- What is taken and then released is back, in every counter.
  pub release-taken :
      (y : ℕ) (n : ℤ)
      → r.get (stock y) s ≡ some (number n)
      → r.get (stock y) (release_script r z u q (taken r z u q s ttl i)) ≡ some (number n)
  release-taken y n h =
      count-release r z u q (taken r z u q s ttl i) y (if z == y then n -ℤ pos q else n)
        (count-taken r z u q s ttl i y n h)
      ∙ ground (arith, sub-add_cancel n (pos q))
