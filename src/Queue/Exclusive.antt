-- ===== src/Queue/Exclusive.antt =====
-- What the commands of the queue keep of a store: lines are in order, nobody both waits and is
-- admitted, and no concert has two admitted users.
use ticket_queue_platform.Prelude.{
  ℕ, ◌≡◌, Bool, true, false, ◌&&◌, Option, none, ◌==◌, if◌then◌else◌, is_some, List, contains,
  arith,
}
use ticket_queue_platform.Platform.{Platform}
use ticket_queue_platform.Services.Redis.{
  Key, admitted, reconnect, waiting, Value, names, without, same_key,
}
use ticket_queue_platform.Queue.Line.{
  IsLine, contains-without, contains-without_self, contains-place, without-IsLine, place-IsLine,
}

if-IsLine :
    (b : Bool) (es fs : List (ℕ × ℕ)) → IsLine es → IsLine fs → IsLine (if b then es else fs)
if-IsLine true es fs h k = h
if-IsLine false es fs h k = k

is_some-if :
    (b : Bool) (o : Option Value) → is_some (if b then none else o) ≡ true → is_some o ≡ true
is_some-if true o h = cc
is_some-if false o h = h

module _ (p : Platform) where
  open p.redis use {
    Store, get, set_ex, del, members, zadd, zrem, get-set_ex, get-del, get-zadd, get-zrem,
    members-zadd, members-zrem, members-set_ex, members-del,
  }

  -- whether the user has the admitted key of the concert
  abbrev pub holds_admission : ℕ → ℕ → Store → Bool
  holds_admission c u s = is_some (get (admitted c u) s)

  abbrev pub is_waiting : ℕ → ℕ → Store → Bool
  is_waiting c u s = contains u (names (members (waiting c) s))

  pub record QueueInv (s : Store) : Type 0 where
    pub line : (c : ℕ) → IsLine (members (waiting c) s)
    pub exclusive : (c u : ℕ) → holds_admission c u s ≡ true → is_waiting c u s ≡ false
    pub single : (c u v : ℕ) → holds_admission c u s ≡ true → holds_admission c v s ≡ true → u ≡ v

  pub zadd-QueueInv :
      (c t u : ℕ) (s : Store)
      → holds_admission c u s ≡ false
      → QueueInv s
      → QueueInv (zadd (waiting c) t u s)
  zadd-QueueInv c t u s free inv = record {
    line = λ d. rw (members-zadd (waiting d) (waiting c) t u s) (
        if-IsLine (c == d) _ _
          (place-IsLine t u _ (contains-without_self u (line_of d))
            (without-IsLine u _ (inv.line d)))
          (inv.line d));
    exclusive = λ d v h. ground (
      arith,
      members-zadd (waiting d) (waiting c) t u s,
      get-zadd (admitted d v) (waiting c) t u s,
      contains-place v t u (without u (line_of d)),
      contains-without v u (line_of d),
      inv.exclusive d v,
    );
    single = λ d v x h k.
        inv.single d v x (rw (get-zadd (admitted d v) (waiting c) t u s) at h)
          (rw (get-zadd (admitted d x) (waiting c) t u s) at k);
  }
    where
      line_of : ℕ → List (ℕ × ℕ)
      line_of d = members (waiting d) s

  pub is_waiting-zrem :
      (d v c u : ℕ) (s : Store)
      → is_waiting d v (zrem (waiting c) u s)
        ≡ (if (c == d) && (u == v) then false else is_waiting d v s)
  is_waiting-zrem d v c u s = ground (
    arith,
    members-zrem (waiting d) (waiting c) u s,
    contains-without v u (members (waiting d) s),
  )

  pub zrem-QueueInv : (c u : ℕ) (s : Store) → QueueInv s → QueueInv (zrem (waiting c) u s)
  zrem-QueueInv c u s inv = record {
    line = λ d.
        rw (members-zrem (waiting d) (waiting c) u s)
          (if-IsLine (c == d) _ _ (without-IsLine u _ (inv.line d)) (inv.line d));
    exclusive = λ d v h. ground (
      arith,
      is_waiting-zrem d v c u s,
      get-zrem (admitted d v) (waiting c) u s,
      inv.exclusive d v,
    );
    single = λ d v x h k.
        inv.single d v x (rw (get-zrem (admitted d v) (waiting c) u s) at h)
          (rw (get-zrem (admitted d x) (waiting c) u s) at k);
  }

  -- A key that is no admitted key may be set.
  pub set_reconnect-QueueInv :
      (c u : ℕ) (v : Value) (n : ℕ) (s : Store)
      → QueueInv s
      → QueueInv (set_ex (reconnect c u) v n s)
  set_reconnect-QueueInv c u v n s inv = record {
    line = λ d. rw (members-set_ex (waiting d) (reconnect c u) v n s) (inv.line d);
    exclusive = λ d x h.
        rw (members-set_ex (waiting d) (reconnect c u) v n s)
          (inv.exclusive d x (rw (get-set_ex (admitted d x) (reconnect c u) v n s) at h));
    single = λ d x y h k.
        inv.single d x y (rw (get-set_ex (admitted d x) (reconnect c u) v n s) at h)
          (rw (get-set_ex (admitted d y) (reconnect c u) v n s) at k);
  }

  -- Admission, where nobody is admitted and the user has left the line.
  pub set_admitted-QueueInv :
      (c u : ℕ) (v : Value) (n : ℕ) (s : Store)
      → ((x : ℕ) → holds_admission c x s ≡ false)
      → is_waiting c u s ≡ false
      → QueueInv s
      → QueueInv (set_ex (admitted c u) v n s)
  set_admitted-QueueInv c u v n s nobody out inv = record {
    line = λ d. rw (members-set_ex (waiting d) (admitted c u) v n s) (inv.line d);
    exclusive = λ d x h. ground (
      arith,
      members-set_ex (waiting d) (admitted c u) v n s,
      get-set_ex (admitted d x) (admitted c u) v n s,
      inv.exclusive d x,
    );
    single = λ d x y h k. ground (
      arith,
      get-set_ex (admitted d x) (admitted c u) v n s,
      get-set_ex (admitted d y) (admitted c u) v n s,
      nobody x,
      nobody y,
      inv.single d x y,
    );
  }

  -- Any key may go, by a command or at its time.
  pub del-QueueInv : (k : Key) (s : Store) → QueueInv s → QueueInv (del k s)
  del-QueueInv k s inv = record {
    line = λ d. rw (members-del (waiting d) k s) (inv.line d);
    exclusive = λ d x h. rw (members-del (waiting d) k s) (inv.exclusive d x (kept d x h));
    single = λ d x y h h'. inv.single d x y (kept d x h) (kept d y h');
  }
    where
      kept : (d x : ℕ) → holds_admission d x (del k s) ≡ true → holds_admission d x s ≡ true
      kept d x h = is_some-if (same_key k (admitted d x)) _ (rw (get-del (admitted d x) k s) at h)
