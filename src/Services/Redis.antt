-- ===== src/Services/Redis.antt =====
-- Redis as the program uses it (ioredis, and the commands inside the Lua scripts): an abstract store
-- with its commands, and their documented behaviour as laws. Strings and sorted sets have keys of
-- different shapes, so they are two families of keys.
use ticket_queue_platform.Prelude.{
  ℕ, suc, ◌<◌, ◌≡◌, Bool, false, ◌&&◌, ◌||◌, Option, none, some, List, [], ◌∷◌, ◌++◌, map, ℤ, pos,
  negsuc, ◌+ℤ◌, ◌-ℤ◌, ltb, ◌==◌, if◌then◌else◌, is_some, take, length, index_of, contains,
}

-- `queue:{c}:admitted:{u}`, `queue:{c}:reconnect:{u}`, `zone:{z}:lock:{u}`, `zone:{z}:stock`.
-- Ids hold no colon, so different ids and different kinds give different keys.
pub data Key : Type 0 where
  admitted reconnect lock : ℕ → ℕ → Key
  stock : ℕ → Key

-- `queue:{c}:waiting`
pub data SetKey : Type 0 where
  waiting : ℕ → SetKey

abbrev pub same_key : Key → Key → Bool
same_key (admitted c u) (admitted d v) = (c == d) && (u == v)
same_key (reconnect c u) (reconnect d v) = (c == d) && (u == v)
same_key (lock z u) (lock y v) = (z == y) && (u == v)
same_key (stock z) (stock y) = z == y
same_key _ _ = false

abbrev pub same_set : SetKey → SetKey → Bool
same_set (waiting c) (waiting d) = c == d

-- A string value: a number in decimal, or some other word.
pub data Value : Type 0 where
  number : ℤ → Value
  word : ℕ → Value

-- What INCRBY and DECRBY start from; `none` where they fail.
abbrev pub counter : Option Value → Option ℤ
counter none = some (pos 0)
counter (some (number n)) = some n
counter (some (word w)) = none

-- A sorted set in the order of ZRANGE, as pairs of a score and a member: by score, then by member.
abbrev pub before : ℕ → ℕ → ℕ × ℕ → Bool
before score m (score', m') = ltb score score' || ((score == score') && ltb m m')

abbrev pub place : ℕ → ℕ → List (ℕ × ℕ) → List (ℕ × ℕ)
place score m [] = (score, m) ∷ []
place score m (e ∷ es) = if before score m e then (score, m) ∷ e ∷ es else e ∷ place score m es

abbrev pub without : ℕ → List (ℕ × ℕ) → List (ℕ × ℕ)
without m [] = []
without m (e ∷ es) = if e.1 == m then without m es else e ∷ without m es

abbrev pub names : List (ℕ × ℕ) → List ℕ
names = map (λ e. e.1)

-- The pages of a SCAN from a cursor to the reply with cursor 0.
pub data Scans (reply : ℕ → ℕ × List ℕ) : ℕ → List ℕ → Type 0 where
  last : (cursor : ℕ) {keys : List ℕ} → reply cursor ≡ (0, keys) → Scans reply cursor keys
  more :
      (cursor next : ℕ) {keys rest : List ℕ}
      → reply cursor ≡ (suc next, keys)
      → Scans reply (suc next) rest
      → Scans reply cursor (keys ++ rest)

pub record Redis : Type 1 where
  pub Store : Type 0
  -- strings
  pub get : Key → Store → Option Value
  pub exists : Key → Store → Bool
  pub ttl : Key → Store → ℤ
  pub set : Key → Value → Store → Store
  pub set_ex : Key → Value → ℕ → Store → Store
  pub del : Key → Store → Store
  pub incrby : Key → ℤ → Store → Store
  pub decrby : Key → ℤ → Store → Store
  pub expire : Key → ℕ → Store → Store
  -- sorted sets
  pub members : SetKey → Store → List (ℕ × ℕ)
  pub zadd : SetKey → ℕ → ℕ → Store → Store
  pub zrem : SetKey → ℕ → Store → Store
  pub zrank : SetKey → ℕ → Store → Option ℕ
  pub zcard : SetKey → Store → ℕ
  pub zrange : SetKey → ℤ → Store → List ℕ
  -- one reply of SCAN with MATCH `queue:{c}:admitted:*`: the next cursor, and the users of the keys
  pub scan_admitted : ℕ → Store → ℕ → ℕ × List ℕ
  -- what a reader of a string sees after each command
  pub exists_lem : (k : Key) (s : Store) → exists k s ≡ is_some (get k s)
  pub get-set :
      (j k : Key) (v : Value) (s : Store)
      → get j (set k v s) ≡ (if same_key k j then some v else get j s)
  pub get-set_ex :
      (j k : Key) (v : Value) (n : ℕ) (s : Store)
      → get j (set_ex k v n s) ≡ (if same_key k j then some v else get j s)
  pub get-del : (j k : Key) (s : Store) → get j (del k s) ≡ (if same_key k j then none else get j s)
  pub get-incrby :
      (j k : Key) (n b : ℤ) (s : Store)
      → counter (get k s) ≡ some b
      → get j (incrby k n s) ≡ (if same_key k j then some (number (b +ℤ n)) else get j s)
  pub get-decrby :
      (j k : Key) (n b : ℤ) (s : Store)
      → counter (get k s) ≡ some b
      → get j (decrby k n s) ≡ (if same_key k j then some (number (b -ℤ n)) else get j s)
  pub get-incrby_other :
      (j k : Key) (n : ℤ) (s : Store) → same_key k j ≡ false → get j (incrby k n s) ≡ get j s
  pub get-decrby_other :
      (j k : Key) (n : ℤ) (s : Store) → same_key k j ≡ false → get j (decrby k n s) ≡ get j s
  pub get-expire : (j k : Key) (n : ℕ) (s : Store) → 0 < n → get j (expire k n s) ≡ get j s
  pub get-zadd : (j : Key) (k : SetKey) (n m : ℕ) (s : Store) → get j (zadd k n m s) ≡ get j s
  pub get-zrem : (j : Key) (k : SetKey) (m : ℕ) (s : Store) → get j (zrem k m s) ≡ get j s
  pub members-incrby :
      (j : SetKey) (k : Key) (n : ℤ) (s : Store) → members j (incrby k n s) ≡ members j s
  pub members-decrby :
      (j : SetKey) (k : Key) (n : ℤ) (s : Store) → members j (decrby k n s) ≡ members j s
  -- the time to live: -2 for a missing key
  pub ttl_missing : (k : Key) (s : Store) → get k s ≡ none → ttl k s ≡ negsuc 1
  pub ttl-set_ex :
      (j k : Key) (v : Value) (n : ℕ) (s : Store)
      → ttl j (set_ex k v n s) ≡ (if same_key k j then pos n else ttl j s)
  pub ttl-expire :
      (j k : Key) (n : ℕ) (s : Store)
      → 0 < n
      → ttl j (expire k n s) ≡ (if same_key k j && is_some (get k s) then pos n else ttl j s)
  -- what a reader of a sorted set sees after each command
  pub members-zadd :
      (j k : SetKey) (n m : ℕ) (s : Store)
      → members j (zadd k n m s)
        ≡ (if same_set k j then place n m (without m (members j s)) else members j s)
  pub members-zrem :
      (j k : SetKey) (m : ℕ) (s : Store)
      → members j (zrem k m s) ≡ (if same_set k j then without m (members j s) else members j s)
  pub members-set_ex :
      (j : SetKey) (k : Key) (v : Value) (n : ℕ) (s : Store)
      → members j (set_ex k v n s) ≡ members j s
  pub members-del : (j : SetKey) (k : Key) (s : Store) → members j (del k s) ≡ members j s
  pub zrank_lem : (k : SetKey) (m : ℕ) (s : Store) → zrank k m s ≡ index_of m (names (members k s))
  pub zcard_lem : (k : SetKey) (s : Store) → zcard k s ≡ length (members k s)
  pub zrange_all : (k : SetKey) (s : Store) → zrange k (negsuc 0) s ≡ names (members k s)
  pub zrange_upto :
      (k : SetKey) (n : ℕ) (s : Store) → zrange k (pos n) s ≡ take (suc n) (names (members k s))
  -- a scan of a store that does not change ends, and returns just the keys that are there
  pub scan_ends :
      (c : ℕ) (s : Store)
      → (keys : List ℕ) × Scans (scan_admitted c s) 0 keys
        × ((u : ℕ) → contains u keys ≡ is_some (get (admitted c u) s))
