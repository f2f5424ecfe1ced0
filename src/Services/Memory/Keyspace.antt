-- ===== src/Services/Memory/Keyspace.antt =====
-- Redis in memory, which meets the laws of its interface. A scan answers in one page.
use ticket_queue_platform.Prelude.{
  ℕ, suc, ◌≡◌, refl, true, List, [], ◌∷◌, ℤ, pos, negsuc, ◌+ℤ◌, ◌-ℤ◌, ◌==◌, if◌then◌else◌, is_some,
  take, length, index_of, contains, arith,
}
use ticket_queue_platform.Services.Memory.Keyed.{drop}
use ticket_queue_platform.Services.Memory.Strings.{
  Entry, get, ttl, count_by, expire, get-cons, ttl-cons, ttl_missing, get-drop, get-expire,
  ttl-expire, get-count_by, get-count_by_other,
}
use ticket_queue_platform.Services.Redis.{
  Redis, Key, admitted, reconnect, lock, stock, SetKey, same_key, same_set, place, without, names,
  last,
}

abbrev users : ℕ → List (Key × Entry) → List ℕ
users c [] = []
users c ((admitted d u, v) ∷ es) = if d == c then u ∷ users c es else users c es
users c ((reconnect d u, v) ∷ es) = users c es
users c ((lock z u, v) ∷ es) = users c es
users c ((stock z, v) ∷ es) = users c es

pub record Store : Type 0 where
  pub strings : List (Key × Entry)
  pub sets : SetKey → List (ℕ × ℕ)

pub same_key_trans : (i j k : Key) → same_key i j ≡ true → same_key i k ≡ same_key j k
same_key_trans (admitted a b) (admitted c d) (admitted e f) h = ground arith
same_key_trans (reconnect a b) (reconnect c d) (reconnect e f) h = ground arith
same_key_trans (lock a b) (lock c d) (lock e f) h = ground arith
same_key_trans (stock a) (stock c) (stock e) h = ground arith
same_key_trans _ _ _ h = ground arith

pub same_key_cong : (i j k : Key) → same_key i j ≡ true → same_key k i ≡ same_key k j
same_key_cong (admitted a b) (admitted c d) (admitted e f) h = ground arith
same_key_cong (reconnect a b) (reconnect c d) (reconnect e f) h = ground arith
same_key_cong (lock a b) (lock c d) (lock e f) h = ground arith
same_key_cong (stock a) (stock c) (stock e) h = ground arith
same_key_cong _ _ _ h = ground arith

pub contains-users :
    (c u : ℕ) (es : List (Key × Entry))
    → contains u (users c es) ≡ is_some (get same_key (admitted c u) es)
contains-users c u [] = refl
contains-users c u ((admitted d v, x) ∷ es) = ground (arith, contains-users c u es)
contains-users c u ((reconnect d v, x) ∷ es) = contains-users c u es
contains-users c u ((lock d v, x) ∷ es) = contains-users c u es
contains-users c u ((stock z, x) ∷ es) = contains-users c u es

abbrev zadd : SetKey → ℕ → ℕ → Store → Store
zadd k n m s = record s {
  sets = λ j. if same_set k j then place n m (without m (s.sets j)) else s.sets j;
}

abbrev zrem : SetKey → ℕ → Store → Store
zrem k m s = record s { sets = λ j. if same_set k j then without m (s.sets j) else s.sets j }

-- `stop` -1 is the end; the program passes no other negative number
abbrev zrange : SetKey → ℤ → Store → List ℕ
zrange k (pos n) s = take (suc n) (names (s.sets k))
zrange k (negsuc n) s = names (s.sets k)

abbrev pub keyspace : Redis
keyspace = record {
  Store = Store;
  get = λ k s. get same_key k s.strings;
  exists = λ k s. is_some (get same_key k s.strings);
  ttl = λ k s. ttl same_key k s.strings;
  set = λ k v s. record s { strings = (k, (v, negsuc 0)) ∷ s.strings };
  set_ex = λ k v n s. record s { strings = (k, (v, pos n)) ∷ s.strings };
  del = λ k s. record s { strings = drop same_key k s.strings };
  incrby = λ k n s. record s { strings = count_by same_key (λ b. b +ℤ n) k s.strings };
  decrby = λ k n s. record s { strings = count_by same_key (λ b. b -ℤ n) k s.strings };
  expire = λ k n s. record s { strings = expire same_key k n s.strings };
  members = λ k s. s.sets k;
  zadd = zadd;
  zrem = zrem;
  zrank = λ k m s. index_of m (names (s.sets k));
  zcard = λ k s. length (s.sets k);
  zrange = zrange;
  scan_admitted = λ c s cursor. (0, users c s.strings);
  exists_lem = λ k s. refl;
  get-set = λ j k v s. get-cons same_key same_key_trans same_key_cong j k s.strings (v, negsuc 0);
  get-set_ex = λ j k v n s. get-cons same_key same_key_trans same_key_cong j k s.strings (v, pos n);
  get-del = λ j k s. get-drop same_key same_key_trans same_key_cong j k s.strings;
  get-incrby = λ j k n b s h.
      get-count_by same_key same_key_trans same_key_cong j k s.strings (λ x. x +ℤ n) b h;
  get-decrby = λ j k n b s h.
      get-count_by same_key same_key_trans same_key_cong j k s.strings (λ x. x -ℤ n) b h;
  get-incrby_other = λ j k n s h.
      get-count_by_other same_key same_key_trans same_key_cong j k s.strings (λ x. x +ℤ n) h;
  get-decrby_other = λ j k n s h.
      get-count_by_other same_key same_key_trans same_key_cong j k s.strings (λ x. x -ℤ n) h;
  get-expire = λ j k n s h. get-expire same_key same_key_trans same_key_cong j k s.strings n;
  get-zadd = λ j k n m s. refl;
  get-zrem = λ j k m s. refl;
  ttl_missing = λ k s h. ttl_missing same_key same_key_trans same_key_cong k k s.strings h;
  ttl-set_ex = λ j k v n s. ttl-cons same_key same_key_trans same_key_cong j k s.strings (v, pos n);
  ttl-expire = λ j k n s h. ttl-expire same_key same_key_trans same_key_cong j k s.strings n;
  members-zadd = λ j k n m s. refl;
  members-zrem = λ j k m s. refl;
  members-set_ex = λ j k v n s. refl;
  members-del = λ j k s. refl;
  members-incrby = λ j k n s. refl;
  members-decrby = λ j k n s. refl;
  zrank_lem = λ k m s. refl;
  zcard_lem = λ k s. refl;
  zrange_all = λ k s. refl;
  zrange_upto = λ k n s. refl;
  scan_ends = λ c s. (users c s.strings, last 0 refl, λ u. contains-users c u s.strings);
}
