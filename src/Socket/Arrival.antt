-- ===== src/Socket/Arrival.antt =====
-- A user enters a line by a socket: what the broadcast that follows tells the user.
use mathlib.Core.List.{Memᴰ}
use ticket_queue_platform.Prelude.{
  ℕ, ◌+◌, ◌<◌, ◌≡◌, ap, ◌∙◌, Bool, true, false, ◌||◌, ◌==◌, Bool-cases, inl, inr, Option, none,
  some, List, [], ◌∷◌, ◌++◌, All, length, length-append, index_of, arith,
}
use ticket_queue_platform.Platform.{
  Platform, World, Connection, Emission, calm, in_room, queue_position,
}
use ticket_queue_platform.Services.Redis.{waiting, names}
use ticket_queue_platform.Queue.Repository.{queue_repository}
use ticket_queue_platform.Queue.Service.{get_position_result}
use ticket_queue_platform.Queue.Entry.{refusal, joined, enter_queue-joined}
use ticket_queue_platform.Queue.Line.{
  IsLine, is_some-index_of, place-IsLine, without-IsLine, contains-without_self, index_of_last,
}
use ticket_queue_platform.Queue.Exclusive.{holds_admission, is_waiting}
use ticket_queue_platform.Socket.Handlers.{find_socket, at_socket, seated, on_enter}
use ticket_queue_platform.Socket.Positions.{told, announced, broadcasts_agree}

-- whether a socket of the user is among those of a room
abbrev pub hears : ℕ → List (Option ℕ) → Bool
hears u [] = false
hears u (none ∷ rest) = hears u rest
hears u (some v ∷ rest) = (v == u) || hears u rest

hears-seated :
    (c sid u : ℕ) (sockets : List Connection) (x : Connection)
    → find_socket sid sockets ≡ some x
    → x.user_id ≡ some u
    → hears u (in_room c (at_socket sid (seated c) sockets)) ≡ true
hears-seated c sid u [] x found own = ground (arith, found)
hears-seated c sid u (s ∷ rest) x found own =
    ground (arith, found, own, hears-seated c sid u rest x)

-- the message with a place in a line of a length, if there is one
abbrev placed : ℕ → Option ℕ → ℕ → List Emission → List Emission
placed u none n ms = ms
placed u (some i) n ms = queue_position u (i + 1) n ∷ ms

placed-keeps :
    (m : Emission) (u : ℕ) (o : Option ℕ) (n : ℕ) (ms : List Emission)
    → Memᴰ m ms
    → Memᴰ m (placed u o n ms)
placed-keeps m u none n ms h = h
placed-keeps m u (some i) n ms h = Memᴰ.tail h

module _ {p : Platform} (c : ℕ) (w : World p) where
  abbrev line : List (ℕ × ℕ)
  line = p.redis.members (waiting c) w.redis

  told-eq :
      (u : ℕ) (ms : List Emission)
      → told c w u ms ≡ placed u (index_of u (names line)) (length line) ms
  unfolding get_position_result queue_repository
  told-eq u ms = ground (
    arith,
    is_some-index_of u (names line),
    p.redis.zrank_lem (waiting c) u w.redis,
    p.redis.zcard_lem (waiting c) w.redis,
  )

  told-keeps : (m : Emission) (u : ℕ) (ms : List Emission) → Memᴰ m ms → Memᴰ m (told c w u ms)
  told-keeps m u ms h = rw (told-eq u ms) (placed-keeps m u _ _ ms h)

  announced-keeps :
      (m : Emission) (sockets : List (Option ℕ)) (ms : List Emission)
      → Memᴰ m ms
      → Memᴰ m (announced c w sockets ms)
  announced-keeps m [] ms h = h
  announced-keeps m (none ∷ rest) ms h = announced-keeps m rest ms h
  announced-keeps m (some v ∷ rest) ms h =
      announced-keeps m rest (told c w v ms) (told-keeps m v ms h)

  module _ (u i : ℕ) (stands : index_of u (names line) ≡ some i) where
    told_own :
        (v : ℕ) (ms : List Emission)
        → v ≡ u
        → Memᴰ (queue_position u (i + 1) (length line)) (told c w v ms)
    told_own v ms e = rw (told-eq v ms, ap (λ y. index_of y (names line)) e ∙ stands) (Memᴰ.head cc)

    -- A broadcast tells who stands in the line, and has a socket in the room, the own place.
    announced-tells :
        (sockets : List (Option ℕ)) (ms : List Emission)
        → hears u sockets ≡ true
        → Memᴰ (queue_position u (i + 1) (length line)) (announced c w sockets ms)
    announced-tells [] ms h = cc
    announced-tells (none ∷ rest) ms h = announced-tells rest ms h
    announced-tells (some v ∷ rest) ms h = elim (Bool-cases (v == u)) [
      | inl same ↦ announced-keeps _ rest (told c w v ms) (told_own v ms (ground (arith, same)))
      | inr other ↦ announced-tells rest (told c w v ms) (ground (arith, h, other))
    ]

module _ {p : Platform} (c u sid : ℕ) (w : World p) (x : Connection)
    (free : refusal
        (p.concerts.find c w.concerts)
        (is_waiting p c u w.redis)
        (holds_admission p c u w.redis)
      ≡ none)
    (out : is_waiting p c u w.redis ≡ false)
    (late : All (λ e. e.0 < w.now) (p.redis.members (waiting c) w.redis))
    (sorted : IsLine (p.redis.members (waiting c) w.redis)) (ready : w.io ≡ true)
    (found : find_socket sid w.sockets ≡ some x) (own : x.user_id ≡ some u) where
  abbrev sitting : World p
  sitting = record (joined c u w) { sockets = at_socket sid (seated c) w.sockets }

  joined-IsLine : IsLine (p.redis.members (waiting c) sitting.redis)
  joined-IsLine = rw (p.redis.members-zadd (waiting c) (waiting c) w.now u w.redis) (
      ground
        (arith, place-IsLine w.now u _ (contains-without_self u _) (without-IsLine u _ sorted)))

  on_enter-eq :
      (on_enter sid u (some c) (calm w)).1.sent
      ≡ announced c sitting (in_room c sitting.sockets) w.sent
  unfolding on_enter
  on_enter-eq = ground (
    arith,
    (enter_queue-joined c u w free out late).1,
    (broadcasts_agree c sitting joined-IsLine ready).0,
  )

  -- The socket of a user who enters a line, later than all who wait, is told the last place.
  pub on_enter-tells :
      let n = length (p.redis.members (waiting c) w.redis) in
      Memᴰ (queue_position u (n + 1) (n + 1)) (on_enter sid u (some c) (calm w)).1.sent
  on_enter-tells = rw on_enter-eq (rw total at tells)
    where
      after :
          p.redis.members (waiting c) sitting.redis
          ≡ p.redis.members (waiting c) w.redis ++ (w.now, u) ∷ []
      after = (enter_queue-joined c u w free out late).0

      last :
          index_of u (names (p.redis.members (waiting c) sitting.redis))
          ≡ some (length (p.redis.members (waiting c) w.redis))
      last = ap (λ es. index_of u (names es)) after ∙ index_of_last w.now u _ out

      total :
          length (p.redis.members (waiting c) sitting.redis)
          ≡ length (p.redis.members (waiting c) w.redis) + 1
      total =
          ap length after ∙ length-append (p.redis.members (waiting c) w.redis) ((w.now, u) ∷ [])

      tells :
          Memᴰ
            (queue_position u
              (length (p.redis.members (waiting c) w.redis) + 1)
              (length (p.redis.members (waiting c) sitting.redis)))
            (announced c sitting (in_room c sitting.sockets) w.sent)
      tells =
          announced-tells c sitting u (length (p.redis.members (waiting c) w.redis)) last
            (in_room c sitting.sockets) w.sent (hears-seated c sid u w.sockets x found own)
