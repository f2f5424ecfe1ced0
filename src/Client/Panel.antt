-- ===== src/Client/Panel.antt =====
-- client/src/pages/QueuePage.tsx: the numbers of the panel, and that they are those of the line.
use mathlib.Core.List.{Memᴰ}
use ticket_queue_platform.Prelude.{
  ℕ, ◌+◌, ◌-◌, ◌*◌, ◌/◌, ◌≤◌, ◌<◌, ◌≡◌, refl, true, false, none, some, Option, All, length, arith,
}
use ticket_queue_platform.Platform.{Platform, World, Connection, calm, queue_position}
use ticket_queue_platform.Services.Redis.{waiting}
use ticket_queue_platform.Queue.Entry.{refusal}
use ticket_queue_platform.Queue.Line.{IsLine}
use ticket_queue_platform.Queue.Exclusive.{holds_admission, is_waiting}
use ticket_queue_platform.Socket.Handlers.{find_socket, on_enter}
use ticket_queue_platform.Socket.Arrival.{on_enter-tells}
use ticket_queue_platform.Client.QueueHook.{HookState, Phase, on_position}

-- A position of the server is at least 1.
abbrev pub people_ahead : ℕ → ℕ
people_ahead position = position - 1

-- `Math.ceil(peopleAhead / 3)`
unfoldable pub estimated_minutes : ℕ → ℕ
estimated_minutes position = (people_ahead position + 2) / 3

-- what QueuePanel gets, where it is shown
abbrev pub panel_position : Phase → Option ℕ → Option ℕ → Option ℕ
panel_position Phase.in_queue (some position) (some total) = some position
panel_position _ _ _ = none

-- A user enters a line by a socket, where no call fails, no reason to refuse applies, all who wait came
-- before, the line is in order and the server has begun: the broadcast that follows sends the user a
-- position with which the panel shows as many people ahead as the line had, and an estimate in
-- minutes of a third of them, rounded up, with the length of the new line as the total.
pub panel_counts_line :
    {p : Platform} (c u sid : ℕ) (w : World p) (x : Connection) (s : HookState)
    → refusal
        (p.concerts.find c w.concerts)
        (is_waiting p c u w.redis)
        (holds_admission p c u w.redis)
      ≡ none
    → is_waiting p c u w.redis ≡ false
    → All (λ e. e.0 < w.now) (p.redis.members (waiting c) w.redis)
    → IsLine (p.redis.members (waiting c) w.redis)
    → w.io ≡ true
    → find_socket sid w.sockets ≡ some x
    → x.user_id ≡ some u
    → let n = length (p.redis.members (waiting c) w.redis) in
      (position : ℕ) × (total : ℕ) × Memᴰ
        (queue_position u position total)
        (on_enter sid u (some c) (calm w)).1.sent
      × (let t = on_position c position total s in
          (panel_position t.phase t.position t.total ≡ some position)
          × (people_ahead position ≡ n)
          × (total ≡ n + 1)
          × (n ≤ 3 * estimated_minutes position)
          × (3 * estimated_minutes position ≤ n + 2))
unfolding on_position estimated_minutes
panel_counts_line {p} c u sid w x s free out late sorted ready found own = (
  length (p.redis.members (waiting c) w.redis) + 1,
  length (p.redis.members (waiting c) w.redis) + 1,
  on_enter-tells c u sid w x free out late sorted ready found own,
  (refl, omega arith, refl, omega arith, omega arith),
)
