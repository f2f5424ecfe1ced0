-- ===== src/Concert/Sale.antt =====
-- The cron that puts concerts on sale: what it changes, and that nothing else moves a status.
use mathlib.Core.Option
use ticket_queue_platform.Prelude.{
  ℕ, ◌+◌, ◌≡◌, refl, ap, ◌∙◌, true, false, Bool, if◌then◌else◌, none, some, List, [], ◌∷◌, length,
  select, lookup, ok, err, arith, All, ◌<◌,
}
use ticket_queue_platform.Schema.{Concert}
use ticket_queue_platform.Services.Table.{IsKeyed}
use ticket_queue_platform.Platform.{Platform, World, calm}
use ticket_queue_platform.Concert.Repository.{is_due, put_on_sale, concert_repository}
use ticket_queue_platform.Concert.Service.{tick_concert_status}
use ticket_queue_platform.Services.Redis.{waiting}
use ticket_queue_platform.Queue.Entry.{refusal, enter_queue_joins, enter_queue_refused}
use ticket_queue_platform.Queue.Service.{enter_queue}
use ticket_queue_platform.Queue.Exclusive.{is_waiting, holds_admission}
use ticket_queue_platform.Errors.{app_error, text}

-- what the cron makes of a concert at a time
abbrev pub ticked : ℕ → Concert → Concert
ticked t c = if is_due t c then put_on_sale c else c

-- A condition that no entry of a list with distinct keys meets selects nothing.
select_none :
    {V : Type 0} (c : V → Bool) (es : List (ℕ × V))
    → IsKeyed es
    → ((i : ℕ) (x : V) → lookup i es ≡ some x → c x ≡ false)
    → length (select (λ e. c e.1) es) ≡ 0
select_none c [] k h = refl
select_none c ((i, x) ∷ es) k h =
    ground (arith, h i x, select_none c es (k.1) (λ j y e. h j y (ground (arith, e, k.0))))

module _ {p : Platform} (w : World p) where
  abbrev pub after_tick : World p
  after_tick = record w {
    concerts = p.concerts.update_where (is_due w.now) put_on_sale w.concerts;
    faults = [];
  }

  abbrev pub due : ℕ
  due = length (select (λ e. is_due w.now e.1) (p.concerts.rows w.concerts))

  tick-eq : tick_concert_status (calm w) ≡ (ok due, after_tick)
  unfolding tick_concert_status concert_repository
  tick-eq = refl

module _ {p : Platform} (w : World p) where
  -- Where no call fails, the cron puts just those concerts on sale that are scheduled and whose sale
  -- has begun, changes nothing else of any concert, returns how many they are, and finds none when
  -- it runs again at the same time.
  pub tick_concert_status_effect :
      let r = tick_concert_status (calm w) in
      (r.0 ≡ ok (due w))
      × ((i : ℕ)
          → p.concerts.find i r.1.concerts
            ≡ Option.map (ticked w.now) (p.concerts.find i w.concerts))
      × ((tick_concert_status r.1).0 ≡ ok 0)
  tick_concert_status_effect = rw (tick-eq w) (
    refl,
    λ i. p.concerts.find-update_where (is_due w.now) put_on_sale i w.concerts,
    ap (λ r. r.0) (tick-eq (after_tick w)) ∙ ap ok none_due,
  )
    where
      none_due : due (after_tick w) ≡ 0
      none_due =
          select_none (is_due w.now) (p.concerts.rows (after_tick w).concerts)
            (p.concerts.rows-IsKeyed (after_tick w).concerts)
            (λ i x e. ground (
              arith,
              e,
              p.concerts.find-rows i (after_tick w).concerts,
              p.concerts.find-update_where (is_due w.now) put_on_sale i w.concerts,
            ))

  -- Where no call fails, a user who neither waits nor is admitted, and comes later than all who wait, is
  -- refused the line of a concert that is due and not yet on sale, and joins it once the cron has run.
  pub tick_opens_line :
      (c u : ℕ) (x : Concert)
      → p.concerts.find c w.concerts ≡ some x
      → is_due w.now x ≡ true
      → is_waiting p c u w.redis ≡ false
      → holds_admission p c u w.redis ≡ false
      → All (λ e. e.0 < w.now) (p.redis.members (waiting c) w.redis)
      → let n = length (p.redis.members (waiting c) w.redis) in
        (enter_queue c u (calm w) ≡ (err (app_error 400 (text "현재 판매 중인 공연이 아닙니다")), calm w))
        × ((enter_queue c u (tick_concert_status (calm w)).1).0
            ≡ ok (record { position = n + 1; total = n + 1 }))
  tick_opens_line c u x found now_due out free late = (
    enter_queue_refused c u w (app_error 400 (text "현재 판매 중인 공연이 아닙니다")) (ground (arith, found)),
    rw (tick-eq w) (enter_queue_joins c u (after_tick w) admissible out late).0,
  )
    where
      admissible :
          refusal
            (p.concerts.find c (after_tick w).concerts)
            (is_waiting p c u w.redis)
            (holds_admission p c u w.redis)
          ≡ none
      admissible =
          ground
            (arith, found, p.concerts.find-update_where (is_due w.now) put_on_sale c w.concerts)
