-- ===== src/Client/Requests.antt =====
-- What becomes of the requests of the client, over any sequence of replies.
use ticket_queue_platform.Prelude.{
  ℕ, zero, suc, ◌+◌, Bool, true, false, not, ◌||◌, ◌==◌, if◌then◌else◌, ◌≡◌, refl, Option, none,
  some, List, [], ◌∷◌, ◌++◌, length, arith,
}
use ticket_queue_platform.Client.Api.{
  Request, ApiState, Event, attach, client, settle, resend, resend_all, start_refresh,
  refresh_failed, refreshed, on_error, is_unauthorized, pick, with_picked, step, run, issues,
  succeeds, fails, refreshes, refresh_fails, stores, navigates, navigated,
}

-- how often an id stands in a list
abbrev pub tally {ℓ} : {A : Type ℓ} → (A → ℕ) → ℕ → List A → ℕ
tally f i [] = 0
tally f i (x ∷ xs) = (if f x == i then 1 else 0) + tally f i xs

module _ {ℓ} {A : Type ℓ} (f : A → ℕ) (i : ℕ) where
  tally-append : (xs ys : List A) → tally f i (xs ++ ys) ≡ tally f i xs + tally f i ys
  tally-append [] ys = omega arith
  tally-append (x ∷ xs) ys = ground (arith, tally-append xs ys)

  -- what was picked is counted once more in the whole list than in the rest
  abbrev Splits : List A → Option (A × List A) → Type 0
  Splits xs none = Unit
  Splits xs (some (x, rest)) =
      (tally f i xs ≡ (if f x == i then 1 else 0) + tally f i rest)
      × (length xs ≡ suc (length rest))

  later-Splits :
      (x : A) (xs : List A) (o : Option (A × List A))
      → Splits xs o
      → Splits (x ∷ xs) (elim o [ none ↦ none | some (y, ys) ↦ some (y, x ∷ ys) ])
  later-Splits x xs none h = tt
  later-Splits x xs (some (y, ys)) h = (ground (arith, h.0), ground (arith, h.1))

  pick-Splits : (n : ℕ) (xs : List A) → Splits xs (pick n xs)
  pick-Splits n [] = tt
  pick-Splits zero (x ∷ xs) = (refl, refl)
  pick-Splits (suc n) (x ∷ xs) = later-Splits x xs (pick n xs) (pick-Splits n xs)

-- the places where a request of an id can be
abbrev pub places : ℕ → ApiState → ℕ
places i s =
    tally (λ r. r.id) i s.in_flight
    + (tally (λ r. r.id) i s.wait_queue
        + (tally (λ p. p.1.id) i s.posts + tally (λ e. e.0) i s.settled))

-- Every request is in one place, and a refresh is under way just when the flag says so.
pub record Sound (s : ApiState) : Type 0 where
  pub accounted : (i : ℕ) → places i s ≡ tally (λ j. j) i s.issued
  pub single : length s.posts ≡ (if s.is_refreshing then 1 else 0)

attach_id : (t : Option ℕ) (r : Request) → (attach t r).id ≡ r.id
attach_id none r = refl
attach_id (some t) r = refl

client-places :
    (i : ℕ) (r : Request) (s : ApiState)
    → places i (client r s) ≡ (if r.id == i then 1 else 0) + places i s
client-places i r s = ground (
  arith,
  tally-append (λ x. x.id) i s.in_flight (attach s.access_token r ∷ []),
  attach_id s.access_token r,
)

resend_all-places :
    (i t : ℕ) (rs : List Request) (s : ApiState)
    → places i (resend_all t rs s) ≡ tally (λ r. r.id) i rs + places i s
resend_all-places i t [] s = omega arith
resend_all-places i t (r ∷ rs) s = ground (
  arith,
  resend_all-places i t rs (resend t r s),
  client-places i (record r { authorization = some t }) s,
)

-- what resending leaves alone
resend_all_rest :
    (t : ℕ) (rs : List Request) (s : ApiState)
    → let v = resend_all t rs s in
      (v.posts ≡ s.posts)
      × (v.wait_queue ≡ s.wait_queue)
      × (v.issued ≡ s.issued)
      × (v.is_refreshing ≡ s.is_refreshing)
      × (v.settled ≡ s.settled)
resend_all_rest t [] s = (refl, refl, refl, refl, refl)
resend_all_rest t (r ∷ rs) s = resend_all_rest t rs (resend t r s)

-- Takes a request in: it is in one place more, and a refresh is under way just when the flag says so.
record Takes (r : Request) (s v : ApiState) : Type 0 where
  placed : (i : ℕ) → places i v ≡ (if r.id == i then 1 else 0) + places i s
  issued_same : v.issued ≡ s.issued
  flagged : length v.posts ≡ (if v.is_refreshing then 1 else 0)

settle-Takes :
    (b : Bool) (r : Request) (s : ApiState)
    → length s.posts ≡ (if s.is_refreshing then 1 else 0)
    → Takes r s (settle b r s)
settle-Takes b r s h = record { placed = λ i. omega arith; issued_same = refl; flagged = h }

refresh_failed-Takes :
    (r : Request) (s : ApiState) → length s.posts ≡ 0 → Takes r s (refresh_failed r s)
unfolding refresh_failed
refresh_failed-Takes r s h = record { placed = λ i. omega arith; issued_same = refl; flagged = h }

start_refresh-Takes :
    (r : Request) (t : Option ℕ) (s : ApiState)
    → length s.posts ≡ 0
    → s.is_refreshing ≡ true
    → Takes r s (start_refresh r t s)
start_refresh-Takes r none s h k = refresh_failed-Takes r s h
start_refresh-Takes r (some t) s h k = record {
  placed = λ i. omega arith;
  issued_same = refl;
  flagged = ground (arith, h, k);
}

refreshed-Takes :
    (a t : ℕ) (r : Request) (s : ApiState) → length s.posts ≡ 0 → Takes r s (refreshed a t r s)
unfolding refreshed
refreshed-Takes a t r s h = record {
  placed = λ i. ground (
    arith,
    resend_all-places i a s.wait_queue stored,
    resend_all_rest a s.wait_queue stored,
    client-places i (record r { authorization = some a }) woken,
  );
  issued_same = (resend_all_rest a s.wait_queue stored).2;
  flagged = ground (arith, h, resend_all_rest a s.wait_queue stored);
}
  where
    stored : ApiState
    stored = record s { access_token = some a; refresh_token = some t }

    woken : ApiState
    woken = record (resend_all a s.wait_queue stored) { wait_queue = [] }

waits-Takes :
    (r : Request) (s : ApiState)
    → length s.posts ≡ (if s.is_refreshing then 1 else 0)
    → Takes r s (record s { wait_queue = s.wait_queue ++ (record r { retry = true }) ∷ [] })
waits-Takes r s h = record {
  placed = λ i.
      ground (arith, tally-append (λ x. x.id) i s.wait_queue ((record r { retry = true }) ∷ []));
  issued_same = refl;
  flagged = h;
}

-- A request that is started for another state is taken into this one, if only the flag differs.
starts-Takes :
    (r : Request) (s : ApiState)
    → length s.posts ≡ 0
    → Takes r s (
        start_refresh
          (record r { retry = true })
          s.refresh_token
          (record s { is_refreshing = true }))
starts-Takes r s h =
    let t =
      start_refresh-Takes (record r { retry = true }) s.refresh_token
        (record s { is_refreshing = true }) h refl in
    record { placed = t.placed; issued_same = t.issued_same; flagged = t.flagged }

on_error-Takes :
    (status : Option ℕ) (r : Request) (s : ApiState)
    → length s.posts ≡ (if s.is_refreshing then 1 else 0)
    → Takes r s (on_error status r s)
unfolding on_error
on_error-Takes status r s h = branch (not (is_unauthorized status) || r.retry) s.is_refreshing refl
  where
    branch :
        (stops busy : Bool)
        → s.is_refreshing ≡ busy
        → Takes r s (
            if stops
            then settle false r s
            else if busy
            then record s { wait_queue = s.wait_queue ++ (record r { retry = true }) ∷ [] }
            else start_refresh
                (record r { retry = true })
                s.refresh_token
                (record s { is_refreshing = true }))
    branch true busy e = settle-Takes false r s h
    branch false true e = waits-Takes r s h
    branch false false e = starts-Takes r s (ground (arith, h, e))

-- What the rest of a pick leaves, with the picked request taken in again, is sound.
retaken_flight :
    (n : ℕ) (s : ApiState) (f : Request → ApiState → ApiState)
    → ((r : Request) (v : ApiState)
        → length v.posts ≡ (if v.is_refreshing then 1 else 0)
        → Takes r v (f r v))
    → Sound s
    → Sound (with_picked (pick n s.in_flight) (λ r rest. f r (record s { in_flight = rest })) s)
retaken_flight n s f takes sound =
    go (pick n s.in_flight) (λ i. pick-Splits (λ r. r.id) i n s.in_flight)
  where
    go :
        (o : Option (Request × List Request))
        → ((i : ℕ) → Splits (λ r. r.id) i s.in_flight o)
        → Sound (with_picked o (λ r rest. f r (record s { in_flight = rest })) s)
    go none h = sound
    go (some (r, rest)) h =
        let t = takes r (record s { in_flight = rest }) sound.single in
        record {
          accounted = λ i. ground (arith, t.placed i, t.issued_same, h i, sound.accounted i);
          single = t.flagged;
        }

retaken_post :
    (n : ℕ) (s : ApiState) (f : Request → ApiState → ApiState)
    → ((r : Request) (v : ApiState) → length v.posts ≡ 0 → Takes r v (f r v))
    → Sound s
    → Sound (with_picked (pick n s.posts) (λ post rest. f post.1 (record s { posts = rest })) s)
retaken_post n s f takes sound = go (pick n s.posts) (λ i. pick-Splits (λ p. p.1.id) i n s.posts)
  where
    go :
        (o : Option ((ℕ × Request) × List (ℕ × Request)))
        → ((i : ℕ) → Splits (λ p. p.1.id) i s.posts o)
        → Sound (with_picked o (λ post rest. f post.1 (record s { posts = rest })) s)
    go none h = sound
    go (some (post, rest)) h =
        let t = takes post.1 (record s { posts = rest }) (ground (arith, (h 0).1, sound.single)) in
        record {
          accounted = λ i. ground (arith, t.placed i, t.issued_same, h i, sound.accounted i);
          single = t.flagged;
        }

step-Sound : (e : Event) (s : ApiState) → Sound s → Sound (step e s)
unfolding step navigated
step-Sound (issues id) s h = record {
  accounted = λ i. ground (
    arith,
    client-places i (record { id = id; authorization = none; retry = false })
        (record s { issued = id ∷ s.issued }),
    h.accounted i,
  );
  single = h.single;
}
step-Sound (succeeds n) s h = retaken_flight n s (settle true) (settle-Takes true) h
step-Sound (fails n status) s h = retaken_flight n s (on_error status) (on_error-Takes status) h
step-Sound (refreshes n a t) s h = retaken_post n s (refreshed a t) (refreshed-Takes a t) h
step-Sound (refresh_fails n) s h = retaken_post n s refresh_failed refresh_failed-Takes h
step-Sound navigates s h = record { accounted = λ i. refl; single = refl }
step-Sound (stores a t) s h = record { accounted = h.accounted; single = h.single }

-- Through any sequence of requests, replies, changes of the stored tokens and loads of the page, every
-- request that was made since the page was loaded is in just one place, under way, waiting for a token, held by the handler of a refresh, or
-- settled, and a post for new tokens is under way, never two, just when isRefreshing is set, provided
-- that this holds at first.
pub run-Sound : (es : List Event) (s : ApiState) → Sound s → Sound (run es s)
run-Sound [] s h = h
run-Sound (e ∷ es) s h = run-Sound es (step e s) (step-Sound e s h)
