-- ===== src/Client/Waiting.antt =====
-- The requests that wait for a token: when the refresh succeeds, and when it fails.
use ticket_queue_platform.Prelude.{
  ℕ, Bool, true, false, ◌≡◌, refl, ap, some, none, List, [], ◌∷◌, ◌++◌, map, arith,
}
use ticket_queue_platform.Client.Api.{
  Request, ApiState, Event, resend, resend_all, refreshed, refresh_failed, pick, step, issues,
  succeeds, fails, refreshes, refresh_fails, stores, navigates,
}

-- a request with the new token
abbrev pub renewed : ℕ → Request → Request
renewed token r = record r { authorization = some token }

append_assoc : {A : Type 0} (xs ys zs : List A) → (xs ++ ys) ++ zs ≡ xs ++ (ys ++ zs)
append_assoc [] ys zs = refl
append_assoc (x ∷ xs) ys zs = ap (λ l. x ∷ l) (append_assoc xs ys zs)

append_nil : {A : Type 0} (xs : List A) → xs ++ [] ≡ xs
append_nil [] = refl
append_nil (x ∷ xs) = ap (λ l. x ∷ l) (append_nil xs)

resend_all-eq :
    (t : ℕ) (rs : List Request) (s : ApiState)
    → s.access_token ≡ some t
    → resend_all t rs s ≡ record s { in_flight = s.in_flight ++ map (renewed t) rs }
resend_all-eq t [] s h = rw (append_nil s.in_flight) refl
resend_all-eq t (r ∷ rs) s h = ground (
  arith,
  h,
  resend_all-eq t rs (resend t r s) h,
  append_assoc s.in_flight (renewed t r ∷ []) (map (renewed t) rs),
)

-- When new tokens arrive, they are stored, the requests that waited are sent again with the new access
-- token in the order in which they came, after them the request that held the refresh, nothing waits
-- any more, and no caller is told anything yet.
pub refreshes_resend :
    (n a t : ℕ) (s : ApiState) (post : ℕ × Request) (rest : List (ℕ × Request))
    → pick n s.posts ≡ some (post, rest)
    → step (refreshes n a t) s ≡ record s {
      access_token = some a;
      refresh_token = some t;
      posts = rest;
      in_flight = s.in_flight ++ (map (renewed a) s.wait_queue ++ renewed a post.1 ∷ []);
      wait_queue = [];
      is_refreshing = false;
    }
unfolding step refreshed
refreshes_resend n a t s post rest h = ground (
  arith,
  h,
  resend_all-eq a s.wait_queue
      (record s { access_token = some a; refresh_token = some t; posts = rest }) refl,
  append_assoc s.in_flight (map (renewed a) s.wait_queue) (renewed a post.1 ∷ []),
)

-- what the server answers
abbrev pub is_reply : Event → Bool
is_reply (succeeds n) = true
is_reply (fails n status) = true
is_reply (refreshes n a t) = true
is_reply (refresh_fails n) = true
is_reply _ = false

no_reply_left :
    (s : ApiState)
    → s.posts ≡ []
    → s.in_flight ≡ []
    → (e : Event) → is_reply e ≡ true
    → step e s ≡ s
unfolding step
no_reply_left s h k (succeeds n) r = ground (arith, k)
no_reply_left s h k (fails n status) r = ground (arith, k)
no_reply_left s h k (refreshes n a t) r = ground (arith, h)
no_reply_left s h k (refresh_fails n) r = ground (arith, h)
no_reply_left s h k (issues id) r = ground (arith, r)
no_reply_left s h k navigates r = ground (arith, r)
no_reply_left s h k (stores a t) r = ground (arith, r)

-- If the refresh fails when nothing else is under way, the tokens are removed, the request that held
-- the refresh is rejected, and those that wait for it go on waiting: there is no reply left that could
-- settle them.
pub refresh_failure_strands :
    (n : ℕ) (s : ApiState) (post : ℕ × Request)
    → pick n s.posts ≡ some (post, [])
    → s.in_flight ≡ []
    → let v = step (refresh_fails n) s in
      (v.access_token ≡ none)
      × (v.refresh_token ≡ none)
      × (v.settled ≡ (post.1.id, false) ∷ s.settled)
      × (v.wait_queue ≡ s.wait_queue)
      × ((e : Event) → is_reply e ≡ true → step e v ≡ v)
unfolding step refresh_failed
refresh_failure_strands n s post h k =
    rw h (
      refl,
      refl,
      refl,
      refl,
      no_reply_left (refresh_failed post.1 (record s { posts = [] })) refl k,
    )
