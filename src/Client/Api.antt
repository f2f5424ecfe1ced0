-- ===== src/Client/Api.antt =====
-- client/src/api/client.ts: requests, and the refresh of the access token after a 401. The state is
-- what the module and localStorage keep, with what is on its way to the server.
use ticket_queue_platform.Prelude.{
  ℕ, zero, suc, Bool, true, false, not, ◌||◌, ◌==◌, if◌then◌else◌, Option, none, some, List, [],
  ◌∷◌, ◌++◌,
}

-- `RetryableConfig`, with an id for the promise that the caller holds
pub record Request : Type 0 where
  pub id : ℕ
  pub authorization : Option ℕ
  pub retry : Bool

pub record ApiState : Type 0 where
  -- localStorage
  pub access_token : Option ℕ
  pub refresh_token : Option ℕ
  pub is_refreshing : Bool
  -- the request that each callback closes over
  pub wait_queue : List Request
  -- the posts to /api/auth/refresh that have no reply yet: the token, and the request that waits in
  -- the handler
  pub posts : List (ℕ × Request)
  pub in_flight : List Request
  -- the promises of callers that are settled, and whether they were resolved
  pub settled : List (ℕ × Bool)
  -- the ids of the requests that callers made
  pub issued : List ℕ
  -- whether `window.location.href` was set to '/login'
  pub at_login : Bool

-- the request interceptor
abbrev pub attach : Option ℕ → Request → Request
attach none config = config
attach (some token) config = record config { authorization = some token }

-- `client(config)`
abbrev pub client : Request → ApiState → ApiState
client config s = record s { in_flight = s.in_flight ++ attach s.access_token config ∷ [] }

abbrev pub settle : Bool → Request → ApiState → ApiState
settle resolved config s = record s { settled = (config.id, resolved) ∷ s.settled }

-- `error.response?.status !== 401`
abbrev pub is_unauthorized : Option ℕ → Bool
is_unauthorized none = false
is_unauthorized (some status) = status == 401

-- the catch block and the finally block
unfoldable pub refresh_failed : Request → ApiState → ApiState
refresh_failed original s = record (settle false original s) {
  access_token = none;
  refresh_token = none;
  at_login = true;
  is_refreshing = false;
}

-- `original.headers.Authorization = ...; client(original)`
abbrev pub resend : ℕ → Request → ApiState → ApiState
resend token original = client (record original { authorization = some token })

-- `waitQueue.forEach((cb) => cb(accessToken))`
abbrev pub resend_all : ℕ → List Request → ApiState → ApiState
resend_all token [] s = s
resend_all token (r ∷ rest) s = resend_all token rest (resend token r s)

-- from the reply to the post on
unfoldable pub refreshed : ℕ → ℕ → Request → ApiState → ApiState
refreshed access new_refresh original s =
    let stored = record s { access_token = some access; refresh_token = some new_refresh } in
    let woken = record (resend_all access stored.wait_queue stored) { wait_queue = [] } in
    record (resend access original woken) { is_refreshing = false }

-- from `isRefreshing = true` to the post
abbrev pub start_refresh : Request → Option ℕ → ApiState → ApiState
start_refresh original none s = refresh_failed original s
start_refresh original (some token) s = record s { posts = (token, original) ∷ s.posts }

-- the response interceptor for errors
unfoldable pub on_error : Option ℕ → Request → ApiState → ApiState
on_error status original s =
    if not (is_unauthorized status) || original.retry
    then settle false original s
    else if s.is_refreshing
    then record s { wait_queue = s.wait_queue ++ (record original { retry = true }) ∷ [] }
    else start_refresh (record original { retry = true }) s.refresh_token
        (record s { is_refreshing = true })

-- The browser loads a page, as `window.location` asks for and a user can at any time: what the module
-- kept is gone with the promises of the old page, localStorage stays. Until then the code runs on.
unfoldable pub navigated : ApiState → ApiState
navigated s = record s {
  is_refreshing = false;
  wait_queue = [];
  posts = [];
  in_flight = [];
  settled = [];
  issued = [];
  at_login = false;
}

-- A caller makes a request; the reply to the n-th request under way, or to the n-th post; a page
-- stores tokens or removes them; the browser loads a page.
pub data Event : Type 0 where
  issues : ℕ → Event
  succeeds : ℕ → Event
  fails : ℕ → Option ℕ → Event
  refreshes : ℕ → ℕ → ℕ → Event
  refresh_fails : ℕ → Event
  stores : Option ℕ → Option ℕ → Event
  navigates : Event

-- the n-th entry, and the others
abbrev pub pick {ℓ} : {A : Type ℓ} → ℕ → List A → Option (A × List A)
pick n [] = none
pick zero (x ∷ xs) = some (x, xs)
pick (suc n) (x ∷ xs) = elim (pick n xs) [ none ↦ none | some (y, ys) ↦ some (y, x ∷ ys) ]

abbrev pub with_picked {ℓ} :
    {A : Type ℓ} → Option (A × List A) → (A → List A → ApiState) → ApiState → ApiState
with_picked none f s = s
with_picked (some (x, rest)) f s = f x rest

-- An event that finds nothing to reply to changes nothing.
unfoldable pub step : Event → ApiState → ApiState
step (issues id) s =
    client (record { id = id; authorization = none; retry = false })
      (record s { issued = id ∷ s.issued })
step (succeeds n) s =
    with_picked (pick n s.in_flight) (λ r rest. settle true r (record s { in_flight = rest })) s
step (fails n status) s =
    with_picked (pick n s.in_flight) (λ r rest. on_error status r (record s { in_flight = rest })) s
step (refreshes n access new_refresh) s =
    with_picked (pick n s.posts)
      (λ post rest. refreshed access new_refresh post.1 (record s { posts = rest })) s
step (refresh_fails n) s =
    with_picked (pick n s.posts) (λ post rest. refresh_failed post.1 (record s { posts = rest })) s
step navigates s = navigated s
step (stores access new_refresh) s = record s { access_token = access; refresh_token = new_refresh }

abbrev pub run : List Event → ApiState → ApiState
run [] s = s
run (e ∷ es) s = run es (step e s)
