-- ===== src/Queue/Booth.antt =====
-- What the queue of one concert promises, without its keys and scores: a line in the order of
-- arrival, at most one user who is admitted, and the users who have thirty seconds to come back.
use ticket_queue_platform.Prelude.{
  ℕ, Bool, true, false, not, ◌&&◌, ◌==◌, if◌then◌else◌, Option, none, some, List, [], ◌∷◌, ◌++◌,
  contains, select,
}
use ticket_queue_platform.Services.Redis.{Key, admitted, reconnect, lock, stock}
use ticket_queue_platform.Queue.Reachable.{
  Call, enters, leaves, drops_out, comes_back, grace_ends, admits,
}

pub record Booth : Type 0 where
  pub line : List ℕ
  pub inside : Option ℕ
  pub away : ℕ → Bool

abbrev pub is_of : Option ℕ → ℕ → Bool
is_of none u = false
is_of (some v) u = v == u

abbrev pub set_away : ℕ → Bool → Booth → Booth
set_away u b booth = record booth { away = λ v. if u == v then b else booth.away v }

abbrev pub remove : ℕ → Booth → Booth
remove u booth = record booth { line = select (λ v. not (v == u)) booth.line }

-- The head goes in where nobody is inside.
abbrev pub serve : Option ℕ → List ℕ → Booth → Booth
serve (some v) us booth = booth
serve none [] booth = booth
serve none (u ∷ us) booth = record booth { line = us; inside = some u }

-- What a call does at the booth of a concert, by whether the concert is on sale.
unfoldable pub handle : ℕ → Bool → Call → Booth → Booth
handle c on_sale (enters d u) booth =
    if (d == c) && on_sale && not (contains u booth.line) && not (is_of booth.inside u)
    then record booth { line = booth.line ++ u ∷ [] }
    else booth
handle c on_sale (leaves d u) booth = if d == c then remove u booth else booth
handle c on_sale (drops_out d u) booth =
    if (d == c) && contains u booth.line then set_away u true booth else booth
handle c on_sale (comes_back d u) booth = if d == c then set_away u false booth else booth
handle c on_sale (grace_ends d u) booth =
    if (d == c) && not (booth.away u) then remove u booth else booth
handle c on_sale (admits d) booth = if d == c then serve booth.inside booth.line booth else booth

abbrev pub without_admission : ℕ → Booth → Booth
without_admission u booth = record booth {
  inside = if is_of booth.inside u then none else booth.inside;
}

-- What it means that a key has expired.
abbrev pub forget : ℕ → Key → Booth → Booth
forget c (admitted d u) booth = if d == c then without_admission u booth else booth
forget c (reconnect d u) booth = if d == c then set_away u false booth else booth
forget c (lock z u) booth = booth
forget c (stock z) booth = booth
