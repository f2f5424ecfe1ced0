-- ===== src/Client/Navbar.antt =====
-- client/src/components/Navbar.tsx and client/src/context/ThemeContext.tsx: the active item of the
-- navigation bar, logging out, and the theme.
use Prim.Native.String.{String}
use package.text.Mathlib.Text.{◌==◌ as str_eq, starts_with}
use ticket_queue_platform.Prelude.{
  ℕ, Bool, true, false, not, ◌&&◌, ◌||◌, if◌then◌else◌, Option, none, some, List, ◌∷◌,
}
use ticket_queue_platform.Client.Access.{Address, at_login}

-- `isActive` of the navigation bar
unfoldable pub is_active : String → String → Bool
is_active label pathname =
    if str_eq label "공연"
    then str_eq pathname "/"
      || starts_with pathname "/concerts"
      || starts_with pathname "/queue"
      || (starts_with pathname "/reservation" && not (starts_with pathname "/reservations"))
    else if str_eq label "마이페이지"
    then starts_with pathname "/reservations"
    else if str_eq label "고객센터"
    then starts_with pathname "/support" || starts_with pathname "/admin/support"
    else false

-- what localStorage has, and where the browser is
pub record Browser : Type 0 where
  pub access_token : Option ℕ
  pub refresh_token : Option ℕ
  pub theme : Option String
  pub address : Address
  -- the tokens that were posted to log out, the latest first
  pub logouts : List (Option ℕ)

-- The post may fail: what follows it is the same.
unfoldable pub handle_logout : Browser → Browser
handle_logout b = record b {
  logouts = b.refresh_token ∷ b.logouts;
  access_token = none;
  refresh_token = none;
  theme = none;
  address = at_login;
}

-- the first value of `dark`
unfoldable pub saved_dark : Option String → Bool
saved_dark none = true
saved_dark (some saved) = str_eq saved "dark"

-- the effect that stores the theme
unfoldable pub store_theme : Bool → Browser → Browser
store_theme dark b = record b { theme = some (if dark then "dark" else "light") }
