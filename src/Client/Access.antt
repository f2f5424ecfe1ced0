-- ===== src/Client/Access.antt =====
-- client/src/App.tsx, client/src/components/ProtectedRoute.tsx, AdminRoute.tsx, and
-- getToken and getRole of client/src/api/client.ts: which page an address shows. What `atob` and
-- JSON.parse read in a token is a parameter: none where they throw, and else its role, if it is one
-- of the two.
pub mod Pages
use Prim.Native.String.{String}
use package.text.Mathlib.Text.{◌==◌ as str_eq, starts_with}
use ticket_queue_platform.Prelude.{
  ℕ, zero, suc, Bool, true, false, not, ◌&&◌, ◌||◌, if◌then◌else◌, Option, none, some,
}
use ticket_queue_platform.Schema.{Role}

-- the paths of the routes, by the route that matches
pub data Address : Type 0 where
  at_login at_home at_concert at_queue at_reservation at_reservations at_admin at_support : Address
  at_admin_support at_other : Address

pub data Page : Type 0 where
  login_page concerts_page concert_detail_page queue_page reservation_page reservations_page : Page
  admin_page support_page admin_support_page : Page

-- what a route renders: a page, or `Navigate`
pub data Element : Type 0 where
  page : Page → Element
  navigate : Address → Element

module _ {Token : Type 0} (decode : Token → Option (Option Role)) where
  abbrev role_of : Option (Option Role) → Option Role
  role_of none = none
  role_of (some role) = role

  -- by the access token of localStorage
  unfoldable pub get_role : Option Token → Option Role
  get_role none = none
  get_role (some token) = role_of (decode token)

  abbrev pub is_admin_role : Option Role → Bool
  is_admin_role (some Role.admin) = true
  is_admin_role (some Role.user) = false
  is_admin_role none = false

  abbrev pub protected_route : Option Token → Page → Element
  protected_route none children = navigate at_login
  protected_route (some token) children = page children

  abbrev pub admin_route : Option Token → Page → Element
  admin_route none children = navigate at_login
  admin_route (some token) children =
      if is_admin_role (get_role (some token)) then page children else navigate at_home

  -- the first line of LoginPage
  abbrev pub login_route : Option Token → Element
  login_route none = page login_page
  login_route (some token) = navigate at_home

  unfoldable pub app_routes : Option Token → Address → Element
  app_routes token at_login = login_route token
  app_routes token at_home = protected_route token concerts_page
  app_routes token at_concert = protected_route token concert_detail_page
  app_routes token at_queue = protected_route token queue_page
  app_routes token at_reservation = protected_route token reservation_page
  app_routes token at_reservations = protected_route token reservations_page
  app_routes token at_admin = admin_route token admin_page
  app_routes token at_support = protected_route token support_page
  app_routes token at_admin_support = admin_route token admin_support_page
  app_routes token at_other = navigate at_home

  -- the page after at most so many redirects
  abbrev pub follow : ℕ → Option Token → Element → Option Page
  follow fuel token (page x) = some x
  follow zero token (navigate a) = none
  follow (suc fuel) token (navigate a) = follow fuel token (app_routes token a)
