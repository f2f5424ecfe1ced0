-- ===== src/Client/Access/Pages.antt =====
-- Which page an address ends on, and that the pages of the administration are for those whom the
-- server lets through.
use ticket_queue_platform.Prelude.{
  ℕ, ◌+◌, ◌/◌, ◌≡◌, refl, ◌↔◌, Bool, true, false, not, ◌&&◌, ltb, if◌then◌else◌, Option, none, some,
  ok, ◌∙◌, sym, arith,
}
use ticket_queue_platform.Schema.{Role}
use ticket_queue_platform.Platform.{Platform, World}
use ticket_queue_platform.Services.Accounts.{JwtPayload}
use ticket_queue_platform.Auth.Middleware.{bearer}
use ticket_queue_platform.Auth.Guards.{admin_guards, admin_guards_iff}
use ticket_queue_platform.Client.Access.{
  Address, Page, at_login, at_home, at_concert, at_queue, at_reservation, at_reservations, at_admin,
  at_support, at_admin_support, at_other, login_page, concerts_page, concert_detail_page,
  queue_page, reservation_page, reservations_page, admin_page, support_page, admin_support_page,
  get_role, is_admin_role, app_routes, follow,
}

-- the page that an address is for
abbrev pub page_at : Address → Page
page_at at_login = concerts_page
page_at at_home = concerts_page
page_at at_concert = concert_detail_page
page_at at_queue = queue_page
page_at at_reservation = reservation_page
page_at at_reservations = reservations_page
page_at at_admin = admin_page
page_at at_support = support_page
page_at at_admin_support = admin_support_page
page_at at_other = concerts_page

abbrev pub is_for_admin : Page → Bool
is_for_admin admin_page = true
is_for_admin admin_support_page = true
is_for_admin _ = false

module _ {Token : Type 0} (decode : Token → Option (Option Role)) where
  -- the page that a visitor may see
  abbrev pub allowed : Option Token → Address → Page
  allowed none a = login_page
  allowed (some t) a =
      if is_for_admin (page_at a) && not (is_admin_role decode (get_role decode (some t)))
      then concerts_page
      else page_at a

  -- Every address ends on a page after at most two redirects: on the login page without a token; with
  -- one on its own page, except that the list of concerts stands for the login page, for an address
  -- that no route knows, and for the pages of the administration if the token's role is not ADMIN.
  pub routes_end :
      (t : Option Token) (a : Address)
      → follow decode 2 t (app_routes decode t a) ≡ some (allowed t a)
  unfolding app_routes
  routes_end none _ = ground arith
  routes_end (some t) _ = ground arith

module _ {p : Platform} (decode : p.crypto.Token → Option (Option Role))
    (reads : (x : JwtPayload) (s : ℕ)
      → decode (p.crypto.sign_access x s) ≡ some (some x.role)) where
  module _ (x : JwtPayload) (s : ℕ) (w : World p)
      (fresh : ltb (w.now / 1000) (s / 1000 + p.crypto.access_ttl) ≡ true) where
    abbrev pub token : p.crypto.Token
    token = p.crypto.sign_access x s

    good : p.crypto.verify_access token w.now ≡ some x
    good = ground (arith, p.crypto.verify_access-sign_access x s w.now)

    role_read : get_role decode (some token) ≡ some x.role
    unfolding get_role
    role_read = ground (arith, reads x s)

    passes : x.role ≡ Role.admin → (admin_guards (bearer token) w).0 ≡ ok tt
    passes e = (admin_guards_iff (bearer token) w).1 (token, x, refl, good, e)

    is_signed :
        (t : p.crypto.Token) (y : JwtPayload)
        → bearer token ≡ bearer t
        → p.crypto.verify_access t w.now ≡ some y
        → y.role ≡ Role.admin
        → x.role ≡ Role.admin
    is_signed t y b v r = ground (arith, good)

    passes_only : (admin_guards (bearer token) w).0 ≡ ok tt → x.role ≡ Role.admin
    passes_only g =
        let (t, y, b, v, r) = (admin_guards_iff (bearer token) w).0 g in is_signed t y b v r

    shown :
        (a : Address)
        → is_for_admin (page_at a) ≡ true
        → x.role ≡ Role.admin
        → follow decode 2 (some token) (app_routes decode (some token) a) ≡ some (page_at a)
    shown a h e = routes_end decode (some token) a ∙ ground (arith, role_read)

    shown_only :
        (a : Address)
        → is_for_admin (page_at a) ≡ true
        → follow decode 2 (some token) (app_routes decode (some token) a) ≡ some (page_at a)
        → x.role ≡ Role.admin
    shown_only a h e = by_role a h x.role role_read (sym (routes_end decode (some token) a) ∙ e)
      where
        by_role :
            (a : Address)
            → is_for_admin (page_at a) ≡ true
            → (r : Role) → get_role decode (some token) ≡ some r
            → some (allowed decode (some token) a) ≡ some (page_at a)
            → r ≡ Role.admin
        by_role a h Role.admin e k = refl
        by_role at_admin h Role.user e k = ground arith
        by_role at_admin_support h Role.user e k = ground arith
        by_role _ h Role.user e k = ground arith

    -- The address of a page of the administration ends on this page, for a visitor with an access
    -- token that the server signed and that has not expired, just when the guards of the server let
    -- the token through. It is assumed that the client reads the role that was signed.
    pub admin_page_iff :
        (a : Address)
        → is_for_admin (page_at a) ≡ true
        → (follow decode 2 (some token) (app_routes decode (some token) a) ≡ some (page_at a))
          ↔ ((admin_guards (bearer token) w).0 ≡ ok tt)
    admin_page_iff a h = (λ e. passes (shown_only a h e), λ g. shown a h (passes_only g))
