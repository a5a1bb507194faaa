-- ===== src/Middleware/Redirects.antt =====
-- Where a browser ends that follows the redirects of the gate (frontend/src/middleware.ts).
use hunger_platform.Prelude.{
  ℕ, suc, zero, String, ◌≡◌, ◌≢◌, refl, ◌⊎◌, true, false, arith, Option, none, some, Text, codes,
  same, starts_with, str_eq,
}
use hunger_platform.Middleware.{
  under, some_under, route, next, redirect, to, role_route, is_admin_salon_path, salon_prefixes,
  reception_allowed_paths, admin_forbidden_paths, Env, session_of,
}

-- The page on which a browser ends that starts at a path and follows the redirects, if it needs at
-- most so many requests.
unfoldable pub settle : ℕ → Option String → Text → Option Text
settle zero session path = none
settle (suc n) session path = elim (route session path) [
  | next ↦ some path
  | redirect p _ ↦ settle n session p
]

settle-none : (path : Text) → settle 3 none path ≢ none
unfolding settle route same
settle-none path = ground arith

module _ (role : String) where
  route_target :
      (path : Text)
      → (route (some role) path ≡ next)
        ⊎ ((route (some role) path ≡ to "/m/dashboard") × (str_eq role "master" ≡ true))
        ⊎ ((route (some role) path ≡ to "/dashboard") × (str_eq role "master" ≡ false))
        ⊎ (route (some role) path ≡ to "/403")
  unfolding route role_route
  route_target path = ground arith

  route-403 : route (some role) (codes "/403") ≡ next
  unfolding route same
  route-403 = refl

  route-m_dashboard : str_eq role "master" ≡ true → route (some role) (codes "/m/dashboard") ≡ next
  unfolding route role_route same starts_with
  route-m_dashboard h = rw h

  route-dashboard :
      str_eq role "master" ≡ false
      → (route (some role) (codes "/dashboard") ≡ next)
        ⊎ (route (some role) (codes "/dashboard") ≡ to "/403")
  unfolding route role_route same starts_with is_admin_salon_path salon_prefixes
      reception_allowed_paths admin_forbidden_paths some_under under
  route-dashboard h = ground arith

  settle_role : (path : Text) → settle 3 (some role) path ≢ none
  unfolding settle
  settle_role path =
      ground (arith, route_target path, route-403, route-m_dashboard, route-dashboard)

settle_any : (session : Option String) (path : Text) → settle 3 session path ≢ none
settle_any none path = settle-none path
settle_any (some role) path = settle_role role path

-- The redirects never go round: whoever asks for whatever path reaches a page in three requests.
pub settle_total :
    (env : Env) (cookie : Option Text) (path : Text) → settle 3 (session_of env cookie) path ≢ none
settle_total env cookie path = settle_any (session_of env cookie) path
