-- ===== src/Middleware/Routing.antt =====
-- Whom the gate lets through, and where it sends the others (frontend/src/middleware.ts).
use hunger_platform.Prelude.{
  String, ◌≡◌, ◌≢◌, ◌⊎◌, ◌↔◌, true, false, List, [], ◌∷◌, arith, Option, none, some, Text, codes,
  same,
}
use hunger_platform.Middleware.{
  under, some_under, next, redirect, role_route, is_admin_salon_path, master_forbidden_paths,
  reception_allowed_paths, Env, middleware, session_of, get_jwt_secret, verify_access_token,
}

-- The paths that the gate treats before it looks at the role, and the area of the masters.
public_paths : List Text
public_paths = codes "/403" ∷ codes "/login" ∷ codes "/" ∷ codes "/m" ∷ codes "/m/dashboard" ∷ []

-- What a role is shown among the pages of the salon.
pub Shown : String → Text → Type 0
Shown role path =
    (role ≡ "owner")
    ⊎ ((role ≡ "admin") × (under path (codes "/users") ≡ false))
    ⊎ ((role ≡ "reception") × (some_under reception_allowed_paths path ≡ true))
    ⊎ ((role ≡ "master") × (some_under master_forbidden_paths path ≡ false))

-- None of the roles that the gate knows.
record IsUnknown (role : String) : Type 0 where
  not_owner : role ≢ "owner"
  not_admin : role ≢ "admin"
  not_reception : role ≢ "reception"
  not_master : role ≢ "master"

module _ (path : Text) (h : is_admin_salon_path path ≡ true) where
  Passes : String → Type 0
  Passes role = (role_route role path ≡ next) ↔ Shown role path

-- Without a secret the gate is closed: whatever the cookie, every path but `/403`, `/login` and `/`
-- is sent to the login, with the path kept for afterwards.
middleware-no_secret :
    (env : Env) (cookie : Option Text) (path : Text)
    → get_jwt_secret env ≡ none
    → same path (codes "/403") ≡ false
    → same path (codes "/login") ≡ false
    → same path (codes "/") ≡ false
    → middleware env cookie path ≡ redirect (codes "/login") (some path)
unfolding middleware session_of verify_access_token
middleware-no_secret env cookie path h a b c = ground arith
