-- ===== src/Middleware.antt =====
-- The gate in front of the pages (frontend/src/middleware.ts): who may see which path, and where
-- everyone else is sent. A response that redirects holds the path and the `next` parameter.
-- Which paths the framework brings to it (`config.matcher`) is not modelled.
-- `jwtVerify` is a parameter: the role in the payload, if the token is good and the role is a text.
pub mod Paths
pub mod Routing
pub mod Redirects
use hunger_platform.Prelude.{
  String, Bool, true, false, ◌||◌, ◌&&◌, not, Option, none, some, List, [], ◌∷◌, ◌++◌, str_eq, Text,
  codes, same, starts_with, truthy, if◌then◌else◌,
}

unfoldable pub admin_roles : List String
admin_roles = "owner" ∷ "admin" ∷ "reception" ∷ []

unfoldable pub master_allowed_admin_paths : List Text
master_allowed_admin_paths =
    codes "/bookings"
    ∷ codes "/clients"
    ∷ codes "/masters"
    ∷ codes "/schedule"
    ∷ codes "/statistics"
    ∷ codes "/inventory"
    ∷ codes "/formulas"
    ∷ codes "/chats"
    ∷ codes "/blacklist"
    ∷ []

unfoldable pub master_forbidden_paths : List Text
master_forbidden_paths =
    codes "/dashboard"
    ∷ codes "/settings"
    ∷ codes "/users"
    ∷ codes "/audit"
    ∷ codes "/ai"
    ∷ codes "/broadcasts"
    ∷ codes "/services"
    ∷ []

unfoldable pub reception_allowed_paths : List Text
reception_allowed_paths =
    codes "/dashboard"
    ∷ codes "/bookings"
    ∷ codes "/clients"
    ∷ codes "/schedule"
    ∷ codes "/chats"
    ∷ codes "/blacklist"
    ∷ []

unfoldable pub admin_forbidden_paths : List Text
admin_forbidden_paths = codes "/users" ∷ []

unfoldable pub salon_prefixes : List Text
salon_prefixes =
    codes "/dashboard"
    ∷ codes "/bookings"
    ∷ codes "/clients"
    ∷ codes "/chats"
    ∷ codes "/masters"
    ∷ codes "/services"
    ∷ codes "/schedule"
    ∷ codes "/broadcasts"
    ∷ codes "/statistics"
    ∷ codes "/reports"
    ∷ codes "/ai"
    ∷ codes "/inventory"
    ∷ codes "/formulas"
    ∷ codes "/blacklist"
    ∷ codes "/users"
    ∷ codes "/settings"
    ∷ codes "/audit"
    ∷ []

-- `ADMIN_ROLES.has(role)`
unfoldable pub has_role : List String → String → Bool
has_role [] role = false
has_role (r ∷ rs) role = str_eq r role || has_role rs role

-- `pathname === p || pathname.startsWith(`${p}/`)`
unfoldable pub under : Text → Text → Bool
under pathname p = same pathname p || starts_with pathname (p ++ codes "/")

-- `paths.some((p) => …)`
unfoldable pub some_under : List Text → Text → Bool
some_under [] pathname = false
some_under (p ∷ ps) pathname = under pathname p || some_under ps pathname

unfoldable pub is_admin_salon_path : Text → Bool
is_admin_salon_path pathname = some_under salon_prefixes pathname

pub data Response : Type 0 where
  next : Response
  redirect : Text → Option Text → Response

-- What the gate reads of its environment: the secret, and the token library.
pub record Env : Type 0 where
  pub jwt_secret : Option Text
  pub jwt_verify : Text → Text → Option (Option String)

-- The test of `payload.role`; the outer `none` is what `catch` sees.
payload_role : Option (Option String) → Option String
payload_role none = none
payload_role (some none) = none
payload_role (some (some role)) = if str_eq role "" then none else some role

-- `getJwtSecret`: a missing or empty secret is none.
unfoldable pub get_jwt_secret : Env → Option Text
get_jwt_secret env = elim env.jwt_secret [
  | none ↦ none
  | some s ↦ if truthy s then some s else none
]

unfoldable pub verify_access_token : Env → Text → Option String
unfolding get_jwt_secret payload_role
verify_access_token env token = elim (get_jwt_secret env) [
  | none ↦ none
  | some secret ↦ payload_role (env.jwt_verify token secret)
]

-- `const session = token ? await verifyAccessToken(token) : null`
unfoldable pub session_of : Env → Option Text → Option String
session_of env none = none
session_of env (some token) = if truthy token then verify_access_token env token else none

abbrev pub to : String → Response
to path = redirect (codes path) none

-- `session.role === "master" ? "/m/dashboard" : "/dashboard"`
unfoldable pub home : String → Response
home role = if str_eq role "master" then to "/m/dashboard" else to "/dashboard"

-- The branch of a master.
unfoldable pub master_route : Text → Response
master_route pathname =
    if starts_with pathname (codes "/m/") && not (same pathname (codes "/m/dashboard"))
    then to "/m/dashboard"
    else if same pathname (codes "/m/dashboard") || same pathname (codes "/m")
    then next
    else if some_under master_allowed_admin_paths pathname
    then next
    else if some_under master_forbidden_paths pathname
    then to "/m/dashboard"
    else next

-- The branch of the other roles on a page of the salon.
unfoldable pub salon_route : String → Text → Response
salon_route role pathname =
    if not (has_role admin_roles role)
    then to "/403"
    else if str_eq role "reception"
    then (if some_under reception_allowed_paths pathname then next else to "/dashboard")
    else if str_eq role "admin"
    then (if some_under admin_forbidden_paths pathname then to "/dashboard" else next)
    else next

-- What follows the tests of the public paths, with a session.
unfoldable pub role_route : String → Text → Response
unfolding master_route salon_route
role_route role pathname =
    if str_eq role "master"
    then master_route pathname
    else if starts_with pathname (codes "/m/")
    then to "/dashboard"
    else if is_admin_salon_path pathname
    then salon_route role pathname
    else next

unfoldable pub route : Option String → Text → Response
unfolding home
route session pathname =
    if same pathname (codes "/403")
    then next
    else if same pathname (codes "/login")
    then elim session [ none ↦ next | some role ↦ home role ]
    else if same pathname (codes "/")
    then elim session [ none ↦ to "/login" | some role ↦ home role ]
    else elim session [
      | none ↦ redirect (codes "/login") (some pathname)
      | some role ↦ role_route role pathname
    ]

unfoldable pub middleware : Env → Option Text → Text → Response
unfolding route
middleware env cookie pathname = route (session_of env cookie) pathname
