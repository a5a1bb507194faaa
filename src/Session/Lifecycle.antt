-- ===== src/Session/Lifecycle.antt =====
-- The session over several requests: the routes of frontend/src/app/api/auth one after another, and
-- the gate of frontend/src/middleware.ts with the cookies that they leave.
use hunger_platform.Prelude.{
  String, ◌≡◌, ◌≢◌, refl, ◌⊎◌, inl, inr, true, false, none, some, Text, truthy, arith, same, codes,
  starts_with,
}
use hunger_platform.Session.{
  cookie_access, TokenPair, Jar, cookie_value, Backend, error, signed_in, no_ticket, delete_tokens,
  present, redirect_for_role, Body, login, refresh, logout, ws_ticket, refresh_from, ticket_of,
}
use hunger_platform.Session.Cookies.{
  HasNoTokens, IsSignIn, login-IsSignIn, kept_by, delete_tokens-HasNoTokens,
}
use hunger_platform.Middleware.{
  Env, middleware, redirect, next, session_of, route, verify_access_token, role_route,
  is_admin_salon_path, salon_prefixes, some_under, under, has_role, admin_roles,
  reception_allowed_paths, admin_forbidden_paths,
}

-- Without tokens there is no ticket, a refresh is refused without a call, and the gate sends every
-- path but the public ones to the login.
HasNoTokens-locked :
    (b : Backend) (env : Env) (jar jar' : Jar) (path : Text)
    → HasNoTokens jar jar'
    → same path (codes "/403") ≡ false
    → same path (codes "/login") ≡ false
    → same path (codes "/") ≡ false
    → (ws_ticket jar' ≡ no_ticket)
      × (refresh b jar' ≡ (error 401 "no_refresh", jar'))
      × (middleware env (cookie_value cookie_access jar') path
          ≡ redirect (codes "/login") (some path))
unfolding ws_ticket refresh refresh_from present middleware session_of route
HasNoTokens-locked b env jar jar' path h x y z =
    (rw h.access refl, rw h.refresh refl, rw h.access (ground arith))

-- After a logout there is no ticket and no refresh, the other cookies stay, and the gate sends
-- every path but the public ones to the login.
pub logout_locks :
    (b : Backend) (env : Env) (jar : Jar) (path : Text)
    → same path (codes "/403") ≡ false
    → same path (codes "/login") ≡ false
    → same path (codes "/") ≡ false
    → HasNoTokens jar (logout jar).2
      × (ws_ticket (logout jar).2 ≡ no_ticket)
      × (refresh b (logout jar).2 ≡ (error 401 "no_refresh", (logout jar).2))
      × (middleware env (cookie_value cookie_access (logout jar).2) path
          ≡ redirect (codes "/login") (some path))
unfolding logout
logout_locks b env jar path x y z =
    let gone = delete_tokens-HasNoTokens jar in
    let locked = HasNoTokens-locked b env jar (delete_tokens jar) path gone x y z in
    (gone, locked.0, locked.1, locked.2)

-- The roles of the salon.
abbrev IsStaff : String → Type 0
IsStaff role = (role ≡ "owner") ⊎ (role ≡ "admin") ⊎ (role ≡ "reception") ⊎ (role ≡ "master")

landing : (role : String) → IsStaff role → route (some role) (codes (redirect_for_role role)) ≡ next
unfolding route role_route redirect_for_role same starts_with is_admin_salon_path salon_prefixes
    some_under under has_role admin_roles reception_allowed_paths admin_forbidden_paths
landing role h = elim h [
  | inl e ↦ rw e refl
  | inr (inl e) ↦ rw e refl
  | inr (inr (inl e)) ↦ rw e refl
  | inr (inr (inr e)) ↦ rw e refl
]

-- A login that succeeds names a page that the gate then shows to the browser, if the token that it
-- keeps in the cookie is one that the gate finds good, with the role of the answer.
login_lands :
    (b : Backend) (env : Env) (body : Body) (jar jar' : Jar) (page role : String)
    → login b body jar ≡ (signed_in page role, jar')
    → IsStaff role
    → ((t : Text)
        → cookie_value cookie_access jar' ≡ some t
        → (truthy t ≡ true) × (verify_access_token env t ≡ some role))
    → middleware env (cookie_value cookie_access jar') (codes page) ≡ next
unfolding middleware session_of
login_lands b env body jar jar' page role e staff good =
    let signed : IsSignIn b b.login_call body jar (signed_in page role, jar') =
      rw e at (login-IsSignIn b body jar) in
    let (t, claim, decoded, goes, kept) = kept_by b b.login_call body jar jar' page role signed in
    let (there, verified) = good t.access_token kept.access in
    rw (kept.access, there, verified, goes) (landing role staff)

-- After a login that succeeds there are tokens whose access token was decoded, a refresh goes on with
-- the refresh token, and the ticket of the web socket is made of the access token, an empty token
-- counting as none.
pub login_then :
    (b : Backend) (body : Body) (jar jar' : Jar) (page role : String)
    → login b body jar ≡ (signed_in page role, jar')
    → (t : TokenPair) × (b.decode_role t.access_token ≢ none)
      × (refresh b jar' ≡ refresh_from b (present (some t.refresh_token)) jar')
      × (ws_ticket jar' ≡ ticket_of (present (some t.access_token)))
unfolding refresh ws_ticket
login_then b body jar jar' page role e =
    let signed : IsSignIn b b.login_call body jar (signed_in page role, jar') =
      rw e at (login-IsSignIn b body jar) in
    let (t, claim, decoded, goes, kept) = kept_by b b.login_call body jar jar' page role signed in
    (t, λ no_claim. cc, rw kept.refresh refl, rw kept.access refl)
