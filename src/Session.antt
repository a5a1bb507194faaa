-- ===== src/Session.antt =====
-- The routes that keep the session cookies (frontend/src/app/api/auth/*/route.ts): login, invite,
-- refresh, logout and the ticket of the web socket. The jar holds the cookies by name. The calls of
-- the backend and `decodeJwt` are parameters: `none` stands for an exception.
pub mod Cookies
pub mod Lifecycle
pub mod User
use hunger_platform.Prelude.{
  ℕ, ◌*◌, String, Bool, true, false, ◌&&◌, ◌||◌, not, Option, none, some, List, [], ◌∷◌, leb,
  str_eq, Text, truthy, trim, lookup, insert, remove, if◌then◌else◌,
}

abbrev pub cookie_access : String
cookie_access = "hb_access"

abbrev pub cookie_refresh : String
cookie_refresh = "hb_refresh"

pub record TokenPair : Type 0 where
  pub access_token : Text
  pub refresh_token : Text
  pub expires_in : ℕ

pub record CookieOptions : Type 0 where
  pub http_only : Bool
  pub path : String
  pub same_site : String
  pub secure : Bool
  pub max_age : ℕ

pub record Cookie : Type 0 where
  pub value : Text
  pub options : CookieOptions

abbrev pub Jar : Type 0
Jar = List (String × Cookie)

abbrev pub value_of : Option Cookie → Option Text
value_of none = none
value_of (some c) = some c.value

-- `cookieStore.get(name)?.value`
unfoldable pub cookie_value : String → Jar → Option Text
cookie_value name jar = value_of (lookup name jar)

-- The value that passes the test `if (value)`.
unfoldable pub present : Option Text → Option Text
present none = none
present (some s) = if truthy s then some s else none

-- A reply of the backend: its status, and what `upstream.json()` gives, `none` where it throws. A body
-- that is JSON is taken to be the pair that the backend's schema of these routes declares.
pub record Upstream : Type 0 where
  pub status : ℕ
  pub tokens : Option TokenPair

-- `upstream.ok`
unfoldable pub is_ok : ℕ → Bool
is_ok status = leb 200 status && leb status 299

-- What is outside of these files.
pub record Backend : Type 0 where
  pub production : Bool
  pub login_call : Text → Text → Option Upstream
  pub accept_call : Text → Text → Option Upstream
  pub refresh_call : Text → Option Upstream
  pub decode_role : Text → Option (Option String)

-- An answer of a route: it threw, or it sent JSON.
pub data Answer : Type 0 where
  threw : Answer
  error : ℕ → String → Answer
  signed_in : (redirect role : String) → Answer
  refreshed : Answer
  no_content : Answer
  ticket : Text → Answer
  no_ticket : Answer

unfoldable pub build_cookie_options : Bool → ℕ → CookieOptions
build_cookie_options production max_age_seconds = record {
  http_only = true;
  path = "/";
  same_site = "lax";
  secure = production;
  max_age = max_age_seconds;
}

unfoldable pub redirect_for_role : String → String
redirect_for_role role = if str_eq role "master" then "/m/dashboard" else "/dashboard"

-- The two calls of `cookieStore.set`.
unfoldable pub set_tokens : Bool → TokenPair → Jar → Jar
unfolding build_cookie_options
set_tokens production tokens jar =
    insert cookie_refresh
      (record {
        value = tokens.refresh_token;
        options = build_cookie_options production (60 * 60 * 24 * 30);
      })
      (insert cookie_access
        (record {
          value = tokens.access_token;
          options = build_cookie_options production tokens.expires_in;
        })
        jar)

-- The two calls of `cookieStore.delete`.
unfoldable pub delete_tokens : Jar → Jar
delete_tokens jar = remove cookie_refresh (remove cookie_access jar)

-- A request's JSON: not JSON, `null`, or an object with two fields, each a text or not.
pub data Body : Type 0 where
  invalid null : Body
  fields : Option Text → Option Text → Body

-- `typeof x === "string" ? x : ""`
abbrev pub text_or_empty : Option Text → Text
text_or_empty none = []
text_or_empty (some s) = s

-- `payload.role ?? "reception"`
abbrev pub role_or_reception : Option String → String
role_or_reception none = "reception"
role_or_reception (some role) = role

module _ (b : Backend) where
  -- From `const role = …` to the end of `login` and `invite`, with what `decodeJwt` gave.
  unfoldable pub sign_in_as : TokenPair → Option (Option String) → Jar → Answer × Jar
  unfolding set_tokens redirect_for_role
  sign_in_as tokens none jar = (threw, jar)
  sign_in_as tokens (some claim) jar = (
    signed_in (redirect_for_role (role_or_reception claim)) (role_or_reception claim),
    set_tokens b.production tokens jar,
  )

  -- From `const tokens = …`, with what `upstream.json()` gave.
  unfoldable pub sign_in_with : Option TokenPair → Jar → Answer × Jar
  unfolding sign_in_as
  sign_in_with none jar = (threw, jar)
  sign_in_with (some tokens) jar = sign_in_as tokens (b.decode_role tokens.access_token) jar

  -- What both routes do with the reply; `code` and `status` are those of the failure.
  unfoldable pub sign_in_reply : String → ℕ → Option Upstream → Jar → Answer × Jar
  unfolding is_ok
  sign_in_reply code status none jar = (threw, jar)
  sign_in_reply code status (some up) jar =
      if not (is_ok up.status)
      then (
        error (if leb 400 up.status && not (leb 600 up.status) then up.status else status) code,
        jar,
      )
      else sign_in_with up.tokens jar

  -- `POST` of login/route.ts
  unfoldable pub login : Body → Jar → Answer × Jar
  unfolding sign_in_reply
  login invalid jar = (error 400 "invalid_json", jar)
  login null jar = (threw, jar)
  login (fields email password) jar =
      if not (truthy (trim (text_or_empty email))) || not (truthy (text_or_empty password))
      then (error 400 "email_password_required", jar)
      else sign_in_reply "login_failed" 401
          (b.login_call (trim (text_or_empty email)) (text_or_empty password)) jar

  -- `POST` of invite/route.ts
  unfoldable pub invite : Body → Jar → Answer × Jar
  unfolding sign_in_reply
  invite invalid jar = (error 400 "invalid_json", jar)
  invite null jar = (threw, jar)
  invite (fields token password) jar =
      if not (truthy (trim (text_or_empty token))) || not (truthy (text_or_empty password))
      then (error 400 "token_password_required", jar)
      else sign_in_reply "invite_failed" 400
          (b.accept_call (trim (text_or_empty token)) (text_or_empty password)) jar

  -- The end of `refresh`, with what `upstream.json()` gave.
  unfoldable pub refresh_with : Option TokenPair → Jar → Answer × Jar
  unfolding set_tokens
  refresh_with none jar = (threw, jar)
  refresh_with (some tokens) jar = (refreshed, set_tokens b.production tokens jar)

  -- What `refresh` does with the reply.
  unfoldable pub refresh_reply : Option Upstream → Jar → Answer × Jar
  unfolding is_ok delete_tokens refresh_with
  refresh_reply none jar = (threw, jar)
  refresh_reply (some up) jar =
      if not (is_ok up.status)
      then (error 401 "refresh_failed", delete_tokens jar)
      else refresh_with up.tokens jar

  -- What follows `const refresh = …`.
  unfoldable pub refresh_from : Option Text → Jar → Answer × Jar
  unfolding refresh_reply
  refresh_from none jar = (error 401 "no_refresh", jar)
  refresh_from (some token) jar = refresh_reply (b.refresh_call token) jar

  -- `POST` of refresh/route.ts
  unfoldable pub refresh : Jar → Answer × Jar
  unfolding refresh_from
  refresh jar = refresh_from (present (cookie_value cookie_refresh jar)) jar

-- `POST` of logout/route.ts: the refresh token that the backend is told, if any, and the answer.
-- A failure of that call is ignored.
unfoldable pub logout : Jar → Option Text × Answer × Jar
unfolding delete_tokens
logout jar = (present (cookie_value cookie_refresh jar), no_content, delete_tokens jar)

abbrev pub ticket_of : Option Text → Answer
ticket_of none = no_ticket
ticket_of (some token) = ticket token

-- `GET` of ws-ticket/route.ts
unfoldable pub ws_ticket : Jar → Answer
ws_ticket jar = ticket_of (present (cookie_value cookie_access jar))
