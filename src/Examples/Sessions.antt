-- ===== src/Examples/Sessions.antt =====
-- The session routes and the gate one after another, with a concrete backend
-- (frontend/src/app/api/auth/*/route.ts and frontend/src/middleware.ts).
use hunger_platform.Prelude.{
  ◌≡◌, refl, true, none, some, [], Text, codes, same, truthy, lookup, insert, trim,
}
use hunger_platform.Session.{
  TokenPair, Jar, Backend, Body, fields, signed_in, error, no_ticket, cookie_access, cookie_value,
  set_tokens, sign_in_with, login, refresh, logout, ws_ticket, is_ok,
}
use hunger_platform.Session.Cookies.{
  IsSignIn, IsRefresh, HasNoTokens, login-IsSignIn, refresh-IsRefresh,
}
use hunger_platform.Session.Lifecycle.{logout_locks}
use hunger_platform.Middleware.{Env, middleware, redirect, verify_access_token, get_jwt_secret}

abbrev pub some_tokens : TokenPair
some_tokens = record { access_token = codes "a1"; refresh_token = codes "r1"; expires_in = 900 }

-- A backend that knows one user, whose role the token claims to be a master.
abbrev pub some_backend : Backend
some_backend = record {
  production = true;
  login_call = λ email password. some (record { status = 200; tokens = some some_tokens });
  accept_call = λ token password. some (record { status = 410; tokens = none });
  refresh_call = λ token. some (record { status = 401; tokens = none });
  decode_role = λ token. some (some "master");
}

abbrev pub some_login : Body
some_login = fields (some (codes "a@b.c")) (some (codes "secret"))

abbrev pub signed_jar : Jar
signed_jar = set_tokens true some_tokens []

-- A gate that finds every token good.
abbrev master_gate : Env
master_gate = record {
  jwt_secret = some (codes "secret");
  jwt_verify = λ token secret. some (some "master");
}

login-IsSignIn_example :
    IsSignIn some_backend some_backend.login_call some_login [] (login some_backend some_login [])
login-IsSignIn_example = login-IsSignIn some_backend some_login []

refresh-IsRefresh_example : IsRefresh some_backend signed_jar (refresh some_backend signed_jar)
refresh-IsRefresh_example = refresh-IsRefresh some_backend signed_jar

logout_locks_example :
    HasNoTokens signed_jar (logout signed_jar).2
    × (ws_ticket (logout signed_jar).2 ≡ no_ticket)
    × (refresh some_backend (logout signed_jar).2 ≡ (error 401 "no_refresh", (logout signed_jar).2))
    × (middleware master_gate (cookie_value cookie_access (logout signed_jar).2) (codes "/clients")
        ≡ redirect (codes "/login") (some (codes "/clients")))
logout_locks_example =
    logout_locks some_backend master_gate signed_jar (codes "/clients") (unfold same in refl)
      (unfold same in refl) (unfold same in refl)

pub some_login_succeeds :
    login some_backend some_login [] ≡ (signed_in "/m/dashboard" "master", signed_jar)
unfolding login trim truthy set_tokens is_ok sign_in_with
some_login_succeeds = refl

good_token :
    (t : Text)
    → cookie_value cookie_access signed_jar ≡ some t
    → (truthy t ≡ true) × (verify_access_token master_gate t ≡ some "master")
unfolding cookie_value set_tokens insert lookup verify_access_token get_jwt_secret truthy
good_token t e = (let same_text : codes "a1" ≡ t = cc in rw (← same_text) refl, refl)
