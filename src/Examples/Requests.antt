-- ===== src/Examples/Requests.antt =====
-- Requests of the browser, with a concrete server (frontend/src/lib/api.ts and
-- frontend/src/app/api/bff/[...path]/route.ts).
use hunger_platform.Prelude.{◌≡◌, none, some, [], ◌∷◌, codes, lookup, eq_iff, arith}
use hunger_platform.Session.{present}
use hunger_platform.Api.{Json, Init, Response, Server, text_body, request_of, api_fetch}
use hunger_platform.Api.Retry.{Course, api_fetch-Course}
use hunger_platform.Bff.{Headers, Incoming, forward_headers}
use hunger_platform.Bff.Forward.{or_else, bearer, forward_identity, IsOther, forwarded_names}

abbrev some_init : Init
some_init = record { method = codes "POST"; headers = []; body = text_body (codes "{}") }

abbrev unauthorized : Response
unauthorized = record {
  status = 401;
  status_text = codes "Unauthorized";
  text = codes "";
  json = none;
}

abbrev one_value : Response
one_value = record {
  status = 200;
  status_text = codes "OK";
  text = codes "1";
  json = some (Json.num 1);
}

-- A server that refuses the first request and grants all that follow.
abbrev expired : Server
expired [] r = some unauthorized
expired (q ∷ log) r = some one_value

api_fetch-Course_example :
    Course expired
      (request_of (codes "/clients") some_init)
      []
      (api_fetch expired (codes "/clients") some_init [])
api_fetch-Course_example = api_fetch-Course expired (codes "/clients") some_init []

abbrev browser_headers : Headers
browser_headers = ("cookie", codes "hb_access=a1") ∷ ("x-guest-client-id", codes "g1") ∷ []

abbrev some_request : Incoming
some_request = record { headers = browser_headers; search = codes ""; body = codes "{}" }

forward_identity_example :
    (lookup "authorization" (forward_headers browser_headers (some (codes "a1")))
      ≡ or_else
          (present (lookup "authorization" browser_headers))
          (bearer (present (some (codes "a1")))))
    × (lookup "x-telegram-init-data" (forward_headers browser_headers (some (codes "a1")))
        ≡ present (lookup "x-telegram-init-data" browser_headers))
    × (lookup "x-guest-client-id" (forward_headers browser_headers (some (codes "a1")))
        ≡ present (lookup "x-guest-client-id" browser_headers))
forward_identity_example = forward_identity browser_headers (some (codes "a1"))

cookie-IsOther : IsOther "cookie" forwarded_names
unfolding IsOther forwarded_names
cookie-IsOther = (
  ground (arith, eq_iff "accept" "cookie"),
  (
    ground (arith, eq_iff "content-type" "cookie"),
    (
      ground (arith, eq_iff "authorization" "cookie"),
      (
        ground (arith, eq_iff "x-telegram-init-data" "cookie"),
        (ground (arith, eq_iff "x-guest-client-id" "cookie"), tt),
      ),
    ),
  ),
)
