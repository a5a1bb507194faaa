-- ===== src/Bff.antt =====
-- The proxy between the browser and the backend (frontend/src/app/api/bff/[...path]/route.ts): the
-- request that it sends on, and the response that it hands back. Headers are kept by their name in
-- lower case, as `Headers` compares them. The backend is a
-- parameter, and so is the base URL; the target is the text that is parsed into a `URL`.
pub mod Forward
use hunger_platform.Prelude.{
  ℕ, zero, suc, String, Bool, true, false, ◌&&◌, ◌||◌, not, Option, none, some, List, [], ◌∷◌, ◌++◌,
  ◌==◌, str_eq, Text, codes, same, truthy, length, lookup, insert, remove, if◌then◌else◌,
}
use hunger_platform.Session.{Jar, cookie_access, cookie_value, present}

pub data Method : Type 0 where
  get head post put patch delete : Method

abbrev method_index : Method → ℕ
method_index get = 0
method_index head = 1
method_index post = 2
method_index put = 3
method_index patch = 4
method_index delete = 5

abbrev pub is_method : Method → Method → Bool
is_method a b = method_index a == method_index b

abbrev pub Headers : Type 0
Headers = List (String × Text)

pub record Incoming : Type 0 where
  pub headers : Headers
  pub search : Text
  pub body : List ℕ

pub record Outgoing : Type 0 where
  pub method : Method
  pub target : Text
  pub search : Text
  pub headers : Headers
  pub body : Option (List ℕ)

pub record Reply : Type 0 where
  pub status : ℕ
  pub status_text : Text
  pub headers : Headers
  pub body : List ℕ

-- `segments.join("/")`
unfoldable pub join : List Text → Text
join [] = []
join (s ∷ []) = s
join (s ∷ t ∷ r) = s ++ codes "/" ++ join (t ∷ r)

-- `pathSegments.length === 1 && pathSegments[0] === "color-formulas"`
is_color_formulas : List Text → Bool
is_color_formulas [] = false
is_color_formulas (s ∷ []) = same s (codes "color-formulas")
is_color_formulas (s ∷ t ∷ r) = false

unfoldable pub upstream_subpath : List Text → Method → Text
unfolding join is_color_formulas
upstream_subpath segments method =
    if is_color_formulas segments
      && (is_method method post
          || is_method method put
          || is_method method patch
          || is_method method get)
    then codes "color-formulas/"
    else join segments

-- `if (value) headers.set(name, value)`
unfoldable pub set_present : String → Option Text → Headers → Headers
set_present name none headers = headers
set_present name (some v) headers = insert name v headers

-- `request.headers.get("Accept") ?? "application/json"`
abbrev accept_or_json : Option Text → Text
accept_or_json none = codes "application/json"
accept_or_json (some v) = v

-- The header `Authorization`: the caller's own, or else that of the session.
unfoldable pub authorization : Option Text → Option Text → Option Text
authorization (some incoming) access = some incoming
authorization none none = none
authorization none (some token) = some (codes "Bearer " ++ token)

unfoldable pub forward_headers : Headers → Option Text → Headers
unfolding set_present
forward_headers incoming access =
    let accept = insert "accept" (accept_or_json (lookup "accept" incoming)) [] in
    let content = set_present "content-type" (present (lookup "content-type" incoming)) accept in
    let auth =
      set_present "authorization"
        (authorization (present (lookup "authorization" incoming)) (present access)) content in
    let tg =
      set_present "x-telegram-init-data" (present (lookup "x-telegram-init-data" incoming)) auth in
    set_present "x-guest-client-id" (present (lookup "x-guest-client-id" incoming)) tg

-- `body !== undefined && body.byteLength > 0`, for the methods that have a body.
unfoldable pub forward_body : Method → List ℕ → Option (List ℕ)
forward_body method body =
    if is_method method get || is_method method head
    then none
    else if truthy body
    then some body
    else none

-- The request that goes upstream, below the base URL.
unfoldable pub outgoing : Text → List Text → Method → Incoming → Jar → Outgoing
unfolding upstream_subpath forward_headers forward_body
outgoing base segments method request jar = record {
  method = method;
  target = base ++ codes "/api/v1/" ++ upstream_subpath segments method;
  search = request.search;
  headers = forward_headers request.headers (cookie_value cookie_access jar);
  body = forward_body method request.body;
}

pub data Proxied : Type 0 where
  missing_path threw : Proxied
  reply : Reply → Proxied

-- What is handed back of the backend's reply; `none` is an exception of `fetch`.
unfoldable pub hand_back : Option Reply → Proxied
hand_back none = threw
hand_back (some up) = reply (record {
  status = up.status;
  status_text = up.status_text;
  headers = remove "transfer-encoding" up.headers;
  body = up.body;
})

-- `proxy`: an empty path is answered by a 400 without a call.
unfoldable pub proxy :
    (Outgoing → Option Reply) → Text → List Text → Method → Incoming → Jar → Proxied
unfolding outgoing hand_back
proxy fetch base [] method request jar = missing_path
proxy fetch base (s ∷ segments) method request jar =
    hand_back (fetch (outgoing base (s ∷ segments) method request jar))
