-- ===== src/Api.antt =====
-- The browser's client of the backend (frontend/src/lib/api.ts): one retry after a refresh of the
-- session, and how a response becomes a value or an `HttpError`. The server is a function of the
-- requests that it has answered; `none` is an exception of `fetch`.
pub mod Retry
pub mod Results
use hunger_platform.Prelude.{
  ℕ, String, Bool, true, false, ◌&&◌, ◌||◌, not, Option, none, some, List, [], ◌∷◌, ◌++◌, ◌==◌,
  Text, str_eq, codes, truthy, trim, starts_with, lookup, insert, if◌then◌else◌,
}
use hunger_platform.Session.{is_ok}

-- JSON values.
mutual
  pub data Json : Type 0 where
    null : Json
    bool : Bool → Json
    num : ℕ → Json
    str : Text → Json
    arr : Items → Json
    obj : Fields → Json

  pub data Items : Type 0 where
    nil : Items
    cons : Json → Items → Items

  pub data Fields : Type 0 where
    end : Fields
    field : String → Json → Fields → Fields

pub data RequestBody : Type 0 where
  no_body : RequestBody
  text_body : Text → RequestBody
  form_body : RequestBody

-- `RequestInit`; the names of headers are kept in lower case, as `Headers` compares them.
pub record Init : Type 0 where
  pub method : Text
  pub headers : List (String × Text)
  pub body : RequestBody

pub record Request : Type 0 where
  pub url : Text
  pub init : Init

-- A response: its status, and its body as a text and as what `JSON.parse` makes of it.
pub record Response : Type 0 where
  pub status : ℕ
  pub status_text : Text
  pub text : Text
  pub json : Option Json

abbrev pub Log : Type 0
Log = List Request

abbrev pub Server : Type 0
Server = Log → Request → Option Response

unfoldable pub fetch : Server → Request → Log → Option Response × Log
fetch serve r log = (serve log r, log ++ r ∷ [])

unfoldable pub normalize_path : Text → Text
normalize_path path =
    codes "/api/bff" ++ (if starts_with path (codes "/") then path else codes "/" ++ path)

abbrev pub refresh_request : Request
refresh_request = record {
  url = codes "/api/auth/refresh";
  init = record { method = codes "POST"; headers = []; body = no_body };
}

-- The reply to the refresh decides whether the request is made again.
unfoldable pub after_refresh :
    Server → Request → Response → Option Response × Log → Option Response × Log
unfolding fetch is_ok
after_refresh serve r res (none, log) = (none, log)
after_refresh serve r res (some refresh, log) =
    if not (is_ok refresh.status) then (some res, log) else fetch serve r log

unfoldable pub after_first : Server → Request → Option Response × Log → Option Response × Log
unfolding after_refresh
after_first serve r (none, log) = (none, log)
after_first serve r (some res, log) =
    if not (res.status == 401)
    then (some res, log)
    else after_refresh serve r res (fetch serve refresh_request log)

-- The request that `apiFetch` makes. It adds `credentials: "include"`, which is no state of ours.
unfoldable pub request_of : Text → Init → Request
unfolding normalize_path
request_of path init = record { url = normalize_path path; init = init }

unfoldable pub api_fetch : Server → Text → Init → Log → Option Response × Log
unfolding after_first request_of
api_fetch serve path init log =
    after_first serve (request_of path init) (fetch serve (request_of path init) log)

-- `o[key]` of an object's fields.
unfoldable pub field_of : String → Fields → Option Json
field_of key end = none
field_of key (field k v fs) = if str_eq k key then some v else field_of key fs

-- `o.message`, `o.detail` and `d.msg`, for any value.
unfoldable pub member : String → Json → Option Json
unfolding field_of
member key (obj fs) = field_of key fs
member key v = none

-- `typeof x === "string"`
unfoldable pub as_text : Option Json → Option Text
as_text (some (str s)) = some s
as_text _ = none

-- `Array.isArray(o.detail) && o.detail[0] && typeof o.detail[0] === "object"`, and then its `msg`.
unfoldable pub first_message : Option Json → Option Text
unfolding member as_text
first_message (some (arr (cons d _))) = as_text (member "msg" d)
first_message _ = none

-- The first text of the three places, or else the fallback.
unfoldable pub error_message_from_body : Json → Text → Text
unfolding as_text member first_message
error_message_from_body err fallback = elim (as_text (member "message" err)) [
  | some s ↦ s
  | none ↦ elim (as_text (member "detail" err)) [
    | some s ↦ s
    | none ↦ elim (first_message (member "detail" err)) [ some s ↦ s | none ↦ fallback ]
  ]
]

-- What `apiJson` gives: a value, `undefined`, an `HttpError`, or another exception.
pub data Outcome : Type 0 where
  value : Json → Outcome
  undefined : Outcome
  http_error : ℕ → Text → Outcome
  threw : Outcome

-- `if (!h.has("Content-Type")) h.set(…)`, by what is there.
unfoldable pub set_content_type : Option Text → Init → Init
set_content_type (some _) init = init
set_content_type none init = record init {
  headers = insert "content-type" (codes "application/json") init.headers;
}

-- `if (typeof init.body === "string")`, by the body.
unfoldable pub enhance_body : RequestBody → Init → Init
unfolding set_content_type
enhance_body (text_body _) init = set_content_type (lookup "content-type" init.headers) init
enhance_body no_body init = init
enhance_body form_body init = init

-- The request that `apiJson` hands to `apiFetch`: a text gets a JSON content type, unless the
-- caller set one.
unfoldable pub enhance : Init → Init
unfolding enhance_body
enhance init = enhance_body init.body init

-- `await res.json().catch(() => ({}))`
abbrev pub json_or_empty : Option Json → Json
json_or_empty none = obj end
json_or_empty (some v) = v

-- `JSON.parse(text)` with its `catch`.
unfoldable pub parse_text : Response → Outcome
parse_text res = elim res.json [
  | some v ↦ value v
  | none ↦ http_error res.status (codes "Invalid JSON response")
]

unfoldable pub json_of : Option Response → Outcome
unfolding is_ok error_message_from_body parse_text
json_of none = threw
json_of (some res) =
    if not (is_ok res.status)
    then http_error res.status (error_message_from_body (json_or_empty res.json) res.status_text)
    else if res.status == 204 || res.status == 205
    then undefined
    else if not (truthy (trim res.text))
    then undefined
    else parse_text res

unfoldable pub api_json : Server → Text → Init → Log → Outcome × Log
unfolding api_fetch enhance json_of
api_json serve path init log =
    let (res, log') = api_fetch serve path (enhance init) log in (json_of res, log')

-- `apiFormData`: no content type is set, and a body that is no JSON throws.
unfoldable pub form_json_of : Option Response → Outcome
unfolding is_ok error_message_from_body
form_json_of none = threw
form_json_of (some res) =
    if not (is_ok res.status)
    then http_error res.status (error_message_from_body (json_or_empty res.json) res.status_text)
    else elim res.json [ some v ↦ value v | none ↦ threw ]

unfoldable pub api_form_data : Server → Text → Log → Outcome × Log
unfolding api_fetch form_json_of
api_form_data serve path log =
    let (res, log') =
      api_fetch serve path (record { method = codes "POST"; headers = []; body = form_body }) log in
    (form_json_of res, log')
