-- ===== src/Api/Results.antt =====
-- What the client makes of a response (`apiJson` and `apiFormData` of frontend/src/lib/api.ts).
use hunger_platform.Prelude.{
  ℕ, ◌≡◌, ◌≢◌, ◌⊎◌, ◌↔◌, true, false, none, some, Text, codes, truthy, trim, arith,
}
use hunger_platform.Session.{is_ok}
use hunger_platform.Api.{
  Json, Response, value, http_error, json_of, form_json_of, parse_text, error_message_from_body,
  json_or_empty,
}

-- The client gives a value just when the response is good, may have a body, and its body is JSON
-- with something in it; the value is the body's.
json_of-value_iff :
    (res : Response) (v : Json)
    → (json_of (some res) ≡ value v) ↔ (
        (is_ok res.status ≡ true)
        × (res.status ≢ 204)
        × (res.status ≢ 205)
        × (truthy (trim res.text) ≡ true)
        × (res.json ≡ some v))
unfolding json_of parse_text
json_of-value_iff res v = ground arith

-- An `HttpError` has the status of the response: that of a refusal, with the server's message, or
-- that of a good response whose body is not empty and no JSON.
json_of-http_error_iff :
    (res : Response) (status : ℕ) (message : Text)
    → (json_of (some res) ≡ http_error status message) ↔ (
        (status ≡ res.status)
        × (((is_ok res.status ≡ false)
              × (message ≡ error_message_from_body (json_or_empty res.json) res.status_text))
            ⊎ ((is_ok res.status ≡ true)
                × (res.status ≢ 204)
                × (res.status ≢ 205)
                × (truthy (trim res.text) ≡ true)
                × (res.json ≡ none)
                × (message ≡ codes "Invalid JSON response"))))
unfolding json_of parse_text
json_of-http_error_iff res status message = ground arith

-- Where `apiJson` gives a value `apiFormData` gives the same.
pub form_json_of-value :
    (res : Response) (v : Json) → json_of (some res) ≡ value v → form_json_of (some res) ≡ value v
unfolding json_of form_json_of parse_text
form_json_of-value res v = ground arith
