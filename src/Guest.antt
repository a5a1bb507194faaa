-- ===== src/Guest.antt =====
-- The identity of the mini app outside of Telegram (frontend/src/app/mini-app/lib/guest-client.ts).
-- Only `localStorage` is used. `none` for the storage says that there is no window. The server is a
-- parameter: it answers a registration by a status and the `client_id` of its JSON.
pub mod Auth
pub mod Ensure
use hunger_platform.Prelude.{
  ℕ, String, Bool, true, false, ◌&&◌, ◌||◌, not, Option, none, some, List, [], ◌∷◌, Text, codes,
  same, truthy, trim, if◌then◌else◌,
}
use hunger_platform.Session.{is_ok, present}
use hunger_platform.Storage.{Storage, get_item, set_item, remove_item, attempt}

abbrev pub guest_client_id_key : String
guest_client_id_key = "hunger_guest_client_id"

abbrev pub guest_phone_key : String
guest_phone_key = "hunger_guest_phone"

-- `localStorage.getItem(key)?.trim()`, with `none` for an exception.
abbrev pub trimmed : Option (Option Text) → Option (Option Text)
trimmed none = none
trimmed (some none) = some none
trimmed (some (some v)) = some (some (trim v))

unfoldable pub get_trimmed : String → Storage → Option (Option Text)
get_trimmed key s = trimmed (get_item key s)

-- `return id || null` and its `catch`.
abbrev pub id_or_null : Option (Option Text) → Option Text
id_or_null none = none
id_or_null (some o) = present o

unfoldable pub get_guest_client_id : Option Storage → Option Text
unfolding get_trimmed present
get_guest_client_id none = none
get_guest_client_id (some s) = id_or_null (get_trimmed guest_client_id_key s)

unfoldable pub set_guest_client_id : Text → Option Storage → Option Storage
set_guest_client_id id none = none
set_guest_client_id id (some s) = some (attempt (set_item guest_client_id_key (trim id) s) s)

unfoldable pub clear_guest_client_id : Option Storage → Option Storage
clear_guest_client_id none = none
clear_guest_client_id (some s) = some (attempt (remove_item guest_client_id_key s) s)

-- `setGuestProfileHints`, with `none` for a phone that is not given.
unfoldable pub set_guest_profile_hints : Option Text → Option Storage → Option Storage
set_guest_profile_hints phone none = none
set_guest_profile_hints none (some s) = some s
set_guest_profile_hints (some phone) (some s) =
    if truthy (trim phone)
    then some (attempt (set_item guest_phone_key (trim phone) s) s)
    else some s

-- What is registered.
pub record Registration : Type 0 where
  pub first_name : Text
  pub phone : Text
  pub lang : Text

-- The answer to a registration: its status, and what `res.json()` gives, `none` if that throws.
pub record Registered : Type 0 where
  pub status : ℕ
  pub client_id : Option (Option Text)

abbrev pub text_or_empty : Option Text → Text
text_or_empty none = []
text_or_empty (some s) = s

-- The saved language, if it is one of the four.
unfoldable pub lang_or_ru : Option Text → Text
lang_or_ru none = codes "ru"
lang_or_ru (some saved) =
    if same saved (codes "bg")
      || same saved (codes "en")
      || same saved (codes "uk")
      || same saved (codes "ru")
    then saved
    else codes "ru"

-- The name, the phone and the language on file; `none` if a read throws.
unfoldable pub read_profile : Storage → Option Registration
unfolding get_trimmed lang_or_ru
read_profile s = elim (get_trimmed "hunger_profile_name" s) [
  | none ↦ none
  | some name ↦ elim (get_trimmed guest_phone_key s) [
    | none ↦ none
    | some phone ↦ elim (get_item "hunger_lang" s) [
      | none ↦ none
      | some saved ↦ some (record {
        first_name = text_or_empty name;
        phone = text_or_empty phone;
        lang = lang_or_ru saved;
      })
    ]
  ]
]

-- What is done with the reply: whether there is a session now, and the storage.
unfoldable pub keep_registered : Option Registered → Storage → Bool × Option Storage
unfolding set_guest_client_id is_ok
keep_registered none s = (false, some s)
keep_registered (some r) s = if not (is_ok r.status) then (false, some s) else elim r.client_id [
  | none ↦ (false, some s)
  | some none ↦ (false, some s)
  | some (some id) ↦ if truthy id then (true, set_guest_client_id id (some s)) else (false, some s)
]

-- `first_name: name || 'Guest'`
unfoldable pub registration_of : Registration → Registration
registration_of p = record p {
  first_name = if truthy p.first_name then p.first_name else codes "Guest";
}

-- From the read of the profile to the end.
unfoldable pub register :
    (Registration → Option Registered) → Option Registration → Storage → Bool × Option Storage
unfolding keep_registered registration_of
register server none s = (false, some s)
register server (some p) s =
    if not (truthy p.first_name) && not (truthy p.phone)
    then (false, some s)
    else keep_registered (server (registration_of p)) s

-- What follows the test `if (getGuestClientId())`.
unfoldable pub ensure_from :
    (Registration → Option Registered) → Option Text → Storage → Bool × Option Storage
unfolding read_profile register
ensure_from server (some id) s = (true, some s)
ensure_from server none s = register server (read_profile s) s

unfoldable pub ensure_browser_guest_session :
    (Registration → Option Registered) → Option Storage → Bool × Option Storage
unfolding ensure_from
ensure_browser_guest_session server none = (false, none)
ensure_browser_guest_session server (some s) = ensure_from server (get_guest_client_id (some s)) s

-- The headers by which the backend knows the user, by the trimmed `initData` and the guest's id.
unfoldable pub auth_headers : Text → Option Text → List (String × Text)
auth_headers tg guest =
    if truthy tg
    then ("x-telegram-init-data", tg) ∷ []
    else elim guest [ none ↦ [] | some id ↦ ("x-guest-client-id", id) ∷ [] ]

unfoldable pub mini_app_auth_headers : Option Text → Option Storage → List (String × Text)
unfolding auth_headers get_guest_client_id
mini_app_auth_headers init_data s =
    auth_headers (trim (text_or_empty init_data)) (get_guest_client_id s)

-- `Boolean(a || b)`, where a guest's id is never empty.
unfoldable pub has_auth : Text → Option Text → Bool
has_auth tg guest = truthy tg || elim guest [ none ↦ false | some id ↦ truthy id ]

unfoldable pub has_mini_app_auth : Option Text → Option Storage → Bool
unfolding has_auth get_guest_client_id
has_mini_app_auth init_data s = has_auth (trim (text_or_empty init_data)) (get_guest_client_id s)
