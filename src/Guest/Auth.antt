-- ===== src/Guest/Auth.antt =====
-- Who the backend is told the user is (frontend/src/app/mini-app/lib/guest-client.ts).
use hunger_platform.Prelude.{
  ◌≡◌, ◌≢◌, refl, ◌↔◌, true, Option, none, some, [], Text, truthy, trim, trim_idem, if◌then◌else◌,
  arith, lookup,
}
use hunger_platform.Session.{present}
use hunger_platform.Storage.{Storage, IsWorking, get_item-set_item}
use hunger_platform.Guest.{
  guest_client_id_key, get_trimmed, get_guest_client_id, set_guest_client_id, id_or_null,
  auth_headers, mini_app_auth_headers, has_mini_app_auth, has_auth, text_or_empty,
}

present-truthy : (o : Option Text) (v : Text) → present o ≡ some v → truthy v ≡ true
unfolding present
present-truthy none v h = cc
present-truthy (some u) v h = ground arith

-- A guest's id that is read is not empty.
pub get_guest_client_id-truthy :
    (s : Option Storage) (id : Text) → get_guest_client_id s ≡ some id → truthy id ≡ true
unfolding get_guest_client_id
get_guest_client_id-truthy none id h = cc
get_guest_client_id-truthy (some s) id h = go (get_trimmed guest_client_id_key s) h
  where
    go : (o : Option (Option Text)) → id_or_null o ≡ some id → truthy id ≡ true
    go none e = cc
    go (some o) e = present-truthy o id e

auth_headers_iff :
    (tg : Text) (guest : Option Text)
    → ((id : Text) → guest ≡ some id → truthy id ≡ true)
    → (has_auth tg guest ≡ true) ↔ (auth_headers tg guest ≢ [])
unfolding has_auth auth_headers
auth_headers_iff tg none h = ground arith
auth_headers_iff tg (some id) h = ground (arith, h id refl)

-- `hasMiniAppAuth` tells just when `miniAppAuthHeaders` has something to send.
has_mini_app_auth_iff :
    (init_data : Option Text) (s : Option Storage)
    → (has_mini_app_auth init_data s ≡ true) ↔ (mini_app_auth_headers init_data s ≢ [])
unfolding has_mini_app_auth mini_app_auth_headers
has_mini_app_auth_iff init_data s =
    auth_headers_iff (trim (text_or_empty init_data)) (get_guest_client_id s)
      (get_guest_client_id-truthy s)

-- At most one identity is sent: that of Telegram, or else the guest's.
one_identity :
    (init_data : Option Text) (s : Option Storage)
    → (lookup "x-telegram-init-data" (mini_app_auth_headers init_data s)
        ≡ present (some (trim (text_or_empty init_data))))
      × (lookup "x-guest-client-id" (mini_app_auth_headers init_data s)
          ≡ (if truthy (trim (text_or_empty init_data)) then none else get_guest_client_id s))
unfolding mini_app_auth_headers auth_headers lookup present
one_identity init_data s = ground arith

-- An id that is kept is read back trimmed, unless it is blank.
pub get-set_guest_client_id :
    (id : Text) (s : Storage)
    → IsWorking s
    → get_guest_client_id (set_guest_client_id id (some s)) ≡ present (some (trim id))
unfolding get_guest_client_id set_guest_client_id get_trimmed
get-set_guest_client_id id s w =
    rw (get_item-set_item guest_client_id_key guest_client_id_key (trim id) s w, trim_idem) refl
