-- ===== src/Examples/MiniApp.antt =====
-- The mini app in concrete browsers (frontend/src/app/mini-app/lib/guest-client.ts and
-- frontend/src/app/mini-app/lib/referral.ts).
use hunger_platform.Prelude.{
  ℕ, ◌≡◌, refl, true, false, Option, none, some, [], ◌∷◌, Text, codes, truthy, trim,
}
use hunger_platform.Session.{present, is_ok}
use hunger_platform.Storage.{Storage, IsWorking}
use hunger_platform.Guest.{Registration, Registered}
use hunger_platform.Guest.Ensure.{brings}
use hunger_platform.Referral.{Window}
use hunger_platform.Referral.Share.{Env}

-- A browser with the profile of a guest who is not registered, and one that is full.
abbrev guest_storage : Storage
guest_storage = record {
  items = ("hunger_profile_name", codes "Ana") ∷ ("hunger_onboarded", codes "true") ∷ [];
  accessible = true;
  has_room = true;
}

abbrev full_storage : Storage
full_storage = record guest_storage { has_room = false }

abbrev ana : Registration
ana = record { first_name = codes "Ana"; phone = []; lang = codes "ru" }

-- A server that registers everybody under one id.
abbrev registers : Registration → Option Registered
registers p = some (record { status = 200; client_id = some (some (codes "g1")) })

storage_IsWorking : IsWorking guest_storage
storage_IsWorking = record { is_open = refl; roomy = refl }

id_not_blank :
    (p : Registration) (id : Text) → brings (registers p) ≡ some id → truthy (trim id) ≡ true
unfolding brings is_ok present truthy trim
id_not_blank p id e = let same_text : codes "g1" ≡ id = cc in rw (← same_text) refl

-- A window that is opened with a code.
abbrev some_window : Window
some_window = record {
  ref = some (codes "ab1");
  start_param = none;
  local = guest_storage;
  session = record { keys = []; accessible = true; has_room = true };
}

abbrev applies : Text → Option ℕ
applies code = some 409

-- An environment without any setting.
abbrev bare_env : Env
bare_env = record {
  encode = λ s. s;
  next_public_app_url = none;
  telegram_bot_username = none;
  window_origin = some (codes "https://salon.example");
}
