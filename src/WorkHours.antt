-- ===== src/WorkHours.antt =====
-- The working hours of the salon in the settings
-- (frontend/src/app/(admin)/settings/settings-section.tsx).
use hunger_platform.Prelude.{
  ◌≡◌, refl, Bool, true, false, String, Option, none, some, List, [], ◌∷◌, map, Text, codes, lookup,
}

-- The days of the week, "1" being Monday.
pub data WhDayKey : Type 0 where
  day_1 day_2 day_3 day_4 day_5 day_6 day_7 : WhDayKey

abbrev pub wh_day_keys : List WhDayKey
wh_day_keys = day_1 ∷ day_2 ∷ day_3 ∷ day_4 ∷ day_5 ∷ day_6 ∷ day_7 ∷ []

unfoldable pub key_name : WhDayKey → String
key_name day_1 = "1"
key_name day_2 = "2"
key_name day_3 = "3"
key_name day_4 = "4"
key_name day_5 = "5"
key_name day_6 = "6"
key_name day_7 = "7"

pub record WhDayState : Type 0 where
  pub enabled : Bool
  pub start : Text
  pub end : Text

abbrev pub WhFormState : Type 0
WhFormState = WhDayKey → WhDayState

-- A day as it is stored: an object, with `Boolean(o.enabled)` and the texts that are there, or
-- anything else.
pub data RawDay : Type 0 where
  day_object : Bool → Option Text → Option Text → RawDay
  no_object : RawDay

unfoldable from_nine : WhDayState
from_nine = record { enabled = true; start = codes "09:00"; end = codes "18:00" }

unfoldable pub base_hours : WhFormState
unfolding from_nine
base_hours day_6 = record { enabled = true; start = codes "10:00"; end = codes "15:00" }
base_hours day_7 = record { enabled = false; start = codes "00:00"; end = codes "00:00" }
base_hours _ = from_nine

-- `String(o.start ?? out[k].start)`
unfoldable text_or_base : Option Text → Text → Text
text_or_base none t = t
text_or_base (some s) t = s

unfoldable with_raw : Option RawDay → WhDayState → WhDayState
unfolding text_or_base
with_raw (some (day_object b s e)) d = record {
  enabled = b;
  start = text_or_base s d.start;
  end = text_or_base e d.end;
}
with_raw (some no_object) d = d
with_raw none d = d

-- `normalizeWorkingHoursDefault`, where `none` is what is no object.
unfoldable pub normalize_working_hours_default : Option (List (String × RawDay)) → WhFormState
unfolding with_raw base_hours key_name lookup
normalize_working_hours_default none k = base_hours k
normalize_working_hours_default (some raw) k = with_raw (lookup (key_name k) raw) (base_hours k)

-- `whFormToApiPayload`
unfoldable pub wh_form_to_api_payload : WhFormState → List (String × WhDayState)
unfolding key_name
wh_form_to_api_payload form = map (λ k. (key_name k, form k)) wh_day_keys

-- What the backend returns of a day that it was given.
unfoldable pub stored_day : String × WhDayState → String × RawDay
stored_day (name, d) = (name, day_object d.enabled (some d.start) (some d.end))

-- Hours that were saved are read again as they were, for each day.
normalize-payload :
    (form : WhFormState) (k : WhDayKey)
    → normalize_working_hours_default (some (map stored_day (wh_form_to_api_payload form))) k
      ≡ form k
unfolding normalize_working_hours_default wh_form_to_api_payload stored_day with_raw text_or_base
    key_name lookup
normalize-payload form day_1 = refl
normalize-payload form day_2 = refl
normalize-payload form day_3 = refl
normalize-payload form day_4 = refl
normalize-payload form day_5 = refl
normalize-payload form day_6 = refl
normalize-payload form day_7 = refl
