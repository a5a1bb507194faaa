-- ===== src/Referral.antt =====
-- Referral codes (frontend/src/app/mini-app/lib/referral.ts). Letters are put in upper case as ASCII
-- letters are; the codes of the salon are ASCII. The functions run in a
-- browser: their answer without a window is not modelled.
pub mod Codes
pub mod Capture
pub mod Apply
pub mod Share
use hunger_platform.Prelude.{
  ℕ, zero, suc, ◌-◌, String, Bool, true, false, ◌&&◌, ◌||◌, not, Option, none, some, List, [], ◌∷◌,
  ◌++◌, map, leb, Text, codes, same, truthy, trim, starts_with, if◌then◌else◌,
}
use hunger_platform.Session.{is_ok}
use hunger_platform.Storage.{Storage, get_item, set_item, remove_item, attempt}

abbrev pub referral_storage_key : String
referral_storage_key = "hunger_referral_code"

unfoldable pub upper : ℕ → ℕ
upper c = if leb b'a' c && leb c b'z' then c - 32 else c

-- `s.toUpperCase()`
unfoldable pub to_upper_case : Text → Text
unfolding upper
to_upper_case s = map upper s

unfoldable pub normalize_referral_code : Text → Text
unfolding to_upper_case
normalize_referral_code raw = to_upper_case (trim raw)

-- `s.slice(n)`
unfoldable pub slice_from : ℕ → Text → Text
slice_from zero s = s
slice_from (suc n) [] = []
slice_from (suc n) (c ∷ s) = slice_from n s

-- What follows `const upper = …`.
unfoldable pub strip_ref : Text → Text
unfolding slice_from
strip_ref code = if starts_with code (codes "REF_") then slice_from 4 code else code

unfoldable pub parse_referral_from_start_param : Option Text → Text
unfolding strip_ref
parse_referral_from_start_param none = []
parse_referral_from_start_param (some p) =
    if not (truthy (trim p)) then [] else strip_ref (to_upper_case (trim p))

-- `sessionStorage`, as far as it holds the marks of the attempts: the keys that hold `'1'`.
pub record Marks : Type 0 where
  pub keys : List Text
  pub accessible : Bool
  pub has_room : Bool

-- What the mini app reads of its window: the `ref` of the query, Telegram's `start_param`, and the
-- two storages.
pub record Window : Type 0 where
  pub ref : Option Text
  pub start_param : Option Text
  pub local : Storage
  pub session : Marks

abbrev pub code_or_empty : Option Text → Text
code_or_empty none = []
code_or_empty (some v) = if truthy v then normalize_referral_code v else []

unfoldable pub read_referral_from_url : Window → Text
read_referral_from_url w = code_or_empty w.ref

unfoldable pub read_telegram_start_param_referral : Window → Text
unfolding parse_referral_from_start_param
read_telegram_start_param_referral w = parse_referral_from_start_param w.start_param

abbrev pub stored_or_empty : Option (Option Text) → Text
stored_or_empty none = []
stored_or_empty (some o) = code_or_empty o

unfoldable pub read_stored_referral_code : Window → Text
read_stored_referral_code w = stored_or_empty (get_item referral_storage_key w.local)

-- `a || b`
unfoldable pub or_text : Text → Text → Text
or_text a b = if truthy a then a else b

-- The code that is captured, and the window with the code kept.
unfoldable pub captured_code : Window → Text
unfolding or_text read_referral_from_url read_telegram_start_param_referral
captured_code w =
    or_text (read_referral_from_url w)
      (or_text (read_telegram_start_param_referral w) (read_stored_referral_code w))

unfoldable pub capture_referral_code : Window → Text × Window
unfolding captured_code
capture_referral_code w =
    if truthy (read_referral_from_url w) || truthy (read_telegram_start_param_referral w)
    then (
      captured_code w,
      record w {
        local = attempt (set_item referral_storage_key (captured_code w) w.local) w.local;
      },
    )
    else (captured_code w, w)

-- The key under which an attempt for a code is remembered.
unfoldable pub referral_apply_session_key : Text → Text
referral_apply_session_key code =
    codes "hunger_referral_apply_attempted:" ++ normalize_referral_code code

unfoldable pub mem : Text → List Text → Bool
mem k [] = false
mem k (j ∷ ks) = same k j || mem k ks

-- `sessionStorage.getItem(key) === '1'`, where an exception counts as no.
unfoldable pub is_marked : Text → Marks → Bool
unfolding mem
is_marked key m = m.accessible && mem key m.keys

-- `sessionStorage.setItem(key, '1')`; `none` is an exception.
unfoldable pub mark : Text → Marks → Option Marks
mark key m = if m.accessible && m.has_room then some (record m { keys = key ∷ m.keys }) else none

-- `localStorage.getItem('hunger_onboarded') === 'true'`, where an exception ends the function as
-- well as any other value.
unfoldable pub is_onboarded : Storage → Bool
is_onboarded s = elim (get_item "hunger_onboarded" s) [
  | none ↦ false
  | some none ↦ false
  | some (some v) ↦ same v (codes "true")
]

-- What is done when the patch is answered, by its status.
unfoldable pub after_patch : Text → ℕ → Window → Window
unfolding mark is_ok
after_patch code status w = elim (mark (referral_apply_session_key code) w.session) [
  | none ↦ w
  | some marked ↦
      if is_ok status
      then record w {
        session = marked;
        local = attempt (remove_item referral_storage_key w.local) w.local;
      }
      else record w { session = marked }
]

-- What follows the call; `none` is an exception.
unfoldable pub after_reply : Text → Option ℕ → Window → Window
unfolding after_patch
after_reply code none w = w
after_reply code (some status) w = after_patch code status w

-- What `tryApplyReferralForOnboardedUser` does with the code: the code that is sent, if any.
unfoldable pub try_apply_code : (Text → Option ℕ) → Text × Window → Option Text × Window
unfolding is_onboarded is_marked after_reply
try_apply_code server (code, w) =
    if not (truthy code)
      || not (is_onboarded w.local)
      || is_marked (referral_apply_session_key code) w.session
    then (none, w)
    else (some code, after_reply code (server code) w)

unfoldable pub try_apply_referral_for_onboarded_user :
    (Text → Option ℕ) → Window → Option Text × Window
unfolding try_apply_code capture_referral_code
try_apply_referral_for_onboarded_user server w = try_apply_code server (capture_referral_code w)
