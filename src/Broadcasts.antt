-- ===== src/Broadcasts.antt =====
-- The broadcasts of the salon: the form of the wizard, the segment that it describes and the body
-- that it saves (frontend/src/app/(admin)/broadcasts/new/broadcast-wizard.tsx). Texts are lists of code
-- units, with the empty one for the null of an id; small letters are those of ASCII.
pub mod Form
pub mod Loading
pub mod Events
pub mod Schema
pub mod Restored
pub mod Kept
pub mod Saved
use hunger_platform.Prelude.{
  ℕ, ℤ, ◌+◌, suc, String, Bool, true, false, ◌&&◌, Option, none, some, List, [], ◌∷◌, map, Text,
  codes, trim, trim_start, trim_end, keep_end, is_space, truthy, leb, if◌then◌else◌, length,
}
use hunger_platform.Wizard.Handlers.{filter}

pub data Lang : Type 0 where
  en ru uk bg : Lang

-- `Record<(typeof LANGS)[number], string>`
pub record Messages : Type 0 where
  pub en : Text
  pub ru : Text
  pub uk : Text
  pub bg : Text

unfoldable pub empty_i18n : Messages
empty_i18n = record { en = []; ru = []; uk = []; bg = [] }

-- `msg[l]`
unfoldable pub message : Lang → Messages → Text
message en m = m.en
message ru m = m.ru
message uk m = m.uk
message bg m = m.bg

-- `{ ...m, [l]: v }`
unfoldable pub set_message : Lang → Text → Messages → Messages
set_message en v m = record m { en = v }
set_message ru v m = record m { ru = v }
set_message uk v m = record m { uk = v }
set_message bg v m = record m { bg = v }

-- The kinds of the list, or what a saved broadcast brought.
pub data SegmentKind : Type 0 where
  all_clients new_last_n dormant birthday_range by_service by_master vip regular by_tag by_lang
        no_show :
      SegmentKind
  unknown : Text → SegmentKind

pub record Options : Type 0 where
  pub exclude_blacklist : Bool
  pub exclude_marketing_opt_out : Bool
  pub days : ℤ
  pub days_ahead : ℤ
  pub service_id : Text
  pub master_id : Text
  pub top_percent : ℤ
  pub min_bookings : ℤ
  pub tag : Text
  pub lang : Text
  pub min_no_show : ℤ

-- A value of the criteria.
pub data Value : Type 0 where
  truth : Bool → Value
  num : ℤ → Value
  str : Text → Value

abbrev pub Criteria : Type 0
Criteria = List (String × Value)

unfoldable pub lower_char : ℕ → ℕ
lower_char c = if leb 65 c && leb c 90 then c + 32 else c

-- `s.toLowerCase()`
unfoldable pub lower : Text → Text
unfolding lower_char
lower s = map lower_char s

unfoldable pub base : Options → Criteria
base o =
    ("exclude_blacklist", truth o.exclude_blacklist)
    ∷ ("exclude_marketing_opt_out", truth o.exclude_marketing_opt_out)
    ∷ []

unfoldable pub typed_as : String → Criteria → Criteria
typed_as name c = ("type", str (codes name)) ∷ c

unfoldable pub build_criteria : SegmentKind → Options → Criteria
unfolding base typed_as lower trim
build_criteria all_clients o = typed_as "all" (base o)
build_criteria new_last_n o = typed_as "new_last_n" (("days", num o.days) ∷ base o)
build_criteria dormant o = typed_as "dormant" (("days", num o.days) ∷ base o)
build_criteria birthday_range o =
    typed_as "birthday_range" (("days_ahead", num o.days_ahead) ∷ base o)
build_criteria by_service o = typed_as "by_service" (("service_id", str o.service_id) ∷ base o)
build_criteria by_master o = typed_as "by_master" (("master_id", str o.master_id) ∷ base o)
build_criteria vip o = typed_as "vip" (("top_percent", num o.top_percent) ∷ base o)
build_criteria regular o = typed_as "regular" (("min_bookings", num o.min_bookings) ∷ base o)
build_criteria by_tag o = typed_as "by_tag" (("tag", str (trim o.tag)) ∷ base o)
build_criteria by_lang o = typed_as "by_lang" (("lang", str (lower (trim o.lang))) ∷ base o)
build_criteria no_show o = typed_as "no_show" (("min_count", num o.min_no_show) ∷ base o)
build_criteria (unknown t) o = typed_as "all" (base o)

unfoldable pub can_preview : SegmentKind → Options → Bool
can_preview by_service o = truthy o.service_id
can_preview by_master o = truthy o.master_id
can_preview by_tag o = truthy (trim o.tag)
can_preview by_lang o = truthy (trim o.lang)
can_preview _ o = true

pub data LinkType : Type 0 where
  url mini_app : LinkType

pub record Button : Type 0 where
  pub text : Text
  pub url : Text
  pub type : LinkType

-- A button as the backend keeps it.
pub record SavedButton : Type 0 where
  pub text : Text
  pub url : Option Text
  pub type : Option Text

-- What is saved and what is loaded again.
pub record BroadcastBody : Type 0 where
  pub title : Text
  pub message_i18n : List (String × Text)
  pub segment : Criteria
  pub media_url : Option Text
  pub media_type : Option Text
  pub inline_keyboard : Option (List (List SavedButton))

unfoldable pub type_name : LinkType → Text
type_name url = codes "url"
type_name mini_app = codes "mini_app"

unfoldable pub has_link : Button → Bool
has_link b = truthy (trim b.text) && truthy (trim b.url)

unfoldable pub saved_button : Button → SavedButton
unfolding type_name
saved_button b = record {
  text = trim b.text;
  url = some (trim b.url);
  type = some (type_name b.type);
}

unfoldable pub saved_row : List Button → List SavedButton
unfolding filter has_link saved_button
saved_row row = map saved_button (filter has_link row)

unfoldable pub has_buttons {ℓ} : {A : Type ℓ} → List A → Bool
has_buttons [] = false
has_buttons (_ ∷ _) = true

unfoldable pub payload_rows : List (List Button) → List (List SavedButton)
unfolding saved_row has_buttons filter
payload_rows rows = filter has_buttons (map saved_row rows)

unfoldable pub rows_or_null : List (List SavedButton) → Option (List (List SavedButton))
rows_or_null [] = none
rows_or_null (r ∷ rs) = some (r ∷ rs)

unfoldable pub inline_payload : List (List Button) → Option (List (List SavedButton))
unfolding payload_rows rows_or_null
inline_payload rows = rows_or_null (payload_rows rows)
