-- ===== src/Broadcasts/Loading.antt =====
-- The state of the wizard of a broadcast, the body that it saves and what it restores from a saved
-- one (frontend/src/app/(admin)/broadcasts/new/broadcast-wizard.tsx).
use hunger_platform.Prelude.{
  pos, ℕ, String, Bool, true, false, Option, none, some, List, [], ◌∷◌, ◌++◌, map, Text, codes,
  trim, same, truthy, if◌then◌else◌, lookup,
}
use hunger_platform.Wizard.Handlers.{filter}
use hunger_platform.Broadcasts.{
  Lang, en, Messages, empty_i18n, SegmentKind, all_clients, new_last_n, dormant, birthday_range,
  by_service, by_master, vip, regular, by_tag, by_lang, no_show, unknown, Options, Value, truth,
  num, str, build_criteria, url, mini_app, Button, SavedButton, BroadcastBody, inline_payload,
}

-- A save in flight: the id that it patches, or the empty one where it creates, what it saves, and
-- whether the next step waits for it.
pub record Save : Type 0 where
  pub target : Text
  pub body : BroadcastBody
  pub advances : Bool

pub record State : Type 0 where
  pub step : ℕ
  pub is_sent : Bool
  pub broadcast_id : Text
  pub initialized : Bool
  pub title : Text
  pub segment_kind : SegmentKind
  pub options : Options
  pub msg : Messages
  pub message_lang : Lang
  pub message_translating : Bool
  pub media_url : Text
  pub media_type : Text
  pub is_uploading : Bool
  -- The uploads in flight, each with the type that was chosen when it began.
  pub uploads : List Text
  pub button_rows : List (List Button)
  pub send_now : Bool
  pub schedule_local : Text
  -- The saves in flight, the latest first, and whether the latest is.
  pub saving : List Save
  pub save_pending : Bool
  pub send_pending : Bool
  -- What the backend has confirmed, and what it was asked to send, the latest first.
  pub saved : List (Text × BroadcastBody)
  pub sent : List (Text × Option Text)

abbrev pub default_options : Options
default_options = record {
  exclude_blacklist = true;
  exclude_marketing_opt_out = true;
  days = pos 7;
  days_ahead = pos 7;
  service_id = [];
  master_id = [];
  top_percent = pos 10;
  min_bookings = pos 3;
  tag = [];
  lang = codes "en";
  min_no_show = pos 1;
}

-- The page as it opens, with the id of the broadcast to edit or the empty one.
unfoldable pub start : Text → State
start edit_id = record {
  step = 1;
  is_sent = false;
  broadcast_id = edit_id;
  initialized = false;
  title = [];
  segment_kind = all_clients;
  options = default_options;
  msg = empty_i18n;
  message_lang = en;
  message_translating = false;
  media_url = [];
  media_type = codes "photo";
  is_uploading = false;
  uploads = [];
  button_rows = [];
  send_now = true;
  schedule_local = [];
  saving = [];
  save_pending = false;
  send_pending = false;
  saved = [];
  sent = [];
}

-- `s || t`
unfoldable pub text_or_else : Text → Text → Text
text_or_else s t = if truthy s then s else t

-- `s || null`
unfoldable pub or_null : Text → Option Text
or_null s = if truthy s then some s else none

-- `o ?? t`
unfoldable pub text_or : Option Text → Text → Text
text_or none t = t
text_or (some s) t = s

unfoldable pub entries : Messages → List (String × Text)
entries m = ("en", m.en) ∷ ("ru", m.ru) ∷ ("uk", m.uk) ∷ ("bg", m.bg) ∷ []

unfoldable pub body_of : State → BroadcastBody
unfolding text_or_else or_null entries
body_of s = record {
  title = text_or_else (trim s.title) (codes "Broadcast");
  message_i18n = entries s.msg;
  segment = build_criteria s.segment_kind s.options;
  media_url = or_null (trim s.media_url);
  media_type =
      if truthy (trim s.media_url) then some (text_or_else s.media_type (codes "photo")) else none;
  inline_keyboard = inline_payload s.button_rows;
}

unfoldable pub kind_of : Text → SegmentKind
kind_of t =
    if same t (codes "all")
    then all_clients
    else if same t (codes "new_last_n")
    then new_last_n
    else if same t (codes "dormant")
    then dormant
    else if same t (codes "birthday_range")
    then birthday_range
    else if same t (codes "by_service")
    then by_service
    else if same t (codes "by_master")
    then by_master
    else if same t (codes "vip")
    then vip
    else if same t (codes "regular")
    then regular
    else if same t (codes "by_tag")
    then by_tag
    else if same t (codes "by_lang")
    then by_lang
    else if same t (codes "no_show")
    then no_show
    else unknown t

unfoldable pub kind_or : Option Value → SegmentKind → SegmentKind
unfolding kind_of
kind_or (some (str t)) k = if truthy t then kind_of t else k
kind_or (some (num _)) k = k
kind_or (some (truth _)) k = k
kind_or none k = k

unfoldable pub messages_of : List (String × Text) → Messages
unfolding text_or
messages_of l = record {
  en = text_or (lookup "en" l) [];
  ru = text_or (lookup "ru" l) [];
  uk = text_or (lookup "uk" l) [];
  bg = text_or (lookup "bg" l) [];
}

unfoldable pub has_url : SavedButton → Bool
unfolding text_or
has_url b = truthy (text_or b.url [])

unfoldable pub loaded_button : SavedButton → Button
unfolding text_or
loaded_button b = record {
  text = b.text;
  url = text_or b.url [];
  type = if same (text_or b.type []) (codes "mini_app") then mini_app else url;
}

unfoldable pub loaded_row : List SavedButton → List Button
unfolding has_url loaded_button
loaded_row row = map loaded_button (filter has_url row)

unfoldable pub loaded_rows : Option (List (List SavedButton)) → List (List Button)
unfolding loaded_row
loaded_rows none = []
loaded_rows (some rows) = map loaded_row rows

-- The effect that restores a saved broadcast, once; `duplicate` where it is to be copied.
unfoldable pub loaded : Bool → BroadcastBody → State → State
unfolding messages_of loaded_rows kind_or text_or
loaded duplicate b s = if s.initialized then s else record s {
  initialized = true;
  title = if duplicate then b.title ++ codes " (копия)" else b.title;
  msg = messages_of b.message_i18n;
  media_url = text_or b.media_url [];
  media_type = text_or b.media_type (codes "photo");
  button_rows = loaded_rows b.inline_keyboard;
  segment_kind = kind_or (lookup "type" b.segment) s.segment_kind;
}
