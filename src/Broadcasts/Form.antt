-- ===== src/Broadcasts/Form.antt =====
-- The handlers of the form in the wizard of a broadcast
-- (frontend/src/app/(admin)/broadcasts/new/broadcast-wizard.tsx). A control that the step does not show
-- changes nothing.
use hunger_platform.Prelude.{
  ℤ, pos, ℕ, suc, zero, Bool, true, ◌||◌, Option, none, some, List, [], ◌∷◌, ◌++◌, Text, trim,
  truthy, if◌then◌else◌, ◌==◌,
}
use hunger_platform.Wizard.Submission.{remove_nth}
use hunger_platform.Broadcasts.{
  Lang, set_message, SegmentKind, new_last_n, dormant, birthday_range, by_service, by_master, vip,
  regular, by_tag, by_lang, no_show, Options, Button, LinkType, url,
}
use hunger_platform.Broadcasts.Loading.{State}

unfoldable pub shown_on : ℕ → State → State → State
shown_on n t s = if s.step == n then t else s

-- `Number.parseInt(v, 10) || 1`
unfoldable pub or_one : Option ℤ → ℤ
or_one none = pos 1
or_one (some (pos zero)) = pos 1
or_one (some z) = z

-- What the controls of the segment hold: the one of its kind, and the two boxes.
pub data Field : Type 0 where
  typed_number : Option ℤ → Field
  typed_text : Text → Field
  checked_blacklist checked_opt_out : Bool → Field

unfoldable pub set_option : SegmentKind → Field → Options → Options
unfolding or_one
set_option k (checked_blacklist b) o = record o { exclude_blacklist = b }
set_option k (checked_opt_out b) o = record o { exclude_marketing_opt_out = b }
set_option new_last_n (typed_number z) o = record o { days = or_one z }
set_option dormant (typed_number z) o = record o { days = or_one z }
set_option birthday_range (typed_number z) o = record o { days_ahead = or_one z }
set_option vip (typed_number z) o = record o { top_percent = or_one z }
set_option regular (typed_number z) o = record o { min_bookings = or_one z }
set_option no_show (typed_number z) o = record o { min_no_show = or_one z }
set_option by_service (typed_text t) o = record o { service_id = t }
set_option by_master (typed_text t) o = record o { master_id = t }
set_option by_tag (typed_text t) o = record o { tag = t }
set_option by_lang (typed_text t) o = record o { lang = t }
set_option _ _ o = o

module _ {ℓ} {A : Type ℓ} where
  -- `xs.map((x, i) => (i === n ? f(x) : x))`
  unfoldable pub at : ℕ → (A → A) → List A → List A
  at n f [] = []
  at zero f (x ∷ xs) = f x ∷ xs
  at (suc n) f (x ∷ xs) = x ∷ at n f xs

-- A control of a button.
pub data ButtonEdit : Type 0 where
  link_type : LinkType → ButtonEdit
  button_text button_url : Text → ButtonEdit

unfoldable pub edit_button : ButtonEdit → Button → Button
edit_button (link_type t) b = record b { type = t }
edit_button (button_text v) b = record b { text = v }
edit_button (button_url v) b = record b { url = v }

abbrev pub empty_button : Button
empty_button = record { text = []; url = []; type = url }

pub data Edit : Type 0 where
  title_typed : Text → Edit
  kind_chosen : SegmentKind → Edit
  option_set : Field → Edit
  lang_chosen : Lang → Edit
  message_typed : Lang → Text → Edit
  media_type_chosen media_url_typed : Text → Edit
  row_added : Edit
  row_removed : ℕ → Edit
  button_edited : ℕ → ℕ → ButtonEdit → Edit
  now_checked : Bool → Edit
  schedule_typed : Text → Edit

-- The handlers of the form. A type of the media shows the field of its address, and no type empties it.
unfoldable pub edit : Edit → State → State
unfolding shown_on set_option set_message at edit_button remove_nth
edit (title_typed v) s = shown_on 1 (record s { title = v }) s
edit (kind_chosen k) s = shown_on 1 (record s { segment_kind = k }) s
edit (option_set f) s = shown_on 1 (record s { options = set_option s.segment_kind f s.options }) s
edit (lang_chosen l) s = shown_on 2 (record s { message_lang = l }) s
edit (message_typed l v) s = shown_on 2 (record s { msg = set_message l v s.msg }) s
edit (media_type_chosen t) s =
    shown_on 2 (record s { media_type = t; media_url = if truthy t then s.media_url else [] }) s
edit (media_url_typed v) s =
    shown_on 2 (record s { media_url = if truthy s.media_type then v else s.media_url }) s
edit row_added s =
    shown_on 2 (record s { button_rows = s.button_rows ++ ((empty_button ∷ []) ∷ []) }) s
edit (row_removed n) s = shown_on 2 (record s { button_rows = remove_nth n s.button_rows }) s
edit (button_edited r c e) s =
    shown_on 2 (record s { button_rows = at r (at c (edit_button e)) s.button_rows }) s
edit (now_checked b) s = shown_on 3 (record s { send_now = b }) s
edit (schedule_typed v) s =
    shown_on 3 (record s { schedule_local = if s.send_now then s.schedule_local else v }) s

-- A message in one of the languages is not blank.
unfoldable pub some_message : State → Bool
unfolding trim
some_message s =
    truthy (trim s.msg.en)
    || truthy (trim s.msg.ru)
    || truthy (trim s.msg.uk)
    || truthy (trim s.msg.bg)

unfoldable pub step_valid : State → Bool
unfolding some_message
step_valid s =
    if s.step == 1
    then truthy (trim s.title)
    else if s.step == 2
    then some_message s
    else if s.step == 3
    then s.send_now || truthy s.schedule_local
    else true
