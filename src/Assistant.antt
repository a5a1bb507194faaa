-- ===== src/Assistant.antt =====
-- The chat with the salon's assistant in the mini app (`useAiChat` of
-- frontend/src/app/mini-app/hooks/useMiniAppChat.ts and its use in
-- frontend/src/app/mini-app/components/ChatDrawer.tsx), as a machine whose steps are what the user does
-- and the answers of the backend. An address, an id or a list that is absent is empty.
pub mod Events
pub mod Exchange
pub mod Transcript
use hunger_platform.Prelude.{
  ℕ, Bool, true, false, ◌&&◌, ◌||◌, not, Option, none, some, List, [], ◌∷◌, ◌++◌, Text, codes,
  truthy, trim, starts_with, if◌then◌else◌, ◌==◌,
}

pub data Role : Type 0 where
  user assistant : Role

pub record ChatButtonItem : Type 0 where
  pub label : Text
  pub value : Text

pub record AiChatMsg : Type 0 where
  pub role : Role
  pub content : Text
  pub image_data_url : Text
  pub buttons : List ChatButtonItem
  pub buttons_disabled : Bool
  pub has_more_slots : Bool
  pub all_slots : List Text
  pub slot_buttons : List ChatButtonItem

pub record AiApiResponse : Type 0 where
  pub reply : Option Text
  pub conversation_id : Text
  pub buttons : List ChatButtonItem
  pub has_more_slots : Bool
  pub all_slots : List Text
  pub slot_buttons : List ChatButtonItem

-- The body of a request.
pub record Request : Type 0 where
  pub message : Text
  pub conversation_id : Text
  pub image_base64 : Option Text
  pub image_mime_type : Text
  pub button : Option ChatButtonItem

-- `waiting` are the requests in flight.
pub record State : Type 0 where
  pub messages : List AiChatMsg
  pub loading : Bool
  pub conversation_id : Text
  pub booking_via_ai : Bool
  pub input : Text
  pub pending_image : Text
  pub waiting : List Request

unfoldable pub start : State
start = record {
  messages = [];
  loading = false;
  conversation_id = [];
  booking_via_ai = false;
  input = [];
  pending_image = [];
  waiting = [];
}

-- `[^;]+;` at the start of a text: what stands before the first `;`, and the rest.
unfoldable pub until_semicolon : Text → Option (Text × Text)
until_semicolon [] = none
until_semicolon (c ∷ t) =
    let rest = until_semicolon t in
    if c == 59 then some ([], t) else elim rest [ none ↦ none | some (a, b) ↦ some (c ∷ a, b) ]

unfoldable pub has_line_end : Text → Bool
has_line_end [] = false
has_line_end (c ∷ t) = c == 10 || c == 13 || c == 8232 || c == 8233 || has_line_end t

unfoldable pub drop_chars : Text → Text → Text
drop_chars [] t = t
drop_chars (_ ∷ p) [] = []
drop_chars (_ ∷ p) (_ ∷ t) = drop_chars p t

-- The type and the data of `data:([^;]+);base64,(.+)`.
unfoldable pub parts_of : Option (Text × Text) → Option (Text × Text)
unfolding has_line_end drop_chars
parts_of none = none
parts_of (some (mime, rest)) =
    let body = drop_chars (codes "base64,") rest in
    if truthy mime && starts_with rest (codes "base64,") && truthy body && not (has_line_end body)
    then some (mime, body)
    else none

unfoldable pub data_url_parts : Text → Option (Text × Text)
unfolding until_semicolon parts_of drop_chars
data_url_parts t =
    if starts_with t (codes "data:")
    then parts_of (until_semicolon (drop_chars (codes "data:") t))
    else none

-- Before a message of the user, the last message loses its buttons.
unfoldable pub disable_buttons : AiChatMsg → AiChatMsg
disable_buttons m = elim m.role [ user ↦ m | assistant ↦ record m { buttons_disabled = true } ]

unfoldable pub disable_last : List AiChatMsg → List AiChatMsg
unfolding disable_buttons
disable_last [] = []
disable_last (m ∷ []) = disable_buttons m ∷ []
disable_last (m ∷ n ∷ ms) = m ∷ disable_last (n ∷ ms)

unfoldable pub user_message : Text → Text → AiChatMsg
user_message content image = record {
  role = user;
  content = content;
  image_data_url = image;
  buttons = [];
  buttons_disabled = false;
  has_more_slots = false;
  all_slots = [];
  slot_buttons = [];
}

-- `data.reply ?? '...'`
unfoldable pub reply_or_dots : Option Text → Text
reply_or_dots none = codes "..."
reply_or_dots (some t) = t

unfoldable pub reply_message : AiApiResponse → AiChatMsg
unfolding reply_or_dots
reply_message res = record {
  role = assistant;
  content = reply_or_dots res.reply;
  image_data_url = [];
  buttons = res.buttons;
  buttons_disabled = false;
  has_more_slots = res.has_more_slots;
  all_slots = res.all_slots;
  slot_buttons = res.slot_buttons;
}

abbrev failure_text : Text
failure_text = codes "Не удалось получить ответ. Попробуйте позже."

unfoldable pub failure_message : AiChatMsg
failure_message = record {
  role = assistant;
  content = failure_text;
  image_data_url = [];
  buttons = [];
  buttons_disabled = false;
  has_more_slots = false;
  all_slots = [];
  slot_buttons = [];
}

-- `text || (imageDataUrl ? '…' : '')`
unfoldable pub message_text : Text → Text → Text
message_text text image =
    if truthy text then text else if truthy image then codes "Проанализируй это фото" else []

unfoldable pub image_parts : Text → Option (Text × Text)
unfolding data_url_parts
image_parts image = if truthy image then data_url_parts image else none

unfoldable pub request_of : Text → Text → Option ChatButtonItem → State → Request
unfolding message_text image_parts
request_of text image button s = record {
  message = elim button [ none ↦ message_text text image | some _ ↦ [] ];
  conversation_id = s.conversation_id;
  image_base64 = elim (image_parts image) [ none ↦ none | some parts ↦ some parts.1 ];
  image_mime_type = elim (image_parts image) [ none ↦ codes "image/jpeg" | some parts ↦ parts.0 ];
  button = button;
}

-- What the bubble of the message shows: the label of a button, without the image.
unfoldable pub sent_message : Text → Text → Option ChatButtonItem → AiChatMsg
unfolding user_message
sent_message text image none = user_message text image
sent_message text image (some b) = user_message b.label []

-- `send`, up to its answer.
unfoldable pub send : Text → Text → Option ChatButtonItem → State → State
unfolding disable_last sent_message request_of
send text image button s = record s {
  messages = disable_last s.messages ++ (sent_message text image button ∷ []);
  loading = true;
  waiting = request_of text image button s ∷ s.waiting;
}

unfoldable pub is_some {ℓ} : {A : Type ℓ} → Option A → Bool
is_some none = false
is_some (some _) = true

-- `handleSendAi`
unfoldable pub handle_send_ai : Option ChatButtonItem → State → State
unfolding send is_some
handle_send_ai button s =
    let text = trim s.input in
    if (not (truthy text) && not (truthy s.pending_image) && not (is_some button)) || s.loading
    then s
    else send text s.pending_image button (record s { pending_image = []; input = [] })
