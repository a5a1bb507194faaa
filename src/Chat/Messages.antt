-- ===== src/Chat/Messages.antt =====
-- What the page of the chats does with an event of its socket (`handleWsEvent` of
-- frontend/src/app/(admin)/chats/page.tsx), and the count on the badge
-- (frontend/src/components/layout/admin-app-shell.tsx). The sound and the browser's notification are one
-- flag here. Two things are parameters: `later a b`, for `a.localeCompare(b) > 0`, and the text that
-- stands for a message without one. The field `text` of a message is `body` here.
pub mod Delivery
use hunger_platform.Prelude.{
  ℕ, ◌+◌, Bool, true, false, ◌&&◌, ◌||◌, not, Option, none, some, List, [], ◌∷◌, ◌++◌, map, Text,
  codes, same, if◌then◌else◌,
}
use hunger_platform.Chat.Cache.{ChatListItem, Cache, set_query_data, at_client, mark_read}

pub data Direction : Type 0 where
  inbound outbound : Direction

pub data MessageType : Type 0 where
  text photo video voice document sticker : MessageType

pub data Channel : Type 0 where
  telegram whatsapp : Channel

abbrev pub channel_name : Channel → Text
channel_name telegram = codes "telegram"
channel_name whatsapp = codes "whatsapp"

pub record ChatMessage : Type 0 where
  pub id : Text
  pub client_id : Text
  pub direction : Direction
  pub message_type : MessageType
  pub body : Option Text
  pub media_path : Option Text
  pub tg_message_id : Option ℕ
  pub channel : Option Channel
  pub is_read : Bool
  pub created_at : Text

pub data WsEvent : Type 0 where
  new_message : ChatMessage → WsEvent
  read : Text → WsEvent

-- The caches that the handler writes: the messages by chat, the list, and whether it was invalidated.
pub record Caches : Type 0 where
  pub messages : Text → Option (List ChatMessage)
  pub list : Cache
  pub stale : Bool
  pub notified : Bool

-- `channel: raw.channel ?? "telegram"`
unfoldable pub with_channel : ChatMessage → ChatMessage
with_channel m = record m { channel = some (elim m.channel [ none ↦ telegram | some c ↦ c ]) }

-- `old.find((m) => m.id === msg.id)`, as a test.
unfoldable pub has_message : Text → List ChatMessage → Bool
has_message id [] = false
has_message id (m ∷ ms) = same m.id id || has_message id ms

unfoldable pub append_message : ChatMessage → List ChatMessage → List ChatMessage
unfolding has_message
append_message m old = if has_message m.id old then old else old ++ m ∷ []

abbrev pub or_empty : Option (List ChatMessage) → List ChatMessage
or_empty none = []
or_empty (some ms) = ms

-- `qc.setQueryData(chatKeys.messages(msg.client_id), …)`
unfoldable pub keep_message :
    ChatMessage → (Text → Option (List ChatMessage)) → Text → Option (List ChatMessage)
unfolding append_message
keep_message m messages key =
    if same key m.client_id then some (append_message m (or_empty (messages key))) else messages key

-- `old.find((c) => c.client_id === msg.client_id)`, as a test.
unfoldable pub has_chat : Text → List ChatListItem → Bool
has_chat id [] = false
has_chat id (c ∷ cs) = same c.client_id id || has_chat id cs

-- `msg.client_id !== activeId`
unfoldable pub is_elsewhere : Option Text → Text → Bool
is_elsewhere none id = true
is_elsewhere (some active) id = not (same id active)

-- `msg.direction === "inbound" && msg.client_id !== activeId`
unfoldable pub counts : Option Text → ChatMessage → Bool
unfolding is_elsewhere
counts active m = elim m.direction [ inbound ↦ is_elsewhere active m.client_id | outbound ↦ false ]

-- `chatList.reduce((s, c) => s + (Number(c.unread_count) || 0), 0)`
unfoldable pub total_unread : List ChatListItem → ℕ
total_unread [] = 0
total_unread (c ∷ cs) = c.unread_count + total_unread cs

abbrev pub date_of : Option Text → Text
date_of none = []
date_of (some d) = d

abbrev pub list_of : Cache → List ChatListItem
list_of none = []
list_of (some cs) = cs

module _ (fallback : MessageType → Text) where
  -- `msg.text ?? (msg.message_type !== "text" ? t(…) : "")`
  unfoldable pub preview : ChatMessage → Text
  preview m = elim m.body [
    | some s ↦ s
    | none ↦ elim m.message_type [ text ↦ [] | kind ↦ fallback kind ]
  ]

  -- The chat with the message as its last one.
  unfoldable pub with_last : Option Text → ChatMessage → ChatListItem → ChatListItem
  unfolding preview counts
  with_last active m c = record c {
    last_message = some (preview m);
    last_message_at = some m.created_at;
    last_message_channel = elim m.channel [ none ↦ none | some ch ↦ some (channel_name ch) ];
    unread_count = if counts active m then c.unread_count + 1 else c.unread_count;
  }

module _ (later : Text → Text → Bool) where
  -- A chat put in its place: before the first that is not later than it.
  unfoldable pub place : ChatListItem → List ChatListItem → List ChatListItem
  place c [] = c ∷ []
  place c (d ∷ ds) =
      let rest = place c ds in
      if later (date_of d.last_message_at) (date_of c.last_message_at) then d ∷ rest else c ∷ d ∷ ds

  -- `[...updated].sort(…)`, which is stable.
  unfoldable pub sort : List ChatListItem → List ChatListItem
  unfolding place
  sort [] = []
  sort (c ∷ cs) = place c (sort cs)

module _ (later : Text → Text → Bool) (fallback : MessageType → Text) where
  -- The function that is handed to `setQueryData` for the list.
  unfoldable pub update_list : Option Text → ChatMessage → List ChatListItem → List ChatListItem
  unfolding sort with_last has_chat at_client
  update_list active m old =
      if has_chat m.client_id old
      then sort later (map (at_client m.client_id (with_last fallback active m)) old)
      else old

  unfoldable pub handle_ws_event : Option Text → WsEvent → Caches → Caches
  unfolding update_list keep_message with_channel counts set_query_data mark_read has_chat
  handle_ws_event active (new_message raw) s = record s {
    messages = keep_message (with_channel raw) s.messages;
    list = set_query_data (update_list active (with_channel raw)) s.list;
    stale = s.stale || not (has_chat raw.client_id (list_of s.list));
    notified = s.notified || counts active raw;
  }
  handle_ws_event active (read id) s = record s { list = mark_read id s.list }
