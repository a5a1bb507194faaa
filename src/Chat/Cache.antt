-- ===== src/Chat/Cache.antt =====
-- The list of chats that the browser keeps, and what a mutation that succeeds does to it
-- (frontend/src/hooks/useChatData.ts: `useMarkRead`, `useAssignChatTag`, `useUnassignChatTag`,
-- `useUpdateChatNote`, `useDeleteChat`). `none` for the cache says that no list is there.
-- `undefined` and `null` are one value here.
pub mod Updates
use hunger_platform.Prelude.{
  ℕ, Bool, Option, none, some, List, [], ◌∷◌, map, not, Text, same, if◌then◌else◌,
}

pub record ChatTagSummary : Type 0 where
  pub id : Text
  pub name : Text
  pub color : Text

pub record ChatListItem : Type 0 where
  pub client_id : Text
  pub tg_user_id : Option ℕ
  pub first_name : Option Text
  pub last_name : Option Text
  pub last_message : Option Text
  pub last_message_at : Option Text
  pub last_message_channel : Option Text
  pub unread_count : ℕ
  pub note : Option Text
  pub tags : List ChatTagSummary
  pub can_reply_telegram : Option Bool
  pub can_reply_whatsapp : Option Bool

abbrev pub Cache : Type 0
Cache = Option (List ChatListItem)

-- `qc.setQueryData(chatKeys.list, (old = []) => f(old))`
unfoldable pub set_query_data : (List ChatListItem → List ChatListItem) → Cache → Cache
set_query_data f none = some (f [])
set_query_data f (some old) = some (f old)

-- `c.client_id === clientId ? f(c) : c`
unfoldable pub at_client : Text → (ChatListItem → ChatListItem) → ChatListItem → ChatListItem
at_client client_id f c = if same c.client_id client_id then f c else c

unfoldable pub mark_read : Text → Cache → Cache
unfolding set_query_data at_client
mark_read client_id =
    set_query_data (map (at_client client_id (λ c. record c { unread_count = 0 })))

-- `useAssignChatTag` and `useUnassignChatTag`: the tags are those that the server sends.
unfoldable pub set_tags : Text → List ChatTagSummary → Cache → Cache
unfolding set_query_data at_client
set_tags client_id tags = set_query_data (map (at_client client_id (λ c. record c { tags = tags })))

unfoldable pub update_chat_note : Text → Option Text → Cache → Cache
unfolding set_query_data at_client
update_chat_note client_id note =
    set_query_data (map (at_client client_id (λ c. record c { note = note })))

-- `old.filter((c) => c.client_id !== clientId)`
unfoldable pub without : Text → List ChatListItem → List ChatListItem
without client_id [] = []
without client_id (c ∷ cs) =
    let rest = without client_id cs in if not (same c.client_id client_id) then c ∷ rest else rest

unfoldable pub delete_chat : Text → Cache → Cache
unfolding set_query_data without
delete_chat client_id = set_query_data (without client_id)
