-- ===== src/Assistant/Events.antt =====
-- What can happen in the chat with the assistant
-- (frontend/src/app/mini-app/hooks/useMiniAppChat.ts and
-- frontend/src/app/mini-app/components/ChatDrawer.tsx).
use hunger_platform.Prelude.{
  Bool, true, false, ◌&&◌, ◌||◌, not, Option, none, some, List, [], ◌∷◌, ◌++◌, Text, truthy,
  if◌then◌else◌, length, ◌==◌,
}
use hunger_platform.Assistant.{
  user, assistant, ChatButtonItem, AiChatMsg, AiApiResponse, State, reply_message, failure_message,
  handle_send_ai,
}

-- The answer to the request in flight, or `none` where something threw.
unfoldable pub after_reply : Option AiApiResponse → State → State
unfolding reply_message failure_message
after_reply none s = record s { messages = s.messages ++ (failure_message ∷ []) }
after_reply (some res) s = record s {
  conversation_id = if truthy res.conversation_id then res.conversation_id else s.conversation_id;
  messages = s.messages ++ (reply_message res ∷ []);
}

-- The rest of `send`, with its `finally`.
unfoldable pub replied : Option AiApiResponse → State → State
unfolding after_reply
replied res s = elim s.waiting [
  | [] ↦ s
  | _ ∷ rest ↦ record (after_reply res s) { loading = false; waiting = rest }
]

-- `resetAi`, with what else the drawer forgets some time after it was closed.
unfoldable pub closed : State → State
closed s = record s { messages = []; conversation_id = []; input = []; pending_image = [] }

-- A message shows its buttons.
unfoldable pub shows : AiChatMsg → Bool
shows m = not (length m.buttons == 0) && not m.buttons_disabled

unfoldable pub is_assistant : AiChatMsg → Bool
is_assistant m = elim m.role [ user ↦ false | assistant ↦ true ]

-- A message of the assistant is among these.
unfoldable pub has_assistant : List AiChatMsg → Bool
unfolding is_assistant
has_assistant [] = false
has_assistant (m ∷ ms) = is_assistant m || has_assistant ms

-- The last message of the assistant shows its buttons, wherever it stands.
unfoldable pub shows_buttons : List AiChatMsg → Bool
unfolding shows is_assistant has_assistant
shows_buttons [] = false
shows_buttons (m ∷ ms) = if has_assistant ms then shows_buttons ms else is_assistant m && shows m

pub data Event : Type 0 where
  typed image_chosen : Text → Event
  sent : Event
  pressed : ChatButtonItem → Event
  answered : Option AiApiResponse → Event
  closed_drawer : Event
  flags : Bool → Event

unfoldable pub step : Event → State → State
unfolding handle_send_ai replied closed shows_buttons
step (typed t) s = record s { input = t }
step (image_chosen url) s = record s { pending_image = url }
step sent s = handle_send_ai none s
step (pressed b) s = if shows_buttons s.messages then handle_send_ai (some b) s else s
step (answered res) s = replied res s
step closed_drawer s = closed s
step (flags allowed) s = record s { booking_via_ai = allowed }

unfoldable pub run : List Event → State → State
unfolding step
run [] s = s
run (e ∷ es) s = run es (step e s)
