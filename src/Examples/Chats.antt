-- ===== src/Examples/Chats.antt =====
-- The chats of a concrete browser (frontend/src/hooks/useChatData.ts and
-- frontend/src/app/(admin)/chats/page.tsx).
use hunger_platform.Prelude.{
  ◌*◌, ◌^◌, ◌≤◌, ◌≡◌, refl, ltb, Text, Bool, false, true, none, some, [], ◌∷◌, codes, arith,
}
use hunger_platform.Chat.Messages.{ChatMessage, MessageType, photo, inbound, Caches}
use hunger_platform.Chat.Socket.{State, run, start, granted, opened, cleanup}
use hunger_platform.Chat.Socket.Cleanup.{run_cancelled}
use hunger_platform.Chat.Socket.Storm.{Has, storm, run-storm}
use hunger_platform.Chat.Cache.{ChatListItem}

-- The first call of `connect` waits for its ticket when the effect ends.
run_cancelled_example :
    ((run (cleanup ∷ granted ∷ opened ∷ []) start).created ≡ 0)
    × ((run (cleanup ∷ granted ∷ opened ∷ []) start).live ≤ 0)
unfolding start
run_cancelled_example = run_cancelled (granted ∷ opened ∷ []) start

-- One socket, and nothing else.
abbrev connected : State
connected = record start { connecting = 0; live = 1; created = 1 }

connected-Has : Has 0 0 0 1 connected
unfolding start
connected-Has = record {
  running = refl;
  errors_eq = refl;
  closes_eq = refl;
  waiting_eq = refl;
  sockets_eq = refl;
}

run-storm_example : Has 0 0 0 (1 * 2 ^ 3) (run (storm 3 1) connected)
run-storm_example = run-storm 3 1 connected (omega arith) connected-Has

abbrev one_chat : ChatListItem
one_chat = record {
  client_id = codes "c1";
  tg_user_id = some 7;
  first_name = some (codes "Ana");
  last_name = none;
  last_message = some (codes "hello");
  last_message_at = none;
  last_message_channel = none;
  unread_count = 2;
  note = none;
  tags = [];
  can_reply_telegram = some true;
  can_reply_whatsapp = none;
}

-- A list with the chat, and a message in it from the client. Dates are compared as numbers are, by
-- their first character.
abbrev first_later : Text → Text → Bool
first_later [] b = false
first_later (x ∷ a) [] = true
first_later (x ∷ a) (y ∷ b) = ltb y x

first_later_asym : (a b : Text) → first_later a b ≡ true → first_later b a ≡ false
first_later_asym [] b h = cc
first_later_asym (x ∷ a) [] h = refl
first_later_asym (x ∷ a) (y ∷ b) h = ground arith

abbrev no_text : MessageType → Text
no_text kind = codes "media"

abbrev some_message : ChatMessage
some_message = record {
  id = codes "m1";
  client_id = codes "c1";
  direction = inbound;
  message_type = photo;
  body = none;
  media_path = none;
  tg_message_id = none;
  channel = none;
  is_read = false;
  created_at = codes "2";
}

abbrev some_caches : Caches
some_caches = record {
  messages = λ key. none;
  list = some (one_chat ∷ record one_chat { client_id = codes "c2" } ∷ []);
  stale = false;
  notified = false;
}
