-- ===== src/Chat/Messages/Delivery.antt =====
-- Messages that are delivered, once or more often (`handleWsEvent` of
-- frontend/src/app/(admin)/chats/page.tsx).
use hunger_platform.Prelude.{
  ℕ, zero, suc, ◌+◌, ◌*◌, ◌≡◌, refl, inl, inr, Bool, true, false, Option, none, some, List, [], ◌∷◌,
  ◌++◌, map, Text, same, same_refl, if◌then◌else◌, arith, Bool-cases, ap, ◌∙◌,
}
use hunger_platform.Chat.Cache.{ChatListItem, Cache, set_query_data, at_client}
use hunger_platform.Chat.Messages.{
  ChatMessage, MessageType, new_message, Caches, with_channel, has_message, append_message,
  or_empty, keep_message, has_chat, counts, total_unread, list_of, date_of, with_last, place, sort,
  update_list, handle_ws_event,
}

-- How many rows of the list are of the chat.
unfoldable pub chat_count : Text → List ChatListItem → ℕ
chat_count id [] = 0
chat_count id (c ∷ cs) =
    let rest = chat_count id cs in if same c.client_id id then suc rest else rest

chat_count-absent :
    (id : Text) (cs : List ChatListItem) → has_chat id cs ≡ false → chat_count id cs ≡ 0
unfolding chat_count has_chat
chat_count-absent id [] h = refl
chat_count-absent id (c ∷ cs) h = ground (arith, chat_count-absent id cs)

-- The message delivered so many times.
unfoldable pub repeated {ℓ} : {A : Type ℓ} → ℕ → (A → A) → A → A
repeated zero f x = x
repeated (suc n) f x = repeated n f (f x)

-- No chat of the list is later than the one before it.
abbrev pub IsSorted : (Text → Text → Bool) → List ChatListItem → Type 0
IsSorted later [] = Unit
IsSorted later (c ∷ []) = Unit
IsSorted later (c ∷ d ∷ ds) =
    (later (date_of d.last_message_at) (date_of c.last_message_at) ≡ false)
    × IsSorted later (d ∷ ds)

module _ (later : Text → Text → Bool) where
  total_unread-place :
      (c : ChatListItem) (ds : List ChatListItem)
      → total_unread (place later c ds) ≡ c.unread_count + total_unread ds
  unfolding place total_unread
  total_unread-place c [] = refl
  total_unread-place c (d ∷ ds) = ground (arith, total_unread-place c ds)

  chat_count-place :
      (id : Text) (c : ChatListItem) (ds : List ChatListItem)
      → chat_count id (place later c ds) ≡ chat_count id (c ∷ ds)
  unfolding place chat_count
  chat_count-place id c [] = refl
  chat_count-place id c (d ∷ ds) = ground (arith, chat_count-place id c ds)

  total_unread-sort : (cs : List ChatListItem) → total_unread (sort later cs) ≡ total_unread cs
  unfolding sort total_unread
  total_unread-sort [] = refl
  total_unread-sort (c ∷ cs) =
      ground (arith, total_unread-place c (sort later cs), total_unread-sort cs)

  chat_count-sort :
      (id : Text) (cs : List ChatListItem) → chat_count id (sort later cs) ≡ chat_count id cs
  unfolding sort chat_count
  chat_count-sort id [] = refl
  chat_count-sort id (c ∷ cs) =
      ground (arith, chat_count-place id c (sort later cs), chat_count-sort id cs)

  place-IsSorted :
      ((a b : Text) → later a b ≡ true → later b a ≡ false)
      → (c : ChatListItem) (ds : List ChatListItem) → IsSorted later ds
      → IsSorted later (place later c ds)
  unfolding place
  place-IsSorted asym c [] h = tt
  place-IsSorted asym c (d ∷ []) h =
      ground (arith, asym (date_of d.last_message_at) (date_of c.last_message_at))
  place-IsSorted asym c (d ∷ e ∷ es) (first, h) =
      let rest : IsSorted later (place later c (e ∷ es)) = place-IsSorted asym c (e ∷ es) h in
      ground (arith, rest, asym (date_of d.last_message_at) (date_of c.last_message_at))

  sort-IsSorted :
      ((a b : Text) → later a b ≡ true → later b a ≡ false)
      → (cs : List ChatListItem) → IsSorted later (sort later cs)
  unfolding sort
  sort-IsSorted asym [] = tt
  sort-IsSorted asym (c ∷ cs) = place-IsSorted asym c (sort later cs) (sort-IsSorted asym cs)

has_message-append :
    (id : Text) (m : ChatMessage) (ms : List ChatMessage)
    → same m.id id ≡ true
    → has_message id (ms ++ m ∷ []) ≡ true
unfolding has_message
has_message-append id m [] h = ground arith
has_message-append id m (x ∷ ms) h = ground (arith, has_message-append id m ms h)

append_message_idem :
    (m : ChatMessage) (ms : List ChatMessage)
    → append_message m (append_message m ms) ≡ append_message m ms
unfolding append_message
append_message_idem m ms = elim (Bool-cases (has_message m.id ms)) [
  | inl there ↦ rw there (rw there refl)
  | inr new ↦ rw new (rw (has_message-append m.id m ms (same_refl m.id)) refl)
]

keep_message_idem :
    (m : ChatMessage) (messages : Text → Option (List ChatMessage)) (key : Text)
    → keep_message m (keep_message m messages) key ≡ keep_message m messages key
unfolding keep_message
keep_message_idem m messages key = elim (Bool-cases (same key m.client_id)) [
  | inl e ↦ rw e (ap some (append_message_idem m (or_empty (messages key))))
  | inr e ↦ rw e refl
]

-- What so many rows of the chat add to the badge.
unfoldable pub weight : Option Text → ChatMessage → ℕ → ℕ
weight active m n = if counts active m then n else 0

weight-with_channel :
    (active : Option Text) (m : ChatMessage) (n : ℕ)
    → weight active (with_channel m) n ≡ weight active m n
unfolding weight with_channel counts
weight-with_channel active m n = refl

list_of-set_query_data :
    (f : List ChatListItem → List ChatListItem) (c : Cache)
    → list_of (set_query_data f c) ≡ f (list_of c)
unfolding set_query_data
list_of-set_query_data f none = refl
list_of-set_query_data f (some cs) = refl

module _ (later : Text → Text → Bool) (fallback : MessageType → Text) where
  total_unread-map :
      (active : Option Text) (m : ChatMessage) (cs : List ChatListItem)
      → total_unread (map (at_client m.client_id (with_last fallback active m)) cs)
        ≡ total_unread cs + weight active m (chat_count m.client_id cs)
  unfolding total_unread at_client with_last weight chat_count
  total_unread-map active m [] = ground arith
  total_unread-map active m (c ∷ cs) = ground (arith, total_unread-map active m cs)

  chat_count-map :
      (id : Text) (active : Option Text) (m : ChatMessage) (cs : List ChatListItem)
      → chat_count id (map (at_client m.client_id (with_last fallback active m)) cs)
        ≡ chat_count id cs
  unfolding at_client with_last chat_count
  chat_count-map id active m [] = refl
  chat_count-map id active m (c ∷ cs) = ground (arith, chat_count-map id active m cs)

  total_unread-update_list :
      (active : Option Text) (m : ChatMessage) (cs : List ChatListItem)
      → total_unread (update_list later fallback active m cs)
        ≡ total_unread cs + weight active m (chat_count m.client_id cs)
  unfolding update_list weight
  total_unread-update_list active m cs = ground (
    arith,
    chat_count-absent m.client_id cs,
    total_unread-sort later (map (at_client m.client_id (with_last fallback active m)) cs),
    total_unread-map active m cs,
  )

  chat_count-update_list :
      (id : Text) (active : Option Text) (m : ChatMessage) (cs : List ChatListItem)
      → chat_count id (update_list later fallback active m cs) ≡ chat_count id cs
  unfolding update_list
  chat_count-update_list id active m cs = ground (
    arith,
    chat_count-sort later id (map (at_client m.client_id (with_last fallback active m)) cs),
    chat_count-map id active m cs,
  )

  list_of-handle :
      (active : Option Text) (m : ChatMessage) (s : Caches)
      → list_of (handle_ws_event later fallback active (new_message m) s).list
        ≡ update_list later fallback active (with_channel m) (list_of s.list)
  unfolding handle_ws_event
  list_of-handle active m s =
      list_of-set_query_data (update_list later fallback active (with_channel m)) s.list

  update_list-IsSorted :
      ((a b : Text) → later a b ≡ true → later b a ≡ false)
      → (active : Option Text) (m : ChatMessage) (cs : List ChatListItem)
      → has_chat m.client_id cs ≡ true
      → IsSorted later (update_list later fallback active m cs)
  unfolding update_list
  update_list-IsSorted asym active m cs there =
      rw there
        (sort-IsSorted later asym (map (at_client m.client_id (with_last fallback active m)) cs))

  -- A message of a chat that is in the list neither adds a row nor drops one, whatever the chat of the
  -- row, and where `localeCompare` never says of two dates that each is the later one, the list is
  -- sorted afterwards, the latest chat first.
  handle-IsSorted :
      ((a b : Text) → later a b ≡ true → later b a ≡ false)
      → (active : Option Text) (m : ChatMessage) (s : Caches) (id : Text)
      → has_chat m.client_id (list_of s.list) ≡ true
      → IsSorted later (list_of (handle_ws_event later fallback active (new_message m) s).list)
        × (chat_count id (list_of (handle_ws_event later fallback active (new_message m) s).list)
            ≡ chat_count id (list_of s.list))
  unfolding with_channel
  handle-IsSorted asym active m s id there = rw (list_of-handle active m s) (
    update_list-IsSorted asym active (with_channel m) (list_of s.list) there,
    chat_count-update_list id active (with_channel m) (list_of s.list),
  )

  handle_once :
      (active : Option Text) (m : ChatMessage) (s : Caches)
      → (total_unread (list_of (handle_ws_event later fallback active (new_message m) s).list)
          ≡ total_unread (list_of s.list)
            + weight active m (chat_count m.client_id (list_of s.list)))
        × (chat_count m.client_id
              (list_of (handle_ws_event later fallback active (new_message m) s).list)
            ≡ chat_count m.client_id (list_of s.list))
  unfolding with_channel
  handle_once active m s = rw (list_of-handle active m s) (
    rw (← weight-with_channel active m (chat_count m.client_id (list_of s.list)))
        (total_unread-update_list active (with_channel m) (list_of s.list)),
    chat_count-update_list m.client_id active (with_channel m) (list_of s.list),
  )

  -- Each delivery of a message from the client, while its chat is not the open one, adds one to the
  -- badge for each row of the chat, also when the message was delivered before; any other message
  -- leaves the badge alone.
  total_unread-repeated :
      (n : ℕ) (active : Option Text) (m : ChatMessage) (s : Caches)
      → total_unread
          (list_of (repeated n (handle_ws_event later fallback active (new_message m)) s).list)
        ≡ total_unread (list_of s.list)
          + n * weight active m (chat_count m.client_id (list_of s.list))
  unfolding repeated
  total_unread-repeated zero active m s = grind arith
  total_unread-repeated (suc n) active m s =
      let (total, count) = handle_once active m s in
      rw
        (
          total_unread-repeated n active m
              (handle_ws_event later fallback active (new_message m) s),
          total,
          count,
        )
        (grind arith)

  -- However often a message is delivered, the conversations are as after the first time.
  messages-repeated :
      (n : ℕ) (active : Option Text) (m : ChatMessage) (s : Caches) (key : Text)
      → (repeated (suc n) (handle_ws_event later fallback active (new_message m)) s).messages key
        ≡ keep_message (with_channel m) s.messages key
  unfolding repeated handle_ws_event
  messages-repeated zero active m s key = refl
  messages-repeated (suc n) active m s key =
      messages-repeated n active m (handle_ws_event later fallback active (new_message m) s) key
      ∙ keep_message_idem (with_channel m) s.messages key
