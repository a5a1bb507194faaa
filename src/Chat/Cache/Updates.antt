-- ===== src/Chat/Cache/Updates.antt =====
-- Updates of the list of chats that come in any order (frontend/src/hooks/useChatData.ts).
use hunger_platform.Prelude.{
  ◌≡◌, refl, ◌⊎◌, true, false, Option, none, some, List, [], ◌∷◌, map, Text, same, same→eq,
  same_refl, if◌then◌else◌, arith, ap,
}
use hunger_platform.Chat.Cache.{
  ChatTagSummary, ChatListItem, Cache, set_query_data, at_client, mark_read, set_tags,
  update_chat_note, without, delete_chat,
}

-- The mutations that change the list when they succeed.
pub data Update : Type 0 where
  read : Text → Update
  tagged : Text → List ChatTagSummary → Update
  noted : Text → Option Text → Update
  deleted : Text → Update

unfoldable pub apply : Update → Cache → Cache
unfolding mark_read set_tags update_chat_note delete_chat
apply (read id) = mark_read id
apply (tagged id tags) = set_tags id tags
apply (noted id note) = update_chat_note id note
apply (deleted id) = delete_chat id

-- Two updates do not set the same field of one chat to different values.
abbrev pub AreIndependent : Update → Update → Type 0
AreIndependent (tagged a ts) (tagged b us) = (same a b ≡ false) ⊎ (ts ≡ us)
AreIndependent (noted a m) (noted b n) = (same a b ≡ false) ⊎ (m ≡ n)
AreIndependent _ _ = Unit

-- What an update does to one chat, `none` if the chat goes.
unfoldable pub change : Update → ChatListItem → Option ChatListItem
unfolding at_client
change (read id) c = some (at_client id (λ c. record c { unread_count = 0 }) c)
change (tagged id tags) c = some (at_client id (λ c. record c { tags = tags }) c)
change (noted id note) c = some (at_client id (λ c. record c { note = note }) c)
change (deleted id) c = if same c.client_id id then none else some c

abbrev keep_some : Option ChatListItem → List ChatListItem → List ChatListItem
keep_some none cs = cs
keep_some (some c) cs = c ∷ cs

unfoldable pub changed : Update → List ChatListItem → List ChatListItem
unfolding change
changed u [] = []
changed u (c ∷ cs) = keep_some (change u c) (changed u cs)

map-changed :
    (u : Update) (f : ChatListItem → ChatListItem)
    → ((c : ChatListItem) → change u c ≡ some (f c))
    → (cs : List ChatListItem) → map f cs ≡ changed u cs
unfolding changed
map-changed u f h [] = refl
map-changed u f h (c ∷ cs) = rw (h c, map-changed u f h cs) refl

without-changed : (id : Text) (cs : List ChatListItem) → without id cs ≡ changed (deleted id) cs
unfolding without changed
without-changed id [] = refl
without-changed id (c ∷ cs) = ground (arith, without-changed id cs)

old : Cache → List ChatListItem
old none = []
old (some cs) = cs

apply-changed : (u : Update) (c : Cache) → apply u c ≡ some (changed u (old c))
unfolding apply old mark_read set_tags update_chat_note delete_chat set_query_data changed without
apply-changed (read id) none = refl
apply-changed (tagged id ts) none = refl
apply-changed (noted id n) none = refl
apply-changed (deleted id) none = refl
apply-changed (read id) (some cs) =
    ap some (map-changed (read id) _ (λ c. unfold change in refl) cs)
apply-changed (tagged id ts) (some cs) =
    ap some (map-changed (tagged id ts) _ (λ c. unfold change in refl) cs)
apply-changed (noted id n) (some cs) =
    ap some (map-changed (noted id n) _ (λ c. unfold change in refl) cs)
apply-changed (deleted id) (some cs) = ap some (without-changed id cs)

then_change : Update → Option ChatListItem → Option ChatListItem
then_change u none = none
then_change u (some c) = change u c

same_both : (c a b : Text) → same c a ≡ true → same c b ≡ true → same a b ≡ true
same_both c a b h k = let e = same→eq c a h in let f = same→eq c b k in rw (← e, ← f) (same_refl c)

change_comm :
    (u v : Update) (c : ChatListItem)
    → AreIndependent u v
    → then_change u (change v c) ≡ then_change v (change u c)
unfolding then_change change at_client
change_comm (tagged a us) (tagged b ts) c h = ground (arith, same_both c.client_id a b)
change_comm (noted a us) (noted b ts) c h = ground (arith, same_both c.client_id a b)
change_comm (noted a us) _ c h = ground arith
change_comm _ (noted b ts) c h = ground arith
change_comm _ _ c h = ground arith

changed-keep_some :
    (u : Update) (o : Option ChatListItem) (cs : List ChatListItem)
    → changed u (keep_some o cs) ≡ keep_some (then_change u o) (changed u cs)
unfolding changed then_change
changed-keep_some u none cs = refl
changed-keep_some u (some d) cs = refl

changed_comm :
    (u v : Update) (cs : List ChatListItem)
    → AreIndependent u v
    → changed u (changed v cs) ≡ changed v (changed u cs)
unfolding changed
changed_comm u v [] h = refl
changed_comm u v (c ∷ cs) h =
    rw
      (
        changed-keep_some u (change v c) (changed v cs),
        changed-keep_some v (change u c) (changed u cs),
        change_comm u v c h,
        changed_comm u v cs h,
      )
      refl

-- Two updates that do not set one field of one chat to different values may come in either order.
apply_comm :
    (u v : Update) (c : Cache) → AreIndependent u v → apply u (apply v c) ≡ apply v (apply u c)
unfolding old
apply_comm u v c h =
    rw
      (
        apply-changed v c,
        apply-changed u c,
        apply-changed u,
        apply-changed v,
        changed_comm u v (old c) h,
      )
      refl
