-- ===== src/Assistant/Transcript.antt =====
-- What a conversation with the assistant shows
-- (frontend/src/app/mini-app/hooks/useMiniAppChat.ts and
-- frontend/src/app/mini-app/components/ChatDrawer.tsx).
use hunger_platform.Prelude.{
  ◌≡◌, refl, ap, ◌∙◌, Bool, true, false, ◌&&◌, ◌||◌, not, Option, none, some, List, [], ◌∷◌, ◌++◌,
  map, Text, truthy, trim, if-rule, arith,
}
use hunger_platform.Assistant.{
  Role, user, assistant, AiChatMsg, AiApiResponse, Request, State, start, disable_buttons,
  disable_last, sent_message, reply_or_dots, reply_message, failure_text, failure_message, send,
  handle_send_ai, is_some,
}
use hunger_platform.Assistant.Events.{
  after_reply, replied, closed, Event, typed, sent, answered, closed_drawer, step, run,
}

-- Who says what.
unfoldable pub said : AiChatMsg → Role × Text
said m = (m.role, m.content)

-- A text is typed, sent and answered, once for each pair.
unfoldable pub exchanges : List (Text × Option AiApiResponse) → List Event
exchanges [] = []
exchanges ((t, res) ∷ xs) = typed t ∷ sent ∷ answered res ∷ exchanges xs

unfoldable pub answer_text : Option AiApiResponse → Text
unfolding reply_or_dots
answer_text none = failure_text
answer_text (some res) = reply_or_dots res.reply

-- Turn by turn, what was typed and what was answered.
unfoldable pub transcript : List (Text × Option AiApiResponse) → List (Role × Text)
unfolding answer_text
transcript [] = []
transcript ((t, res) ∷ xs) = (user, trim t) ∷ (assistant, answer_text res) ∷ transcript xs

unfoldable pub none_blank : List (Text × Option AiApiResponse) → Bool
none_blank [] = true
none_blank ((t, res) ∷ xs) = truthy (trim t) && none_blank xs

said-disable_last : (ms : List AiChatMsg) → map said (disable_last ms) ≡ map said ms
unfolding disable_last
said-disable_last [] = refl
said-disable_last (m ∷ []) = ap (λ x. x ∷ []) (same_said m.role refl)
  where
    same_said : (r : Role) → m.role ≡ r → said (disable_buttons m) ≡ said m
    same_said user e = unfold disable_buttons said in rw e refl
    same_said assistant e = unfold disable_buttons said in rw e refl
said-disable_last (m ∷ n ∷ ms) = ap (λ x. said m ∷ x) (said-disable_last (n ∷ ms))

map-append : (xs ys : List AiChatMsg) → map said (xs ++ ys) ≡ map said xs ++ map said ys
map-append [] ys = refl
map-append (x ∷ xs) ys = ap (λ z. said x ∷ z) (map-append xs ys)

append_assoc :
    (xs : List (Role × Text)) (a b : Role × Text) (ys : List (Role × Text))
    → ((xs ++ (a ∷ [])) ++ (b ∷ [])) ++ ys ≡ xs ++ (a ∷ b ∷ ys)
append_assoc [] a b ys = refl
append_assoc (x ∷ xs) a b ys = ap (λ z. x ∷ z) (append_assoc xs a b ys)

-- A text that is not blank is sent.
handle_send_ai-typed :
    (t : Text) (s : State)
    → truthy (trim t) ≡ true
    → s.loading ≡ false
    → handle_send_ai none (record s { input = t })
      ≡ send (trim t) s.pending_image none (record s { pending_image = []; input = [] })
unfolding handle_send_ai is_some
handle_send_ai-typed t s h e =
    if-rule
      (λ x. x ≡ send (trim t) s.pending_image none (record s { pending_image = []; input = [] }))
      ((not (truthy (trim t)) && not (truthy s.pending_image) && true) || s.loading) _ _
      (λ c. absurd (ground arith)) (λ _. refl)

replied-send-loading :
    (text image : Text) (res : Option AiApiResponse) (s : State)
    → (replied res (send text image none s)).loading ≡ false
unfolding replied send
replied-send-loading text image res s = refl

after_reply-said :
    (res : Option AiApiResponse) (s : State)
    → map said (after_reply res s).messages
      ≡ map said s.messages ++ ((assistant, answer_text res) ∷ [])
unfolding after_reply said answer_text
after_reply-said none s = map-append s.messages (failure_message ∷ [])
after_reply-said (some res) s = map-append s.messages (reply_message res ∷ [])

replied-send-said :
    (text image : Text) (res : Option AiApiResponse) (s : State)
    → map said (replied res (send text image none s)).messages
      ≡ (map said s.messages ++ ((user, text) ∷ [])) ++ ((assistant, answer_text res) ∷ [])
unfolding replied send said
replied-send-said text image res s =
    let u = sent_message text image none in
    let sent_said : map said (disable_last s.messages ++ (u ∷ []))
        ≡ map said s.messages ++ ((user, text) ∷ []) =
      map-append (disable_last s.messages) (u ∷ [])
      ∙ ap (λ x. x ++ ((user, text) ∷ [])) (said-disable_last s.messages) in
    after_reply-said res (send text image none s)
    ∙ ap (λ x. x ++ ((assistant, answer_text res) ∷ [])) sent_said

append_nil : (xs : List (Role × Text)) → xs ≡ xs ++ []
append_nil [] = refl
append_nil (x ∷ xs) = ap (λ z. x ∷ z) (append_nil xs)

run-exchanges :
    (xs : List (Text × Option AiApiResponse)) (s : State)
    → none_blank xs ≡ true
    → s.loading ≡ false
    → map said (run (exchanges xs) s).messages ≡ map said s.messages ++ transcript xs
unfolding run exchanges transcript none_blank step
run-exchanges [] s h e = append_nil (map said s.messages)
run-exchanges ((t, res) ∷ xs) s h e =
    let t' = send (trim t) s.pending_image none (record s { pending_image = []; input = [] }) in
    let typed_sent : replied res (handle_send_ai none (record s { input = t })) ≡ replied res t' =
      ap (replied res) (handle_send_ai-typed t s (ground arith) e) in
    let rest = run-exchanges xs (replied res t') (ground arith) (
      replied-send-loading (trim t) s.pending_image res
        (record s { pending_image = []; input = [] })) in
    ap (λ x. map said (run (exchanges xs) x).messages) typed_sent
    ∙ rest
    ∙ ap (λ z. z ++ transcript xs)
        (replied-send-said (trim t) s.pending_image res
          (record s { pending_image = []; input = [] }))
    ∙ append_assoc (map said s.messages) (user, trim t) (assistant, answer_text res) (transcript xs)

-- Texts that are not blank, each sent after the answer to the one before, show as the transcript: each
-- text trimmed, and after it the reply, or the note that there was none.
pub run-transcript :
    (xs : List (Text × Option AiApiResponse))
    → none_blank xs ≡ true
    → map said (run (exchanges xs) start).messages ≡ transcript xs
unfolding start
run-transcript xs h = run-exchanges xs start h refl

-- A reply that comes after the drawer was closed and forgot the conversation is shown all the same,
-- and the next message goes on with its conversation.
answered-closed_drawer :
    (s : State) (r : Request) (rest : List Request) (res : AiApiResponse)
    → s.waiting ≡ r ∷ rest
    → truthy res.conversation_id ≡ true
    → let later = step (answered (some res)) (step closed_drawer s) in
      (later.messages ≡ reply_message res ∷ []) × (later.conversation_id ≡ res.conversation_id)
unfolding step replied closed after_reply
answered-closed_drawer s r rest res h k = rw h (refl, rw k refl)
