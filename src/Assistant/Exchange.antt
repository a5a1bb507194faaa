-- ===== src/Assistant/Exchange.antt =====
-- That the chat with the assistant goes by turns
-- (frontend/src/app/mini-app/hooks/useMiniAppChat.ts and
-- frontend/src/app/mini-app/components/ChatDrawer.tsx).
use hunger_platform.Prelude.{
  ◌≡◌, refl, Bool, true, false, ◌&&◌, not, Option, none, some, List, [], ◌∷◌, ◌++◌, Text, trim,
  if◌then◌else◌, length, all, arith, if-rule,
}
use hunger_platform.Assistant.{
  Role, user, assistant, ChatButtonItem, AiChatMsg, AiApiResponse, Request, State, start,
  disable_buttons, disable_last, user_message, sent_message, reply_message, failure_message, send,
  handle_send_ai,
}
use hunger_platform.Assistant.Events.{
  after_reply, replied, closed, shows, is_assistant, shows_buttons, Event, typed, image_chosen,
  sent, pressed, answered, closed_drawer, flags, step, run,
}

-- A message without buttons to press.
quiet : AiChatMsg → Bool
quiet m = not (is_assistant m && shows m)

-- All but the last are.
quiet_init : List AiChatMsg → Bool
quiet_init [] = true
quiet_init (m ∷ []) = true
quiet_init (m ∷ n ∷ ms) = quiet m && quiet_init (n ∷ ms)

disable_buttons-quiet : (m : AiChatMsg) → quiet (disable_buttons m) ≡ true
unfolding quiet disable_buttons is_assistant shows
disable_buttons-quiet m = go m.role refl
  where
    go : (r : Role) → m.role ≡ r → quiet (disable_buttons m) ≡ true
    go user e = rw e refl
    go assistant e = rw e (ground arith)

disable_last-quiet :
    (ms : List AiChatMsg) (u : AiChatMsg)
    → quiet_init ms ≡ true
    → quiet u ≡ true
    → all quiet (disable_last ms ++ (u ∷ [])) ≡ true
unfolding quiet_init disable_last
disable_last-quiet [] u h k = rw k refl
disable_last-quiet (m ∷ []) u h k = rw (disable_buttons-quiet m) (rw k refl)
disable_last-quiet (m ∷ n ∷ ms) u h k =
    let rest = disable_last-quiet (n ∷ ms) u (ground arith) k in ground arith

quiet_init-append :
    (ms : List AiChatMsg) (x : AiChatMsg) → all quiet ms ≡ true → quiet_init (ms ++ (x ∷ [])) ≡ true
unfolding quiet_init
quiet_init-append [] x h = refl
quiet_init-append (m ∷ []) x h = ground arith
quiet_init-append (m ∷ n ∷ ms) x h =
    let rest = quiet_init-append (n ∷ ms) x (ground arith) in ground arith

quiet-shows_buttons : (ms : List AiChatMsg) → all quiet ms ≡ true → shows_buttons ms ≡ false
unfolding quiet shows_buttons
quiet-shows_buttons [] h = refl
quiet-shows_buttons (m ∷ ms) h = let rest = quiet-shows_buttons ms (ground arith) in ground arith

-- It is the assistant's turn with one request in flight and no buttons, or it is the user's turn with
-- no request in flight and buttons under the last message at most.
record IsTurn (s : State) : Type 0 where
  one : length s.waiting ≡ (if s.loading then 1 else 0)
  asked : s.loading ≡ true → all quiet s.messages ≡ true
  idle : s.loading ≡ false → quiet_init s.messages ≡ true

send-IsTurn :
    (text image : Text) (b : Option ChatButtonItem) (s : State)
    → s.loading ≡ false
    → IsTurn s
    → IsTurn (send text image b s)
unfolding send
send-IsTurn text image b s e h = record {
  one = let none_yet = h.one in ground arith;
  asked = λ _. disable_last-quiet s.messages (sent_message text image b) (h.idle e) (user_quiet b);
  idle = λ off. absurd (ground arith);
}
  where
    user_quiet : (b' : Option ChatButtonItem) → quiet (sent_message text image b') ≡ true
    user_quiet none = unfold quiet sent_message user_message is_assistant in refl
    user_quiet (some x) = unfold quiet sent_message user_message is_assistant in refl

handle_send_ai-IsTurn :
    (b : Option ChatButtonItem) (s : State) → IsTurn s → IsTurn (handle_send_ai b s)
unfolding handle_send_ai
handle_send_ai-IsTurn b s h =
    if-rule IsTurn _ _ _ (λ _. h)
      (λ e.
        send-IsTurn (trim s.input) s.pending_image b (record s { pending_image = []; input = [] })
          (ground arith) (record { one = h.one; asked = h.asked; idle = h.idle }))

quiet_init-after_reply :
    (res : Option AiApiResponse) (s : State)
    → all quiet s.messages ≡ true
    → quiet_init (after_reply res s).messages ≡ true
unfolding after_reply
quiet_init-after_reply none s h = quiet_init-append s.messages failure_message h
quiet_init-after_reply (some res) s h = quiet_init-append s.messages (reply_message res) h

replied-IsTurn : (res : Option AiApiResponse) (s : State) → IsTurn s → IsTurn (replied res s)
unfolding replied
replied-IsTurn res s h = go s.waiting refl
  where
    go :
        (w : List Request)
        → s.waiting ≡ w
        → IsTurn (elim w [
          | [] ↦ s
          | _ ∷ rest ↦ record (after_reply res s) { loading = false; waiting = rest }
        ])
    go [] e = h
    go (r ∷ rest) e =
        let one = h.one in
        let on : s.loading ≡ true = ground arith in
        record {
          one = ground arith;
          asked = λ off. absurd (ground arith);
          idle = λ _. quiet_init-after_reply res s (h.asked on);
        }

closed-IsTurn : (s : State) → IsTurn s → IsTurn (closed s)
unfolding closed quiet_init
closed-IsTurn s h = record { one = h.one; asked = λ _. refl; idle = λ _. refl }

step-IsTurn : (e : Event) (s : State) → IsTurn s → IsTurn (step e s)
unfolding step
step-IsTurn (typed t) s h = record { one = h.one; asked = h.asked; idle = h.idle }
step-IsTurn (image_chosen url) s h = record { one = h.one; asked = h.asked; idle = h.idle }
step-IsTurn sent s h = handle_send_ai-IsTurn none s h
step-IsTurn (pressed b) s h =
    if-rule IsTurn _ _ _ (λ _. handle_send_ai-IsTurn (some b) s h) (λ _. h)
step-IsTurn (answered res) s h = replied-IsTurn res s h
step-IsTurn closed_drawer s h = closed-IsTurn s h
step-IsTurn (flags allowed) s h = record { one = h.one; asked = h.asked; idle = h.idle }

run-IsTurn : (es : List Event) (s : State) → IsTurn s → IsTurn (run es s)
unfolding run
run-IsTurn [] s h = h
run-IsTurn (e ∷ es) s h = run-IsTurn es (step e s) (step-IsTurn e s h)

start-IsTurn : IsTurn start
unfolding start quiet_init
start-IsTurn = record { one = refl; asked = λ e. refl; idle = λ e. refl }

-- Whatever happens, there is one request in flight while the chat is loading and none while it is not,
-- and while it is loading no buttons are shown.
pub run-turns :
    (es : List Event)
    → (length (run es start).waiting ≡ (if (run es start).loading then 1 else 0))
      × ((run es start).loading ≡ true → shows_buttons (run es start).messages ≡ false)
run-turns es =
    let turn = run-IsTurn es start start-IsTurn in
    (turn.one, λ on. quiet-shows_buttons (run es start).messages (turn.asked on))
