-- ===== src/Broadcasts/Kept.antt =====
-- What keeps the form of a broadcast and what the backend has of it the same
-- (frontend/src/app/(admin)/broadcasts/new/broadcast-wizard.tsx).
use hunger_platform.Prelude.{
  ◌≡◌, refl, inl, inr, ℕ, ◌+◌, ◌-◌, String, Bool, true, false, ◌&&◌, ◌||◌, not, Option, none, some,
  List, [], ◌∷◌, Text, same, same_refl, truthy, if◌then◌else◌, ltb, ◌==◌, arith, if-rule,
  Option-cases,
}
use hunger_platform.Wizard.Handlers.{nth}
use hunger_platform.Wizard.Submission.{remove_nth}
use hunger_platform.Broadcasts.{BroadcastBody}
use hunger_platform.Broadcasts.Loading.{Save, State, body_of, loaded}
use hunger_platform.Broadcasts.Form.{
  shown_on, Edit, title_typed, kind_chosen, option_set, lang_chosen, message_typed,
  media_type_chosen, media_url_typed, row_added, row_removed, button_edited, now_checked,
  schedule_typed, edit, step_valid,
}
use hunger_platform.Broadcasts.Events.{
  save, go_next, go_back, save_draft, save_confirmed, answer_to, save_answered, post_send, launch,
  send_answered, translate, translations, translated, file_taken, choose_file, media_of,
  uploaded_to, uploaded,
}

-- What the backend confirmed last for an id.
unfoldable pub last_saved : Text → List (Text × BroadcastBody) → Option BroadcastBody
last_saved id [] = none
last_saved id ((key, b) ∷ log) = if same key id then some b else last_saved id log

-- Nothing is in flight, and from the third step on the backend has what the form describes.
unfoldable pub Kept : State → Type 0
unfolding last_saved body_of
Kept s =
    (s.saving ≡ [])
    × (s.message_translating ≡ false)
    × (s.uploads ≡ [])
    × (ltb 2 s.step ≡ true → last_saved s.broadcast_id s.saved ≡ some (body_of s))

-- On an early step nothing is asked of what was saved.
shown_on-Kept :
    (n : ℕ) (s t : State)
    → ltb 2 n ≡ false
    → t.step ≡ s.step
    → t.saving ≡ []
    → t.message_translating ≡ false
    → t.uploads ≡ []
    → Kept s
    → Kept (shown_on n t s)
unfolding Kept shown_on
shown_on-Kept n s t early same_step none_saving no_translation no_upload k =
    if-rule Kept (s.step == n) t s
      (λ e. (none_saving, no_translation, no_upload, λ late. ground arith)) (λ e. k)

pub edit-Kept : (e : Edit) (s : State) → Kept s → Kept (edit e s)
unfolding edit shown_on Kept body_of
edit-Kept (title_typed v) s (a, b, c, d) = shown_on-Kept 1 s _ refl refl a b c (a, b, c, d)
edit-Kept (kind_chosen v) s (a, b, c, d) = shown_on-Kept 1 s _ refl refl a b c (a, b, c, d)
edit-Kept (option_set v) s (a, b, c, d) = shown_on-Kept 1 s _ refl refl a b c (a, b, c, d)
edit-Kept (lang_chosen v) s (a, b, c, d) = shown_on-Kept 2 s _ refl refl a b c (a, b, c, d)
edit-Kept (message_typed l v) s (a, b, c, d) = shown_on-Kept 2 s _ refl refl a b c (a, b, c, d)
edit-Kept (media_type_chosen v) s (a, b, c, d) = shown_on-Kept 2 s _ refl refl a b c (a, b, c, d)
edit-Kept (media_url_typed v) s (a, b, c, d) = shown_on-Kept 2 s _ refl refl a b c (a, b, c, d)
edit-Kept row_added s (a, b, c, d) = shown_on-Kept 2 s _ refl refl a b c (a, b, c, d)
edit-Kept (row_removed n) s (a, b, c, d) = shown_on-Kept 2 s _ refl refl a b c (a, b, c, d)
edit-Kept (button_edited i j v) s (a, b, c, d) = shown_on-Kept 2 s _ refl refl a b c (a, b, c, d)
edit-Kept (now_checked v) s (a, b, c, d) =
    if-rule Kept (s.step == 3) (record s { send_now = v }) s (λ _. (a, b, c, d)) (λ _. (a, b, c, d))
edit-Kept (schedule_typed v) s (a, b, c, d) =
    if-rule Kept (s.step == 3)
      (record s { schedule_local = if s.send_now then s.schedule_local else v }) s
      (λ _. (a, b, c, d)) (λ _. (a, b, c, d))

-- The one save in flight is answered.
save_answered-Kept :
    (advances : Bool) (r : Option Text) (s : State)
    → Kept s
    → Kept (save_answered 0 r (save advances s))
unfolding Kept save_answered answer_to save_confirmed save nth remove_nth last_saved
save_answered-Kept advances none s (a, b, c, d) = (a, b, c, d)
save_answered-Kept advances (some id) s (a, b, c, d) = (a, b, c, λ late. rw (same_refl id) refl)

nth-none : (l : List Save) → l ≡ [] → nth 0 l ≡ none
unfolding nth
nth-none l h = rw h refl

answer_to-Kept :
    (r : Option Text) (o : Option Save) (s : State) → o ≡ none → Kept s → Kept (answer_to 0 r o s)
unfolding answer_to
answer_to-Kept r o s h k = rw h k

-- An answer where nothing is in flight changes nothing.
idle-Kept : (r : Option Text) (s : State) → Kept s → Kept (save_answered 0 r s)
unfolding Kept save_answered
idle-Kept r s (a, b, c, d) = answer_to-Kept r (nth 0 s.saving) s (nth-none s.saving a) (a, b, c, d)

onward-Kept : (s : State) → s.step == 2 ≡ false → Kept s → Kept (record s { step = s.step + 1 })
unfolding Kept body_of
onward-Kept s f (a, b, c, d) = (a, b, c, λ late. d (grind arith))

pub next-Kept : (r : Option Text) (s : State) → Kept s → Kept (save_answered 0 r (go_next s))
unfolding go_next
next-Kept r s k =
    if-rule (λ t. Kept (save_answered 0 r t)) (ltb s.step 4 && step_valid s) _ s
      (λ e.
        if-rule (λ t. Kept (save_answered 0 r t)) (s.step == 2) (save true s)
          (record s { step = s.step + 1 }) (λ _. save_answered-Kept true r s k)
          (λ f. idle-Kept r _ (onward-Kept s f k)))
      (λ e. idle-Kept r s k)

pub back-Kept : (s : State) → Kept s → Kept (go_back s)
unfolding go_back Kept body_of
back-Kept s (a, b, c, d) =
    if-rule Kept (ltb 1 s.step) (record s { step = s.step - 1 }) s
      (λ e. (a, b, c, λ late. d (grind arith))) (λ e. (a, b, c, d))

pub draft-Kept : (r : Option Text) (s : State) → Kept s → Kept (save_answered 0 r (save_draft s))
unfolding save_draft shown_on
draft-Kept r s k =
    if-rule (λ t. Kept (save_answered 0 r t)) (s.step == 4) _ s
      (λ e.
        if-rule (λ t. Kept (save_answered 0 r t)) (s.is_sent || s.save_pending) s (save false s)
          (λ _. idle-Kept r s k) (λ f. save_answered-Kept false r s k))
      (λ e. idle-Kept r s k)

post_send-Kept : (moment : Option Text) (s : State) → Kept s → Kept (post_send moment s)
unfolding Kept post_send body_of
post_send-Kept moment s k = k

pub launch-Kept : (to_iso : Text → Option Text) (s : State) → Kept s → Kept (launch to_iso s)
unfolding launch shown_on
launch-Kept to_iso s k =
    if-rule Kept (s.step == 4) _ s
      (λ _.
        if-rule Kept (s.is_sent || s.send_pending || not (truthy s.broadcast_id)) s _ (λ _. k)
          (λ _.
            if-rule Kept s.send_now (post_send none s) _ (λ _. post_send-Kept none s k)
              (λ _.
                if-rule Kept (not (truthy s.schedule_local)) s _ (λ _. k)
                  (λ _. elim (Option-cases (to_iso s.schedule_local)) [
                    | inl e ↦ rw e k
                    | inr (moment, e) ↦ rw e (post_send-Kept (some moment) s k)
                  ]))))
      (λ _. k)

pub send_answered-Kept : (ok : Bool) (s : State) → Kept s → Kept (send_answered ok s)
unfolding send_answered Kept body_of
send_answered-Kept ok s k =
    if-rule Kept s.send_pending (record s { send_pending = false; is_sent = s.is_sent || ok }) s
      (λ _. k) (λ _. k)

translated-Kept : (r : Option (List (String × Text))) (s : State) → Kept s → Kept (translated r s)
unfolding translated Kept
translated-Kept r s (a, b, c, d) =
    if-rule Kept s.message_translating (translations r s) s (λ e. absurd (ground arith))
      (λ _. (a, b, c, d))

-- The answer to a translation that was asked for.
asked-Kept :
    (r : Option (List (String × Text))) (s : State)
    → s.step == 2 ≡ true
    → Kept s
    → Kept (translated r (record s { message_translating = true }))
unfolding translated translations Kept body_of
asked-Kept none s e (a, b, c, d) = (a, refl, c, λ late. ground arith)
asked-Kept (some res) s e (a, b, c, d) = (a, refl, c, λ late. ground arith)

pub translate-Kept :
    (ready : Bool) (r : Option (List (String × Text))) (s : State)
    → Kept s
    → Kept (translated r (translate ready s))
unfolding translate shown_on
translate-Kept ready r s k =
    if-rule (λ t. Kept (translated r t)) (s.step == 2) _ s
      (λ e.
        if-rule (λ t. Kept (translated r t)) _ (record s { message_translating = true }) s
          (λ _. asked-Kept r s e k) (λ _. translated-Kept r s k))
      (λ _. translated-Kept r s k)

media_of-Kept :
    (r : Option (Text × Text)) (t : Text) (s : State)
    → ltb s.step 3 ≡ true
    → Kept s
    → Kept (media_of r t s)
unfolding media_of Kept body_of
media_of-Kept none t s e k = k
media_of-Kept (some (address, kind)) t s e (a, b, c, d) = (a, b, c, λ late. ground arith)

pub uploaded-Kept :
    (r : Option (Text × Text)) (s : State)
    → ltb s.step 3 ≡ true
    → Kept s
    → Kept (uploaded 0 r (file_taken s))
unfolding uploaded uploaded_to nth remove_nth file_taken Kept body_of
uploaded-Kept r s e (a, b, c, d) =
    media_of-Kept r s.media_type (record s { is_uploading = false }) e (a, b, c, d)

-- A saved broadcast that is restored on an early step.
pub loaded-Kept :
    (duplicate : Bool) (b : BroadcastBody) (s : State)
    → ltb s.step 3 ≡ true
    → Kept s
    → Kept (loaded duplicate b s)
unfolding loaded Kept
loaded-Kept duplicate b s e (x, y, z, d) =
    if-rule Kept s.initialized s _ (λ _. (x, y, z, d))
      (λ _. (x, y, z, λ late. absurd (ground arith)))

no_upload : (l : List Text) → l ≡ [] → nth 0 l ≡ none
unfolding nth
no_upload l h = rw h refl

uploaded_to-Kept :
    (r : Option (Text × Text)) (o : Option Text) (s : State)
    → o ≡ none
    → Kept s
    → Kept (uploaded_to 0 r o s)
unfolding uploaded_to
uploaded_to-Kept r o s h k = rw h k

waiting-Kept : (r : Option (Text × Text)) (s : State) → Kept s → Kept (uploaded 0 r s)
unfolding Kept uploaded
waiting-Kept r s (a, b, c, d) =
    uploaded_to-Kept r (nth 0 s.uploads) s (no_upload s.uploads c) (a, b, c, d)

pub choose_file-Kept :
    (r : Option (Text × Text)) (s : State) → Kept s → Kept (uploaded 0 r (choose_file s))
unfolding choose_file shown_on
choose_file-Kept r s k =
    if-rule (λ t. Kept (uploaded 0 r t)) (s.step == 2) _ s
      (λ e.
        if-rule (λ t. Kept (uploaded 0 r t)) (truthy s.media_type && not s.is_uploading)
          (file_taken s) s (λ _. uploaded-Kept r s (ground arith) k) (λ _. waiting-Kept r s k))
      (λ _. waiting-Kept r s k)
