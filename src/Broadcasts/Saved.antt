-- ===== src/Broadcasts/Saved.antt =====
-- That what the wizard of a broadcast sends is what it shows
-- (frontend/src/app/(admin)/broadcasts/new/broadcast-wizard.tsx).
use hunger_platform.Broadcasts.Kept.{
  last_saved, Kept, edit-Kept, next-Kept, back-Kept, draft-Kept, launch-Kept, send_answered-Kept,
  translate-Kept, choose_file-Kept, uploaded-Kept, loaded-Kept,
}
use hunger_platform.Prelude.{
  ◌≡◌, refl, if◌then◌else◌, ◌⊎◌, inl, inr, String, Bool, true, false, ◌||◌, not, Option, none, some,
  List, [], ◌∷◌, Text, truthy, ltb, ◌==◌, arith, if-rule, Option-cases,
}
use hunger_platform.Broadcasts.{BroadcastBody}
use hunger_platform.Broadcasts.Loading.{State, body_of}
use hunger_platform.Broadcasts.Form.{shown_on, Edit}
use hunger_platform.Broadcasts.Events.{
  post_send, launch, Event, edited, next_clicked, back_clicked, draft_clicked, launch_clicked,
  file_chosen, voice_recorded, source_loaded, translate_clicked, save_replied, send_replied,
  translate_replied, upload_replied, step, run,
}

-- What the owner does, each with the answer to the request that it makes.
pub data Act : Type 0 where
  fills : Edit → Act
  goes_on : Option Text → Act
  goes_back : Act
  keeps : Option Text → Act
  sends : Bool → Act
  translates : Bool → Option (List (String × Text)) → Act
  uploads_file : Option (Text × Text) → Act
  records_voice : Option (Text × Text) → Act
  restores : Bool → BroadcastBody → Act

-- A voice that was recorded is uploaded, and a saved broadcast is restored, on the first two steps only.
unfoldable pub events_of : State → Act → List Event
events_of s (fills e) = edited e ∷ []
events_of s (goes_on r) = next_clicked ∷ save_replied 0 r ∷ []
events_of s goes_back = back_clicked ∷ []
events_of s (keeps r) = draft_clicked ∷ save_replied 0 r ∷ []
events_of s (sends ok) = launch_clicked ∷ send_replied ok ∷ []
events_of s (translates ready r) = translate_clicked ready ∷ translate_replied r ∷ []
events_of s (uploads_file r) = file_chosen ∷ upload_replied 0 r ∷ []
events_of s (records_voice r) =
    if ltb s.step 3 then voice_recorded ∷ upload_replied 0 r ∷ [] else []
events_of s (restores d b) = if ltb s.step 3 then source_loaded d b ∷ [] else []

unfoldable pub act : (Text → Option Text) → Act → State → State
unfolding events_of
act to_iso a s = run to_iso (events_of s a) s

unfoldable pub acts : (Text → Option Text) → List Act → State → State
unfolding act
acts to_iso [] s = s
acts to_iso (a ∷ as_) s = acts to_iso as_ (act to_iso a s)

act-Kept : (to_iso : Text → Option Text) (a : Act) (s : State) → Kept s → Kept (act to_iso a s)
unfolding act events_of run step
act-Kept to_iso (fills e) s k = edit-Kept e s k
act-Kept to_iso (goes_on r) s k = next-Kept r s k
act-Kept to_iso goes_back s k = back-Kept s k
act-Kept to_iso (keeps r) s k = draft-Kept r s k
act-Kept to_iso (sends ok) s k = send_answered-Kept ok (launch to_iso s) (launch-Kept to_iso s k)
act-Kept to_iso (translates ready r) s k = translate-Kept ready r s k
act-Kept to_iso (uploads_file r) s k = choose_file-Kept r s k
act-Kept to_iso (records_voice r) s k =
    if-rule (λ (es : List Event). Kept (run to_iso es s)) (ltb s.step 3)
      (voice_recorded ∷ upload_replied 0 r ∷ []) [] (λ e. uploaded-Kept r s (ground arith) k)
      (λ _. k)
act-Kept to_iso (restores d b) s k =
    if-rule (λ (es : List Event). Kept (run to_iso es s)) (ltb s.step 3) (source_loaded d b ∷ []) []
      (λ e. loaded-Kept d b s (ground arith) k) (λ _. k)

acts-Kept :
    (to_iso : Text → Option Text) (as_ : List Act) (s : State) → Kept s → Kept (acts to_iso as_ s)
unfolding acts
acts-Kept to_iso [] s k = k
acts-Kept to_iso (a ∷ as_) s k = acts-Kept to_iso as_ (act to_iso a s) (act-Kept to_iso a s k)

-- A launch posts nothing, or it asks for the id of the form.
Asks : State → State → Type 0
Asks s t =
    (t.sent ≡ s.sent)
    ⊎ ((moment : Option Text) × (ltb 2 s.step ≡ true)
        × (t.sent ≡ (s.broadcast_id, moment) ∷ s.sent))

launch-Asks : (to_iso : Text → Option Text) (s : State) → Asks s (launch to_iso s)
unfolding launch shown_on Asks post_send
launch-Asks to_iso s =
    if-rule (Asks s) (s.step == 4) _ s
      (λ e.
        if-rule (Asks s) (s.is_sent || s.send_pending || not (truthy s.broadcast_id)) s _
          (λ _. inl refl)
          (λ _.
            if-rule (Asks s) s.send_now (post_send none s) _ (λ _. inr (none, ground arith, refl))
              (λ _.
                if-rule (Asks s) (not (truthy s.schedule_local)) s _ (λ _. inl refl)
                  (λ _. elim (Option-cases (to_iso s.schedule_local)) [
                    | inl h ↦ rw h (inl refl)
                    | inr (moment, h) ↦ rw h (inr (some moment, ground arith, refl))
                  ]))))
      (λ _. inl refl)

-- However the wizard is used from one of its first two steps on, with nothing in flight, where each request is answered
-- before the next act, a recording of a voice ends on the first two steps, and a saved broadcast is
-- restored there: a click on launch asks for nothing, or it asks the backend to send the
-- broadcast whose last confirmed content is just what the form, and so the preview, then describes.
pub launch-last_saved :
    (to_iso : Text → Option Text) (as_ : List Act) (s : State)
    → ltb s.step 3 ≡ true
    → s.saving ≡ []
    → s.message_translating ≡ false
    → s.uploads ≡ []
    → ((launch to_iso (acts to_iso as_ s)).sent ≡ (acts to_iso as_ s).sent)
      ⊎ ((moment : Option Text) × ((launch to_iso (acts to_iso as_ s)).sent
            ≡ ((acts to_iso as_ s).broadcast_id, moment) ∷ (acts to_iso as_ s).sent)
          × (last_saved (acts to_iso as_ s).broadcast_id (acts to_iso as_ s).saved
              ≡ some (body_of (acts to_iso as_ s))))
unfolding Asks Kept
launch-last_saved to_iso as_ s early a b c =
    let kept = acts-Kept to_iso as_ s (a, b, c, λ late. absurd (ground arith)) in
    elim (launch-Asks to_iso (acts to_iso as_ s)) [
      | inl h ↦ inl h
      | inr (moment, late, h) ↦ inr (moment, h, kept.3 late)
    ]
