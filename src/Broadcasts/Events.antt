-- ===== src/Broadcasts/Events.antt =====
-- What can happen in the wizard of a broadcast
-- (frontend/src/app/(admin)/broadcasts/new/broadcast-wizard.tsx). A control that the step does not show
-- changes nothing. An instant of the browser's clock is `to_iso` of what was chosen, where it is one.
use hunger_platform.Prelude.{
  ℕ, ◌+◌, ◌-◌, String, Bool, true, false, ◌&&◌, ◌||◌, not, Option, none, some, List, [], ◌∷◌, Text,
  trim, truthy, if◌then◌else◌, ltb, ◌==◌,
}
use hunger_platform.Wizard.Handlers.{nth}
use hunger_platform.Wizard.Submission.{remove_nth}
use hunger_platform.Broadcasts.Form.{shown_on, Edit, edit, step_valid}
use hunger_platform.Broadcasts.{message, BroadcastBody}
use hunger_platform.Broadcasts.Loading.{Save, State, body_of, messages_of, loaded}

-- The request of `saveOrCreate`.
unfoldable pub save : Bool → State → State
unfolding body_of
save advances s = record s {
  saving = record { target = s.broadcast_id; body = body_of s; advances = advances } ∷ s.saving;
  save_pending = true;
}

unfoldable pub go_next : State → State
unfolding step_valid save
go_next s =
    if ltb s.step 4 && step_valid s
    then if s.step == 2 then save true s else record s { step = s.step + 1 }
    else s

unfoldable pub go_back : State → State
go_back s = if ltb 1 s.step then record s { step = s.step - 1 } else s

unfoldable pub save_draft : State → State
unfolding shown_on save
save_draft s = shown_on 4 (if s.is_sent || s.save_pending then s else save false s) s

-- The answer to a save: the id, or `none` where it failed.
unfoldable pub save_confirmed : Option Text → Save → State → State
save_confirmed none v s = s
save_confirmed (some id) v s = record s {
  broadcast_id = id;
  saved = (id, v.body) ∷ s.saved;
  step = if v.advances then 3 else s.step;
}

unfoldable pub answer_to : ℕ → Option Text → Option Save → State → State
unfolding save_confirmed remove_nth
answer_to n r none s = s
answer_to n r (some v) s =
    save_confirmed r v
      (record s { saving = remove_nth n s.saving; save_pending = s.save_pending && not (n == 0) })

unfoldable pub save_answered : ℕ → Option Text → State → State
unfolding answer_to nth
save_answered n r s = answer_to n r (nth n s.saving) s

unfoldable pub post_send : Option Text → State → State
post_send scheduled s = record s {
  sent = (s.broadcast_id, scheduled) ∷ s.sent;
  send_pending = true;
}

-- `sendBroadcast`; without a moment it throws before the request.
unfoldable pub launch : (Text → Option Text) → State → State
unfolding post_send shown_on
launch to_iso s =
    shown_on 4
      (if s.is_sent || s.send_pending || not (truthy s.broadcast_id)
        then s
        else if s.send_now
        then post_send none s
        else if not (truthy s.schedule_local)
        then s
        else elim (to_iso s.schedule_local) [
          | none ↦ s
          | some at_time ↦ post_send (some at_time) s
        ])
      s

unfoldable pub send_answered : Bool → State → State
send_answered ok s =
    if s.send_pending then record s { send_pending = false; is_sent = s.is_sent || ok } else s

unfoldable pub translate : Bool → State → State
unfolding message shown_on trim
translate ready s =
    shown_on 2
      (if ready && not s.message_translating && truthy (trim (message s.message_lang s.msg))
        then record s { message_translating = true }
        else s)
      s

unfoldable pub translations : Option (List (String × Text)) → State → State
unfolding messages_of
translations none s = record s { message_translating = false }
translations (some res) s = record s { message_translating = false; msg = messages_of res }

unfoldable pub translated : Option (List (String × Text)) → State → State
unfolding translations
translated r s = if s.message_translating then translations r s else s

-- An upload begins, of a voice that was recorded.
unfoldable pub file_taken : State → State
file_taken s = record s { is_uploading = true; uploads = s.media_type ∷ s.uploads }

-- A file is chosen in the panel of the media.
unfoldable pub choose_file : State → State
unfolding file_taken shown_on
choose_file s = shown_on 2 (if truthy s.media_type && not s.is_uploading then file_taken s else s) s

-- Its answer, of the address and the type, to the upload that began with the type `t`.
unfoldable pub media_of : Option (Text × Text) → Text → State → State
media_of none t s = s
media_of (some (address, kind)) t s = record s {
  media_url = address;
  media_type = if truthy kind && not (truthy t) then kind else s.media_type;
}

unfoldable pub uploaded_to : ℕ → Option (Text × Text) → Option Text → State → State
unfolding media_of remove_nth
uploaded_to n r none s = s
uploaded_to n r (some t) s =
    media_of r t (record s { is_uploading = false; uploads = remove_nth n s.uploads })

unfoldable pub uploaded : ℕ → Option (Text × Text) → State → State
unfolding uploaded_to nth
uploaded n r s = uploaded_to n r (nth n s.uploads) s

pub data Event : Type 0 where
  source_loaded : Bool → BroadcastBody → Event
  edited : Edit → Event
  next_clicked back_clicked draft_clicked launch_clicked file_chosen voice_recorded : Event
  translate_clicked : Bool → Event
  save_replied : ℕ → Option Text → Event
  send_replied : Bool → Event
  translate_replied : Option (List (String × Text)) → Event
  upload_replied : ℕ → Option (Text × Text) → Event

unfoldable pub step : (Text → Option Text) → Event → State → State
unfolding loaded edit go_next go_back save_draft launch file_taken choose_file translate
    save_answered send_answered translated uploaded
step to_iso (source_loaded d b) s = loaded d b s
step to_iso (edited e) s = edit e s
step to_iso next_clicked s = go_next s
step to_iso back_clicked s = go_back s
step to_iso draft_clicked s = save_draft s
step to_iso launch_clicked s = launch to_iso s
step to_iso file_chosen s = choose_file s
step to_iso voice_recorded s = file_taken s
step to_iso (translate_clicked r) s = translate r s
step to_iso (save_replied n r) s = save_answered n r s
step to_iso (send_replied ok) s = send_answered ok s
step to_iso (translate_replied r) s = translated r s
step to_iso (upload_replied n r) s = uploaded n r s

unfoldable pub run : (Text → Option Text) → List Event → State → State
unfolding step
run to_iso [] s = s
run to_iso (e ∷ es) s = run to_iso es (step to_iso e s)
