-- ===== src/Wizard/Refinement.antt =====
-- That the booking wizard implements its stages (frontend/src/app/mini-app/book/page.tsx).
mod Catalog
mod Choices
mod Answers
use hunger_platform.Prelude.{◌≡◌, refl, some, List, [], ◌∷◌, not, if-rule}
use hunger_platform.Wizard.{Page, State, start}
use hunger_platform.Wizard.Handlers.{on_step, nth}
use hunger_platform.Wizard.Events.{
  Event, step, run, services_loaded, masters_loaded, category_clicked, service_clicked, master_back,
  consultation_toggled, master_clicked, continue_clicked, time_back, date_clicked, call_toggled,
  time_clicked, next_clicked, confirm_back, name_typed, phone_typed, comment_typed, promo_typed,
  promo_toggled, promo_applied, promo_removed, promo_reply, confirm_clicked, confirm_reply,
  consultation_back, submit_clicked, submit_reply,
}
use hunger_platform.Wizard.Stages.{
  Stage, choosing, stage, Move, Reaches, stays, kept, on_step-Reaches,
}
use Catalog.{
  services_effect-Reaches, masters_effect-Reaches, choose_category-Reaches, choose_service-Reaches,
}
use Choices.{
  back_from_master_step-Reaches, toggle_consultation-Reaches, choose_master-Reaches,
  continue_to_consultation-Reaches, back_from_time_step-Reaches, choose_date-Reaches,
  toggle_call_for_time-Reaches, choose_time-Reaches, next-Reaches,
}
use Answers.{
  confirm_back-Reaches, consultation_back-Reaches, confirm-Reaches, confirmed-Reaches,
  submit_consultation-Reaches, consultation_answered-Reaches, apply_promo-Reaches,
  promo_answered-Reaches, remove_promo-Reaches,
}

-- Where the page shows a stage, it shows one after every event, and the event is a move from the one
-- to the other.
pub step-Moves :
    (p : Page) (e : Event) (s : State) (g : Stage)
    → stage s ≡ some g
    → (h : Stage) × (stage (step p e s) ≡ some h) × Move p g h
unfolding step stage Reaches
step-Moves p services_loaded s g here = services_effect-Reaches p g s here
step-Moves p masters_loaded s g here = masters_effect-Reaches p g s here
step-Moves p (category_clicked c) s g here = choose_category-Reaches p g s here c
step-Moves p (service_clicked n) s g here = choose_service-Reaches p g s here n
step-Moves p master_back s g here = back_from_master_step-Reaches p g s here
step-Moves p consultation_toggled s g here = toggle_consultation-Reaches p g s here
step-Moves p (master_clicked n) s g here = choose_master-Reaches p g s here n
step-Moves p continue_clicked s g here = continue_to_consultation-Reaches p g s here
step-Moves p time_back s g here = back_from_time_step-Reaches p g s here
step-Moves p (date_clicked iso is_past) s g here = choose_date-Reaches p g s here iso is_past
step-Moves p call_toggled s g here = toggle_call_for_time-Reaches p g s here
step-Moves p (time_clicked n) s g here = choose_time-Reaches p g s here n
step-Moves p next_clicked s g here = next-Reaches p g s here
step-Moves p confirm_back s g here = confirm_back-Reaches p g s here
step-Moves p (name_typed t) s g here =
    on_step-Reaches p g s here 3 _ (λ _. stays p g s here (record s { confirm_name = t }) refl)
step-Moves p (phone_typed t) s g here =
    on_step-Reaches p g s here 3 _ (λ _. stays p g s here (record s { confirm_phone = t }) refl)
step-Moves p (comment_typed t) s g here =
    on_step-Reaches p g s here 3 _ (λ _. stays p g s here (record s { booking_comment = t }) refl)
step-Moves p (promo_typed t) s g here = on_step-Reaches p g s here 3 _ (λ _.
    if-rule (Reaches p g) s.promo_open _ _
      (λ _. stays p g s here (record s { promo_input = p.to_upper_case t }) refl)
      (λ _. kept p g s here))
step-Moves p promo_toggled s g here =
    on_step-Reaches p g s here 3 _
      (λ _. stays p g s here (record s { promo_open = not s.promo_open }) refl)
step-Moves p promo_applied s g here = apply_promo-Reaches p g s here
step-Moves p promo_removed s g here = remove_promo-Reaches p g s here
step-Moves p (promo_reply res) s g here = promo_answered-Reaches p g s here res
step-Moves p confirm_clicked s g here = confirm-Reaches p g s here
step-Moves p (confirm_reply n ok) s g here = confirmed-Reaches p g s here (nth n s.confirms) n ok
step-Moves p consultation_back s g here = consultation_back-Reaches p g s here
step-Moves p submit_clicked s g here = submit_consultation-Reaches p g s here
step-Moves p (submit_reply ok) s g here = consultation_answered-Reaches p g s here ok

run-stage_from :
    (es : List (Page × Event)) (s : State) (g : Stage)
    → stage s ≡ some g
    → (h : Stage) × (stage (run es s) ≡ some h)
unfolding run
run-stage_from [] s g here = (g, here)
run-stage_from ((p, e) ∷ es) s g here =
    let (h, there, _) = step-Moves p e s g here in run-stage_from es (step p e s) h there

-- Whatever happens from the start on, the page shows a stage: no step is reached without the choices
-- it needs.
run-stage : (es : List (Page × Event)) → (h : Stage) × (stage (run es start) ≡ some h)
run-stage es = run-stage_from es start choosing (unfold stage start in refl)
