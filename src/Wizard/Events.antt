-- ===== src/Wizard/Events.antt =====
-- What can happen on the page of the booking wizard (frontend/src/app/mini-app/book/page.tsx): every
-- event in one function.
use hunger_platform.Prelude.{ℕ, Bool, not, Option, List, [], ◌∷◌, Text, if◌then◌else◌}
use hunger_platform.Wizard.{Page, State}
use hunger_platform.Wizard.Handlers.{
  on_step, nth, services_effect, masters_effect, choose_category, choose_service,
  back_from_master_step, toggle_consultation, choose_master, continue_to_consultation,
  back_from_time_step, choose_date, toggle_call_for_time, choose_time, next,
}
use hunger_platform.Wizard.Submission.{
  confirm, confirmed, submit_consultation, consultation_answered, PromoResponse, apply_promo,
  promo_answered, remove_promo,
}

pub data Event : Type 0 where
  services_loaded masters_loaded : Event
  category_clicked : Option Text → Event
  service_clicked : ℕ → Event
  master_back consultation_toggled : Event
  master_clicked : ℕ → Event
  continue_clicked time_back : Event
  date_clicked : Text → Bool → Event
  call_toggled : Event
  time_clicked : ℕ → Event
  next_clicked confirm_back : Event
  name_typed phone_typed comment_typed promo_typed : Text → Event
  promo_toggled promo_applied promo_removed : Event
  promo_reply : Option PromoResponse → Event
  confirm_clicked : Event
  confirm_reply : ℕ → Bool → Event
  consultation_back submit_clicked : Event
  submit_reply : Bool → Event

unfoldable pub step : Page → Event → State → State
unfolding on_step services_effect masters_effect choose_category choose_service
    back_from_master_step toggle_consultation choose_master continue_to_consultation
    back_from_time_step choose_date toggle_call_for_time choose_time next confirm confirmed nth
    submit_consultation consultation_answered apply_promo promo_answered remove_promo
step p services_loaded s = services_effect p s
step p masters_loaded s = masters_effect p s
step p (category_clicked c) s = choose_category c s
step p (service_clicked n) s = choose_service p n s
step p master_back s = back_from_master_step p s
step p consultation_toggled s = toggle_consultation s
step p (master_clicked n) s = choose_master p n s
step p continue_clicked s = continue_to_consultation s
step p time_back s = back_from_time_step p s
step p (date_clicked iso is_past) s = choose_date iso is_past s
step p call_toggled s = toggle_call_for_time s
step p (time_clicked n) s = choose_time p n s
step p next_clicked s = next p s
step p confirm_back s = on_step 3 (record s { step = 2 }) s
step p (name_typed t) s = on_step 3 (record s { confirm_name = t }) s
step p (phone_typed t) s = on_step 3 (record s { confirm_phone = t }) s
step p (comment_typed t) s = on_step 3 (record s { booking_comment = t }) s
step p (promo_typed t) s =
    on_step 3 (if s.promo_open then record s { promo_input = p.to_upper_case t } else s) s
step p promo_toggled s = on_step 3 (record s { promo_open = not s.promo_open }) s
step p promo_applied s = apply_promo p s
step p promo_removed s = remove_promo s
step p (promo_reply res) s = promo_answered p res s
step p confirm_clicked s = confirm p s
step p (confirm_reply n ok) s = confirmed (nth n s.confirms) n ok s
step p consultation_back s = on_step 5 (record s { step = 1 }) s
step p submit_clicked s = submit_consultation p s
step p (submit_reply ok) s = consultation_answered ok s

-- What happens, each with what the hooks hand the page at that time.
unfoldable pub run : List (Page × Event) → State → State
unfolding step
run [] s = s
run ((p, e) ∷ es) s = run es (step p e s)
