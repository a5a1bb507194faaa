-- ===== src/Wizard/Refinement/Choices.antt =====
-- The choice of the master and of the time, as moves (frontend/src/app/mini-app/book/page.tsx).
use hunger_platform.Prelude.{
  ℕ, ◌≡◌, refl, Bool, true, false, ◌&&◌, ◌||◌, not, Option, none, some, [], Text, truthy, arith,
  if-rule,
}
use hunger_platform.Wizard.{time_str, Master, Page, State, master_only}
use hunger_platform.Wizard.Handlers.{
  nth, back_from_master_step, toggle_consultation, choose_master, enter_master,
  continue_to_consultation, back_from_time_step, choose_date, toggle_call_for_time, choose_time,
  enter_time, next,
}
use hunger_platform.Wizard.Stages.{
  Slot, by_phone, at_time, Stage, choosing, choosing_master, choosing_time, reviewing, consulting,
  slot_of, review_of, with_service, with_master, stage, pick_master, consult, review, leave_masters,
  leave_time, leave_time_of, Reaches, stays, kept, on_step-Reaches, at_1, at_2,
}

module _ (p : Page) (g : Stage) (s : State) (here : stage s ≡ some g) where
  pub back_from_master_step-Reaches : Reaches p g (back_from_master_step p s)
  unfolding back_from_master_step stage Reaches
  back_from_master_step-Reaches = on_step-Reaches p g s here 1 _ (λ e.
      let (svc, h, at) = at_1 p g s here e in
      if-rule (Reaches p g) (truthy p.q_service_id) _ _ (λ _. kept p g s here)
        (λ _. rw at (choosing, refl, leave_masters svc)))

  pub toggle_consultation-Reaches : Reaches p g (toggle_consultation s)
  unfolding toggle_consultation stage
  toggle_consultation-Reaches = on_step-Reaches p g s here 1 _ (λ e. stays p g s here _ refl)

  enter_master-Reaches : s.step ≡ 1 → (o : Option Master) → Reaches p g (enter_master o s)
  unfolding enter_master stage with_master Reaches
  enter_master-Reaches e none = kept p g s here
  enter_master-Reaches e (some m) =
      let (svc, h, at) = at_1 p g s here e in
      rw at (choosing_time svc m, rw h refl, pick_master svc m)

  pub choose_master-Reaches : (n : ℕ) → Reaches p g (choose_master p n s)
  unfolding choose_master
  choose_master-Reaches n = on_step-Reaches p g s here 1 _ (λ e.
      if-rule (Reaches p g) s.consultation_mode _ _ (λ _. kept p g s here)
        (λ _. enter_master-Reaches e (nth n p.masters)))

  pub continue_to_consultation-Reaches : Reaches p g (continue_to_consultation s)
  unfolding continue_to_consultation stage with_service Reaches
  continue_to_consultation-Reaches = on_step-Reaches p g s here 1 _ (λ e.
      let (svc, h, at) = at_1 p g s here e in
      if-rule (Reaches p g) s.consultation_mode _ _
        (λ _. rw at (consulting svc, rw h refl, consult svc)) (λ _. kept p g s here))

  pub back_from_time_step-Reaches : Reaches p g (back_from_time_step p s)
  unfolding back_from_time_step stage with_service Reaches
  back_from_time_step-Reaches = on_step-Reaches p g s here 2 _ (λ e.
      let (svc, m, h, k, at) = at_2 p g s here e in
      if-rule (Reaches p g) (master_only p) _ _
        (λ only. rw at (choosing, refl, leave_time_of svc m only))
        (λ _. rw at (choosing_master svc, rw h refl, leave_time svc m)))

  -- A change of the date, the time or the call is no move while the time is chosen.
  same_time_step :
      s.step ≡ 2
      → (date time : Text) (call : Bool)
      → Reaches p g (record s { date = date; time = time; call_for_time = call })
  unfolding stage
  same_time_step e date time call = stays p g s here _ (rw e refl)

  pub choose_date-Reaches : (iso : Text) (is_past : Bool) → Reaches p g (choose_date iso is_past s)
  unfolding choose_date
  choose_date-Reaches iso is_past = on_step-Reaches p g s here 2 _ (λ e.
      if-rule (Reaches p g) is_past _ _ (λ _. kept p g s here)
        (λ _. same_time_step e iso [] s.call_for_time))

  pub toggle_call_for_time-Reaches : Reaches p g (toggle_call_for_time s)
  unfolding toggle_call_for_time
  toggle_call_for_time-Reaches = on_step-Reaches p g s here 2 _ (λ e.
      if-rule (Reaches p g) s.call_for_time _ _ (λ _. same_time_step e s.date s.time false)
        (λ _. same_time_step e s.date [] true))

  enter_time-Reaches : s.step ≡ 2 → (o : Option Text) → Reaches p g (enter_time p o s)
  unfolding enter_time
  enter_time-Reaches e none = kept p g s here
  enter_time-Reaches e (some slot) = same_time_step e s.date (time_str p.zone slot) s.call_for_time

  pub choose_time-Reaches : (n : ℕ) → Reaches p g (choose_time p n s)
  unfolding choose_time
  choose_time-Reaches n = on_step-Reaches p g s here 2 _ (λ e.
      if-rule (Reaches p g) (truthy s.date && not s.call_for_time) _ _
        (λ _. enter_time-Reaches e (nth n p.slots)) (λ _. kept p g s here))

  slot_of_ready :
      (date time : Text) (call : Bool)
      → (truthy date && (call || truthy time)) ≡ true
      → (w : Slot) × (slot_of date time call ≡ some w)
  unfolding slot_of
  slot_of_ready date time true h = (by_phone date, ground arith)
  slot_of_ready date time false h = (at_time date time, ground arith)

  pub next-Reaches : Reaches p g (next p s)
  unfolding next stage with_master review_of Reaches
  next-Reaches = on_step-Reaches p g s here 2 _ (λ e.
      let (svc, m, h, k, at) = at_2 p g s here e in
      if-rule (Reaches p g) (truthy s.date && (s.call_for_time || truthy s.time)) _ _
        (λ ready.
          let (w, l) = slot_of_ready s.date s.time s.call_for_time ready in
          rw at (reviewing svc m w, rw h (rw k (rw l refl)), review svc m w))
        (λ _. kept p g s here))
