-- ===== src/Wizard/Refinement/Answers.antt =====
-- The confirmation, the consultation, the promo code and the answers of the backend, as moves
-- (frontend/src/app/mini-app/book/page.tsx).
use hunger_platform.Prelude.{
  ℕ, ◌≡◌, refl, Bool, true, false, ◌&&◌, not, Option, none, some, Text, truthy, trim, if-rule, [],
}
use hunger_platform.Wizard.{ServiceItem, Master, Promo, Page, State}
use hunger_platform.Wizard.Handlers.{on_step}
use hunger_platform.Wizard.Submission.{
  PromoResponse, confirm, chosen_start, send_start, handle_confirm, confirmed, remove_nth,
  submit_consultation, handle_submit_consultation, consultation_answered, apply_promo,
  promo_answered, promo_result, remove_promo,
}
use hunger_platform.Wizard.Stages.{
  Stage, choosing_master, choosing_time, booked, with_service, with_master, stage, leave_review,
  leave_consulting, finish, Reaches, stays, kept, on_step-Reaches, at_3, at_5,
}

module _ (p : Page) (g : Stage) (s : State) (here : stage s ≡ some g) where
  pub confirm_back-Reaches : Reaches p g (on_step 3 (record s { step = 2 }) s)
  unfolding stage with_master Reaches
  confirm_back-Reaches = on_step-Reaches p g s here 3 _ (λ e.
      let (svc, m, w, h, k, l, at) = at_3 p g s here e in
      rw at (choosing_time svc m, rw h (rw k refl), leave_review svc m w))

  pub consultation_back-Reaches : Reaches p g (on_step 5 (record s { step = 1 }) s)
  unfolding stage with_service Reaches
  consultation_back-Reaches = on_step-Reaches p g s here 5 _ (λ e.
      let (svc, h, at) = at_5 p g s here e in
      rw at (choosing_master svc, rw h refl, leave_consulting svc))

  send_start-Reaches :
      (svc : ServiceItem) (m : Master) (o : Option (Option ℕ))
      → Reaches p g (send_start p svc m o s)
  unfolding send_start stage
  send_start-Reaches svc m none = kept p g s here
  send_start-Reaches svc m (some at_moment) = stays p g s here _ refl

  handle_confirm-Reaches :
      (svc : Option ServiceItem) (m : Option Master) → Reaches p g (handle_confirm p svc m s)
  unfolding handle_confirm stage
  handle_confirm-Reaches none m = kept p g s here
  handle_confirm-Reaches (some svc) none = kept p g s here
  handle_confirm-Reaches (some svc) (some m) =
      if-rule (Reaches p g) (not (truthy s.date)) _ _ (λ _. kept p g s here)
        (λ _.
          if-rule (Reaches p g) (not s.call_for_time && not (truthy s.time)) _ _
            (λ _. kept p g s here) (λ _. send_start-Reaches svc m (chosen_start p s)))

  pub confirm-Reaches : Reaches p g (confirm p s)
  unfolding confirm
  confirm-Reaches = on_step-Reaches p g s here 3 _ (λ _.
      if-rule (Reaches p g) p.create_pending _ _ (λ _. kept p g s here)
        (λ _. handle_confirm-Reaches s.service s.master))

  pub confirmed-Reaches : (o : Option Text) (n : ℕ) (ok : Bool) → Reaches p g (confirmed o n ok s)
  unfolding confirmed stage Reaches
  confirmed-Reaches none n ok = kept p g s here
  confirmed-Reaches (some name) n false =
      stays p g s here (record s { confirms = remove_nth n s.confirms }) refl
  confirmed-Reaches (some name) n true =
      if-rule (Reaches p g) (truthy name) _ _ (λ _. (booked, refl, finish g))
        (λ _. (booked, refl, finish g))

  handle_submit-Reaches : (o : Option ServiceItem) → Reaches p g (handle_submit_consultation p o s)
  unfolding handle_submit_consultation stage
  handle_submit-Reaches none = kept p g s here
  handle_submit-Reaches (some svc) = stays p g s here _ refl

  pub submit_consultation-Reaches : Reaches p g (submit_consultation p s)
  unfolding submit_consultation
  submit_consultation-Reaches = on_step-Reaches p g s here 5 _ (λ _.
      if-rule (Reaches p g) s.submitting _ _ (λ _. kept p g s here)
        (λ _. handle_submit-Reaches s.service))

  pub consultation_answered-Reaches : (ok : Bool) → Reaches p g (consultation_answered ok s)
  unfolding consultation_answered stage Reaches
  consultation_answered-Reaches true =
      if-rule (Reaches p g) (not s.submitting) _ _ (λ _. kept p g s here)
        (λ _. (booked, refl, finish g))
  consultation_answered-Reaches false =
      if-rule (Reaches p g) (not s.submitting) _ _ (λ _. kept p g s here)
        (λ _. stays p g s here (record s { submitting = false }) refl)

  pub apply_promo-Reaches : Reaches p g (apply_promo p s)
  unfolding apply_promo stage
  apply_promo-Reaches = on_step-Reaches p g s here 3 _ (λ _.
      if-rule (Reaches p g) (s.promo_open && not s.promo_loading && truthy (trim s.promo_input)) _ _
        (λ _. stays p g s here _ refl) (λ _. kept p g s here))

  promo_result-Reaches :
      (code : Text) (res : Option PromoResponse) → Reaches p g (promo_result p code res s)
  unfolding promo_result stage
  promo_result-Reaches code none = stays p g s here _ refl
  promo_result-Reaches code (some res) =
      if-rule (Reaches p g) (not res.valid) _ _ (λ _. stays p g s here _ refl)
        (λ _. stays p g s here _ refl)

  pub promo_answered-Reaches : (res : Option PromoResponse) → Reaches p g (promo_answered p res s)
  unfolding promo_answered
  promo_answered-Reaches res =
      if-rule (Reaches p g) s.promo_loading _ _ (λ _. asked_of s.promo_asked) (λ _. kept p g s here)
    where
      asked_of :
          (o : Option (Text × ℕ))
          → Reaches p g (elim o [ none ↦ s | some asked ↦ promo_result p asked.0 res s ])
      asked_of none = kept p g s here
      asked_of (some asked) = promo_result-Reaches asked.0 res

  pub remove_promo-Reaches : Reaches p g (remove_promo s)
  unfolding remove_promo stage
  remove_promo-Reaches = on_step-Reaches p g s here 3 _ (λ _. removed_of s.applied_promo)
    where
      removed_of :
          (o : Option Promo)
          → Reaches p g (elim o [
            | none ↦ s
            | some _ ↦ record s { applied_promo = none; promo_input = []; promo_error = none }
          ])
      removed_of none = kept p g s here
      removed_of (some _) = stays p g s here _ refl
