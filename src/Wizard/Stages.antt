-- ===== src/Wizard/Stages.antt =====
-- What the booking wizard promises (frontend/src/app/mini-app/book/page.tsx): stages that carry the
-- choices made so far, the moves between them, and that the page implements them.
use hunger_platform.Prelude.{
  ℕ, ◌≡◌, refl, Bool, true, not, Option, none, some, Text, truthy, if◌then◌else◌, ◌==◌, arith,
  if-rule, same, ◌∙◌, Option-cases, inl, inr,
}
use hunger_platform.Wizard.{ServiceItem, Master, Page, State, master_only}
use hunger_platform.Wizard.Handlers.{on_step}

-- When the visit is to be.
pub data Slot : Type 0 where
  by_phone : Text → Slot
  at_time : Text → Text → Slot

pub data Stage : Type 0 where
  choosing : Stage
  choosing_master : ServiceItem → Stage
  choosing_time : ServiceItem → Master → Stage
  reviewing : ServiceItem → Master → Slot → Stage
  consulting : ServiceItem → Stage
  booked : Stage

unfoldable pub slot_of : Text → Text → Bool → Option Slot
slot_of date time call =
    if not (truthy date)
    then none
    else if call
    then some (by_phone date)
    else if truthy time
    then some (at_time date time)
    else none

unfoldable pub review_of : ServiceItem → Master → Option Slot → Option Stage
review_of svc m none = none
review_of svc m (some w) = some (reviewing svc m w)

-- The stages of a step that needs a service, and of one that needs a master too.
unfoldable pub with_service : Option ServiceItem → (ServiceItem → Stage) → Option Stage
with_service none f = none
with_service (some svc) f = some (f svc)

unfoldable pub with_master :
    Option ServiceItem → Option Master → (ServiceItem → Master → Option Stage) → Option Stage
with_master none m f = none
with_master (some svc) none f = none
with_master (some svc) (some m) f = f svc m

-- The stage that a state shows, with `none` for a step whose choices are missing.
unfoldable pub stage : State → Option Stage
unfolding slot_of review_of with_service with_master
stage s =
    if s.step == 0
    then some choosing
    else if s.step == 1
    then with_service s.service choosing_master
    else if s.step == 2
    then with_master s.service s.master (λ svc m. some (choosing_time svc m))
    else if s.step == 3
    then with_master s.service s.master
        (λ svc m. review_of svc m (slot_of s.date s.time s.call_for_time))
    else if s.step == 4
    then some booked
    else if s.step == 5
    then with_service s.service consulting
    else none

-- One move: choosing, going back, following a link of the address, and the answer of the backend.
pub data Move (p : Page) : Stage → Stage → Type 0 where
  stay : (g : Stage) → Move p g g
  pick_service : (svc : ServiceItem) → Move p choosing (choosing_master svc)
  pick_service_of : (svc : ServiceItem) (m : Master) → Move p choosing (choosing_time svc m)
  link_service :
      (g : Stage) (svc : ServiceItem)
      → same svc.id p.q_service_id ≡ true
      → Move p g (choosing_master svc)
  link_master :
      (g : Stage) (svc : ServiceItem) (m : Master)
      → same svc.id p.q_service_id ≡ true
      → same m.id p.q_master_id ≡ true
      → Move p g (choosing_time svc m)
  pick_master :
      (svc : ServiceItem) (m : Master) → Move p (choosing_master svc) (choosing_time svc m)
  consult : (svc : ServiceItem) → Move p (choosing_master svc) (consulting svc)
  review :
      (svc : ServiceItem) (m : Master) (w : Slot) → Move p (choosing_time svc m) (reviewing svc m w)
  leave_masters : (svc : ServiceItem) → Move p (choosing_master svc) choosing
  leave_time : (svc : ServiceItem) (m : Master) → Move p (choosing_time svc m) (choosing_master svc)
  leave_time_of :
      (svc : ServiceItem) (m : Master)
      → master_only p ≡ true
      → Move p (choosing_time svc m) choosing
  leave_review :
      (svc : ServiceItem) (m : Master) (w : Slot) → Move p (reviewing svc m w) (choosing_time svc m)
  leave_consulting : (svc : ServiceItem) → Move p (consulting svc) (choosing_master svc)
  finish : (g : Stage) → Move p g booked

-- From stage `g` to the stage of `t`.
unfoldable pub Reaches : Page → Stage → State → Type 0
Reaches p g t = (h : Stage) × (stage t ≡ some h) × Move p g h

module _ (p : Page) (g : Stage) (s : State) (here : stage s ≡ some g) where
  pub stays : (t : State) → stage t ≡ stage s → Reaches p g t
  unfolding Reaches
  stays t e = (g, e ∙ here, stay g)

  pub kept : Reaches p g s
  kept = stays s refl

  pub on_step-Reaches :
      (n : ℕ) (t : State) → (s.step ≡ n → Reaches p g t) → Reaches p g (on_step n t s)
  unfolding on_step
  on_step-Reaches n t h =
      if-rule (Reaches p g) (s.step == n) t s (λ e. h (ground arith)) (λ _. kept)

  pub at_0 : s.step ≡ 0 → g ≡ choosing
  unfolding stage
  at_0 e = ground arith

  pub at_1 : s.step ≡ 1 → (svc : ServiceItem) × (s.service ≡ some svc) × (g ≡ choosing_master svc)
  unfolding stage with_service
  at_1 e = elim (Option-cases s.service) [
    | inl h ↦ absurd (ground arith)
    | inr (svc, h) ↦ (svc, h, ground arith)
  ]

  pub at_2 :
      s.step ≡ 2
      → (svc : ServiceItem) × (m : Master) × (s.service ≡ some svc)
        × (s.master ≡ some m)
        × (g ≡ choosing_time svc m)
  unfolding stage with_master
  at_2 e = elim (Option-cases s.service) [
    | inl h ↦ absurd (ground arith)
    | inr (svc, h) ↦ elim (Option-cases s.master) [
      | inl k ↦ absurd (ground arith)
      | inr (m, k) ↦ (svc, m, h, k, ground arith)
    ]
  ]

  pub at_3 :
      s.step ≡ 3
      → (svc : ServiceItem) × (m : Master) × (w : Slot) × (s.service ≡ some svc)
        × (s.master ≡ some m)
        × (slot_of s.date s.time s.call_for_time ≡ some w)
        × (g ≡ reviewing svc m w)
  unfolding stage with_master review_of
  at_3 e = elim (Option-cases s.service) [
    | inl h ↦ absurd (ground arith)
    | inr (svc, h) ↦ elim (Option-cases s.master) [
      | inl k ↦ absurd (ground arith)
      | inr (m, k) ↦ elim (Option-cases (slot_of s.date s.time s.call_for_time)) [
        | inl l ↦ absurd (ground arith)
        | inr (w, l) ↦ (svc, m, w, h, k, l, ground arith)
      ]
    ]
  ]

  pub at_5 : s.step ≡ 5 → (svc : ServiceItem) × (s.service ≡ some svc) × (g ≡ consulting svc)
  unfolding stage with_service
  at_5 e = elim (Option-cases s.service) [
    | inl h ↦ absurd (ground arith)
    | inr (svc, h) ↦ (svc, h, ground arith)
  ]
