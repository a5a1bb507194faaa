-- ===== src/Wizard/Requests.antt =====
-- What the booking wizard sends (frontend/src/app/mini-app/book/page.tsx).
use hunger_platform.Prelude.{
  ℕ, ◌≡◌, ◌≢◌, ◌⊎◌, refl, Bool, true, false, ◌&&◌, ◌||◌, not, Option, none, some, ◌∷◌, truthy,
  arith, if-rule, ◌∙◌, inl, inr, ap, Bool-cases,
}
use hunger_platform.Dates.{Zone, zoned_to_utc_iso}
use hunger_platform.Wizard.{ServiceItem, Master, BookingCreatePayload, Page, State}
use hunger_platform.Wizard.Stages.{
  Slot, Stage, choosing_time, choosing_master, consulting, at_3, by_phone, at_time, reviewing,
  slot_of, with_service, with_master, stage,
}
use hunger_platform.Wizard.Handlers.{on_step}
use hunger_platform.Wizard.Submission.{
  chosen_start, send_start, confirm_payload, confirm, handle_confirm,
}

-- When the visit is to start, of what the review shows: `some none` where the salon is to call, and
-- `none` where the date and time are no moment.
unfoldable pub starts_of : Zone → Slot → Option (Option ℕ)
starts_of z (by_phone date) = some none
starts_of z (at_time date time) = elim (zoned_to_utc_iso z date time) [
  | none ↦ none
  | some at_moment ↦ some (some at_moment)
]

unfoldable pub is_by_phone : Slot → Bool
is_by_phone (by_phone date) = true
is_by_phone (at_time date time) = false

slot_of-reads :
    (p : Page) (s : State) (w : Slot)
    → slot_of s.date s.time s.call_for_time ≡ some w
    → (truthy s.date ≡ true)
      × ((s.call_for_time || truthy s.time) ≡ true)
      × (s.call_for_time ≡ is_by_phone w)
      × (chosen_start p s ≡ starts_of p.zone w)
slot_of-reads p s w h = elim (Bool-cases s.call_for_time) [
  | inl e ↦ by_phone_reads e
  | inr e ↦ at_time_reads e
]
  where
    by_phone_reads :
        s.call_for_time ≡ true
        → (truthy s.date ≡ true)
          × ((s.call_for_time || truthy s.time) ≡ true)
          × (s.call_for_time ≡ is_by_phone w)
          × (chosen_start p s ≡ starts_of p.zone w)
    by_phone_reads e =
        let read : slot_of s.date s.time true ≡ some w = rw (← e) h in
        let d : truthy s.date ≡ true = unfold slot_of in ground arith in
        let is : w ≡ by_phone s.date = unfold slot_of in ground arith in
        rw is (
          d,
          rw e refl,
          rw e (unfold is_by_phone in refl),
          unfold chosen_start starts_of in rw e refl,
        )

    at_time_reads :
        s.call_for_time ≡ false
        → (truthy s.date ≡ true)
          × ((s.call_for_time || truthy s.time) ≡ true)
          × (s.call_for_time ≡ is_by_phone w)
          × (chosen_start p s ≡ starts_of p.zone w)
    at_time_reads e =
        let read : slot_of s.date s.time false ≡ some w = rw (← e) h in
        let d : truthy s.date ≡ true = unfold slot_of in ground arith in
        let t : truthy s.time ≡ true = unfold slot_of in ground arith in
        let is : w ≡ at_time s.date s.time = unfold slot_of in ground arith in
        rw is (
          d,
          rw t (ground arith),
          rw e (unfold is_by_phone in refl),
          unfold chosen_start starts_of in rw e refl,
        )

module _ (svc : ServiceItem) (m : Master) (w : Slot) where
  no_review_of_service :
      (o : Option ServiceItem) (f : ServiceItem → Stage)
      → ((x : ServiceItem) → f x ≢ reviewing svc m w)
      → with_service o f ≢ some (reviewing svc m w)
  unfolding with_service
  no_review_of_service none f k h = cc
  no_review_of_service (some x) f k h = k x (ground arith)

  no_review_of_time :
      (o : Option ServiceItem) (o' : Option Master)
      → with_master o o' (λ x y. some (choosing_time x y)) ≢ some (reviewing svc m w)
  unfolding with_master
  no_review_of_time none o' h = cc
  no_review_of_time (some x) none h = cc
  no_review_of_time (some x) (some y) h = cc

  reviewing-step : (s : State) → stage s ≡ some (reviewing svc m w) → s.step ≡ 3
  unfolding stage
  reviewing-step s h =
      let no_1 = no_review_of_service s.service choosing_master (λ x e. cc) in
      let no_5 = no_review_of_service s.service consulting (λ x e. cc) in
      let no_2 = no_review_of_time s.service s.master in ground arith

  -- A state that shows the review is at the confirmation, with the choices that the review shows.
  reviewing_parts :
      (p : Page) (s : State)
      → stage s ≡ some (reviewing svc m w)
      → (s.step ≡ 3)
        × (s.service ≡ some svc)
        × (s.master ≡ some m)
        × (slot_of s.date s.time s.call_for_time ≡ some w)
  reviewing_parts p s h =
      let e = reviewing-step s h in
      let (svc', m', w', is_svc, is_m, is_w, same_stage) = at_3 p (reviewing svc m w) s h e in
      (e, ground arith, ground arith, ground arith)

handle_confirm-send_start :
    (p : Page) (s : State) (svc : ServiceItem) (m : Master) (o : Option ServiceItem)
    (o' : Option Master)
    → o ≡ some svc
    → o' ≡ some m
    → truthy s.date ≡ true
    → (s.call_for_time || truthy s.time) ≡ true
    → handle_confirm p o o' s ≡ send_start p svc m (chosen_start p s) s
unfolding handle_confirm
handle_confirm-send_start p s svc m o o' is_svc is_m d t =
    let Sends : State → Type 0 = λ x. x ≡ send_start p svc m (chosen_start p s) s in
    rw is_svc (
      rw is_m (
        if-rule Sends (not (truthy s.date)) _ _ (λ e. absurd (ground arith))
          (λ _.
            if-rule Sends (not s.call_for_time && not (truthy s.time)) _ _
              (λ e. absurd (ground arith)) (λ _. refl))))

-- At the confirmation, and with no request pending, the button runs `handle_confirm`.
confirm-handle_confirm :
    (p : Page) (s : State)
    → s.step ≡ 3
    → p.create_pending ≡ false
    → confirm p s ≡ handle_confirm p s.service s.master s
unfolding confirm on_step
confirm-handle_confirm p s e idle = ground arith

-- What the button of the review sends: nothing where the start is no moment.
Sent : Page → State → ServiceItem → Master → Slot → State → Type 0
Sent p s svc m w t =
    ((at_moment : Option ℕ) × (r : BookingCreatePayload) × (starts_of p.zone w ≡ some at_moment)
      × (t.sent ≡ r ∷ s.sent)
      × (r.service_id ≡ svc.id)
      × (r.master_id ≡ some m.id)
      × (r.starts_at ≡ at_moment)
      × (r.call_for_time ≡ some (is_by_phone w)))
    ⊎ ((starts_of p.zone w ≡ none) × (t.sent ≡ s.sent))

send_start-Sent :
    (p : Page) (s : State) (svc : ServiceItem) (m : Master) (w : Slot) (o : Option (Option ℕ))
    → starts_of p.zone w ≡ o
    → s.call_for_time ≡ is_by_phone w
    → Sent p s svc m w (send_start p svc m o s)
unfolding send_start confirm_payload Sent
send_start-Sent p s svc m w none e c = inr (e, refl)
send_start-Sent p s svc m w (some at_moment) e c =
    inl (at_moment, confirm_payload p svc m at_moment s, e, refl, refl, refl, refl, ap some c)

-- The button of the review sends one request, for what the review shows: its service, its master, and
-- its date and time in the salon's zone, or none where the salon is to call. Where that date and time
-- are no moment, the conversion throws and nothing is sent.
pub confirm-reviewing :
    (p : Page) (s : State) (svc : ServiceItem) (m : Master) (w : Slot)
    → stage s ≡ some (reviewing svc m w)
    → p.create_pending ≡ false
    → ((at_moment : Option ℕ) × (r : BookingCreatePayload) × (starts_of p.zone w ≡ some at_moment)
        × ((confirm p s).sent ≡ r ∷ s.sent)
        × (r.service_id ≡ svc.id)
        × (r.master_id ≡ some m.id)
        × (r.starts_at ≡ at_moment)
        × (r.call_for_time ≡ some (is_by_phone w)))
      ⊎ ((starts_of p.zone w ≡ none) × ((confirm p s).sent ≡ s.sent))
unfolding Sent
confirm-reviewing p s svc m w h idle =
    let (e, is_svc, is_m, is_w) = reviewing_parts svc m w p s h in
    let (d, t, c, z) = slot_of-reads p s w is_w in
    let done : confirm p s ≡ send_start p svc m (starts_of p.zone w) s =
      confirm-handle_confirm p s e idle
      ∙ handle_confirm-send_start p s svc m s.service s.master is_svc is_m d t
      ∙ ap (λ o. send_start p svc m o s) z in
    rw done (send_start-Sent p s svc m w (starts_of p.zone w) refl c)
