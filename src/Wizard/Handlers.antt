-- ===== src/Wizard/Handlers.antt =====
-- The effects and the handlers of the booking wizard's steps (frontend/src/app/mini-app/book/page.tsx).
-- A control that the current step does not show cannot be used, so a handler of another step changes
-- nothing.
use hunger_platform.Prelude.{
  ℕ, zero, suc, Bool, true, false, ◌&&◌, ◌||◌, not, Option, none, some, List, [], ◌∷◌, Text, same,
  truthy, if◌then◌else◌, ◌==◌, length,
}
use hunger_platform.Wizard.{
  ServiceItem, Master, Page, State, master_only, trimmed, suggested_name, is_listed, shows_catalog,
  time_str,
}

-- `t` where step `n` is shown.
unfoldable pub on_step : ℕ → State → State → State
on_step n t s = if s.step == n then t else s

module _ {ℓ} {A : Type ℓ} where
  unfoldable pub nth : ℕ → List A → Option A
  nth n [] = none
  nth zero (x ∷ xs) = some x
  nth (suc n) (x ∷ xs) = nth n xs

  -- `xs.find(p)`
  unfoldable pub find : (A → Bool) → List A → Option A
  find p [] = none
  find p (x ∷ xs) = if p x then some x else find p xs

  -- `xs.filter(p)`
  unfoldable pub filter : (A → Bool) → List A → List A
  filter p [] = []
  filter p (x ∷ xs) = if p x then x ∷ filter p xs else filter p xs

-- The effect of `service_id` in the address.
unfoldable pub open_service : Option ServiceItem → State → State
open_service none s = record s { service_query_handled = true }
open_service (some svc) s = record s { service_query_handled = true; service = some svc; step = 1 }

unfoldable pub services_effect : Page → State → State
unfolding open_service
services_effect p s =
    if s.service_query_handled || length p.services == 0
    then s
    else if not (truthy p.q_service_id)
    then record s { service_query_handled = true }
    else open_service (find (λ svc. same svc.id p.q_service_id) p.services) s

-- The effect of `master_id` beside `service_id`.
unfoldable pub open_master : Option Master → State → State
open_master none s = record s { master_jump = true }
open_master (some m) s = record s { master_jump = true; master = some m; step = 2 }

unfoldable pub is_service_of : Page → Option ServiceItem → Bool
is_service_of p none = false
is_service_of p (some svc) = same svc.id p.q_service_id

unfoldable pub masters_effect : Page → State → State
unfolding open_master is_service_of
masters_effect p s =
    if s.master_jump || not (truthy p.q_master_id) || not (truthy p.q_service_id)
    then s
    else if not (is_service_of p s.service)
    then s
    else if length p.masters == 0
    then s
    else open_master (find (λ m. same m.id p.q_master_id) p.masters) s

-- A chip of the catalogue, `none` for "all"; a second click on a category takes it off.
unfoldable pub toggled_category : Option Text → Option Text → Option Text
toggled_category none active = none
toggled_category (some c) none = some c
toggled_category (some c) (some a) = if same a c then none else some c

unfoldable pub choose_category : Option Text → State → State
unfolding on_step toggled_category
choose_category c s = on_step 0 (record s { active_cat_id = toggled_category c s.active_cat_id }) s

-- The click on a service: straight to the time when the page is one master's.
unfoldable pub enter_service : Page → ServiceItem → State → State
unfolding master_only
enter_service p svc s =
    let plain = record s { service = some svc; step = 1 } in
    if master_only p
    then elim p.master_pub [
      | none ↦ plain
      | some m ↦ record s {
        service = some svc;
        master =
            some (record { id = m.id; name = m.display_name; display_name = some m.display_name });
        step = 2;
      }
    ]
    else plain

unfoldable pub enter_nth : Page → Option ServiceItem → State → State
enter_nth p none s = s
enter_nth p (some svc) s = enter_service p svc s

-- The services that the catalogue lists.
unfoldable pub filtered : Page → State → List ServiceItem
unfolding filter is_listed
filtered p s = filter (is_listed p s.active_cat_id) p.services

unfoldable pub choose_service : Page → ℕ → State → State
unfolding on_step shows_catalog filtered enter_nth
choose_service p n s =
    on_step 0 (if shows_catalog p then enter_nth p (nth n (filtered p s)) s else s) s

-- With a service in the address the back button leaves the page.
unfoldable pub back_from_master_step : Page → State → State
unfolding on_step
back_from_master_step p s =
    on_step 1
      (if truthy p.q_service_id then s else record s { step = 0; consultation_mode = false }) s

unfoldable pub toggle_consultation : State → State
unfolding on_step
toggle_consultation s = on_step 1 (record s { consultation_mode = not s.consultation_mode }) s

unfoldable pub enter_master : Option Master → State → State
enter_master none s = s
enter_master (some m) s = record s { master = some m; step = 2 }

-- The list of masters takes no clicks in consultation mode.
unfoldable pub choose_master : Page → ℕ → State → State
unfolding on_step enter_master
choose_master p n s =
    on_step 1 (if s.consultation_mode then s else enter_master (nth n p.masters) s) s

unfoldable pub continue_to_consultation : State → State
unfolding on_step
continue_to_consultation s = on_step 1 (if s.consultation_mode then record s { step = 5 } else s) s

unfoldable pub back_from_time_step : Page → State → State
unfolding on_step master_only
back_from_time_step p s =
    on_step 2 (if master_only p then record s { step = 0 } else record s { step = 1 }) s

-- A day of the rail, with whether it is past.
unfoldable pub choose_date : Text → Bool → State → State
unfolding on_step
choose_date iso is_past s = on_step 2 (if is_past then s else record s { date = iso; time = [] }) s

unfoldable pub toggle_call_for_time : State → State
unfolding on_step
toggle_call_for_time s =
    on_step 2
      (if s.call_for_time
        then record s { call_for_time = false }
        else record s { call_for_time = true; time = [] })
      s

unfoldable pub enter_time : Page → Option Text → State → State
unfolding time_str
enter_time p none s = s
enter_time p (some slot) s = record s { time = time_str p.zone slot }

-- The slots are shown once there is a date, and not when the salon is to call.
unfoldable pub choose_time : Page → ℕ → State → State
unfolding on_step enter_time
choose_time p n s =
    on_step 2 (if truthy s.date && not s.call_for_time then enter_time p (nth n p.slots) s else s) s

-- The button on to the confirmation: it is there for a date with a time or a call.
unfoldable pub next : Page → State → State
unfolding on_step trimmed
next p s =
    on_step 2
      (if truthy s.date && (s.call_for_time || truthy s.time)
        then record s {
          confirm_name = suggested_name p;
          confirm_phone = trimmed p.profile_phone;
          booking_comment = [];
          step = 3;
        }
        else s)
      s
