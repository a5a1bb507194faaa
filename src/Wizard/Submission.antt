-- ===== src/Wizard/Submission.antt =====
-- What the booking wizard sends, and what the answers do: the confirmation, the consultation and the
-- promo code (frontend/src/app/mini-app/book/page.tsx).
use hunger_platform.Prelude.{
  ℕ, zero, suc, Bool, true, false, ◌&&◌, ◌||◌, not, Option, none, some, List, [], ◌∷◌, ◌++◌, Text,
  codes, same, truthy, trim, if◌then◌else◌,
}
use hunger_platform.Dates.{zoned_to_utc_iso}
use hunger_platform.Wizard.{
  ServiceItem, Master, PromoError, expired, min_amount, limit_reached, invalid, Page, State,
  BookingCreatePayload, or_undefined, full_name, profile_or_stored, name_for_booking, telegram_id,
  promo_code,
}
use hunger_platform.Wizard.Price.{price_after_status}
use hunger_platform.Wizard.Handlers.{on_step}

-- `const starts_at`: `some none` where the salon is to call, and `none` where the conversion throws.
unfoldable pub chosen_start : Page → State → Option (Option ℕ)
unfolding zoned_to_utc_iso
chosen_start p s =
    if s.call_for_time then some none else elim (zoned_to_utc_iso p.zone s.date s.time) [
      | none ↦ none
      | some at_time ↦ some (some at_time)
    ]

-- The payload of `handleConfirm`.
unfoldable pub confirm_payload :
    Page → ServiceItem → Master → Option ℕ → State → BookingCreatePayload
unfolding name_for_booking or_undefined telegram_id promo_code
confirm_payload p svc m starts_at s = record {
  service_id = svc.id;
  master_id = some m.id;
  starts_at = starts_at;
  needs_consultation = none;
  client_name = or_undefined (name_for_booking p s);
  client_phone = or_undefined (trim s.confirm_phone);
  telegram_id = telegram_id p;
  comment = or_undefined (trim s.booking_comment);
  call_for_time = some s.call_for_time;
  promo_code = promo_code s;
}

-- `handleConfirm` up to its `await`.
unfoldable pub send_start : Page → ServiceItem → Master → Option (Option ℕ) → State → State
unfolding confirm_payload name_for_booking
send_start p svc m none s = s
send_start p svc m (some starts_at) s = record s {
  confirms = s.confirms ++ (name_for_booking p s ∷ []);
  sent = confirm_payload p svc m starts_at s ∷ s.sent;
}

unfoldable pub handle_confirm : Page → Option ServiceItem → Option Master → State → State
unfolding send_start chosen_start
handle_confirm p none m s = s
handle_confirm p (some svc) none s = s
handle_confirm p (some svc) (some m) s =
    if not (truthy s.date)
    then s
    else if not s.call_for_time && not (truthy s.time)
    then s
    else send_start p svc m (chosen_start p s) s

unfoldable pub confirm : Page → State → State
unfolding on_step handle_confirm
confirm p s = on_step 3 (if p.create_pending then s else handle_confirm p s.service s.master s) s

unfoldable pub remove_nth {ℓ} : {A : Type ℓ} → ℕ → List A → List A
remove_nth n [] = []
remove_nth zero (x ∷ xs) = xs
remove_nth (suc n) (x ∷ xs) = x ∷ remove_nth n xs

-- The rest of `handleConfirm`, for one of those that wait.
unfoldable pub confirmed : Option Text → ℕ → Bool → State → State
unfolding remove_nth
confirmed none n ok s = s
confirmed (some name) n ok s =
    if not ok
    then record s { confirms = remove_nth n s.confirms }
    else if truthy name
    then record s { confirms = remove_nth n s.confirms; saved_name = some name; step = 4 }
    else record s { confirms = remove_nth n s.confirms; step = 4 }

-- `browserClientName`
unfoldable pub browser_client_name : Page → Option Text
unfolding full_name or_undefined profile_or_stored
browser_client_name p = elim p.user [
  | none ↦ or_undefined (profile_or_stored p)
  | some u ↦ some (full_name u)
]

unfoldable pub consultation_payload : Page → ServiceItem → BookingCreatePayload
unfolding browser_client_name telegram_id
consultation_payload p svc = record {
  service_id = svc.id;
  master_id = none;
  starts_at = none;
  needs_consultation = some true;
  client_name = browser_client_name p;
  client_phone = none;
  telegram_id = telegram_id p;
  comment = none;
  call_for_time = none;
  promo_code = none;
}

unfoldable pub handle_submit_consultation : Page → Option ServiceItem → State → State
unfolding consultation_payload
handle_submit_consultation p none s = s
handle_submit_consultation p (some svc) s = record s {
  submitting = true;
  sent = consultation_payload p svc ∷ s.sent;
}

unfoldable pub submit_consultation : Page → State → State
unfolding on_step handle_submit_consultation
submit_consultation p s =
    on_step 5 (if s.submitting then s else handle_submit_consultation p s.service s) s

unfoldable pub consultation_answered : Bool → State → State
consultation_answered ok s =
    if not s.submitting
    then s
    else if ok
    then record s { submitting = false; step = 4 }
    else record s { submitting = false }

-- The body that `validatePromoCode` resolves to.
pub record PromoResponse : Type 0 where
  pub valid : Bool
  pub code : Option Text
  pub discount_amount : Option ℕ
  pub discount_percent : Option ℕ
  pub final_amount : Option ℕ
  pub error : Text

unfoldable pub apply_promo : Page → State → State
unfolding on_step price_after_status
apply_promo p s =
    on_step 3
      (if s.promo_open && not s.promo_loading && truthy (trim s.promo_input)
        then record s {
          promo_loading = true;
          promo_error = none;
          promo_asked = some (trim s.promo_input, price_after_status p s);
        }
        else s)
      s

unfoldable pub error_key : Text → PromoError
error_key e =
    if same e (codes "expired")
    then expired
    else if same e (codes "min_amount")
    then min_amount
    else if same e (codes "client_limit") || same e (codes "limit_reached")
    then limit_reached
    else invalid

-- `res.code ?? code.toUpperCase()`
unfoldable pub code_or : Option Text → Text → Text
code_or none code = code
code_or (some c) code = c

unfoldable pub promo_result : Page → Text → Option PromoResponse → State → State
unfolding error_key code_or
promo_result p code none s = record s { promo_error = some invalid; promo_loading = false }
promo_result p code (some res) s =
    if not res.valid
    then record s {
      promo_error = some (error_key res.error);
      applied_promo = none;
      promo_loading = false;
    }
    else record s {
      applied_promo = some (record {
        code = code_or res.code (p.to_upper_case code);
        discount_amount = res.discount_amount;
        discount_percent = res.discount_percent;
        final_amount = res.final_amount;
      });
      promo_open = false;
      promo_loading = false;
    }

-- The answer for the code that was asked for; `none` when the request or its parsing threw.
unfoldable pub promo_answered : Page → Option PromoResponse → State → State
unfolding promo_result
promo_answered p res s =
    if s.promo_loading
    then elim s.promo_asked [ none ↦ s | some asked ↦ promo_result p asked.0 res s ]
    else s

unfoldable pub remove_promo : State → State
unfolding on_step
remove_promo s =
    on_step 3
      (elim s.applied_promo [
        | none ↦ s
        | some _ ↦ record s { applied_promo = none; promo_input = []; promo_error = none }
      ])
      s
