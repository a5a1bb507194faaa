-- ===== src/Wizard.antt =====
-- The booking wizard of the mini app (`BookContent` of frontend/src/app/mini-app/book/page.tsx): what
-- it keeps, what the hooks hand it, and the values it derives from both. `Wizard/Handlers` has the
-- handlers of the steps, `Wizard/Submission` what is sent and answered, and `Wizard/Events` every event.
pub mod Handlers
pub mod Submission
pub mod Events
pub mod Stages
pub mod Refinement
pub mod Requests
pub mod Price
use hunger_platform.Prelude.{
  ℕ, ◌+◌, ◌-◌, ◌*◌, ◌/◌, Bool, true, false, ◌&&◌, ◌||◌, not, Option, none, some, List, [], ◌∷◌,
  ◌++◌, map, Text, codes, same, truthy, trim, if◌then◌else◌, ltb,
}
use hunger_platform.Dates.{Zone, iso_to_time_in_zone}
use hunger_platform.Referral.{mem}

-- `Service` of the mini app's hooks, with its price in cents.
pub record ServiceItem : Type 0 where
  pub id : Text
  pub price : ℕ
  pub category_id : Option Text

pub record Master : Type 0 where
  pub id : Text
  pub name : Text
  pub display_name : Option Text

pub record PublicMasterProfile : Type 0 where
  pub id : Text
  pub display_name : Text
  pub service_ids : List Text

pub record TelegramUser : Type 0 where
  pub id : ℕ
  pub first_name : Text
  pub last_name : Option Text

-- What the hooks, the address and the browser hand the page when something happens. A parameter of
-- the address that is absent is the empty text, which the page's tests do not tell apart from it.
pub record Page : Type 0 where
  pub user : Option TelegramUser
  pub profile_name : Option Text
  pub profile_phone : Option Text
  pub stored_name : Option Text
  pub q_service_id : Text
  pub q_master_id : Text
  pub master_pub : Option PublicMasterProfile
  pub master_pub_loading : Bool
  pub master_pub_err : Bool
  pub services : List ServiceItem
  pub masters : List Master
  pub slots : List Text
  pub discount_percent : ℕ
  pub zone : Zone
  pub to_upper_case : Text → Text
  pub create_pending : Bool

-- `BookingCreatePayload`; `starts_at` is the instant that the source writes as an ISO text.
pub record BookingCreatePayload : Type 0 where
  pub service_id : Text
  pub master_id : Option Text
  pub starts_at : Option ℕ
  pub needs_consultation : Option Bool
  pub client_name : Option Text
  pub client_phone : Option Text
  pub telegram_id : Option ℕ
  pub comment : Option Text
  pub call_for_time : Option Bool
  pub promo_code : Option Text

-- Amounts are in cents.
pub record Promo : Type 0 where
  pub code : Text
  pub discount_amount : Option ℕ
  pub discount_percent : Option ℕ
  pub final_amount : Option ℕ

pub data PromoError : Type 0 where
  expired min_amount limit_reached invalid : PromoError

-- The page's state. `step` is 0 (service), 1 (master), 2 (date and time), 3 (confirm), 4 (success) or
-- 5 (consultation). A date or a time that is null is the empty text. `confirms` are the confirmations
-- that wait for their answer, each with the name that it will store; `sent` are the payloads given to
-- `createBooking`, the latest first; `saved_name` is what was last handed to the storage; `promo_asked`
-- is the code and the amount that were last sent for validation.
pub record State : Type 0 where
  pub step : ℕ
  pub active_cat_id : Option Text
  pub service : Option ServiceItem
  pub master : Option Master
  pub date : Text
  pub time : Text
  pub consultation_mode : Bool
  pub call_for_time : Bool
  pub confirm_name : Text
  pub confirm_phone : Text
  pub booking_comment : Text
  pub promo_open : Bool
  pub promo_input : Text
  pub applied_promo : Option Promo
  pub promo_error : Option PromoError
  pub promo_loading : Bool
  pub promo_asked : Option (Text × ℕ)
  pub submitting : Bool
  pub service_query_handled : Bool
  pub master_jump : Bool
  pub confirms : List Text
  pub sent : List BookingCreatePayload
  pub saved_name : Option Text

unfoldable pub start : State
start = record {
  step = 0;
  active_cat_id = none;
  service = none;
  master = none;
  date = [];
  time = [];
  consultation_mode = false;
  call_for_time = false;
  confirm_name = [];
  confirm_phone = [];
  booking_comment = [];
  promo_open = false;
  promo_input = [];
  applied_promo = none;
  promo_error = none;
  promo_loading = false;
  promo_asked = none;
  submitting = false;
  service_query_handled = false;
  master_jump = false;
  confirms = [];
  sent = [];
  saved_name = none;
}

-- `Boolean(qMasterId && !qServiceId)`
unfoldable pub master_only : Page → Bool
master_only p = truthy p.q_master_id && not (truthy p.q_service_id)

-- `t ?? ''`, trimmed.
unfoldable pub trimmed : Option Text → Text
trimmed none = []
trimmed (some t) = trim t

-- `t || undefined`
unfoldable pub or_undefined : Text → Option Text
or_undefined t = if truthy t then some t else none

-- `` `${user.first_name} ${user.last_name ?? ''}`.trim() ``
unfoldable pub full_name : TelegramUser → Text
full_name u = elim u.last_name [
  | none ↦ trim (u.first_name ++ codes " ")
  | some l ↦ trim (u.first_name ++ (codes " " ++ l))
]

-- `clientProfile?.first_name?.trim() || storedName`
unfoldable pub profile_or_stored : Page → Text
unfolding trimmed
profile_or_stored p =
    if truthy (trimmed p.profile_name) then trimmed p.profile_name else trimmed p.stored_name

-- `defaultName` of `handleConfirm`
unfoldable pub default_name : Page → Text
unfolding full_name profile_or_stored
default_name p = elim p.user [ none ↦ profile_or_stored p | some u ↦ full_name u ]

-- The name that the form shows first, on the way to the confirmation.
unfoldable pub suggested_name : Page → Text
unfolding full_name profile_or_stored
suggested_name p =
    if truthy (profile_or_stored p)
    then profile_or_stored p
    else elim p.user [ none ↦ [] | some u ↦ full_name u ]

-- `confirmName.trim() || defaultName`
unfoldable pub name_for_booking : Page → State → Text
name_for_booking p s = if truthy (trim s.confirm_name) then trim s.confirm_name else default_name p

-- `user?.id`
unfoldable pub telegram_id : Page → Option ℕ
telegram_id p = elim p.user [ none ↦ none | some u ↦ some u.id ]

-- `appliedPromo?.code`
unfoldable pub promo_code : State → Option Text
promo_code s = elim s.applied_promo [ none ↦ none | some promo ↦ some promo.code ]

-- The catalogue: what a master offers, and what is of the category that was chosen.
unfoldable pub is_listed : Page → Option Text → ServiceItem → Bool
is_listed p cat svc =
    (if master_only p
      then elim p.master_pub [ none ↦ true | some m ↦ mem svc.id m.service_ids ]
      else true)
    && elim cat [
      | none ↦ true
      | some c ↦ elim svc.category_id [
        | none ↦ not (truthy c)
        | some d ↦ not (truthy c) || same d c
      ]
    ]

-- The catalogue is drawn, not the notes that a master's profile is loading or missing.
unfoldable pub shows_catalog : Page → Bool
unfolding master_only
shows_catalog p =
    if master_only p && p.master_pub_loading
    then false
    else not
        (master_only p && (p.master_pub_err || elim p.master_pub [ none ↦ true | some _ ↦ false ]))

-- The time on a slot's button.
unfoldable pub time_str : Zone → Text → Text
time_str z slot = if ltb 5 (chars slot) then iso_to_time_in_zone z slot else slot
  where
    chars : Text → ℕ
    chars [] = 0
    chars (c ∷ t) = chars t + 1
