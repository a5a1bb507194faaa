-- ===== src/Examples/Wizard.antt =====
-- The booking wizard and the salon's times at concrete inputs
-- (frontend/src/app/mini-app/book/page.tsx, frontend/src/lib/date-local.ts).
use hunger_platform.Prelude.{
  ℕ, ◌+◌, ◌-◌, ◌*◌, Text, lookup, Option, ◌≡◌, ◌≤◌, ◌⊎◌, refl, false, none, some, [], ◌∷◌, codes,
  truthy, arith,
}
use hunger_platform.Dates.{Zone, part, or_zeros, zoned_to_utc_iso}
use hunger_platform.Dates.Local.{Shows, zoned_to_utc_iso-Shows}
use hunger_platform.Periods.Calendar.{year_of, month_of, month_in, year_len, month_len, is_leap}
use hunger_platform.Periods.Walks.{walk}
use hunger_platform.Wizard.{ServiceItem, Master, BookingCreatePayload, Page, State, start}
use hunger_platform.Wizard.Price.{
  base_price, price_after_status, final_amount, final_price, final_price-lowest,
}
use hunger_platform.Wizard.Stages.{Stage, reviewing, at_time, stage, Move}
use hunger_platform.Wizard.Events.{step, confirm_back}
use hunger_platform.Wizard.Submission.{confirm}
use hunger_platform.Wizard.Requests.{starts_of, is_by_phone, confirm-reviewing}
use hunger_platform.Wizard.Refinement.{step-Moves}

-- The number that a text of digits stands for, behind those that were read.
unfoldable decimal : ℕ → Text → ℕ
decimal n [] = n
decimal n (c ∷ t) = decimal (n * 10 + (c - 48)) t

-- A zone two hours ahead of UTC, and the eleventh day of 1970.
abbrev some_zone : Zone
some_zone = record {
  parse = λ date time. some 864000000;
  parts = λ t.
      ("year", codes "1970")
      ∷ ("month", codes "01")
      ∷ ("day", codes "11")
      ∷ ("hour", codes "02")
      ∷ ("minute", codes "00")
      ∷ ("second", codes "00")
      ∷ [];
  number = decimal 0;
  hour = λ iso. none;
  minute = λ iso. none;
}

two_ahead : Shows some_zone 864000000 871200000
unfolding part or_zeros lookup decimal year_of month_of month_in walk year_len month_len is_leap
two_ahead = record {
  year = refl;
  month = refl;
  day = refl;
  hour = refl;
  minute = refl;
  second = refl;
  whole = refl;
}

zoned_to_utc_iso-Shows_example :
    (t : ℕ) × (zoned_to_utc_iso some_zone (codes "1970-01-11") (codes "00:00") ≡ some t)
    × (t + 871200000 ≡ 864000000 + 864000000)
zoned_to_utc_iso-Shows_example =
    zoned_to_utc_iso-Shows some_zone (codes "1970-01-11") (codes "00:00") 864000000 871200000 refl
      two_ahead (omega arith)

abbrev some_service : ServiceItem
some_service = record { id = codes "s1"; price = 4550; category_id = none }

abbrev some_master : Master
some_master = record { id = codes "m1"; name = codes "Ana"; display_name = none }

abbrev some_page : Page
some_page = record {
  user = none;
  profile_name = some (codes "Eva");
  profile_phone = none;
  stored_name = none;
  q_service_id = [];
  q_master_id = [];
  master_pub = none;
  master_pub_loading = false;
  master_pub_err = false;
  services = some_service ∷ [];
  masters = some_master ∷ [];
  slots = codes "10:00" ∷ [];
  discount_percent = 15;
  zone = some_zone;
  to_upper_case = λ t. t;
  create_pending = false;
}

-- At the review of a visit, with a promo code.
abbrev at_review : State
at_review = record start {
  step = 3;
  service = some some_service;
  master = some some_master;
  date = codes "2026-05-04";
  time = codes "10:00";
  applied_promo = some (record {
    code = codes "MAY";
    discount_amount = none;
    discount_percent = none;
    final_amount = some 3500;
  });
}

final_price-lowest_example :
    (final_price some_page at_review ≤ base_price at_review)
    × (final_price some_page at_review ≤ price_after_status some_page at_review)
    × ((amount : ℕ)
        → final_amount at_review ≡ some amount
        → final_price some_page at_review ≤ amount)
    × ((final_price some_page at_review ≡ price_after_status some_page at_review)
        ⊎ (final_amount at_review ≡ some (final_price some_page at_review)))
final_price-lowest_example = final_price-lowest some_page at_review (omega arith)

abbrev reviewed : Stage
reviewed = reviewing some_service some_master (at_time (codes "2026-05-04") (codes "10:00"))

at_review-stage : stage at_review ≡ some reviewed
unfolding stage start truthy
at_review-stage = refl

step-Moves_example :
    (h : Stage) × (stage (step some_page confirm_back at_review) ≡ some h)
    × Move some_page reviewed h
step-Moves_example = step-Moves some_page confirm_back at_review reviewed at_review-stage

confirm-reviewing_example :
    ((at_moment : Option ℕ) × (r : BookingCreatePayload) × (starts_of some_zone
          (at_time (codes "2026-05-04") (codes "10:00"))
        ≡ some at_moment)
      × ((confirm some_page at_review).sent ≡ r ∷ at_review.sent)
      × (r.service_id ≡ some_service.id)
      × (r.master_id ≡ some some_master.id)
      × (r.starts_at ≡ at_moment)
      × (r.call_for_time ≡ some (is_by_phone (at_time (codes "2026-05-04") (codes "10:00")))))
    ⊎ ((starts_of some_zone (at_time (codes "2026-05-04") (codes "10:00")) ≡ none)
        × ((confirm some_page at_review).sent ≡ at_review.sent))
confirm-reviewing_example =
    confirm-reviewing some_page at_review some_service some_master
      (at_time (codes "2026-05-04") (codes "10:00")) at_review-stage refl
