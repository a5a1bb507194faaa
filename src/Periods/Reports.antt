-- ===== src/Periods/Reports.antt =====
-- The period of the reports (frontend/src/app/(admin)/reports/reports-context.tsx).
use hunger_platform.Prelude.{ℕ, ◌+◌, ◌-◌, ◌≡◌, refl, List, [], ◌∷◌, ltb, if◌then◌else◌, sym}
use hunger_platform.Periods.Calendar.{year_of, month_of, make_day}
use hunger_platform.Periods.Statistics.{Range, start_of_month}

pub data ReportsPreset : Type 0 where
  this_month last_month quarter custom : ReportsPreset

-- The year, since 1970, and the month that are two months back: what `setUTCMonth` makes of a month
-- that may be below 0.
unfoldable pub two_back : ℕ → ℕ → ℕ × ℕ
two_back k m = if ltb m 2 then (k - 1, m + 10) else (k, m - 2)

-- `s.setUTCMonth(s.getUTCMonth() - 2)`: the day of the month is kept, and counts on into the next
-- month where the month is too short for it.
unfoldable pub minus_two_months : ℕ → ℕ
unfolding two_back
minus_two_months d =
    let (k, m) = two_back (year_of d).0 (month_of d).0 in make_day k m (month_of d).1

-- `s.setUTCDate(1)`
unfoldable pub first_of_month : ℕ → ℕ
first_of_month d = d - (month_of d).1

unfoldable pub range_for_reports_preset : ℕ → ReportsPreset → Range
unfolding start_of_month minus_two_months first_of_month
range_for_reports_preset now this_month = record { from = start_of_month now; to = now }
range_for_reports_preset now last_month =
    let last_end = start_of_month now - 1 in
    record { from = start_of_month last_end; to = last_end }
range_for_reports_preset now quarter = record {
  from = start_of_month (first_of_month (minus_two_months now));
  to = now;
}
range_for_reports_preset now custom = record { from = start_of_month now; to = now }

-- The state of `ReportsPeriodProvider`.
pub record Period : Type 0 where
  pub preset : ReportsPreset
  pub custom_range : Range

unfoldable pub initial : ℕ → Period
unfolding range_for_reports_preset
initial now = record { preset = this_month; custom_range = range_for_reports_preset now this_month }

unfoldable pub range_of : ℕ → ReportsPreset → Range → Range
unfolding range_for_reports_preset
range_of now custom r = r
range_of now this_month r = range_for_reports_preset now this_month
range_of now last_month r = range_for_reports_preset now last_month
range_of now quarter r = range_for_reports_preset now quarter

-- `range`
unfoldable pub range : ℕ → Period → Range
unfolding range_of
range now s = range_of now s.preset s.custom_range

unfoldable pub set_preset : ℕ → ReportsPreset → Period → Period
unfolding range_of
set_preset now p s = record { preset = p; custom_range = range_of now p s.custom_range }

unfoldable pub set_custom_range : Range → Period → Period
set_custom_range r s = record { preset = custom; custom_range = r }

pub data Event : Type 0 where
  preset_chosen : ReportsPreset → Event
  range_chosen : Range → Event

-- What the user chooses within one day.
unfoldable pub run : ℕ → List Event → Period → Period
unfolding set_preset set_custom_range
run now [] s = s
run now (preset_chosen p ∷ es) s = run now es (set_preset now p s)
run now (range_chosen r ∷ es) s = run now es (set_custom_range r s)

in_sync :
    (now : ℕ) (p : ReportsPreset) (r : Range) → range_of now p (range_of now p r) ≡ range_of now p r
unfolding range_of
in_sync now this_month r = refl
in_sync now last_month r = refl
in_sync now quarter r = refl
in_sync now custom r = refl

run-in_sync :
    (now : ℕ) (es : List Event) (s : Period)
    → range now s ≡ s.custom_range
    → range now (run now es s) ≡ (run now es s).custom_range
unfolding run range set_preset set_custom_range
run-in_sync now [] s h = h
run-in_sync now (preset_chosen p ∷ es) s h =
    run-in_sync now es (set_preset now p s) (in_sync now p s.custom_range)
run-in_sync now (range_chosen r ∷ es) s h = run-in_sync now es (set_custom_range r s) refl

-- Whatever was chosen within a day, turning to a range of one's own starts from the period shown.
range-set_preset :
    (now : ℕ) (es : List Event)
    → range now (set_preset now custom (run now es (initial now)))
      ≡ range now (run now es (initial now))
unfolding set_preset range
range-set_preset now es = sym (run-in_sync now es (initial now) (unfold initial in refl))
