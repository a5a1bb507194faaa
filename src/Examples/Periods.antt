-- ===== src/Examples/Periods.antt =====
-- The periods of the statistics and the reports at concrete days: day 20578 is 2026-05-05 and day 20573
-- is 2026-04-30 (frontend/src/app/(admin)/statistics/statistics-context.tsx,
-- frontend/src/app/(admin)/reports/reports-context.tsx).
use hunger_platform.Prelude.{suc, ◌+◌, ◌≡◌, ◌≤◌, ◌<◌, none, arith}
use hunger_platform.Periods.Calendar.{year_of, month_of, month_len, is_leap}
use hunger_platform.Periods.Statistics.{this_month, last_month, range_for_preset, Period}
use hunger_platform.Periods.Ranges.{last_month-this_month}
use hunger_platform.Periods.Quarter.{quarter_cases}
use hunger_platform.Periods.Reports.{quarter, two_back, range_for_reports_preset}

last_month-this_month_example :
    (month_of (range_for_preset 20578 last_month).from
      ≡ ((month_of (range_for_preset 20578 last_month).to).0, 0))
    × ((year_of (range_for_preset 20578 last_month).from).0
        ≡ (year_of (range_for_preset 20578 last_month).to).0)
    × ((range_for_preset 20578 last_month).to + 1 ≡ (range_for_preset 20578 this_month).from)
    × (month_of (range_for_preset 20578 this_month).from ≡ ((month_of 20578).0, 0))
last_month-this_month_example = last_month-this_month 20578 (omega arith)

abbrev first_period : Period
first_period = record { from = 20549; to = 20578; master_id = none }

-- The last of April, a day that February does not have.
quarter_cases_example :
    let k = (two_back (year_of 20573).0 (month_of 20573).0).0 in
    let m = (two_back (year_of 20573).0 (month_of 20573).0).1 in
    ((year_of (range_for_reports_preset 20573 quarter).from).0 ≡ k)
    × ((month_of 20573).1 < month_len (is_leap (1970 + k)) m
        → month_of (range_for_reports_preset 20573 quarter).from ≡ (m, 0))
    × (month_len (is_leap (1970 + k)) m ≤ (month_of 20573).1
        → month_of (range_for_reports_preset 20573 quarter).from ≡ (suc m, 0))
quarter_cases_example = quarter_cases 20573 (omega arith)
