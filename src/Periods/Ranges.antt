-- ===== src/Periods/Ranges.antt =====
-- The ranges of the presets of the statistics
-- (frontend/src/app/(admin)/statistics/statistics-context.tsx).
use hunger_platform.Prelude.{ℕ, ◌+◌, ◌-◌, ◌≡◌, ◌≤◌, ◌<◌, arith}
use hunger_platform.Periods.Calendar.{
  month_of, year_of, make_day, month_len, is_leap, make_day-month_of, month_of-make_day,
}
use hunger_platform.Periods.Statistics.{
  PresetKey, today, yesterday, this_week, last_week, this_month, last_month, last_30, last_90,
  utc_day, start_of_week, start_of_month, range_for_preset,
}

-- A month starts as many days before a day as the day has before it in the month.
pub start_of_month-index : (d : ℕ) → start_of_month d + (month_of d).1 ≡ d
unfolding start_of_month make_day
start_of_month-index d = let (_, _, at) = make_day-month_of d in unfold make_day in omega arith

-- The first of the month is in the same month.
pub start_of_month-month :
    (d : ℕ)
    → ((year_of (start_of_month d)).0 ≡ (year_of d).0)
      × (month_of (start_of_month d) ≡ ((month_of d).0, 0))
unfolding start_of_month
start_of_month-month d =
    let (month, day, _) = make_day-month_of d in
    month_of-make_day (year_of d).0 (month_of d).0 0 month (omega arith)

pub month_of-short : (d : ℕ) → (month_of d).1 < 31
month_of-short d =
    let (_, day, _) = make_day-month_of d in
    let short : month_len (is_leap (1970 + (year_of d).0)) (month_of d).0 ≤ 31 =
      unfold month_len in ground arith in
    omega arith

-- No period ends after today or starts after its end.
range_for_preset-ordered :
    (now : ℕ) (p : PresetKey)
    → ((range_for_preset now p).from ≤ (range_for_preset now p).to)
      × ((range_for_preset now p).to ≤ now)
unfolding range_for_preset
range_for_preset-ordered now today = (omega arith, omega arith)
range_for_preset-ordered now yesterday = (omega arith, omega arith)
range_for_preset-ordered now this_week = unfold start_of_week in (omega arith, omega arith)
range_for_preset-ordered now last_week = unfold start_of_week in (omega arith, omega arith)
range_for_preset-ordered now this_month =
    let at = start_of_month-index now in (omega arith, omega arith)
range_for_preset-ordered now last_month =
    let at = start_of_month-index now in
    let before = start_of_month-index (start_of_month now - 1) in (omega arith, omega arith)
range_for_preset-ordered now last_30 = (omega arith, omega arith)
range_for_preset-ordered now last_90 = (omega arith, omega arith)

-- From the second week after 1970 on: last week is the seven days from a Monday up to the Monday on which this week starts.
last_week-this_week :
    (now : ℕ)
    → 13 ≤ now
    → (utc_day (range_for_preset now last_week).from ≡ 1)
      × ((range_for_preset now last_week).from + 7 ≡ (range_for_preset now this_week).from)
      × ((range_for_preset now last_week).to + 1 ≡ (range_for_preset now this_week).from)
      × (now < (range_for_preset now this_week).from + 7)
unfolding range_for_preset start_of_week utc_day
last_week-this_week now h = (omega arith, omega arith, omega arith, omega arith)

-- From February 1970 on: last month starts with the first of a month, ends in that month, and ends on
-- the day before this month starts, which is the first of the month of today.
pub last_month-this_month :
    (now : ℕ)
    → 31 ≤ now
    → (month_of (range_for_preset now last_month).from
        ≡ ((month_of (range_for_preset now last_month).to).0, 0))
      × ((year_of (range_for_preset now last_month).from).0
          ≡ (year_of (range_for_preset now last_month).to).0)
      × ((range_for_preset now last_month).to + 1 ≡ (range_for_preset now this_month).from)
      × (month_of (range_for_preset now this_month).from ≡ ((month_of now).0, 0))
unfolding range_for_preset
last_month-this_month now h =
    let (year, month) = start_of_month-month (start_of_month now - 1) in
    let (_, this) = start_of_month-month now in
    let at = start_of_month-index now in
    let short = month_of-short now in (month, year, omega arith, this)
