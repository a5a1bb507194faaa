-- ===== src/Periods/Quarter.antt =====
-- The quarter of the reports (frontend/src/app/(admin)/reports/reports-context.tsx): three months, this
-- one included, where the day of today exists two months back, and two months where it does not.
use hunger_platform.Prelude.{
  ℕ, suc, ◌+◌, ◌-◌, ◌≡◌, ◌≤◌, ◌<◌, refl, Bool, ltb, arith, ap, ◌∙◌, Bool-cases, inl, inr,
}
use hunger_platform.Periods.Walks.{start_of}
use hunger_platform.Periods.Calendar.{
  year_of, month_of, make_day, month_len, is_leap, make_day-month_of, month_of-make_day,
}
use hunger_platform.Periods.Statistics.{start_of_month}
use hunger_platform.Periods.Ranges.{start_of_month-index, start_of_month-month, month_of-short}
use hunger_platform.Periods.Reports.{
  quarter, two_back, minus_two_months, first_of_month, range_for_reports_preset,
}

quarter-month :
    (now : ℕ)
    → ((year_of (range_for_reports_preset now quarter).from).0 ≡ (year_of (minus_two_months now)).0)
      × (month_of (range_for_reports_preset now quarter).from
          ≡ ((month_of (minus_two_months now)).0, 0))
unfolding range_for_reports_preset first_of_month
quarter-month now =
    let at = start_of_month-index (minus_two_months now) in
    let first : minus_two_months now - (month_of (minus_two_months now)).1
        ≡ start_of_month (minus_two_months now) =
      omega arith in
    let (year, month) = start_of_month-month (minus_two_months now) in
    let (year', month') = start_of_month-month (start_of_month (minus_two_months now)) in
    rw first (year' ∙ year, month' ∙ ap (λ x. (x.0, 0)) month)

two_back-month : (k m : ℕ) → m < 12 → (two_back k m).1 < 12
unfolding two_back
two_back-month k m h = ground arith

-- Days over the end of a month count on in the next one.
make_day-over :
    (k m i : ℕ)
    → month_len (is_leap (1970 + k)) m ≤ i
    → make_day k m i ≡ make_day k (suc m) (i - month_len (is_leap (1970 + k)) m)
unfolding make_day
make_day-over k m i h =
    let next : start_of (month_len (is_leap (1970 + k))) (suc m)
        ≡ start_of (month_len (is_leap (1970 + k))) m + month_len (is_leap (1970 + k)) m =
      unfold start_of in refl in
    omega arith

-- A month that is too short for a day is not the last of the year, and the next one has the days over.
over_in_next :
    (leap : Bool) (m i : ℕ)
    → m < 12
    → i < 31
    → month_len leap m ≤ i
    → (suc m < 12) × (i - month_len leap m < month_len leap (suc m))
unfolding month_len
over_in_next leap m i h short over = (ground arith, ground arith)

landed :
    (k m i : ℕ)
    → m < 12
    → i < 31
    → ((year_of (make_day k m i)).0 ≡ k)
      × (i < month_len (is_leap (1970 + k)) m → (month_of (make_day k m i)).0 ≡ m)
      × (month_len (is_leap (1970 + k)) m ≤ i → (month_of (make_day k m i)).0 ≡ suc m)
landed k m i h short = elim (Bool-cases (ltb i (month_len (is_leap (1970 + k)) m))) [
  | inl e ↦
      let (year, month) = month_of-make_day k m i h (ground arith) in
      (year, (λ _. ap (λ x. x.0) month), λ over. absurd (ground arith))
  | inr e ↦
      let over : month_len (is_leap (1970 + k)) m ≤ i = ground arith in
      let (late, fits) = over_in_next (is_leap (1970 + k)) m i h short over in
      let (year, month) =
        month_of-make_day k (suc m) (i - month_len (is_leap (1970 + k)) m) late fits in
      rw (make_day-over k m i over)
        (year, (λ under. absurd (ground arith)), λ _. ap (λ x. x.0) month)
]

-- From March 1970 on: the quarter starts with the first of the month two months back, where that month
-- has the day of today, and with the first of the month after it where it does not.
pub quarter_cases :
    (now : ℕ)
    → 59 ≤ now
    → let k = (two_back (year_of now).0 (month_of now).0).0 in
      let m = (two_back (year_of now).0 (month_of now).0).1 in
      ((year_of (range_for_reports_preset now quarter).from).0 ≡ k)
      × ((month_of now).1 < month_len (is_leap (1970 + k)) m
          → month_of (range_for_reports_preset now quarter).from ≡ (m, 0))
      × (month_len (is_leap (1970 + k)) m ≤ (month_of now).1
          → month_of (range_for_reports_preset now quarter).from ≡ (suc m, 0))
unfolding minus_two_months
quarter_cases now later =
    let (this, _, _) = make_day-month_of now in
    let small = two_back-month (year_of now).0 (month_of now).0 this in
    let (from_year, from_month) = quarter-month now in
    let (year, under, over) =
      landed (two_back (year_of now).0 (month_of now).0).0
        (two_back (year_of now).0 (month_of now).0).1 (month_of now).1 small (month_of-short now) in
    (
      from_year ∙ year,
      (λ h. from_month ∙ ap (λ x. (x, 0)) (under h)),
      λ h. from_month ∙ ap (λ x. (x, 0)) (over h),
    )
