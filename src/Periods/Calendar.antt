-- ===== src/Periods/Calendar.antt =====
-- The parts of `Date` that the periods use: year, month and day of a day number, and back
-- (frontend/src/app/(admin)/statistics/statistics-context.tsx).
use hunger_platform.Prelude.{
  ℕ, suc, ◌+◌, ◌-◌, ◌%◌, ◌≡◌, ◌<◌, refl, Bool, true, false, ◌&&◌, ◌||◌, not, ◌==◌, if◌then◌else◌,
  arith,
}
use hunger_platform.Periods.Walks.{
  start_of, walk, walk-total, start_of_mono, walk-in, walk-hit, n-start_of,
}

-- The Gregorian calendar, its years counted from 1970.
unfoldable pub is_leap : ℕ → Bool
is_leap y = y % 4 == 0 && (not (y % 100 == 0) || y % 400 == 0)

unfoldable pub year_len : ℕ → ℕ
year_len k = if is_leap (1970 + k) then 366 else 365

unfoldable pub month_len : Bool → ℕ → ℕ
month_len leap m =
    if m == 1
    then (if leap then 29 else 28)
    else if m == 3 || m == 5 || m == 8 || m == 10
    then 30
    else 31

year_total : (leap : Bool) → start_of (month_len leap) 12 ≡ (if leap then 366 else 365)
unfolding start_of month_len
year_total true = refl
year_total false = refl

year_len-total : (k : ℕ) → start_of (month_len (is_leap (1970 + k))) 12 ≡ year_len k
unfolding year_len
year_len-total k = year_total (is_leap (1970 + k))

year_len-positive : (k : ℕ) → 0 < year_len k
unfolding year_len
year_len-positive k = ground arith

-- The year of a day number, since 1970, and the day in the year.
unfoldable pub year_of : ℕ → ℕ × ℕ
year_of d = walk year_len (suc d) 0 d

-- The month of a day of a year, and the day in the month.
unfoldable pub month_in : Bool → ℕ → ℕ × ℕ
month_in leap r = walk (month_len leap) 12 0 r

-- `getUTCMonth()` and `getUTCDate() - 1`
unfoldable pub month_of : ℕ → ℕ × ℕ
month_of d = month_in (is_leap (1970 + (year_of d).0)) (year_of d).1

-- `Date.UTC(1970 + k, m, 1 + i)`
unfoldable pub make_day : ℕ → ℕ → ℕ → ℕ
make_day k m i = start_of year_len k + (start_of (month_len (is_leap (1970 + k))) m + i)

year_parts :
    (d : ℕ)
    → (start_of year_len (year_of d).0 + (year_of d).1 ≡ d)
      × ((year_of d).1 < year_len (year_of d).0)
unfolding year_of
year_parts d =
    let far = n-start_of year_len year_len-positive (suc d) in
    let zeroth : start_of year_len 0 ≡ 0 = unfold start_of in refl in
    let total = walk-total year_len (suc d) 0 d in
    (omega arith, (walk-in year_len (suc d) 0 d (suc d) (omega arith) (omega arith)).0)

month_parts :
    (leap : Bool) (r : ℕ)
    → r < start_of (month_len leap) 12
    → ((month_in leap r).0 < 12)
      × ((month_in leap r).1 < month_len leap (month_in leap r).0)
      × (start_of (month_len leap) (month_in leap r).0 + (month_in leap r).1 ≡ r)
unfolding month_in
month_parts leap r h =
    let zeroth : start_of (month_len leap) 0 ≡ 0 = unfold start_of in refl in
    let (small, month) = walk-in (month_len leap) 12 0 r 12 refl (omega arith) in
    let total = walk-total (month_len leap) 12 0 r in (month, small, omega arith)

-- The year, the month and the day of a day number are those of a date, and the date is the day
-- number's: the walks end with the fuel that they are given.
pub make_day-month_of :
    (d : ℕ)
    → ((month_of d).0 < 12)
      × ((month_of d).1 < month_len (is_leap (1970 + (year_of d).0)) (month_of d).0)
      × (make_day (year_of d).0 (month_of d).0 (month_of d).1 ≡ d)
unfolding month_of make_day
make_day-month_of d =
    let (sum, low) = year_parts d in
    let (month, small, total) =
      month_parts (is_leap (1970 + (year_of d).0)) (year_of d).1
        (let total = year_len-total (year_of d).0 in omega arith) in
    (month, small, omega arith)

year_of-make_day : (k r : ℕ) → r < year_len k → year_of (start_of year_len k + r) ≡ (k, r)
unfolding year_of
year_of-make_day k r h =
    let far = n-start_of year_len year_len-positive k in
    let zeroth : start_of year_len 0 ≡ 0 = unfold start_of in refl in
    walk-hit year_len (suc (start_of year_len k + r)) k 0 k (start_of year_len k + r) r h
      (omega arith) (omega arith) (omega arith)

month_in-make_day :
    (leap : Bool) (m i : ℕ)
    → m < 12
    → i < month_len leap m
    → month_in leap (start_of (month_len leap) m + i) ≡ (m, i)
unfolding month_in
month_in-make_day leap m i h e =
    let zeroth : start_of (month_len leap) 0 ≡ 0 = unfold start_of in refl in
    walk-hit (month_len leap) 12 m 0 m (start_of (month_len leap) m + i) i e h (omega arith)
      (omega arith)

day_in_year :
    (k m i : ℕ)
    → m < 12
    → i < month_len (is_leap (1970 + k)) m
    → start_of (month_len (is_leap (1970 + k))) m + i < year_len k
day_in_year k m i h e =
    let len = month_len (is_leap (1970 + k)) in
    let up = start_of_mono len (12 - suc m) (suc m) 12 (omega arith) in
    let last : start_of len (suc m) ≡ start_of len m + len m = unfold start_of in refl in
    let total = year_len-total k in omega arith

-- The date of a year, a month and a day that there is, read back.
pub month_of-make_day :
    (k m i : ℕ)
    → m < 12
    → i < month_len (is_leap (1970 + k)) m
    → ((year_of (make_day k m i)).0 ≡ k) × (month_of (make_day k m i) ≡ (m, i))
unfolding month_of make_day
month_of-make_day k m i h e =
    let year =
      year_of-make_day k (start_of (month_len (is_leap (1970 + k))) m + i)
        (day_in_year k m i h e) in
    rw year (refl, month_in-make_day (is_leap (1970 + k)) m i h e)
