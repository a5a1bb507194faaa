-- ===== src/Dates/Local.antt =====
-- What the conversion of a time in the salon's zone measures (frontend/src/lib/date-local.ts).
use hunger_platform.Prelude.{ℕ, ◌+◌, ◌-◌, ◌*◌, ◌/◌, ◌%◌, ◌≡◌, ◌≤◌, ◌∙◌, refl, some, Text, arith}
use hunger_platform.Periods.Calendar.{year_of, month_of, make_day, make_day-month_of}
use hunger_platform.Dates.{Zone, part, date_utc, local_ms, zoned_to_utc_iso}

-- The formatter shows, at the instant `t`, the year, month, day, hour, minute and second that UTC has at
-- the instant `shown`: the month from 1 and the hour from 0 to 23.
pub record Shows (z : Zone) (t shown : ℕ) : Type 0 where
  pub year : part z t "year" ≡ 1970 + (year_of (shown / 86400000)).0
  pub month : part z t "month" ≡ (month_of (shown / 86400000)).0 + 1
  pub day : part z t "day" ≡ (month_of (shown / 86400000)).1 + 1
  pub hour : part z t "hour" ≡ (shown / 3600000) % 24
  pub minute : part z t "minute" ≡ (shown / 60000) % 60
  pub second : part z t "second" ≡ (shown / 1000) % 60
  pub whole : shown % 1000 ≡ 0

clock_total :
    (shown : ℕ)
    → shown % 1000 ≡ 0
    → (((shown / 86400000 * 24 + (shown / 3600000) % 24) * 60 + (shown / 60000) % 60) * 60
          + (shown / 1000) % 60)
        * 1000
      ≡ shown
clock_total shown h = omega arith

date_utc-make_day :
    (k m i hour minute second : ℕ)
    → date_utc (1970 + k) ((m + 1) - 1) (i + 1) hour minute second
      ≡ (((make_day k m i * 24 + hour) * 60 + minute) * 60 + second) * 1000
unfolding date_utc make_day
date_utc-make_day k m i hour minute second =
    let a : (1970 + k) - 1970 ≡ k = omega arith in
    let b : (m + 1) - 1 ≡ m = omega arith in
    let c : (i + 1) - 1 ≡ i = omega arith in rw (a, b, c) refl

-- The wall clock is read back from its parts.
local_ms-Shows : (z : Zone) (t shown : ℕ) → Shows z t shown → local_ms z t ≡ shown
unfolding local_ms
local_ms-Shows z t shown s =
    let (_, _, same_day) = make_day-month_of (shown / 86400000) in
    rw (s.year, s.month, s.day, s.hour, s.minute, s.second)
      (date_utc-make_day (year_of (shown / 86400000)).0 (month_of (shown / 86400000)).0
          (month_of (shown / 86400000)).1 ((shown / 3600000) % 24) ((shown / 60000) % 60)
          ((shown / 1000) % 60)
        ∙ rw same_day (clock_total shown s.whole))

-- For a date and a time that are a moment as UTC, at which the formatter shows, in whole seconds and with
-- an hour from 0 to 23, another date and time of the zone's clock, not twice as late since 1970: the
-- conversion gives the instant that is as far from the moment as that one, the other way: where the
-- clock is ahead of UTC it is as much earlier, and where it is behind as much later.
pub zoned_to_utc_iso-Shows :
    (z : Zone) (date time : Text) (naive shown : ℕ)
    → z.parse date time ≡ some naive
    → Shows z naive shown
    → shown ≤ naive + naive
    → (t : ℕ) × (zoned_to_utc_iso z date time ≡ some t) × (t + shown ≡ naive + naive)
unfolding zoned_to_utc_iso
zoned_to_utc_iso-Shows z date time naive shown h s late = (
  (naive + naive) - shown,
  rw (zoned_to_utc_iso, h) (rw (local_ms-Shows z naive shown s) refl),
  omega arith,
)
