-- ===== src/Dates.antt =====
-- Times in the salon's zone (frontend/src/lib/date-local.ts). An instant is a number of milliseconds
-- since 1970, no earlier. What the browser's `Date` and `Intl.DateTimeFormat` do is a parameter;
-- `Date.UTC` is that of the calendar of the periods.
pub mod Local
use hunger_platform.Prelude.{
  ℕ, ◌+◌, ◌-◌, ◌*◌, String, Option, none, some, List, Text, codes, ◌++◌, lookup,
}
use hunger_platform.Periods.Calendar.{make_day}

-- `parse` reads a date and a time as UTC, if that is a moment; `parts` are the formatter's parts of an
-- instant in the zone, by their type; `number` is the unary `+` of the text of a part; `hour` and
-- `minute` are the parts of the other formatter for an ISO text, if it gives them.
pub record Zone : Type 0 where
  pub parse : Text → Text → Option ℕ
  pub parts : ℕ → List (String × Text)
  pub number : Text → ℕ
  pub hour : Text → Option Text
  pub minute : Text → Option Text

-- `?.value ?? "00"`
unfoldable pub or_zeros : Option Text → Text
or_zeros none = codes "00"
or_zeros (some t) = t

-- `+get(type)`, of the parts of the instant `t`
unfoldable pub part : Zone → ℕ → String → ℕ
unfolding or_zeros lookup
part z t type = z.number (or_zeros (lookup type (z.parts t)))

-- `Date.UTC(year, month, day, hour, minute, second)`, of a year from 1970 on and a month of it
unfoldable pub date_utc : (year month day hour minute second : ℕ) → ℕ
unfolding make_day
date_utc year month day hour minute second =
    (((make_day (year - 1970) month (day - 1) * 24 + hour) * 60 + minute) * 60 + second) * 1000

-- `localMs`
unfoldable pub local_ms : Zone → ℕ → ℕ
unfolding part date_utc
local_ms z t =
    date_utc (part z t "year") (part z t "month" - 1) (part z t "day") (part z t "hour")
      (part z t "minute") (part z t "second")

-- `naiveUtc - offset`, where `offset` is `localMs - naiveUtc`; without a moment the formatter throws.
-- Later than 1970 by more than an offset, nothing is below 0.
unfoldable pub zoned_to_utc_iso : Zone → Text → Text → Option ℕ
unfolding local_ms
zoned_to_utc_iso z date time = elim (z.parse date time) [
  | none ↦ none
  | some naive ↦ some ((naive + naive) - local_ms z naive)
]

unfoldable pub iso_to_time_in_zone : Zone → Text → Text
unfolding or_zeros
iso_to_time_in_zone z iso = or_zeros (z.hour iso) ++ (codes ":" ++ or_zeros (z.minute iso))
