-- ===== src/BookingDetail.antt =====
-- The drawer with a booking: what it shows, and the changes that it sends
-- (frontend/src/app/(admin)/bookings/booking-detail-drawer.tsx). An instant is a number of milliseconds
-- since 1970.
pub mod Times
use hunger_platform.Prelude.{
  ◌≡◌, ℕ, zero, suc, ◌+◌, ◌-◌, ◌*◌, ◌/◌, Bool, true, false, ◌&&◌, ◌||◌, not, Option, none, some,
  List, [], ◌∷◌, ◌++◌, Text, codes, same, truthy, if◌then◌else◌, ltb, leb, ◌==◌, length,
}
use hunger_platform.Wizard.Handlers.{filter}
use hunger_platform.Dashboard.Series.{slice}
use hunger_platform.Dates.{Zone, zoned_to_utc_iso}

-- What the drawer uses of a booking.
pub record BookingDetail : Type 0 where
  pub starts_at : Option ℕ
  pub ends_at : Option ℕ
  pub service_minutes : Option ℕ
  pub notes : Option Text

-- `/\d/`
unfoldable pub is_digit : ℕ → Bool
is_digit c = leb 48 c && leb c 57

module _ {ℓ} {A : Type ℓ} where
  -- `xs.slice(n)`
  unfoldable pub slice_from : ℕ → List A → List A
  slice_from zero xs = xs
  slice_from (suc n) [] = []
  slice_from (suc n) (x ∷ xs) = slice_from n xs

-- `formatTimeInput`
unfoldable pub with_colon : Text → Text
unfolding slice slice_from
with_colon digits =
    if leb (length digits) 2 then digits else slice 2 digits ++ (codes ":" ++ slice_from 2 digits)

unfoldable pub format_time_input : Text → Text
unfolding with_colon is_digit filter slice
format_time_input value = with_colon (slice 4 (filter is_digit value))

-- `/^\d{2}:\d{2}$/`
unfoldable pub is_hh_mm : Text → Bool
unfolding is_digit
is_hh_mm (a ∷ b ∷ c ∷ d ∷ e ∷ []) = is_digit a && is_digit b && c == 58 && is_digit d && is_digit e
is_hh_mm _ = false

-- `durationMinutes`: the rounded number of minutes, and 0 where the end is not later.
unfoldable pub duration_minutes : ℕ → ℕ → ℕ
duration_minutes start stop = (stop - start + 30000) / 60000

-- `dur`
unfoldable pub shown_duration : BookingDetail → ℕ
unfolding duration_minutes
shown_duration d = elim d.starts_at [
  | none ↦ 0
  | some s ↦ elim d.ends_at [
    | some e ↦ duration_minutes s e
    | none ↦ elim d.service_minutes [ some m ↦ m | none ↦ 0 ]
  ]
]

-- The change that is sent, of the start and the end; a start that stays is `none`.
abbrev pub TimesPatch : Type 0
TimesPatch = Option ℕ × ℕ

-- `saveDurationEdit`, of the minutes that were read; `none` where nothing is sent.
unfoldable pub save_duration_edit : Option ℕ → BookingDetail → Option TimesPatch
save_duration_edit none d = none
save_duration_edit (some mins) d = elim d.starts_at [
  | none ↦ none
  | some s ↦ if ltb mins 1 || ltb 1440 mins then none else some (none, s + mins * 60000)
]

-- The length that a booking keeps where its start is changed.
unfoldable pub kept_minutes : ℕ → BookingDetail → ℕ
unfolding duration_minutes
kept_minutes start d = elim d.ends_at [
  | some e ↦ duration_minutes start e
  | none ↦ elim d.service_minutes [ some m ↦ m | none ↦ 60 ]
]

-- `saveDatetimeEdit`, which throws where the date and time are no moment
unfoldable pub save_datetime_edit : Zone → Text → Text → BookingDetail → Option TimesPatch
unfolding is_hh_mm zoned_to_utc_iso kept_minutes
save_datetime_edit z date time d = elim d.starts_at [
  | none ↦ none
  | some s ↦
      if not (is_hh_mm time)
      then none
      else if not (truthy date) || ltb (length date) 10
      then none
      else elim (zoned_to_utc_iso z date time) [
        | none ↦ none
        | some at_time ↦ some (some at_time, at_time + kept_minutes s d * 60000)
      ]
]

-- The booking as it stands after a change of its times.
unfoldable pub patched : TimesPatch → BookingDetail → BookingDetail
patched (none, stop) d = record d { ends_at = some stop }
patched (some start, stop) d = record d { starts_at = some start; ends_at = some stop }

-- The notes that the effect sends once they were left alone: `some none` empties them.
unfoldable pub notes_patch : Text → Option Text → BookingDetail → Option (Option Text)
unfolding same truthy
notes_patch typed last_saved d =
    if same typed (elim d.notes [ none ↦ [] | some t ↦ t ])
    then none
    else if elim last_saved [ none ↦ false | some t ↦ same typed t ]
    then none
    else some (if truthy typed then some typed else none)
