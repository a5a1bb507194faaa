-- ===== src/WeekGrid.antt =====
-- The grids of a week: the calendar of the bookings (frontend/src/app/(admin)/bookings/week-calendar.tsx,
-- with frontend/src/lib/date-local.ts) and the schedule of a master
-- (frontend/src/components/masters/MasterSchedule.tsx). A pixel is a minute in both.
pub mod Blocks
pub mod Segments
use hunger_platform.Prelude.{
  ℕ, ◌+◌, ◌-◌, ◌*◌, ◌/◌, ◌%◌, Bool, true, false, ◌&&◌, ◌||◌, not, Option, none, some, List, [], ◌∷◌,
  Text, codes, same, truthy, ltb, leb, if◌then◌else◌, ◌==◌,
}
use hunger_platform.Referral.{mem}

abbrev pub grid_start_min : ℕ
grid_start_min = 540

abbrev pub grid_end_min : ℕ
grid_end_min = 1260

abbrev pub grid_height : ℕ
grid_height = 720

unfoldable pub max : ℕ → ℕ → ℕ
max a b = if ltb a b then b else a

unfoldable pub min : ℕ → ℕ → ℕ
min a b = if ltb b a then b else a

-- The day, the hour and the minute that the formatter gives for a time.
pub record ClockParts : Type 0 where
  pub day_key : Text
  pub hour : ℕ
  pub minute : ℕ

-- `minutesInZone(iso, timeZone).minutes`, where the parts are the formatter's.
unfoldable pub minutes_in_zone : ClockParts → ℕ
minutes_in_zone c = c.hour * 60 + c.minute

-- `CalendarSlotRow`, as far as the calendar reads it, its times as the zone's clock shows them.
pub record CalendarSlot : Type 0 where
  pub master_id : Text
  pub slot_type : Text
  pub starts : ClockParts
  pub ends : ClockParts

unfoldable pub is_blocking : Text → Bool
is_blocking t = mem t (codes "vacation" ∷ codes "block" ∷ codes "sick" ∷ codes "break_" ∷ [])

unfoldable pub is_absence_of : Text → CalendarSlot → Bool
unfolding is_blocking
is_absence_of master_id slot =
    (not (truthy master_id) || same slot.master_id master_id) && is_blocking slot.slot_type

-- Where a block is drawn.
pub record Box : Type 0 where
  pub top : ℕ
  pub height : ℕ

-- `Math.max(startMin + 5, b.minutes)`
unfoldable pub end_min : ℕ → ℕ → ℕ
unfolding max
end_min start_min minutes = max (start_min + 5) minutes

-- The two dimensions; a height that is not positive draws nothing.
unfoldable pub box_of : ℕ → ℕ → Option Box
unfolding end_min max min
box_of start_min minutes =
    let top = start_min - grid_start_min in
    let height = min (grid_height - top) (end_min start_min minutes - start_min) in
    if height == 0 then none else some (record { top = top; height = height })

-- An empty `masterId` is an absent one.
unfoldable pub slot_overlaps_block : Text → Text → CalendarSlot → Option Box
unfolding is_absence_of minutes_in_zone box_of
slot_overlaps_block master_id day_key slot =
    if not (is_absence_of master_id slot)
    then none
    else if not (same slot.starts.day_key day_key) && not (same slot.ends.day_key day_key)
    then none
    else box_of (minutes_in_zone slot.starts) (minutes_in_zone slot.ends)

-- `Math.round(absMin / 5) * 5`
unfoldable pub snapped : ℕ → ℕ
snapped abs_min = (abs_min * 2 + 5) / 10 * 5

-- A click at height `y` of the empty grid: the hour and the minute that the new booking starts with.
unfoldable pub empty_click : ℕ → ℕ × ℕ
unfolding snapped
empty_click y = let at = snapped (grid_start_min + y) in (at / 60, at % 60)
