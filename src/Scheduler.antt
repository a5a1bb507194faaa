-- ===== src/Scheduler.antt =====
-- The week of several masters (frontend/src/components/schedule/WeekScheduler.tsx). Lengths on the screen
-- are in fifths of a pixel, in which a minute is 8; what `Intl` reads of an instant in the salon's zone is
-- given with it.
pub mod Placement
use hunger_platform.Prelude.{
  ◌≡◌, ℕ, ◌+◌, ◌-◌, ◌*◌, ◌/◌, ◌%◌, Bool, true, false, ◌&&◌, ◌||◌, not, Option, none, some, List, [],
  ◌∷◌, ◌++◌, Text, codes, same, truthy, if◌then◌else◌, ltb, leb, ◌==◌,
}
use hunger_platform.Wizard.Handlers.{filter, find}
use hunger_platform.WeekGrid.{max}

abbrev pub grid_start_h : ℕ
grid_start_h = 9

abbrev pub grid_end_h : ℕ
grid_end_h = 21

-- 24 slots of 48 pixels.
abbrev pub slot_h : ℕ
slot_h = 5 * 48

abbrev pub total_slots : ℕ
total_slots = (grid_end_h - grid_start_h) * 2

abbrev pub week_grid_height : ℕ
week_grid_height = total_slots * slot_h

-- The parts of an instant that the formatter gives, where it gives them.
pub record InstantParts : Type 0 where
  pub hour : Option ℕ
  pub minute : Option ℕ
  pub weekday : Option Text

unfoldable pub or_zero : Option ℕ → ℕ
or_zero none = 0
or_zero (some n) = n

unfoldable pub weekday_index : Text → ℕ
unfolding same
weekday_index w =
    if same w (codes "Tue")
    then 1
    else if same w (codes "Wed")
    then 2
    else if same w (codes "Thu")
    then 3
    else if same w (codes "Fri")
    then 4
    else if same w (codes "Sat")
    then 5
    else if same w (codes "Sun")
    then 6
    else 0

-- `toMin`: the day of the week, from Monday, and the minute of the day.
unfoldable pub to_min : InstantParts → ℕ × ℕ
unfolding or_zero weekday_index
to_min p =
    (elim p.weekday [ none ↦ 0 | some w ↦ weekday_index w ], or_zero p.hour * 60 + or_zero p.minute)

-- `String(n).padStart(2, "0")`, of a number below 100
unfoldable pub two_digits : ℕ → Text
two_digits n = (48 + n / 10) ∷ (48 + n % 10) ∷ []

unfoldable pub time_label : ℕ → Text
unfolding two_digits
time_label slot =
    let total = grid_start_h * 60 + slot * 30 in
    two_digits (total / 60) ++ (codes ":" ++ two_digits (total % 60))

-- Where the line of the current time is, if it is shown.
unfoldable pub current_line : ℕ → Option ℕ
current_line minute =
    if ltb minute (grid_start_h * 60)
      || ltb ((grid_end_h - grid_start_h) * 60) (minute - grid_start_h * 60)
    then none
    else some ((minute - grid_start_h * 60) * 8)

-- The hours of a day: the two numbers of each of its texts, where they are there.
pub record WeekDayHours : Type 0 where
  pub day : ℕ
  pub opens : Option ℕ × Option ℕ
  pub closes : Option ℕ × Option ℕ

unfoldable pub time_to_min : Option ℕ × Option ℕ → ℕ
unfolding or_zero
time_to_min t = or_zero t.0 * 60 + or_zero t.1

unfoldable pub is_working : ℕ → List WeekDayHours → Option WeekDayHours
unfolding find
is_working day hours = find (λ wh. wh.day == day) hours

-- A slot of the grid is shown as one of work.
unfoldable pub works_in : Option WeekDayHours → ℕ → Bool
unfolding time_to_min
works_in none slot = false
works_in (some wh) slot =
    leb (time_to_min wh.opens) (grid_start_h * 60 + slot * 30)
    && ltb (grid_start_h * 60 + slot * 30) (time_to_min wh.closes)

-- A booking or a block.
pub record Scheduled : Type 0 where
  pub id : Text
  pub starts : InstantParts
  pub ends : InstantParts

-- What a column shows of one day.
unfoldable pub on_day : ℕ → List Scheduled → List Scheduled
unfolding to_min filter
on_day day events = filter (λ e. (to_min e.starts).0 == day) events

-- Top and height, where it is drawn; `least` is the least height.
unfoldable pub placed : ℕ → Scheduled → Option (ℕ × ℕ)
unfolding to_min max
placed least e =
    if ltb (to_min e.starts).1 (grid_start_h * 60)
      || leb week_grid_height (((to_min e.starts).1 - grid_start_h * 60) * 8)
    then none
    else some (
      ((to_min e.starts).1 - grid_start_h * 60) * 8,
      max (((to_min e.ends).1 - (to_min e.starts).1) * 8) least,
    )

abbrev pub least_block : ℕ
least_block = 5 * 20

abbrev pub least_booking : ℕ
least_booking = 5 * 22

-- `visibleMasters`, by their ids
unfoldable pub visible_masters : Text → List Text → List Text
unfolding filter truthy same
visible_masters focus masters = if truthy focus then filter (λ m. same m focus) masters else masters
