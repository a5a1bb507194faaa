-- ===== src/WeekGrid/Blocks.antt =====
-- The blocks that the calendar of the bookings draws, and a click on its empty places
-- (frontend/src/app/(admin)/bookings/week-calendar.tsx).
use hunger_platform.Prelude.{
  ℕ, ◌+◌, ◌-◌, ◌*◌, ◌%◌, ◌≡◌, ◌≤◌, ◌<◌, ◌⊎◌, inl, inr, Bool-cases, ltb, some, Text, arith,
}
use hunger_platform.WeekGrid.{
  grid_start_min, grid_end_min, grid_height, max, min, CalendarSlot, Box, minutes_in_zone, end_min,
  box_of, slot_overlaps_block, snapped, empty_click,
}

box_of-inside :
    (start minutes : ℕ) (b : Box)
    → box_of start minutes ≡ some b
    → (0 < b.height) × (b.top + b.height ≤ grid_height)
unfolding box_of end_min max min
box_of-inside start minutes b h = (ground arith, ground arith)

box_of-exact :
    (start minutes : ℕ) (b : Box)
    → box_of start minutes ≡ some b
    → grid_start_min ≤ start
    → start + 5 ≤ minutes
    → (grid_start_min + b.top ≡ start)
      × (grid_start_min + b.top + b.height ≡ min grid_end_min minutes)
unfolding box_of end_min max min
box_of-exact start minutes b h early long = (ground arith, ground arith)

box_of-early :
    (start minutes : ℕ) (b : Box)
    → box_of start minutes ≡ some b
    → start ≤ grid_start_min
    → start + 5 ≤ minutes
    → (b.top ≡ 0) × (b.height ≡ min grid_height (minutes - start))
unfolding box_of end_min max min
box_of-early start minutes b h early long = (ground arith, ground arith)

slot_overlaps_block-box_of :
    (master_id day_key : Text) (slot : CalendarSlot) (b : Box)
    → slot_overlaps_block master_id day_key slot ≡ some b
    → box_of (minutes_in_zone slot.starts) (minutes_in_zone slot.ends) ≡ some b
unfolding slot_overlaps_block
slot_overlaps_block-box_of master_id day_key slot b h = ground arith

-- A block that is drawn, starts and ends on one day and lasts five minutes at least has a height and lies
-- within the grid. Where it starts within the hours of the grid, it is drawn from its start to its end,
-- or to the end of the grid. Where it starts before them, it is drawn at the top with its whole length,
-- so it reaches over its end by what came before.
pub slot_overlaps_block_cases :
    (master_id day_key : Text) (slot : CalendarSlot) (b : Box)
    → slot_overlaps_block master_id day_key slot ≡ some b
    → slot.starts.day_key ≡ slot.ends.day_key
    → minutes_in_zone slot.starts + 5 ≤ minutes_in_zone slot.ends
    → (0 < b.height)
      × (b.top + b.height ≤ grid_height)
      × (((grid_start_min ≤ minutes_in_zone slot.starts)
            × (grid_start_min + b.top ≡ minutes_in_zone slot.starts)
            × (grid_start_min + b.top + b.height ≡ min grid_end_min (minutes_in_zone slot.ends)))
          ⊎ ((minutes_in_zone slot.starts < grid_start_min)
              × (b.top ≡ 0)
              × (b.height
                  ≡ min grid_height (minutes_in_zone slot.ends - minutes_in_zone slot.starts))))
slot_overlaps_block_cases master_id day_key slot b h one_day long =
    let drawn = slot_overlaps_block-box_of master_id day_key slot b h in
    let start = minutes_in_zone slot.starts in
    let end = minutes_in_zone slot.ends in
    let (positive, inside) = box_of-inside start end b drawn in
    (
      positive,
      inside,
      elim (Bool-cases (ltb start grid_start_min)) [
        | inl early ↦
            let (top, height) = box_of-early start end b drawn (ground arith) long in
            inr (ground arith, top, height)
        | inr late ↦
            let (top, end_of) = box_of-exact start end b drawn (ground arith) long in
            inl (ground arith, top, end_of)
      ],
    )

-- A click within the grid gives a time from nine to nine, on a whole five minutes, two minutes off the
-- place of the click at most.
empty_click_near :
    (y : ℕ)
    → y ≤ grid_height
    → let at = (empty_click y).0 * 60 + (empty_click y).1 in
      ((empty_click y).1 < 60)
      × ((empty_click y).1 % 5 ≡ 0)
      × (grid_start_min ≤ at)
      × (at ≤ grid_end_min)
      × (at ≤ (grid_start_min + y) + 2)
      × (grid_start_min + y ≤ at + 2)
unfolding empty_click snapped
empty_click_near y h =
    (omega arith, omega arith, omega arith, omega arith, omega arith, omega arith)
