-- ===== src/Examples/WeekGrid.antt =====
-- The grids of a week at concrete inputs (frontend/src/app/(admin)/bookings/week-calendar.tsx,
-- frontend/src/components/masters/MasterSchedule.tsx).
use hunger_platform.Prelude.{◌+◌, ◌-◌, ◌≡◌, ◌≤◌, ◌<◌, ◌⊎◌, refl, codes, same, truthy, arith}
use hunger_platform.Referral.{mem}
use hunger_platform.WeekGrid.{
  grid_start_min, grid_end_min, grid_height, max, min, CalendarSlot, Box, minutes_in_zone,
  is_blocking, is_absence_of, end_min, box_of, slot_overlaps_block,
}
use hunger_platform.WeekGrid.Blocks.{slot_overlaps_block_cases}

-- A break from 8:00 to 10:00.
abbrev early_break : CalendarSlot
early_break = record {
  master_id = codes "m1";
  slot_type = codes "break_";
  starts = record { day_key = codes "2026-05-05"; hour = 8; minute = 0 };
  ends = record { day_key = codes "2026-05-05"; hour = 10; minute = 0 };
}

-- It is drawn from 9:00 to 11:00.
abbrev drawn : Box
drawn = record { top = 0; height = 120 }

slot_overlaps_block_cases_example :
    (0 < drawn.height)
    × (drawn.top + drawn.height ≤ grid_height)
    × (((grid_start_min ≤ minutes_in_zone early_break.starts)
          × (grid_start_min + drawn.top ≡ minutes_in_zone early_break.starts)
          × (grid_start_min + drawn.top + drawn.height
              ≡ min grid_end_min (minutes_in_zone early_break.ends)))
        ⊎ ((minutes_in_zone early_break.starts < grid_start_min)
            × (drawn.top ≡ 0)
            × (drawn.height
                ≡ min grid_height
                    (minutes_in_zone early_break.ends - minutes_in_zone early_break.starts))))
slot_overlaps_block_cases_example =
    slot_overlaps_block_cases (codes "m1") (codes "2026-05-05") early_break drawn
      (unfold slot_overlaps_block is_absence_of is_blocking mem same truthy minutes_in_zone box_of
          end_min max min in
        refl)
      refl (unfold minutes_in_zone in omega arith)
