-- ===== src/Periods/Statistics.antt =====
-- The period of the statistics (frontend/src/app/(admin)/statistics/statistics-context.tsx). A day
-- stands for the text that `fmtDate` makes of it; up to the year 9999 one is as good as the other.
use hunger_platform.Prelude.{
  ℕ, ◌+◌, ◌-◌, ◌%◌, ◌&&◌, Bool, Option, none, some, List, [], ◌∷◌, Text, if◌then◌else◌, ◌==◌,
}
use hunger_platform.Periods.Calendar.{month_of, year_of, make_day}

pub record Range : Type 0 where
  pub from : ℕ
  pub to : ℕ

pub data PresetKey : Type 0 where
  today yesterday this_week last_week this_month last_month last_30 last_90 : PresetKey

-- `getUTCDay()`: day 0 was a Thursday, and Sunday is 0.
unfoldable pub utc_day : ℕ → ℕ
utc_day d = (d + 4) % 7

-- `startOfWeek`
unfoldable pub start_of_week : ℕ → ℕ
unfolding utc_day
start_of_week d = d - (utc_day d + 6) % 7

-- `startOfMonth`
unfoldable pub start_of_month : ℕ → ℕ
start_of_month d = make_day (year_of d).0 (month_of d).0 0

-- `defaultRange`
unfoldable pub default_range : ℕ → Range
default_range now = record { from = now - 29; to = now }

unfoldable pub range_for_preset : ℕ → PresetKey → Range
unfolding start_of_week start_of_month
range_for_preset now today = record { from = now; to = now }
range_for_preset now yesterday = record { from = now - 1; to = now - 1 }
range_for_preset now this_week = record { from = start_of_week now; to = now }
range_for_preset now last_week =
    let last_end = start_of_week now - 1 in record { from = last_end - 6; to = last_end }
range_for_preset now this_month = record { from = start_of_month now; to = now }
range_for_preset now last_month =
    let last_end = start_of_month now - 1 in
    record { from = start_of_month last_end; to = last_end }
range_for_preset now last_30 = record { from = now - 29; to = now }
range_for_preset now last_90 = record { from = now - 89; to = now }

abbrev pub presets : List PresetKey
presets =
    today ∷ yesterday ∷ this_week ∷ last_week ∷ this_month ∷ last_month ∷ last_30 ∷ last_90 ∷ []

-- `r.from === from && r.to === to`
unfoldable pub same_range : Range → Range → Bool
same_range r q = r.from == q.from && r.to == q.to

-- The loop of `detectPreset`.
unfoldable pub first_match : ℕ → Range → List PresetKey → Option PresetKey
unfolding same_range range_for_preset
first_match now q [] = none
first_match now q (p ∷ ps) =
    let later = first_match now q ps in
    if same_range (range_for_preset now p) q then some p else later

unfoldable pub detect_preset : ℕ → Range → Option PresetKey
unfolding first_match
detect_preset now q = first_match now q presets

-- The provider's state.
pub record Period : Type 0 where
  pub from : ℕ
  pub to : ℕ
  pub master_id : Option Text

unfoldable pub apply_preset : ℕ → PresetKey → Period → Period
unfolding range_for_preset
apply_preset now p s = let r = range_for_preset now p in record s { from = r.from; to = r.to }

unfoldable pub active_preset : ℕ → Period → Option PresetKey
unfolding detect_preset
active_preset now s = detect_preset now (record { from = s.from; to = s.to })
