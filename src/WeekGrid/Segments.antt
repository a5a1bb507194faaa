-- ===== src/WeekGrid/Segments.antt =====
-- What the schedule of a master shows on a day and in a week
-- (frontend/src/components/masters/MasterSchedule.tsx). Instants are numbers of milliseconds since 1970;
-- a day is one without a change of the clock.
use hunger_platform.Prelude.{
  ℕ, zero, suc, ◌+◌, ◌-◌, ◌*◌, ◌≡◌, ◌≤◌, ◌<◌, ◌⊎◌, ◌↔◌, inl, inr, Bool, true, false, ◌||◌, Option,
  none, some, List, [], ◌∷◌, ltb, leb, if◌then◌else◌, arith, Bool-cases,
}
use hunger_platform.WeekGrid.{max, min, Box}

abbrev pub day_length : ℕ
day_length = 86400000

pub record Segment : Type 0 where
  pub start : ℕ
  pub end : ℕ

-- `segmentOnDay`, for the day that starts at `day`.
unfoldable pub segment_on_day : ℕ → ℕ → ℕ → Option Segment
segment_on_day day starts_at ends_at =
    let de = day + 86399999 in
    let s = if ltb day starts_at then starts_at else day in
    let e = if ltb ends_at de then ends_at else de in
    if leb e s then none else some (record { start = s; end = e })

-- `weekDays.some(d => segmentOnDay(d, s, e) != null)`, for a number of days.
unfoldable pub on_some_day : ℕ → ℕ → ℕ → ℕ → Bool
unfolding segment_on_day
on_some_day zero day s e = false
on_some_day (suc n) day s e =
    elim (segment_on_day day s e) [ none ↦ false | some _ ↦ true ]
    || on_some_day n (day + day_length) s e

pub record Interval : Type 0 where
  pub starts_at : ℕ
  pub ends_at : ℕ

-- `blocksForWeek` and `weekBookings`
unfoldable pub for_week : ℕ → List Interval → List Interval
unfolding on_some_day
for_week week_start [] = []
for_week week_start (b ∷ bs) =
    let rest = for_week week_start bs in
    if on_some_day 7 week_start b.starts_at b.ends_at then b ∷ rest else rest

-- One bound of `eventStyle`, in minutes from the start of the grid at eight; the grid has 14 hours.
unfoldable pub clamped : ℕ → ℕ
unfolding max min
clamped minutes = max 0 (min 840 (minutes - 480))

-- `eventStyle`, of the minutes from midnight.
unfoldable pub event_style : ℕ → ℕ → Box
unfolding clamped max
event_style seg_start seg_end =
    let start_min = clamped seg_start in
    let end_min = if leb (clamped seg_end) start_min then start_min + 10 else clamped seg_end in
    record { top = start_min; height = max (end_min - start_min) 12 }

-- A segment lies in the day and in the interval and is not empty; without one, the interval is empty or
-- lies before the day or after it.
pub segment_on_day_cases :
    (day s e : ℕ)
    → ((g : Segment)
        → segment_on_day day s e ≡ some g
        → (day ≤ g.start)
          × (s ≤ g.start)
          × (g.start < g.end)
          × (g.end ≤ e)
          × (g.end < day + day_length))
      × (segment_on_day day s e ≡ none → (e ≤ s) ⊎ ((e ≤ day) ⊎ (day + 86399999 ≤ s)))
unfolding segment_on_day
segment_on_day_cases day s e = ((λ g h. ground arith), λ h. ground arith)

on_some_day-meets :
    (n day s e : ℕ)
    → s + 2 ≤ e
    → on_some_day (suc n) day s e ≡ true
    → (day < e) × (s + 1 < day + suc n * day_length)
unfolding on_some_day segment_on_day
on_some_day-meets zero day s e long h = (ground arith, ground arith)
on_some_day-meets (suc n) day s e long h =
    elim (Bool-cases (on_some_day (suc n) (day + day_length) s e)) [
      | inl later ↦
          let (after, before) = on_some_day-meets n (day + day_length) s e long later in
          (omega arith, omega arith)
      | inr first ↦ (ground arith, ground arith)
    ]

meets-on_some_day :
    (n day s e : ℕ)
    → s + 2 ≤ e
    → day < e
    → s + 1 < day + suc n * day_length
    → on_some_day (suc n) day s e ≡ true
unfolding on_some_day segment_on_day
meets-on_some_day zero day s e long after before = ground arith
meets-on_some_day (suc n) day s e long after before =
    elim (Bool-cases (ltb (s + 1) (day + day_length))) [
      | inl now ↦ ground arith
      | inr later ↦
          let rest =
            meets-on_some_day n (day + day_length) s e long (ground arith) (ground arith) in
          ground arith
    ]

-- An interval of two milliseconds at least is shown in the week just when it ends after the week starts
-- and starts, but for the last millisecond of the day, before the week ends.
on_some_day_iff :
    (week_start s e : ℕ)
    → s + 2 ≤ e
    → (on_some_day 7 week_start s e ≡ true)
      ↔ ((week_start < e) × (s + 1 < week_start + 7 * day_length))
on_some_day_iff week_start s e long = (
  (λ h. on_some_day-meets 6 week_start s e long h),
  λ (after, before). meets-on_some_day 6 week_start s e long after before,
)

-- An event is drawn within the hours of the grid, or over its end by twelve minutes at most; one within
-- those hours that lasts twelve minutes is drawn from its start to its end.
event_style_cases :
    (a b : ℕ)
    → ((event_style a b).top ≤ 840)
      × (12 ≤ (event_style a b).height)
      × ((event_style a b).top + (event_style a b).height ≤ 852)
      × (480 ≤ a
          → a + 12 ≤ b
          → b ≤ 1320
          → ((event_style a b).top + 480 ≡ a)
            × ((event_style a b).top + (event_style a b).height + 480 ≡ b))
unfolding event_style clamped max min
event_style_cases a b =
    (ground arith, ground arith, ground arith, λ early long late. (ground arith, ground arith))
