-- ===== src/Booking.antt =====
-- How long a booking takes, and what the label says of it (frontend/src/lib/booking-duration-label.ts and
-- frontend/src/app/mini-app/lib/booking-price-duration.ts). Times are milliseconds; `Date` and the texts
-- of the labels are parameters. A duration that the server sends as no number is `none`. The price,
-- which is a fraction, is not modelled.
pub mod Durations
use hunger_platform.Prelude.{
  ℕ, ◌+◌, ◌-◌, ◌/◌, Bool, true, false, ◌&&◌, Option, none, some, Text, truthy, ltb, str_eq, String,
  if◌then◌else◌, List, ◌++◌,
}

pub record Service : Type 0 where
  pub duration_minutes : ℕ
  pub duration_max_minutes : Option ℕ
  pub duration_type : Option String

-- `svc.duration_max_minutes != null && svc.duration_max_minutes > svc.duration_minutes`
abbrev longer_than : ℕ → Option ℕ → Bool
longer_than n none = false
longer_than n (some max) = ltb n max

-- `svc.duration_type === 'range'`
abbrev is_range : Option String → Bool
is_range none = false
is_range (some t) = str_eq t "range"

unfoldable pub mini_app_booking_duration_label : Service → (ℕ → Text) → Text → Text
mini_app_booking_duration_label svc t_duration_minutes range_note =
    if is_range svc.duration_type && longer_than svc.duration_minutes svc.duration_max_minutes
    then range_note
    else t_duration_minutes svc.duration_minutes

unfoldable pub admin_booking_duration_label : Service → (ℕ → Text) → Text → Text
admin_booking_duration_label svc t_minutes_label range_note =
    if is_range svc.duration_type && longer_than svc.duration_minutes svc.duration_max_minutes
    then range_note
    else t_minutes_label svc.duration_minutes

pub record Booking : Type 0 where
  pub duration_minutes : Option ℕ
  pub starts_at : Option Text
  pub ends_at : Option Text

-- `Math.round(x / 60_000)`, where a difference that is negative gives 0, which is not positive either.
unfoldable pub rounded_minutes : (starts ends : ℕ) → ℕ
rounded_minutes starts ends = ((ends - starts) + 30000) / 60000

module _ (get_time : Text → ℕ) where
  -- `m > 0 ? m : null`, for the two times.
  unfoldable pub minutes_between : (starts ends : Text) → Option ℕ
  unfolding rounded_minutes
  minutes_between starts ends =
      let m = rounded_minutes (get_time starts) (get_time ends) in if ltb 0 m then some m else none

  -- `if (b.starts_at && b.ends_at)`
  unfoldable pub from_times : Option Text → Option Text → Option ℕ
  unfolding minutes_between
  from_times (some starts) (some ends) =
      if truthy starts && truthy ends then minutes_between starts ends else none
  from_times _ _ = none

  -- `effectiveBookingDurationMinutes`, by the duration that the server sent.
  unfoldable pub effective_from : Option ℕ → Booking → Option ℕ
  unfolding from_times
  effective_from none b = from_times b.starts_at b.ends_at
  effective_from (some n) b = if ltb 0 n then some n else from_times b.starts_at b.ends_at

  unfoldable pub effective_booking_duration_minutes : Booking → Option ℕ
  unfolding effective_from
  effective_booking_duration_minutes b = effective_from b.duration_minutes b
