-- ===== src/Dashboard/Series.antt =====
-- The series of the dashboard's charts and its lists
-- (frontend/src/app/(admin)/dashboard/admin-dashboard.tsx). A day is named by its number since 1970,
-- for which the page has its date as a text.
use hunger_platform.Prelude.{
  ℕ, zero, suc, ◌+◌, ◌-◌, ◌/◌, Bool, true, false, ◌&&◌, not, List, [], ◌∷◌, Text, codes, same,
  if◌then◌else◌, leb, ◌==◌,
}
use hunger_platform.Wizard.Handlers.{filter}
use hunger_platform.Sorting.{sort_by}
use hunger_platform.Dashboard.{
  CalendarBooking, day_ms, utc_start_of_day, same_utc_day, active, counted,
}

-- A day of the line: its number, its revenue and its bookings.
pub record Point : Type 0 where
  pub day : ℕ
  pub revenue : ℕ
  pub bookings : ℕ

-- The days from `n` days before the day to the day, with nothing yet.
unfoldable pub empty_days : ℕ → ℕ → List Point
empty_days zero today = record { day = today; revenue = 0; bookings = 0 } ∷ []
empty_days (suc n) today =
    record { day = today - suc n; revenue = 0; bookings = 0 } ∷ empty_days n today

-- A booking counted on its day, where the series has it.
unfoldable pub add_to : CalendarBooking → List Point → List Point
add_to b [] = []
add_to b (p ∷ ps) =
    if p.day == b.starts_at / day_ms
    then record p { revenue = p.revenue + b.price; bookings = p.bookings + 1 } ∷ ps
    else p ∷ add_to b ps

unfoldable pub add_all : List CalendarBooking → List Point → List Point
unfolding active add_to
add_all [] ps = ps
add_all (b ∷ bs) ps =
    let skipped = add_all bs ps in
    let kept = add_all bs (add_to b ps) in if not (active b) then skipped else kept

unfoldable pub line_data : ℕ → List CalendarBooking → List Point
unfolding add_all empty_days
line_data now bookings = add_all bookings (empty_days 29 (now / day_ms))

module _ {ℓ} {A : Type ℓ} where
  -- `xs.slice(0, n)`
  unfoldable pub slice : ℕ → List A → List A
  slice zero xs = []
  slice (suc n) [] = []
  slice (suc n) (x ∷ xs) = x ∷ slice n xs

-- The services, by their ids, by how many active bookings they have, the first five.
unfoldable pub pie_data : List CalendarBooking → List (Text × ℕ)
unfolding slice sort_by counted
pie_data bookings = slice 5 (sort_by (λ a b. leb b.1 a.1) (counted (λ b. b.service_id) bookings []))

-- The pending ones first, and then by the start. The names shown with a booking are left out.
unfoldable pub pending_first : CalendarBooking → CalendarBooking → Bool
unfolding same
pending_first a b =
    let pa = same a.status (codes "pending") in
    let pb = same b.status (codes "pending") in
    if pa && not pb then true else if pb && not pa then false else leb a.starts_at b.starts_at

unfoldable pub today_bookings : ℕ → List CalendarBooking → List CalendarBooking
unfolding slice sort_by pending_first filter same_utc_day utc_start_of_day
today_bookings now bookings =
    slice 10 (
      sort_by pending_first
        (filter (λ b. same_utc_day b.starts_at (utc_start_of_day now)) bookings))

-- The six that start last.
unfoldable pub activity : List CalendarBooking → List CalendarBooking
unfolding slice sort_by
activity bookings = slice 6 (sort_by (λ a b. leb b.starts_at a.starts_at) bookings)
