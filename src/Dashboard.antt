-- ===== src/Dashboard.antt =====
-- The figures of the dashboard (frontend/src/app/(admin)/dashboard/admin-dashboard.tsx). A moment is
-- its milliseconds since 1970, of which a UTC day has 86400000, and today is far from 1970; a price is
-- in exact cents.
pub mod Series
pub mod Counts
pub mod Chart
use hunger_platform.Prelude.{
  ℕ, ℤ, pos, difference, ◌+◌, ◌-◌, ◌*◌, ◌/◌, Bool, true, false, ◌&&◌, ◌||◌, not, Option, none, some,
  List, [], ◌∷◌, Text, codes, same, truthy, if◌then◌else◌, ltb, leb, ◌==◌, length,
}
use hunger_platform.Wizard.Handlers.{filter, find}

pub record CalendarBooking : Type 0 where
  pub id : Text
  pub starts_at : ℕ
  pub status : Text
  pub price : ℕ
  pub client_id : Text
  pub master_id : Text
  pub service_id : Text

abbrev pub day_ms : ℕ
day_ms = 86400000

-- `utcStartOfDay`
unfoldable pub utc_start_of_day : ℕ → ℕ
utc_start_of_day t = (t / day_ms) * day_ms

-- `sameUtcDay`
unfoldable pub same_utc_day : ℕ → ℕ → Bool
same_utc_day t day = t / day_ms == day / day_ms

unfoldable pub active : CalendarBooking → Bool
unfolding same
active b = same b.status (codes "pending") || same b.status (codes "confirmed")

-- `utcAddDays(utcStartOfDay(now), -n)`
unfoldable pub days_ago : ℕ → ℕ → ℕ
unfolding utc_start_of_day
days_ago n now = utc_start_of_day now - n * day_ms

-- The bookings that are active on the day of a moment.
unfoldable pub active_on : ℕ → List CalendarBooking → List CalendarBooking
unfolding filter active same_utc_day
active_on day bookings = filter (λ b. active b && same_utc_day b.starts_at day) bookings

-- The sum of the prices.
unfoldable pub revenue : List CalendarBooking → ℕ
revenue [] = 0
revenue (b ∷ bs) = b.price + revenue bs

unfoldable pub rev_month : ℕ → List CalendarBooking → ℕ
unfolding filter active days_ago revenue
rev_month now bookings =
    revenue (filter (λ b. active b && leb (days_ago 29 now) b.starts_at) bookings)

unfoldable pub rev_prev_month : ℕ → List CalendarBooking → ℕ
unfolding filter active days_ago revenue
rev_prev_month now bookings = revenue (
    filter (λ b. active b && leb (days_ago 58 now) b.starts_at && ltb b.starts_at (days_ago 29 now))
      bookings)

-- `Math.round(((revMonth - revPrevMonth) / revPrevMonth) * 100)`, and its other cases
unfoldable pub delta_rev_pct : ℕ → ℕ → ℤ
unfolding difference
delta_rev_pct rev prev =
    if ltb 0 prev
    then difference ((200 * rev + prev) / (2 * prev)) 100
    else if ltb 0 rev
    then pos 100
    else pos 0

-- `n[key] = (n[key] ?? 0) + 1`, on an object whose keys keep the order in which they came
unfoldable pub bump : Text → List (Text × ℕ) → List (Text × ℕ)
unfolding same
bump key [] = (key, 1) ∷ []
bump key ((name, n) ∷ counts) =
    let rest = bump key counts in if same name key then (name, n + 1) ∷ counts else (name, n) ∷ rest

-- How often each key is had by the active bookings, in their order.
unfoldable pub counted :
    (CalendarBooking → Text) → List CalendarBooking → List (Text × ℕ) → List (Text × ℕ)
unfolding active bump
counted key [] counts = counts
counted key (b ∷ bs) counts =
    let skipped = counted key bs counts in
    let kept = counted key bs (bump (key b) counts) in if not (active b) then skipped else kept

-- `Math.round((part / whole) * 100)`, and 0 of nothing
unfoldable pub percent : ℕ → ℕ → ℕ
percent part whole = if ltb 0 whole then (200 * part + whole) / (2 * whole) else 0

-- The clients with more than one active booking.
unfoldable pub retained : List (Text × ℕ) → ℕ
retained [] = 0
retained ((_, n) ∷ counts) = if ltb 1 n then 1 + retained counts else retained counts

unfoldable pub retention : List CalendarBooking → ℕ
unfolding counted retained percent
retention bookings =
    percent (retained (counted (λ b. b.client_id) bookings []))
      (length (counted (λ b. b.client_id) bookings []))

-- The loop for the master with the most active bookings.
unfoldable pub top : List (Text × ℕ) → Option Text × ℕ → Option Text × ℕ
top [] best = best
top ((id, n) ∷ counts) (best, most) =
    let better = top counts (some id, n) in
    let kept = top counts (best, most) in if ltb most n then better else kept

unfoldable pub top_master : List CalendarBooking → Option Text × ℕ
unfolding counted top
top_master bookings = top (counted (λ b. b.master_id) bookings []) (none, 0)

-- An item of the page of masters that is loaded.
pub record MasterItem : Type 0 where
  pub id : Text
  pub display_name : Text

-- `m?.display_name ?? null`
abbrev pub name_of : Option MasterItem → Option Text
name_of none = none
name_of (some m) = some m.display_name

-- `topMasterName`: a master's own dashboard, no id, an empty id or an empty page names no one.
unfoldable pub top_master_name : Bool → List MasterItem → Option Text → Option Text
unfolding find same truthy
top_master_name is_master masters none = none
top_master_name is_master masters (some top_id) =
    if is_master || not (truthy top_id) || length masters == 0
    then none
    else name_of (find (λ m. same m.id top_id) masters)

pub record Kpis : Type 0 where
  pub today_count : ℕ
  pub delta_bookings : ℤ
  pub rev_month : ℕ
  pub delta_rev_pct : ℤ
  pub new_week : ℕ
  pub retention : ℕ
  pub top_master_name : Option Text
  pub top_count : ℕ

-- `joined` are the moments at which the clients joined.
unfoldable pub kpis : ℕ → List CalendarBooking → List ℕ → Bool → List MasterItem → Kpis
unfolding active_on days_ago utc_start_of_day difference rev_month rev_prev_month delta_rev_pct
    filter retention top_master top_master_name
kpis now bookings joined is_master masters = record {
  today_count = length (active_on (utc_start_of_day now) bookings);
  delta_bookings =
      difference (length (active_on (utc_start_of_day now) bookings))
        (length (active_on (days_ago 1 now) bookings));
  rev_month = rev_month now bookings;
  delta_rev_pct = delta_rev_pct (rev_month now bookings) (rev_prev_month now bookings);
  new_week = length (filter (λ t. leb (days_ago 7 now) t) joined);
  retention = retention bookings;
  top_master_name = top_master_name is_master masters (top_master bookings).0;
  top_count = (top_master bookings).1;
}
