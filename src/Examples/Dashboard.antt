-- ===== src/Examples/Dashboard.antt =====
-- The dashboard at concrete inputs (frontend/src/app/(admin)/dashboard/admin-dashboard.tsx).
use hunger_platform.Prelude.{
  ◌≡◌, refl, ◌⊎◌, ℕ, pos, none, some, ◌≤◌, false, if◌then◌else◌, List, [], ◌∷◌, Text, codes, ltb,
  length, arith,
}
use hunger_platform.Wizard.Handlers.{filter}
use hunger_platform.Dashboard.{
  CalendarBooking, utc_start_of_day, days_ago, rev_month, kpis, top_master, MasterItem,
  top_master_name,
}
use hunger_platform.Dashboard.Series.{line_data}
use hunger_platform.Dashboard.Counts.{hits, Shows, top_master-most}
use hunger_platform.Dashboard.Chart.{
  line_revenue, line_bookings, since, line_data-rev_month, delta_rev_pct-fetched,
}

abbrev booking_at : ℕ → CalendarBooking
booking_at t = record {
  id = codes "b";
  starts_at = t;
  status = codes "confirmed";
  price = 4500;
  client_id = codes "c";
  master_id = codes "m";
  service_id = codes "s";
}

abbrev some_bookings : List CalendarBooking
some_bookings = booking_at 8640000000 ∷ booking_at 8640000001 ∷ []

abbrev some_masters : List MasterItem
some_masters = record { id = codes "m"; display_name = codes "Mia" } ∷ []

top_master-most_example :
    ((k : Text) → hits (λ b. b.master_id) k some_bookings ≤ (top_master some_bookings).1)
    × ((top_master some_bookings ≡ (none, 0))
        ⊎ ((id : Text) × ((top_master some_bookings).0 ≡ some id)
            × (hits (λ b. b.master_id) id some_bookings ≡ (top_master some_bookings).1)))
    × Shows false some_masters some_bookings
        (top_master some_bookings).1
        (top_master_name false some_masters (top_master some_bookings).0)
top_master-most_example = top_master-most some_bookings false some_masters

line_data-rev_month_example :
    (line_revenue (line_data 8640005000 some_bookings) ≡ rev_month 8640005000 some_bookings)
    × (line_bookings (line_data 8640005000 some_bookings)
        ≡ length (filter (since (days_ago 29 8640005000)) some_bookings))
line_data-rev_month_example =
    line_data-rev_month 8640005000 some_bookings (omega arith) (unfold utc_start_of_day in refl)

delta_rev_pct-fetched_example :
    (kpis 8640005000 some_bookings [] false []).delta_rev_pct
    ≡ (if ltb 0 (rev_month 8640005000 some_bookings) then pos 100 else pos 0)
delta_rev_pct-fetched_example =
    delta_rev_pct-fetched 8640005000 some_bookings [] false []
      (unfold days_ago utc_start_of_day in refl)
