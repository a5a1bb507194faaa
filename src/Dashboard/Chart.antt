-- ===== src/Dashboard/Chart.antt =====
-- That the figures of the dashboard agree with each other
-- (frontend/src/app/(admin)/dashboard/admin-dashboard.tsx).
use native.Mathlib.Nat.{div-lt_iff_lt-mul}
use hunger_platform.Prelude.{
  ◌≡◌, refl, ◌∙◌, inl, inr, ℕ, pos, zero, suc, ◌+◌, ◌-◌, ◌*◌, ◌/◌, ◌≤◌, ◌<◌, Bool, true, false,
  ◌&&◌, ◌||◌, List, [], ◌∷◌, Text, if◌then◌else◌, ltb, leb, ◌==◌, length, all, arith, Bool-cases,
  if-rule,
}
use hunger_platform.Wizard.Handlers.{filter}
use hunger_platform.Dashboard.{
  CalendarBooking, day_ms, utc_start_of_day, active, days_ago, revenue, rev_month, rev_prev_month,
  delta_rev_pct, kpis, MasterItem, retained, retention, percent, counted,
}
use hunger_platform.Dashboard.Series.{Point, empty_days, add_to, add_all, line_data}

-- The days of the series together.
unfoldable pub line_revenue : List Point → ℕ
line_revenue [] = 0
line_revenue (p ∷ ps) = p.revenue + line_revenue ps

unfoldable pub line_bookings : List Point → ℕ
line_bookings [] = 0
line_bookings (p ∷ ps) = p.bookings + line_bookings ps

unfoldable has_day : ℕ → List Point → Bool
has_day d [] = false
has_day d (p ∷ ps) = p.day == d || has_day d ps

has_day-add_to :
    (d : ℕ) (b : CalendarBooking) (ps : List Point) → has_day d (add_to b ps) ≡ has_day d ps
unfolding has_day add_to
has_day-add_to d b [] = refl
has_day-add_to d b (p ∷ ps) =
    let rest = has_day-add_to d b ps in
    if-rule (λ qs. has_day d qs ≡ (p.day == d || has_day d ps)) (p.day == b.starts_at / day_ms) _ _
      (λ _. refl) (λ _. ground arith)

add_to-sums :
    (b : CalendarBooking) (ps : List Point)
    → (line_revenue (add_to b ps) ≡ (
        if has_day (b.starts_at / day_ms) ps then line_revenue ps + b.price else line_revenue ps))
      × (line_bookings (add_to b ps)
          ≡ (if has_day (b.starts_at / day_ms) ps then line_bookings ps + 1 else line_bookings ps))
unfolding has_day add_to line_revenue line_bookings
add_to-sums b [] = (refl, refl)
add_to-sums b (p ∷ ps) =
    let rest = add_to-sums b ps in
    let first = rest.0 in
    let second = rest.1 in
    elim (Bool-cases (p.day == b.starts_at / day_ms)) [
      | inl e ↦ rw e (omega arith, omega arith)
      | inr e ↦ rw e (ground arith, ground arith)
    ]

-- Active and not before a moment.
unfoldable pub since : ℕ → CalendarBooking → Bool
unfolding active
since from b = active b && leb from b.starts_at

module _ (from stop : ℕ) where
  -- Of the moments before `stop`, the series has the days of those that are not before `from`.
  Covers : List Point → Type 0
  Covers ps = (s : ℕ) → ltb s stop ≡ true → has_day (s / day_ms) ps ≡ leb from s

  Covers-add_to : (b : CalendarBooking) (ps : List Point) → Covers ps → Covers (add_to b ps)
  unfolding Covers
  Covers-add_to b ps c s h = has_day-add_to (s / day_ms) b ps ∙ c s h

  add_all-sums :
      (bs : List CalendarBooking) (ps : List Point)
      → Covers ps
      → all (λ b. ltb b.starts_at stop) bs ≡ true
      → (line_revenue (add_all bs ps) ≡ line_revenue ps + revenue (filter (since from) bs))
        × (line_bookings (add_all bs ps) ≡ line_bookings ps + length (filter (since from) bs))
  unfolding add_all filter since revenue Covers
  add_all-sums [] ps c h = (omega arith, omega arith)
  add_all-sums (b ∷ bs) ps c h =
      let skipped = add_all-sums bs ps c (ground arith) in
      let kept = add_all-sums bs (add_to b ps) (Covers-add_to b ps c) (ground arith) in
      let a = skipped.0 in
      let a2 = skipped.1 in
      let k = kept.0 in
      let k2 = kept.1 in
      let one = (add_to-sums b ps).0 in
      let two = (add_to-sums b ps).1 in
      let here = c b.starts_at (ground arith) in (ground arith, ground arith)

line-empty_days :
    (n today : ℕ)
    → (line_revenue (empty_days n today) ≡ 0) × (line_bookings (empty_days n today) ≡ 0)
unfolding line_revenue line_bookings empty_days
line-empty_days zero today = (refl, refl)
line-empty_days (suc n) today =
    let rest = line-empty_days n today in
    let a = rest.0 in let b = rest.1 in (omega arith, omega arith)

has_day-empty_days :
    (d n today : ℕ)
    → n ≤ today
    → has_day d (empty_days n today) ≡ (leb (today - n) d && leb d today)
unfolding has_day empty_days
has_day-empty_days d zero today h = ground arith
has_day-empty_days d (suc n) today h =
    let rest = has_day-empty_days d n today (omega arith) in ground arith

empty_days-Covers :
    (now : ℕ)
    → 29 ≤ now / day_ms
    → Covers (days_ago 29 now) (utc_start_of_day now + day_ms) (empty_days 29 (now / day_ms))
unfolding Covers days_ago utc_start_of_day
empty_days-Covers now h s e = has_day-empty_days (s / day_ms) 29 (now / day_ms) h ∙ ground arith

-- Where no booking that was fetched starts after today, the days of the line add up to the revenue that
-- the dashboard shows for the month, and to the number of the bookings that it is made of.
pub line_data-rev_month :
    (now : ℕ) (bookings : List CalendarBooking)
    → 29 ≤ now / day_ms
    → all (λ b. ltb b.starts_at (utc_start_of_day now + day_ms)) bookings ≡ true
    → (line_revenue (line_data now bookings) ≡ rev_month now bookings)
      × (line_bookings (line_data now bookings)
          ≡ length (filter (since (days_ago 29 now)) bookings))
unfolding line_data rev_month since
line_data-rev_month now bookings h k =
    let sums =
      add_all-sums (days_ago 29 now) (utc_start_of_day now + day_ms) bookings
        (empty_days 29 (now / day_ms)) (empty_days-Covers now h) k in
    let zeros = line-empty_days 29 (now / day_ms) in
    let a = sums.0 in
    let b = sums.1 in let c = zeros.0 in let d = zeros.1 in (a ∙ omega arith, b ∙ omega arith)

none_before :
    (from to : ℕ) (bookings : List CalendarBooking)
    → all (λ b. leb to b.starts_at) bookings ≡ true
    → filter (λ b. active b && leb from b.starts_at && ltb b.starts_at to) bookings ≡ []
unfolding filter
none_before from to [] h = refl
none_before from to (b ∷ bs) h = let rest = none_before from to bs (ground arith) in ground arith

-- Where, as the dashboard asks for them, all bookings start in the last 30 days, the change of the
-- revenue is shown as 100 per cent or as none, whatever the revenue was before.
pub delta_rev_pct-fetched :
    (now : ℕ) (bookings : List CalendarBooking) (joined : List ℕ) (is_master : Bool)
    (masters : List MasterItem)
    → all (λ b. leb (days_ago 29 now) b.starts_at) bookings ≡ true
    → (kpis now bookings joined is_master masters).delta_rev_pct
      ≡ (if ltb 0 (rev_month now bookings) then pos 100 else pos 0)
unfolding kpis rev_prev_month delta_rev_pct
delta_rev_pct-fetched now bookings joined is_master masters h =
    rw (none_before (days_ago 58 now) (days_ago 29 now) bookings h) (unfold revenue in refl)

length-retained : (counts : List (Text × ℕ)) → retained counts ≤ length counts
unfolding retained
length-retained [] = omega arith
length-retained ((_, n) ∷ counts) = let rest = length-retained counts in ground arith

percent-most : (part whole : ℕ) → part ≤ whole → percent part whole ≤ 100
unfolding percent
percent-most part whole h =
    if-rule (λ n. n ≤ 100) (ltb 0 whole) _ 0
      (λ e.
        let positive : 0 < 2 * whole = ground arith in
        let few : (200 * part + whole) / (2 * whole) < 101 =
          (div-lt_iff_lt-mul positive).1 (omega arith) in
        omega arith)
      (λ _. omega arith)

-- The share of the clients who came back is at most 100 per cent.
retention-most : (bookings : List CalendarBooking) → retention bookings ≤ 100
unfolding retention
retention-most bookings =
    percent-most _ _ (length-retained (counted (λ b. b.client_id) bookings []))
