-- ===== src/Scheduler/Placement.antt =====
-- Where the week of several masters draws a booking
-- (frontend/src/components/schedule/WeekScheduler.tsx).
use hunger_platform.Prelude.{
  ◌≡◌, refl, sym, ap, ℕ, ◌+◌, ◌-◌, ◌*◌, ◌≤◌, ◌<◌, Bool, true, false, none, some, if◌then◌else◌,
  arith,
}
use hunger_platform.WeekGrid.{max}
use hunger_platform.Scheduler.{week_grid_height, to_min, Scheduled, placed, least_booking}

where_shown :
    (c : Bool) (x y : ℕ × ℕ)
    → (if c then none else some x) ≡ some y
    → (c ≡ false) × (x.0 ≡ y.0) × (x.1 ≡ y.1)
where_shown true x y h = absurd cc
where_shown false x y h =
    let same_place : x ≡ y = cc in (refl, ap (λ z. z.0) same_place, ap (λ z. z.1) same_place)

placed-drawn :
    (least : ℕ) (e : Scheduled) (top height : ℕ)
    → placed least e ≡ some (top, height)
    → (top ≡ ((to_min e.starts).1 - 540) * 8)
      × (height ≡ max (((to_min e.ends).1 - (to_min e.starts).1) * 8) least)
      × (540 ≤ (to_min e.starts).1)
      × (top < week_grid_height)
unfolding placed
placed-drawn least e top height h =
    let r = where_shown _ _ (top, height) h in
    let inside = r.0 in
    let first = r.1 in let second = r.2 in (sym first, sym second, ground arith, ground arith)

-- Of two bookings that are drawn, where by the clock the first ends 14 minutes or more after its start
-- and the second starts no earlier than the first ends, the second is drawn below the first; and a third
-- one that is drawn, and by the clock ends 14 minutes or more after its start and by nine in the evening,
-- is drawn within the grid.
pub placed-apart :
    (a b c : Scheduled) (top_a height_a top_b height_b top_c height_c : ℕ)
    → placed least_booking a ≡ some (top_a, height_a)
    → placed least_booking b ≡ some (top_b, height_b)
    → (to_min a.starts).1 + 14 ≤ (to_min a.ends).1
    → (to_min a.ends).1 ≤ (to_min b.starts).1
    → placed least_booking c ≡ some (top_c, height_c)
    → (to_min c.starts).1 + 14 ≤ (to_min c.ends).1
    → (to_min c.ends).1 ≤ 21 * 60
    → (top_a + height_a ≤ top_b) × (top_c + height_c ≤ week_grid_height)
unfolding max
placed-apart a b c top_a height_a top_b height_b top_c height_c p q long later r third evening =
    let x = placed-drawn least_booking a top_a height_a p in
    let y = placed-drawn least_booking b top_b height_b q in
    let z = placed-drawn least_booking c top_c height_c r in
    let x0 = x.0 in
    let x1 = x.1 in
    let x2 = x.2 in
    let y0 = y.0 in
    let y2 = y.2 in let z0 = z.0 in let z1 = z.1 in let z2 = z.2 in (ground arith, ground arith)
