-- ===== src/Examples/Salon.antt =====
-- The scheduler, the services and the stock at concrete inputs
-- (frontend/src/components/schedule/WeekScheduler.tsx, frontend/src/hooks/useServices.ts,
-- frontend/src/app/(admin)/inventory/inventory-page.tsx).
use hunger_platform.Prelude.{
  ◌≡◌, refl, ◌⊎◌, ℕ, ℤ, pos, negsuc, ◌+◌, ◌*◌, ◌≤◌, true, false, none, some, [], ◌∷◌, codes, same,
  arith,
}
use hunger_platform.WeekGrid.{max}
use hunger_platform.Scheduler.{Scheduled, week_grid_height, to_min, or_zero, placed}
use hunger_platform.Scheduler.Placement.{placed-apart}
use hunger_platform.Services.{ToggleState, with_items, set_pages, toggle_service, toggle_settled}
use hunger_platform.Services.Toggle.{
  only_pages, has_page, distinct_pages, toggle_settled-toggle_service,
}
use hunger_platform.Inventory.{get_stock_status}
use hunger_platform.Inventory.Stock.{AtMost, rank_of, bar_limit, get_stock_status-rank_of}

abbrev between_hours : ℕ → ℕ → Scheduled
between_hours from to = record {
  id = codes "b";
  starts = record { hour = some from; minute = some 0; weekday = some (codes "Tue") };
  ends = record { hour = some to; minute = none; weekday = some (codes "Tue") };
}

placed-apart_example : (480 + 480 ≤ 960) × (5280 + 480 ≤ week_grid_height)
placed-apart_example =
    placed-apart (between_hours 10 11) (between_hours 11 12) (between_hours 20 21) 480 480 960 480
      5280 480 (unfold placed to_min or_zero max in refl) (unfold placed to_min or_zero max in refl)
      (unfold to_min or_zero in omega arith) (unfold to_min or_zero in omega arith)
      (unfold placed to_min or_zero max in refl) (unfold to_min or_zero in omega arith)
      (unfold to_min or_zero in omega arith)

abbrev two_pages : ToggleState
two_pages = record {
  caches =
      (codes "p1", some (with_items (record { id = codes "s"; is_active = true } ∷ [])))
      ∷ (codes "p2", none)
      ∷ [];
  previous = [];
  sent = [];
  stale = false;
}

toggle_settled-toggle_service_example :
    ((only_pages two_pages.caches ≡ true)
      × (toggle_settled 0 false (toggle_service (codes "s") false two_pages)
          ≡ record two_pages { sent = (codes "s", false) ∷ []; stale = true }))
    ⊎ ((only_pages two_pages.caches ≡ false)
        × (toggle_service (codes "s") false two_pages ≡ record two_pages {
          caches = (set_pages (codes "s") false two_pages.caches).1;
          stale = true;
        }))
toggle_settled-toggle_service_example =
    toggle_settled-toggle_service (codes "s") false two_pages
      (unfold distinct_pages has_page same in refl)

get_stock_status-rank_of_example :
    (rank_of (get_stock_status (negsuc 2) 1000).label
      ≤ rank_of (get_stock_status (pos 1400) 1000).label)
    × ((z : ℤ)
        → (get_stock_status z 1000).filled
          ≤ bar_limit (get_stock_status z 1000).label * (get_stock_status z 1000).whole)
unfolding AtMost
get_stock_status-rank_of_example = get_stock_status-rank_of (negsuc 2) (pos 1400) 1000 tt
