-- ===== src/Inventory/Stock.antt =====
-- The levels of the stock (frontend/src/app/(admin)/inventory/inventory-page.tsx).
use hunger_platform.Prelude.{
  ◌≡◌, refl, ℕ, ℤ, pos, negsuc, ◌*◌, ◌≤◌, ◌&&◌, if◌then◌else◌, ltb, ◌==◌, arith, if-rule,
}
use hunger_platform.WeekGrid.{max}
use hunger_platform.Inventory.{
  StockLabel, status_stock_danger, status_stock_low, status_stock_moderate, status_stock_ok,
  StockStatus, capped, get_stock_status,
}

-- The labels from the worst to the best, and how far the bar of each may go.
unfoldable pub rank_of : StockLabel → ℕ
rank_of status_stock_danger = 0
rank_of status_stock_low = 1
rank_of status_stock_moderate = 2
rank_of status_stock_ok = 3

unfoldable pub bar_limit : StockLabel → ℕ
bar_limit status_stock_danger = 0
bar_limit status_stock_low = 45
bar_limit status_stock_moderate = 70
bar_limit status_stock_ok = 100

rank-capped : (l : StockLabel) (n whole cap : ℕ) → rank_of (capped l n whole cap).label ≡ rank_of l
unfolding capped
rank-capped l n whole cap =
    if-rule (λ (s : StockStatus). rank_of s.label ≡ rank_of l) (ltb (cap * whole) (n * 100)) _ _
      (λ _. refl) (λ _. refl)

-- The rank without the bar.
rank-get_stock_status :
    (n least : ℕ)
    → rank_of (get_stock_status (pos n) least).label ≡ (
        if n == 0
        then 0
        else if ltb 0 least && ltb n least
        then 1
        else if ltb 0 least && ltb (n * 2) (least * 3)
        then 2
        else 3)
unfolding get_stock_status rank_of
rank-get_stock_status n least =
    let a = rank-capped status_stock_low n (least * 2) 45 in
    let b = rank-capped status_stock_moderate n (least * 2) 70 in
    let c = rank-capped status_stock_ok n (max (least * 2) 1000) 100 in ground arith

capped-limit :
    (l : StockLabel) (n whole : ℕ)
    → (capped l n whole (bar_limit l)).filled
      ≤ bar_limit (capped l n whole (bar_limit l)).label * (capped l n whole (bar_limit l)).whole
unfolding capped bar_limit
capped-limit status_stock_danger n whole = ground arith
capped-limit status_stock_low n whole = ground arith
capped-limit status_stock_moderate n whole = ground arith
capped-limit status_stock_ok n whole = ground arith

-- The bar is within the limit of its label.
Within : StockStatus → Type 0
Within s = s.filled ≤ bar_limit s.label * s.whole

get_stock_status-Within : (z : ℤ) (least : ℕ) → Within (get_stock_status z least)
unfolding get_stock_status Within bar_limit
get_stock_status-Within (negsuc k) least = omega arith
get_stock_status-Within (pos n) least =
    if-rule Within (n == 0) _ _ (λ _. unfold Within bar_limit in omega arith)
      (λ _.
        if-rule Within (ltb 0 least && ltb n least) _ _
          (λ _. capped-limit status_stock_low n (least * 2))
          (λ _.
            if-rule Within (ltb 0 least && ltb (n * 2) (least * 3)) _ _
              (λ _. capped-limit status_stock_moderate n (least * 2))
              (λ _. capped-limit status_stock_ok n (max (least * 2) 1000))))

-- An amount in stock is at most another one; below zero the backend keeps what is owed.
unfoldable pub AtMost : ℤ → ℤ → Type 0
AtMost (pos n) (pos m) = n ≤ m
AtMost (pos n) (negsuc m) = ⊥
AtMost (negsuc n) (pos m) = Unit {0}
AtMost (negsuc n) (negsuc m) = m ≤ n

rank-pos :
    (n m least : ℕ)
    → n ≤ m
    → rank_of (get_stock_status (pos n) least).label
      ≤ rank_of (get_stock_status (pos m) least).label
rank-pos n m least h =
    let a = rank-get_stock_status n least in let b = rank-get_stock_status m least in ground arith

rank-AtMost :
    (z w : ℤ) (least : ℕ)
    → AtMost z w
    → rank_of (get_stock_status z least).label ≤ rank_of (get_stock_status w least).label
unfolding AtMost get_stock_status rank_of
rank-AtMost (pos n) (pos m) least h = rank-pos n m least h
rank-AtMost (pos n) (negsuc m) least h = absurd h
rank-AtMost (negsuc n) w least h = ground arith

-- More of a product, be the stock above or below zero, never makes its label worse, and a bar is never filled beyond the limit of its label:
-- nothing, 45, 70 and 100 per cent.
pub get_stock_status-rank_of :
    (x y : ℤ) (least : ℕ)
    → AtMost x y
    → (rank_of (get_stock_status x least).label ≤ rank_of (get_stock_status y least).label)
      × ((z : ℤ)
          → (get_stock_status z least).filled
            ≤ bar_limit (get_stock_status z least).label * (get_stock_status z least).whole)
unfolding Within
get_stock_status-rank_of x y least h =
    (rank-AtMost x y least h, λ z. get_stock_status-Within z least)
