-- ===== src/Wizard/Price.antt =====
-- The price that the confirmation shows (frontend/src/app/mini-app/book/page.tsx). Amounts are in cents,
-- and products are exact, where the source has floating-point numbers; a percentage is a whole number.
use hunger_platform.Prelude.{
  ℕ, ◌+◌, ◌-◌, ◌*◌, ◌/◌, Bool, false, ◌&&◌, Option, none, some, if◌then◌else◌, ltb, ◌≡◌, ◌≤◌, ◌⊎◌,
  inl, inr, arith, refl, Bool-cases,
}
use hunger_platform.Wizard.{Page, State}

-- `Number(selectedService?.price ?? 0)`
unfoldable pub base_price : State → ℕ
base_price s = elim s.service [ none ↦ 0 | some svc ↦ svc.price ]

-- `Math.round(basePrice * (1 - percent / 100) * 100) / 100`
unfoldable pub discounted : ℕ → ℕ → ℕ
discounted base percent = (base * (100 - percent) + 50) / 100

unfoldable pub price_after_status : Page → State → ℕ
unfolding base_price discounted
price_after_status p s =
    if ltb 0 p.discount_percent then discounted (base_price s) p.discount_percent else base_price s

unfoldable pub has_status_discount : Page → State → Bool
unfolding base_price price_after_status
has_status_discount p s = ltb 0 p.discount_percent && ltb (price_after_status p s) (base_price s)

-- `appliedPromo?.final_amount`
unfoldable pub final_amount : State → Option ℕ
final_amount s = elim s.applied_promo [ none ↦ none | some promo ↦ promo.final_amount ]

unfoldable pub undercuts : Option ℕ → ℕ → Bool
undercuts none price = false
undercuts (some amount) price = ltb amount price

unfoldable pub has_promo_discount : Page → State → Bool
unfolding final_amount undercuts price_after_status
has_promo_discount p s = undercuts (final_amount s) (price_after_status p s)

unfoldable pub amount_or : Option ℕ → ℕ → ℕ
amount_or none price = price
amount_or (some amount) price = amount

-- `finalPrice`; with no service it shows nothing, and this is 0.
unfoldable pub final_price : Page → State → ℕ
unfolding has_promo_discount has_status_discount final_amount amount_or price_after_status
    base_price
final_price p s =
    if has_promo_discount p s
    then amount_or (final_amount s) 0
    else if has_status_discount p s
    then price_after_status p s
    else base_price s

discounted-low : (base percent : ℕ) → percent ≤ 100 → discounted base percent ≤ base
unfolding discounted
discounted-low base percent k =
    let scaled : base * (100 - percent) ≤ base * 100 = grind arith in ground arith

price_after_status-low :
    (p : Page) (s : State) → p.discount_percent ≤ 100 → price_after_status p s ≤ base_price s
unfolding price_after_status
price_after_status-low p s h =
    let low = discounted-low (base_price s) p.discount_percent h in ground arith

no_status_discount :
    (p : Page) (s : State)
    → p.discount_percent ≤ 100
    → has_status_discount p s ≡ false
    → base_price s ≡ price_after_status p s
unfolding has_status_discount price_after_status
no_status_discount p s h e =
    let low = discounted-low (base_price s) p.discount_percent h in ground arith

-- The choice among the amounts, for the lowest of them.
lowest :
    (o : Option ℕ) (base after : ℕ) (b : Bool)
    → after ≤ base
    → (b ≡ false → base ≡ after)
    → let shown = (if undercuts o after then amount_or o 0 else if b then after else base) in
      (shown ≤ base)
      × (shown ≤ after)
      × ((amount : ℕ) → o ≡ some amount → shown ≤ amount)
      × ((shown ≡ after) ⊎ (o ≡ some shown))
unfolding undercuts amount_or
lowest none base after b h k =
    (ground (arith, k), ground (arith, k), (λ a e. cc), inl (ground (arith, k)))
lowest (some x) base after b h k = (
  ground (arith, k),
  ground (arith, k),
  (λ a e. ground (arith, k)),
  elim (Bool-cases (ltb x after)) [ inl e ↦ inr (rw e refl) | inr e ↦ inl (ground (arith, k)) ],
)

-- With a discount of 100 percent at most, the price shown is the lowest of the list price, the price
-- after the status discount and the amount of the promo code, and it is one of the last two.
pub final_price-lowest :
    (p : Page) (s : State)
    → p.discount_percent ≤ 100
    → (final_price p s ≤ base_price s)
      × (final_price p s ≤ price_after_status p s)
      × ((amount : ℕ) → final_amount s ≡ some amount → final_price p s ≤ amount)
      × ((final_price p s ≡ price_after_status p s) ⊎ (final_amount s ≡ some (final_price p s)))
unfolding final_price has_promo_discount
final_price-lowest p s h =
    lowest (final_amount s) (base_price s) (price_after_status p s) (has_status_discount p s)
      (price_after_status-low p s h) (no_status_discount p s h)
