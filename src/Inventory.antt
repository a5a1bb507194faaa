-- ===== src/Inventory.antt =====
-- The stock of the salon (frontend/src/app/(admin)/inventory/inventory-page.tsx). Quantities are exact
-- thousandths and prices exact cents; what `parseFloat` reads in a text is a parameter.
pub mod Stock
use hunger_platform.Prelude.{
  ◌≡◌, ℕ, ℤ, pos, negsuc, ◌+◌, ◌*◌, Bool, true, false, ◌&&◌, not, Option, none, some, List, [], ◌∷◌,
  ◌++◌, map, Text, codes, same, trim, truthy, if◌then◌else◌, ltb, ◌==◌,
}
use hunger_platform.Wizard.Handlers.{filter}
use hunger_platform.WeekGrid.{max}
use hunger_platform.Broadcasts.Loading.{or_null}

-- The label of a product's stock; the first two have the variant "danger".
pub data StockLabel : Type 0 where
  status_stock_danger status_stock_low status_stock_moderate status_stock_ok : StockLabel

-- The bar is the fraction `filled` of `whole` per cent.
pub record StockStatus : Type 0 where
  pub label : StockLabel
  pub filled : ℕ
  pub whole : ℕ

-- `Math.min((n / whole) * 100, cap)`
unfoldable pub capped : StockLabel → ℕ → ℕ → ℕ → StockStatus
capped l n whole cap =
    if ltb (cap * whole) (n * 100)
    then record { label = l; filled = cap; whole = 1 }
    else record { label = l; filled = n * 100; whole = whole }

unfoldable pub get_stock_status : ℤ → ℕ → StockStatus
unfolding capped max
get_stock_status (negsuc n) least = record { label = status_stock_danger; filled = 0; whole = 1 }
get_stock_status (pos n) least =
    if n == 0
    then record { label = status_stock_danger; filled = 0; whole = 1 }
    else if ltb 0 least && ltb n least
    then capped status_stock_low n (least * 2) 45
    else if ltb 0 least && ltb (n * 2) (least * 3)
    then capped status_stock_moderate n (least * 2) 70
    else capped status_stock_ok n (max (least * 2) 1000) 100

-- A line of a new invoice.
pub record LineItem : Type 0 where
  pub id : Text
  pub product_id : Text
  pub quantity : Text
  pub price_per_unit : Text

pub data ItemField : Type 0 where
  product_id quantity price_per_unit : ItemField

unfoldable pub add_item : Text → List LineItem → List LineItem
add_item now items =
    items ++ (record { id = now; product_id = []; quantity = codes "1"; price_per_unit = [] } ∷ [])

unfoldable pub remove_item : Text → List LineItem → List LineItem
unfolding filter same
remove_item id items = filter (λ i. not (same i.id id)) items

unfoldable pub set_field : ItemField → Text → LineItem → LineItem
set_field product_id v i = record i { product_id = v }
set_field quantity v i = record i { quantity = v }
set_field price_per_unit v i = record i { price_per_unit = v }

unfoldable pub update_item : Text → ItemField → Text → List LineItem → List LineItem
unfolding set_field same
update_item id f v items = map (λ i. if same i.id id then set_field f v i else i) items

-- What is sent of a line.
pub record InvoiceLine : Type 0 where
  pub product_id : Option ℕ
  pub quantity : ℕ
  pub price_per_unit : Option ℕ

-- What `parseFloat` reads, with `none` for what is no number or below 0.
module _ (parse_quantity parse_price parse_id : Text → Option ℕ) where
  unfoldable pub amount_of : Option ℕ → ℕ
  amount_of none = 0
  amount_of (some n) = n

  -- `total`, in thousandths of cents
  unfoldable pub total : List LineItem → ℕ
  unfolding amount_of
  total [] = 0
  total (i ∷ items) =
      amount_of (parse_quantity i.quantity) * amount_of (parse_price i.price_per_unit) + total items

  unfoldable pub is_valid_item : LineItem → Bool
  unfolding truthy amount_of
  is_valid_item i = truthy i.product_id && ltb 0 (amount_of (parse_quantity i.quantity))

  unfoldable pub invoice_line : LineItem → InvoiceLine
  unfolding truthy amount_of
  invoice_line i = record {
    product_id = parse_id i.product_id;
    quantity = amount_of (parse_quantity i.quantity);
    price_per_unit = if truthy i.price_per_unit then parse_price i.price_per_unit else none;
  }

  -- The lines of the request, or `none` where there are none.
  unfoldable pub lines_or_none : List LineItem → Option (List InvoiceLine)
  unfolding invoice_line
  lines_or_none [] = none
  lines_or_none (i ∷ items) = some (map invoice_line (i ∷ items))

  unfoldable pub save_invoice : List LineItem → Option (List InvoiceLine)
  unfolding lines_or_none is_valid_item filter
  save_invoice items = lines_or_none (filter is_valid_item items)
