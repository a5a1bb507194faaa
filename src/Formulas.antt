-- ===== src/Formulas.antt =====
-- The formulas of the colourists: the rows of the drawer, what it suggests and what it saves
-- (frontend/src/app/(admin)/formulas/formulas-page.tsx). Small letters are those of ASCII; an amount is
-- what `parse_amount` reads in its text.
pub mod Drawer
pub mod Suggestions
pub mod Complete
pub mod Rows
use hunger_platform.Prelude.{
  ℕ, ◌+◌, Bool, true, false, ◌&&◌, ◌||◌, not, Option, none, some, List, [], ◌∷◌, ◌++◌, map, Text,
  codes, same, trim, truthy, if◌then◌else◌, leb, length,
}
use hunger_platform.Wizard.Handlers.{filter}
use hunger_platform.Referral.{mem}
use hunger_platform.Broadcasts.{lower}

pub record InventoryProduct : Type 0 where
  pub name : Option Text
  pub sku : Option Text
  pub brand : Option Text
  pub unit : Option Text

pub record ComponentRow : Type 0 where
  pub id : Text
  pub brand : Text
  pub product : Text
  pub shade : Text
  pub amount : Text
  pub unit : Text

-- `o?.trim() ?? ""`
unfoldable pub trim_or_empty : Option Text → Text
unfolding trim
trim_or_empty none = []
trim_or_empty (some t) = trim t

-- `m.get(k)`
unfoldable pub product_at : Text → List (Text × InventoryProduct) → Option InventoryProduct
unfolding same
product_at k [] = none
product_at k ((name, p) ∷ m) = if same name k then some p else product_at k m

-- `if (t) { if (!m.has(k)) m.set(k, p); }` with `k` the text in small letters
unfoldable pub set_new :
    Text → InventoryProduct → List (Text × InventoryProduct) → List (Text × InventoryProduct)
unfolding product_at lower truthy
set_new t p m =
    if truthy t
    then elim (product_at (lower t) m) [ none ↦ m ++ ((lower t, p) ∷ []) | some q ↦ m ]
    else m

unfoldable pub products_from :
    List InventoryProduct → List (Text × InventoryProduct) → List (Text × InventoryProduct)
unfolding set_new trim_or_empty
products_from [] m = m
products_from (p ∷ ps) m =
    products_from ps (set_new (trim_or_empty p.sku) p (set_new (trim_or_empty p.name) p m))

unfoldable pub products_by_name_or_sku_norm : List InventoryProduct → List (Text × InventoryProduct)
unfolding products_from
products_by_name_or_sku_norm ps = products_from ps []

-- The brand of the product of a text, if there is one.
unfoldable pub brand_of : List (Text × InventoryProduct) → Text → Text
unfolding product_at trim_or_empty lower truthy
brand_of m t =
    if truthy t
    then elim (product_at (lower t) m) [ none ↦ [] | some p ↦ trim_or_empty p.brand ]
    else []

unfoldable pub resolved_brand : List (Text × InventoryProduct) → ComponentRow → Text
unfolding brand_of trim truthy
resolved_brand m row =
    if truthy (trim row.brand)
    then trim row.brand
    else if truthy (brand_of m (trim row.product))
    then brand_of m (trim row.product)
    else brand_of m (trim row.shade)

-- A column of a row, and the rows that the drawer opens with.
pub data Column : Type 0 where
  brand product shade amount unit : Column

unfoldable pub set_column : Column → Text → ComponentRow → ComponentRow
set_column brand v c = record c { brand = v }
set_column product v c = record c { product = v }
set_column shade v c = record c { shade = v }
set_column amount v c = record c { amount = v }
set_column unit v c = record c { unit = v }

-- The units of the list.
unfoldable pub is_unit : Text → Bool
unfolding same
is_unit u = same u (codes "г") || same u (codes "мл") || same u (codes "шт")

unfoldable pub with_product : Option InventoryProduct → ComponentRow → ComponentRow
unfolding trim_or_empty truthy is_unit
with_product none c = c
with_product (some p) c = record c {
  brand = if truthy (trim_or_empty p.brand) then trim_or_empty p.brand else c.brand;
  unit = if is_unit (trim_or_empty p.unit) then trim_or_empty p.unit else c.unit;
}

unfoldable pub names_product : Column → Bool
names_product brand = false
names_product product = true
names_product shade = true
names_product amount = false
names_product unit = false

unfoldable pub updated :
    List (Text × InventoryProduct) → Column → Text → ComponentRow → ComponentRow
unfolding set_column with_product product_at lower trim names_product
updated m k v c =
    if names_product k
    then with_product (product_at (lower (trim v)) m) (set_column k v c)
    else set_column k v c

unfoldable pub update_comp :
    List (Text × InventoryProduct) → Text → Column → Text → List ComponentRow → List ComponentRow
unfolding updated same
update_comp m id k v rows = map (λ c. if same c.id id then updated m k v c else c) rows

-- A row is added with the moment as its id.
unfoldable pub add_comp : Text → List ComponentRow → List ComponentRow
add_comp now rows =
    rows
    ++ (record { id = now; brand = []; product = []; shade = []; amount = []; unit = codes "г" }
        ∷ [])

unfoldable pub remove_comp : Text → List ComponentRow → List ComponentRow
unfolding filter same
remove_comp id rows = filter (λ c. not (same c.id id)) rows

-- The rows that are saved.
unfoldable pub is_complete : List (Text × InventoryProduct) → ComponentRow → Bool
unfolding resolved_brand trim truthy
is_complete m c = truthy (trim c.amount) && truthy (resolved_brand m c)

unfoldable pub valid_comps : List (Text × InventoryProduct) → List ComponentRow → List ComponentRow
unfolding is_complete filter
valid_comps m rows = filter (is_complete m) rows
