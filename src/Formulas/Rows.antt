-- ===== src/Formulas/Rows.antt =====
-- What a row of a formula is sent as
-- (frontend/src/app/(admin)/formulas/formulas-page.tsx).
use hunger_platform.Prelude.{
  ◌≡◌, refl, ◌⊎◌, inl, inr, ℕ, true, false, Option, none, some, List, [], ◌∷◌, map, Text, trim,
  truthy, if◌then◌else◌, arith, if-rule, Bool-cases, Option-cases,
}
use hunger_platform.Wizard.Handlers.{filter}
use hunger_platform.Broadcasts.{lower}
use hunger_platform.Formulas.{
  InventoryProduct, ComponentRow, trim_or_empty, product_at, brand_of, resolved_brand, is_complete,
}
use hunger_platform.Broadcasts.Loading.{or_null}
use hunger_platform.Formulas.Drawer.{Component, component_of}

-- The inventory has no product of the name `t`, or one without a brand.
unfoldable pub NoBrand : List (Text × InventoryProduct) → Text → Type 0
NoBrand m t =
    (truthy t ≡ false)
    ⊎ (product_at (lower t) m ≡ none)
    ⊎ ((p : InventoryProduct) × (product_at (lower t) m ≡ some p)
        × (truthy (trim_or_empty p.brand) ≡ false))

-- The inventory has a product of the name `t`, of the brand `b`.
unfoldable pub HasBrand : List (Text × InventoryProduct) → Text → Text → Type 0
HasBrand m t b =
    (truthy t ≡ true)
    × (truthy b ≡ true)
    × ((p : InventoryProduct) × (product_at (lower t) m ≡ some p) × (trim_or_empty p.brand ≡ b))

-- A row without an amount, or without a brand of its own or of a product.
unfoldable pub Lacks : List (Text × InventoryProduct) → ComponentRow → Type 0
unfolding NoBrand
Lacks m c =
    (truthy (trim c.amount) ≡ false)
    ⊎ ((truthy (trim c.brand) ≡ false) × NoBrand m (trim c.product) × NoBrand m (trim c.shade))

-- The brand that a row goes by: its own, or that of its product, or that of its shade.
unfoldable pub Brand : List (Text × InventoryProduct) → ComponentRow → Text → Type 0
unfolding NoBrand HasBrand
Brand m c b =
    ((truthy (trim c.brand) ≡ true) × (b ≡ trim c.brand))
    ⊎ ((truthy (trim c.brand) ≡ false) × HasBrand m (trim c.product) b)
    ⊎ ((truthy (trim c.brand) ≡ false) × NoBrand m (trim c.product) × HasBrand m (trim c.shade) b)

module _ {A : Type 0} (parse_amount : Text → A) where
  -- A row as it is sent.
  unfoldable pub SentAs : List (Text × InventoryProduct) → ComponentRow → Component A → Type 0
  unfolding Brand
  SentAs m c x =
      (truthy (trim c.amount) ≡ true)
      × Brand m c x.brand
      × (x.product ≡ (if truthy (trim c.product) then some (trim c.product) else none))
      × (x.shade ≡ trim c.shade)
      × (x.amount ≡ parse_amount c.amount)
      × (x.unit ≡ c.unit)

  -- What is sent of rows: nothing of one that lacks something, and each other one in its place.
  unfoldable pub RowsOf :
      List (Text × InventoryProduct) → List ComponentRow → List (Component A) → Type 0
  unfolding Lacks SentAs
  RowsOf m [] xs = xs ≡ []
  RowsOf m (c ∷ rows) xs =
      (Lacks m c × RowsOf m rows xs)
      ⊎ ((x : Component A) × (rest : List (Component A)) × (xs ≡ x ∷ rest)
          × SentAs m c x
          × RowsOf m rows rest)

empty_text : (s : Text) → truthy s ≡ false → s ≡ []
unfolding truthy
empty_text [] h = refl
empty_text (c ∷ s) h = absurd (ground arith)

-- The brand of a product is empty, or it is one of the inventory.
brand_of_cases :
    (m : List (Text × InventoryProduct)) (t : Text)
    → ((brand_of m t ≡ []) × NoBrand m t) ⊎ HasBrand m t (brand_of m t)
unfolding NoBrand HasBrand
brand_of_cases m t = elim (Bool-cases (truthy t)) [
  | inl e ↦ elim (Option-cases (product_at (lower t) m)) [
    | inl h ↦ inl (unfold brand_of in ground arith, inr (inl h))
    | inr (p, h) ↦
        let is : brand_of m t ≡ trim_or_empty p.brand = unfold brand_of in rw e (rw h refl) in
        elim (Bool-cases (truthy (trim_or_empty p.brand))) [
          | inl k ↦ inr (e, rw is k, (p, h, rw is refl))
          | inr k ↦ inl (rw is (empty_text (trim_or_empty p.brand) k), inr (inr (p, h, k)))
        ]
  ]
  | inr e ↦ inl (unfold brand_of in rw e refl, inl e)
]

-- A row has no brand to go by, or it goes by one.
unfoldable GoesBy : List (Text × InventoryProduct) → ComponentRow → Type 0
GoesBy m c =
    ((truthy (resolved_brand m c) ≡ false)
      × (truthy (trim c.brand) ≡ false)
      × NoBrand m (trim c.product)
      × NoBrand m (trim c.shade))
    ⊎ ((truthy (resolved_brand m c) ≡ true) × Brand m c (resolved_brand m c))

resolved_brand-GoesBy : (m : List (Text × InventoryProduct)) (c : ComponentRow) → GoesBy m c
unfolding GoesBy Brand
resolved_brand-GoesBy m c = elim (Bool-cases (truthy (trim c.brand))) [
  | inl e ↦
      let is : resolved_brand m c ≡ trim c.brand = unfold resolved_brand in rw e refl in
      inr (rw is e, rw is (inl (e, refl)))
  | inr e ↦ elim (brand_of_cases m (trim c.product)) [
    | inr h ↦
        let given : truthy (brand_of m (trim c.product)) ≡ true = unfold HasBrand in h.1 in
        let is : resolved_brand m c ≡ brand_of m (trim c.product) =
          unfold resolved_brand in rw e (rw given refl) in
        inr (rw is given, rw is (inr (inl (e, h))))
    | inl (no_brand, lacks) ↦
        let is : resolved_brand m c ≡ brand_of m (trim c.shade) =
          unfold resolved_brand truthy in rw e (rw no_brand refl) in
        elim (brand_of_cases m (trim c.shade)) [
          | inr h ↦
              let given : truthy (brand_of m (trim c.shade)) ≡ true = unfold HasBrand in h.1 in
              inr (rw is given, rw is (inr (inr (e, lacks, h))))
          | inl (none_there, lacks_too) ↦
              inl (rw is (rw none_there (unfold truthy in refl)), e, lacks, lacks_too)
        ]
  ]
]

module _ {A : Type 0} (parse_amount : Text → A) (parse_int : Text → Option ℕ)
    (to_iso : Text → Option Text) (m : List (Text × InventoryProduct)) where
  sent_row :
      (c : ComponentRow)
      → is_complete m c ≡ true
      → GoesBy m c
      → SentAs parse_amount m c (component_of parse_amount parse_int to_iso m c)
  unfolding is_complete SentAs component_of GoesBy or_null
  sent_row c e (inl (without, _, _, _)) = absurd (ground arith)
  sent_row c e (inr (given, brand)) = (ground arith, brand, refl, refl, refl, refl)

  lacking : (c : ComponentRow) → is_complete m c ≡ false → GoesBy m c → Lacks m c
  unfolding is_complete Lacks GoesBy
  lacking c e (inl (without, own, product, shade)) = inr (own, product, shade)
  lacking c e (inr (given, brand)) = inl (ground arith)

  -- What is sent of the complete rows is what is sent of all.
  pub rows-RowsOf :
      (rows : List ComponentRow)
      → RowsOf parse_amount m rows
          (map (component_of parse_amount parse_int to_iso m) (filter (is_complete m) rows))
  unfolding RowsOf filter
  rows-RowsOf [] = refl
  rows-RowsOf (c ∷ rows) =
      let rest = rows-RowsOf rows in
      if-rule
        (λ (kept : List ComponentRow).
          RowsOf parse_amount m (c ∷ rows)
            (map (component_of parse_amount parse_int to_iso m) kept))
        (is_complete m c) _ _
        (λ e. inr (
          component_of parse_amount parse_int to_iso m c,
          map (component_of parse_amount parse_int to_iso m) (filter (is_complete m) rows),
          refl,
          sent_row c e (resolved_brand-GoesBy m c),
          rest,
        ))
        (λ e. inl (lacking c e (resolved_brand-GoesBy m c), rest))
