-- ===== src/Sorting.antt =====
-- Sorting by a test, as the pages do it with `sort`, which is stable
-- (frontend/src/components/layout/admin-app-shell.tsx,
-- frontend/src/app/(admin)/dashboard/admin-dashboard.tsx,
-- frontend/src/app/(admin)/formulas/formulas-page.tsx).
use hunger_platform.Prelude.{
  ◌≡◌, refl, ℕ, ◌+◌, Bool, true, false, ◌&&◌, List, [], ◌∷◌, if◌then◌else◌, arith, if-rule,
}

module _ {ℓ} {A : Type ℓ} where
  -- An element put before the first that it may stand before.
  unfoldable pub place_by : (A → A → Bool) → A → List A → List A
  place_by before x [] = x ∷ []
  place_by before x (y ∷ ys) =
      let rest = place_by before x ys in if before x y then x ∷ y ∷ ys else y ∷ rest

  unfoldable pub sort_by : (A → A → Bool) → List A → List A
  unfolding place_by
  sort_by before [] = []
  sort_by before (x ∷ xs) = place_by before x (sort_by before xs)

  -- How many elements pass a test.
  unfoldable pub tally : (A → Bool) → List A → ℕ
  tally p [] = 0
  tally p (x ∷ xs) = if p x then 1 + tally p xs else tally p xs

  unfoldable pub is_sorted : (A → A → Bool) → List A → Bool
  is_sorted before [] = true
  is_sorted before (x ∷ []) = true
  is_sorted before (x ∷ y ∷ ys) = before x y && is_sorted before (y ∷ ys)

  module _ (before : A → A → Bool) where
    tally-place :
        (p : A → Bool) (x : A) (ys : List A) → tally p (place_by before x ys) ≡ tally p (x ∷ ys)
    unfolding tally place_by
    tally-place p x [] = refl
    tally-place p x (y ∷ ys) =
        if-rule (λ zs. tally p zs ≡ tally p (x ∷ y ∷ ys)) (before x y) _ _ (λ _. refl)
          (λ _. let rest = tally-place p x ys in ground arith)

    -- Sorting keeps how many elements pass any test.
    pub tally-sort_by : (p : A → Bool) (xs : List A) → tally p (sort_by before xs) ≡ tally p xs
    unfolding tally sort_by
    tally-sort_by p [] = refl
    tally-sort_by p (x ∷ xs) =
        let rest = tally-sort_by p xs in
        let one = tally-place p x (sort_by before xs) in ground arith

    module _ (total : (x y : A) → before x y ≡ false → before y x ≡ true) where
      place_by-is_sorted :
          (x : A) (ys : List A)
          → is_sorted before ys ≡ true
          → is_sorted before (place_by before x ys) ≡ true
      unfolding is_sorted place_by
      place_by-is_sorted x [] h = refl
      place_by-is_sorted x (y ∷ []) h =
          if-rule (λ zs. is_sorted before zs ≡ true) (before x y) _ _ (λ e. ground arith)
            (λ e. let back = total x y e in ground arith)
      place_by-is_sorted x (y ∷ z ∷ ys) h =
          let rest = place_by-is_sorted x (z ∷ ys) in
          if-rule (λ zs. is_sorted before zs ≡ true) (before x y) _ _ (λ e. ground arith)
            (λ e.
              let back = total x y e in
              let done = rest (ground arith) in
              if-rule (λ zs. is_sorted before (y ∷ zs) ≡ true) (before x z) _ _ (λ f. ground arith)
                (λ f. ground arith))

      pub sort_by-is_sorted : (xs : List A) → is_sorted before (sort_by before xs) ≡ true
      unfolding sort_by is_sorted
      sort_by-is_sorted [] = refl
      sort_by-is_sorted (x ∷ xs) = place_by-is_sorted x (sort_by before xs) (sort_by-is_sorted xs)
