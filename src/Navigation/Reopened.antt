-- ===== src/Navigation/Reopened.antt =====
-- The order of the menu when its settings are opened again
-- (frontend/src/app/(admin)/settings/settings-section.tsx).
use hunger_platform.Prelude.{
  ◌≡◌, refl, ap, ◌∙◌, ◌≤◌, true, ◌&&◌, not, List, [], ◌∷◌, ◌++◌, Text, same_refl, arith,
}
use hunger_platform.Referral.{mem}
use hunger_platform.Navigation.{ordered, missing, initial_order}
use hunger_platform.Navigation.Counts.{one_if, count, mem-count}
use hunger_platform.Navigation.Whole.{IsListed, distinct, distinct-Once, initial_order-IsListed}
use hunger_platform.Navigation.Kept.{IsKept}

module _ (nav : List Text) where
  Fresh : List Text → List Text → Type 0
  Fresh seen xs = (y : Text) → mem y xs ≡ true → (mem y nav && not (mem y seen)) ≡ true

  Fresh-tail :
      (seen : List Text) (x : Text) (xs : List Text)
      → ((y : Text) → count y (x ∷ xs) ≤ 1)
      → Fresh seen (x ∷ xs)
      → Fresh (x ∷ seen) xs
  unfolding Fresh mem count one_if
  Fresh-tail seen x xs once inside y there =
      let one = once y in
      let here = inside y in
      let counted = mem-count y xs in let found = here (ground arith) in ground arith

  Fresh-head :
      (seen : List Text) (x : Text) (xs : List Text)
      → Fresh seen (x ∷ xs)
      → (mem x nav && not (mem x seen)) ≡ true
  unfolding Fresh mem
  Fresh-head seen x xs inside = let refl_x = same_refl x in inside x (ground arith)

  fewer :
      (x : Text) (xs : List Text)
      → ((y : Text) → count y (x ∷ xs) ≤ 1)
      → (y : Text) → count y xs ≤ 1
  unfolding count
  fewer x xs once y = let one = once y in omega arith

  ordered-fresh :
      (seen : List Text) (x : Text) (xs : List Text)
      → (mem x nav && not (mem x seen)) ≡ true
      → ordered nav seen (x ∷ xs) ≡ x ∷ ordered nav (x ∷ seen) xs
  unfolding ordered
  ordered-fresh seen x xs h = ground arith

  -- An order without repetitions is taken as it is.
  ordered-same :
      (seen xs : List Text)
      → ((y : Text) → count y xs ≤ 1)
      → Fresh seen xs
      → ordered nav seen xs ≡ xs
  ordered-same seen [] once inside = unfold ordered in refl
  ordered-same seen (x ∷ xs) once inside =
      let rest = ordered-same (x ∷ seen) xs (fewer x xs once) (Fresh-tail seen x xs once inside) in
      ordered-fresh seen x xs (Fresh-head seen x xs inside) ∙ ap (λ ys. x ∷ ys) rest

  IsKept-Fresh : (order hidden : List Text) → IsKept nav order hidden → Fresh [] order
  unfolding IsKept Fresh mem
  IsKept-Fresh order hidden k y there = let all_of = (k y).1 in ground arith

-- Where the menu of the settings was saved and they are opened again: the order is the one that was
-- saved, with all the other pages put behind it, so that it has each page of the menu, also those that
-- are hidden.
pub initial_order-IsKept :
    (nav order hidden : List Text)
    → distinct nav ≡ true
    → IsKept nav order hidden
    → (initial_order nav order ≡ order ++ missing nav order)
      × ((x : Text) → mem x (initial_order nav order) ≡ mem x nav)
unfolding IsKept IsListed one_if initial_order
initial_order-IsKept nav order hidden d k = (
  rw (ordered-same nav [] order (λ x. (k x).0) (IsKept-Fresh nav order hidden k)) refl,
  λ x.
      let whole = initial_order-IsListed nav order (distinct-Once nav d) x in
      let a = mem-count x (initial_order nav order) in ground arith,
)
