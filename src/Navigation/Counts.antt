-- ===== src/Navigation/Counts.antt =====
-- How often an address stands in a list
-- (frontend/src/app/(admin)/settings/settings-section.tsx).
use hunger_platform.Prelude.{
  ◌≡◌, refl, sym, ◌∙◌, inl, inr, ℕ, zero, suc, ◌+◌, Bool, Option, none, some, List, [], ◌∷◌, ◌++◌,
  Text, same, same→eq, same_refl, if◌then◌else◌, ltb, arith, Bool-cases, if-rule,
}
use hunger_platform.Wizard.Handlers.{nth, filter}
use hunger_platform.Wizard.Submission.{remove_nth}
use hunger_platform.Referral.{mem}
use hunger_platform.Navigation.Lists.{put, put_some, move}

unfoldable pub one_if : Bool → ℕ
one_if b = if b then 1 else 0

unfoldable pub count : Text → List Text → ℕ
unfolding one_if
count x [] = 0
count x (y ∷ ys) = one_if (same x y) + count x ys

pub mem-count : (x : Text) (ys : List Text) → mem x ys ≡ ltb 0 (count x ys)
unfolding mem count one_if
mem-count x [] = refl
mem-count x (y ∷ ys) = let rest = mem-count x ys in ground arith

pub count-append : (x : Text) (ys zs : List Text) → count x (ys ++ zs) ≡ count x ys + count x zs
unfolding count
count-append x [] zs = omega arith
count-append x (y ∷ ys) zs = let rest = count-append x ys zs in omega arith

-- A part by a test that sees the text only.
pub count-filter :
    (p : Text → Bool) (x : Text) (ys : List Text)
    → count x (filter p ys) ≡ (if p x then count x ys else 0)
unfolding count filter one_if
count-filter p x [] = ground arith
count-filter p x (y ∷ ys) =
    let rest = count-filter p x ys in
    elim (Bool-cases (same x y)) [
      | inl e ↦ rw⁻¹ (same→eq x y e) (ground (arith, same_refl x))
      | inr e ↦ ground arith
    ]

module _ (x : Text) where
  count-put :
      (n : ℕ) (y : Text) (ys : List Text) → count x (put n y ys) ≡ one_if (same x y) + count x ys
  unfolding count put
  count-put zero y ys = refl
  count-put (suc n) y [] = refl
  count-put (suc n) y (z ∷ ys) = let rest = count-put n y ys in omega arith

  count-remove_nth :
      (n : ℕ) (y : Text) (ys : List Text)
      → nth n ys ≡ some y
      → count x ys ≡ one_if (same x y) + count x (remove_nth n ys)
  unfolding count nth remove_nth
  count-remove_nth n y [] h = absurd cc
  count-remove_nth zero y (z ∷ ys) h = cc
  count-remove_nth (suc n) y (z ∷ ys) h = let rest = count-remove_nth n y ys h in omega arith

  count-put_some :
      (to from : ℕ) (o : Option Text) (ys : List Text)
      → nth from ys ≡ o
      → count x (put_some to o ys (remove_nth from ys)) ≡ count x ys
  unfolding put_some
  count-put_some to from none ys h = refl
  count-put_some to from (some y) ys h =
      count-put to y (remove_nth from ys) ∙ sym (count-remove_nth from y ys h)

  pub count-move : (from to : ℕ) (ys : List Text) → count x (move from to ys) ≡ count x ys
  unfolding move
  count-move from to ys =
      if-rule (λ zs. count x zs ≡ count x ys) _ ys _ (λ _. refl)
        (λ _. count-put_some to from (nth from ys) ys refl)
