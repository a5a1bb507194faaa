-- ===== src/Navigation/Whole.antt =====
-- That the settings of the menu lose no page (frontend/src/app/(admin)/settings/settings-section.tsx).
use hunger_platform.Prelude.{
  ◌≡◌, ◌∙◌, inl, inr, ◌≤◌, Bool, true, ◌&&◌, not, List, [], ◌∷◌, Text, same, same→eq, same_refl,
  if◌then◌else◌, arith, Bool-cases,
}
use hunger_platform.Referral.{mem}
use hunger_platform.Navigation.{ordered, missing, initial_order}
use hunger_platform.Navigation.Counts.{one_if, count, mem-count, count-append, count-filter}

count-ordered :
    (nav : List Text) (x : Text) (seen stored : List Text)
    → count x (ordered nav seen stored) ≡ one_if (mem x nav && not (mem x seen) && mem x stored)
unfolding ordered count one_if mem
count-ordered nav x seen [] = ground arith
count-ordered nav x seen (href ∷ stored) =
    let met = count-ordered nav x (href ∷ seen) stored in
    let skipped = count-ordered nav x seen stored in
    elim (Bool-cases (same x href)) [
      | inl e ↦ let eq = same→eq x href e in let refl_x = same_refl x in grind arith
      | inr e ↦ ground arith
    ]

count-missing :
    (nav : List Text) (x : Text) (seen : List Text)
    → count x (missing nav seen) ≡ (if mem x seen then 0 else count x nav)
unfolding missing
count-missing nav x seen = count-filter (λ href. not (mem href seen)) x nav ∙ ground arith

-- Each address of `nav` is in the list once, and nothing else is.
unfoldable pub IsListed : List Text → List Text → Type 0
unfolding one_if
IsListed nav xs = (x : Text) → count x xs ≡ one_if (mem x nav)

-- No address stands twice, as a test.
unfoldable pub distinct : List Text → Bool
unfolding mem
distinct [] = true
distinct (x ∷ xs) = not (mem x xs) && distinct xs

unfoldable pub Once : List Text → Type 0
Once xs = (x : Text) → count x xs ≤ 1

pub initial_order-IsListed :
    (nav stored : List Text) → Once nav → IsListed nav (initial_order nav stored)
unfolding IsListed initial_order one_if Once
initial_order-IsListed nav stored once x =
    let known = count-ordered nav x [] stored in
    let others = count-missing nav x (ordered nav [] stored) in
    let whole = count-append x (ordered nav [] stored) (missing nav (ordered nav [] stored)) in
    let found = mem-count x (ordered nav [] stored) in
    let here = mem-count x nav in let one = once x in ground arith

pub distinct-Once : (xs : List Text) → distinct xs ≡ true → Once xs
unfolding distinct Once count one_if
distinct-Once [] h x = omega arith
distinct-Once (y ∷ ys) h x =
    let rest = distinct-Once ys (ground arith) x in
    let absent = mem-count y ys in
    elim (Bool-cases (same x y)) [
      | inl e ↦ let eq = same→eq x y e in grind arith
      | inr e ↦ ground arith
    ]
