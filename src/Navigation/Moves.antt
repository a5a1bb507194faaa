-- ===== src/Navigation/Moves.antt =====
-- That a page of the menu that was moved can be moved back
-- (frontend/src/app/(admin)/settings/settings-section.tsx).
use hunger_platform.Prelude.{
  ◌≡◌, refl, sym, ap, ◌∙◌, inl, inr, ℕ, zero, suc, ◌≤◌, ◌<◌, true, false, some, List, [], ◌∷◌, Text,
  ◌==◌, length, arith, Bool-cases,
}
use hunger_platform.Wizard.Handlers.{nth}
use hunger_platform.Wizard.Submission.{remove_nth}
use hunger_platform.Navigation.Lists.{put, put_some, move}

place_eq : (from to : ℕ) → from == to ≡ true → from ≡ to
place_eq from to e = ground arith

module _ {ℓ} {A : Type ℓ} where
  nth-below : (n : ℕ) (xs : List A) → n < length xs → (x : A) × (nth n xs ≡ some x)
  unfolding nth
  nth-below n [] h = absurd (omega arith)
  nth-below zero (x ∷ xs) h = (x, refl)
  nth-below (suc n) (x ∷ xs) h = nth-below n xs (omega arith)

  nth-put : (n : ℕ) (x : A) (xs : List A) → n ≤ length xs → nth n (put n x xs) ≡ some x
  unfolding nth put
  nth-put zero x xs h = refl
  nth-put (suc n) x [] h = absurd (omega arith)
  nth-put (suc n) x (y ∷ xs) h = nth-put n x xs (omega arith)

  remove_nth-put : (n : ℕ) (x : A) (xs : List A) → n ≤ length xs → remove_nth n (put n x xs) ≡ xs
  unfolding remove_nth put
  remove_nth-put zero x xs h = refl
  remove_nth-put (suc n) x [] h = absurd (omega arith)
  remove_nth-put (suc n) x (y ∷ xs) h = ap (λ ys. y ∷ ys) (remove_nth-put n x xs (omega arith))

  put-remove_nth :
      (n : ℕ) (x : A) (xs : List A) → nth n xs ≡ some x → put n x (remove_nth n xs) ≡ xs
  unfolding remove_nth put nth
  put-remove_nth n x [] h = absurd cc
  put-remove_nth zero x (y ∷ xs) h = cc
  put-remove_nth (suc n) x (y ∷ xs) h = ap (λ ys. y ∷ ys) (put-remove_nth n x xs h)

  length-remove_nth :
      (n : ℕ) (xs : List A) → n < length xs → suc (length (remove_nth n xs)) ≡ length xs
  unfolding remove_nth
  length-remove_nth n [] h = absurd (omega arith)
  length-remove_nth zero (y ∷ xs) h = refl
  length-remove_nth (suc n) (y ∷ xs) h = ap suc (length-remove_nth n xs (omega arith))

  length-put : (n : ℕ) (x : A) (xs : List A) → length (put n x xs) ≡ suc (length xs)
  unfolding put
  length-put zero x xs = refl
  length-put (suc n) x [] = refl
  length-put (suc n) x (y ∷ xs) = ap suc (length-put n x xs)

  move_stays : (from to : ℕ) (xs : List A) → from == to ≡ true → move from to xs ≡ xs
  unfolding move
  move_stays from to xs e = ground arith

  move-put :
      (from to : ℕ) (x : A) (xs : List A)
      → to < length xs
      → from == to ≡ false
      → nth from xs ≡ some x
      → move from to xs ≡ put to x (remove_nth from xs)
  unfolding move put_some
  move-put from to x xs t d h = rw h (ground arith)

  module _ (from to : ℕ) (xs : List A) (f : from < length xs) (t : to < length xs) where
    move-same :
        from == to ≡ true
        → (nth to (move from to xs) ≡ nth from xs) × (move to from (move from to xs) ≡ xs)
    unfolding move
    move-same e =
        let eq = place_eq from to e in
        let still = move_stays from to xs e in
        (rw still (ap (λ n. nth n xs) (sym eq)), rw still (move_stays to from xs (ground arith)))

    move-other :
        (x : A)
        → nth from xs ≡ some x
        → from == to ≡ false
        → (nth to (move from to xs) ≡ nth from xs) × (move to from (move from to xs) ≡ xs)
    move-other x h d =
        let rest = remove_nth from xs in
        let long = length-remove_nth from xs f in
        let longer = length-put to x rest in
        let there = nth-put to x rest (omega arith) in
        (
          rw (move-put from to x xs t d h) (there ∙ sym h),
          rw (move-put from to x xs t d h) (
              move-put to from x (put to x rest) (omega arith) (ground arith) there
              ∙ ap (put from x) (remove_nth-put to x rest (omega arith))
              ∙ put-remove_nth from x xs h),
        )

    pub back_and_forth :
        (nth to (move from to xs) ≡ nth from xs) × (move to from (move from to xs) ≡ xs)
    back_and_forth = elim (Bool-cases (from == to)) [
      | inl e ↦ move-same e
      | inr d ↦ let found = nth-below from xs f in move-other found.0 found.1 d
    ]

-- Between two places of the menu, the page that stands at the first comes to stand at the second, and
-- moving it from there to the first gives the menu that was.
move-move :
    (from to : ℕ) (xs : List Text)
    → from < length xs
    → to < length xs
    → (nth to (move from to xs) ≡ nth from xs) × (move to from (move from to xs) ≡ xs)
move-move from to xs f t = back_and_forth from to xs f t
