-- ===== src/Navigation/Lists.antt =====
-- Elements of a list taken out and put in
-- (frontend/src/app/(admin)/settings/settings-section.tsx).
use hunger_platform.Prelude.{
  ℕ, zero, suc, ◌||◌, not, Option, none, some, List, [], ◌∷◌, Text, same, if◌then◌else◌, ltb, ◌==◌,
  length,
}
use hunger_platform.Wizard.Handlers.{nth}
use hunger_platform.Wizard.Submission.{remove_nth}

module _ {ℓ} {A : Type ℓ} where
  -- `next.splice(to, 0, item)`
  unfoldable pub put : ℕ → A → List A → List A
  put zero x ys = x ∷ ys
  put (suc n) x [] = x ∷ []
  put (suc n) x (y ∷ ys) = y ∷ put n x ys

  unfoldable pub put_some : ℕ → Option A → List A → List A → List A
  unfolding put
  put_some to none kept rest = kept
  put_some to (some x) kept rest = put to x rest

  -- `move`; the index -1 of what is not there takes the last.
  unfoldable pub move : ℕ → ℕ → List A → List A
  unfolding put_some nth remove_nth
  move from to xs =
      if not (ltb to (length xs)) || from == to
      then xs
      else put_some to (nth from xs) xs (remove_nth from xs)

-- `order.indexOf(href)`, with `length` for what is not there
unfoldable pub index_of : Text → List Text → ℕ
unfolding same
index_of x [] = 0
index_of x (y ∷ ys) = if same y x then 0 else suc (index_of x ys)
