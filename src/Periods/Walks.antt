-- ===== src/Periods/Walks.antt =====
-- Blocks of days one after the other, and the walk that finds a day's block: years and months
-- (frontend/src/app/(admin)/statistics/statistics-context.tsx).
use hunger_platform.Prelude.{
  ℕ, zero, suc, ◌+◌, ◌-◌, ◌≡◌, ◌≤◌, ◌<◌, refl, ltb, if◌then◌else◌, arith, Bool-cases, inl, inr, ap,
  sym,
}

-- Blocks of the lengths `len 0`, `len 1`, …: the start of block `n`.
unfoldable pub start_of : (ℕ → ℕ) → ℕ → ℕ
start_of len zero = 0
start_of len (suc n) = start_of len n + len n

-- From block `n`, the block in which the day `r` falls, and the day in it.
unfoldable pub walk : (ℕ → ℕ) → ℕ → ℕ → ℕ → ℕ × ℕ
walk len zero n r = (n, r)
walk len (suc fuel) n r =
    let later = walk len fuel (suc n) (r - len n) in if ltb r (len n) then (n, r) else later

module _ (len : ℕ → ℕ) where
  -- The walk loses no day.
  pub walk-total :
      (fuel n r : ℕ)
      → start_of len (walk len fuel n r).0 + (walk len fuel n r).1 ≡ start_of len n + r
  unfolding walk start_of
  walk-total zero n r = refl
  walk-total (suc fuel) n r = elim (Bool-cases (ltb r (len n))) [
    | inl e ↦ rw e refl
    | inr e ↦ rw e (let h = walk-total fuel (suc n) (r - len n) in ground arith)
  ]

  pub start_of_mono : (k n b : ℕ) → k + n ≡ b → start_of len n ≤ start_of len b
  unfolding start_of
  start_of_mono zero n b at = ground arith
  start_of_mono (suc k) n b at =
      let up = start_of_mono k n (k + n) refl in
      let next : suc (k + n) ≡ b = omega arith in
      let last : start_of len b ≡ start_of len (k + n) + len (k + n) =
        ap (start_of len) (sym next) in
      omega arith

  -- With fuel for as many blocks as hold the day, the day is in the block, which is one of them.
  pub walk-in :
      (fuel n r top : ℕ)
      → fuel + n ≡ top
      → start_of len n + r < start_of len top
      → ((walk len fuel n r).1 < len (walk len fuel n r).0) × ((walk len fuel n r).0 < top)
  unfolding walk start_of
  walk-in zero n r top at h = absurd (ground arith)
  walk-in (suc fuel) n r top at h = elim (Bool-cases (ltb r (len n))) [
    | inl e ↦ rw e (ground arith, ground arith)
    | inr e ↦ rw e (walk-in fuel (suc n) (r - len n) top (omega arith) (ground arith))
  ]

  -- A day of block `b` is found there.
  pub walk-hit :
      (fuel j n b r i : ℕ)
      → i < len b
      → j < fuel
      → j + n ≡ b
      → r + start_of len n ≡ start_of len b + i
      → walk len fuel n r ≡ (b, i)
  unfolding walk start_of
  walk-hit zero j n b r i h k at e = absurd (omega arith)
  walk-hit (suc fuel) zero n b r i h k at e = let is : r ≡ i = ground arith in ground arith
  walk-hit (suc fuel) (suc j) n b r i h k at e =
      let up = start_of_mono j (suc n) b (omega arith) in
      let rest =
        walk-hit fuel j (suc n) b (r - len n) i h (omega arith) (omega arith) (omega arith) in
      ground arith

  pub n-start_of : ((n : ℕ) → 0 < len n) → (n : ℕ) → n ≤ start_of len n
  unfolding start_of
  n-start_of pos zero = omega arith
  n-start_of pos (suc n) = let up = n-start_of pos n in let one = pos n in omega arith
