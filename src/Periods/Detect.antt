-- ===== src/Periods/Detect.antt =====
-- The preset that the statistics show as active
-- (frontend/src/app/(admin)/statistics/statistics-context.tsx).
use hunger_platform.Prelude.{
  ℕ, ◌≡◌, ◌≢◌, refl, true, none, some, List, [], ◌∷◌, arith, Bool-cases, Option-cases, inl, inr, ap,
  sym, ◌∙◌, ◌⊎◌,
}
use hunger_platform.Periods.Statistics.{
  Range, PresetKey, today, yesterday, this_week, last_week, this_month, last_month, last_30,
  last_90, range_for_preset, presets, same_range, first_match, detect_preset, Period, apply_preset,
  active_preset,
}

same_range-eq : (r q : Range) → same_range r q ≡ true → r ≡ q
unfolding same_range
same_range-eq r q h = ground arith

same_range_refl : (r : Range) → same_range r r ≡ true
unfolding same_range
same_range_refl r = ground arith

first_match-some :
    (now : ℕ) (q : Range) (ps : List PresetKey) (p : PresetKey)
    → first_match now q ps ≡ some p
    → range_for_preset now p ≡ q
unfolding first_match
first_match-some now q [] p h = cc
first_match-some now q (x ∷ ps) p h = elim (Bool-cases (same_range (range_for_preset now x) q)) [
  | inl e ↦
      let is : x ≡ p = ground arith in
      ap (range_for_preset now) (sym is) ∙ same_range-eq (range_for_preset now x) q e
  | inr e ↦ first_match-some now q ps p (ground arith)
]

-- `p` is tried.
Tried : PresetKey → List PresetKey → Type 0
Tried p [] = ⊥
Tried p (x ∷ ps) = (x ≡ p) ⊎ Tried p ps

presets-Tried : (p : PresetKey) → Tried p presets
unfolding Tried
presets-Tried today = inl refl
presets-Tried yesterday = inr (inl refl)
presets-Tried this_week = inr (inr (inl refl))
presets-Tried last_week = inr (inr (inr (inl refl)))
presets-Tried this_month = inr (inr (inr (inr (inl refl))))
presets-Tried last_month = inr (inr (inr (inr (inr (inl refl)))))
presets-Tried last_30 = inr (inr (inr (inr (inr (inr (inl refl))))))
presets-Tried last_90 = inr (inr (inr (inr (inr (inr (inr (inl refl)))))))

first_match-none :
    (now : ℕ) (p : PresetKey) (q : Range)
    → range_for_preset now p ≡ q
    → (ps : List PresetKey) → Tried p ps
    → first_match now q ps ≢ none
unfolding first_match Tried
first_match-none now p q same_as [] t h = t
first_match-none now p q same_as (x ∷ ps) (inl e) h =
    let found : same_range (range_for_preset now x) q ≡ true =
      rw (e, same_as) (same_range_refl q) in
    ground arith
first_match-none now p q same_as (x ∷ ps) (inr t) h =
    let rest = first_match-none now p q same_as ps t in ground arith

-- A preset that is shown as active has the period that was chosen, and one is shown for the period of
-- every preset.
pub detect_preset-range :
    (now : ℕ) (q : Range)
    → ((p : PresetKey) → detect_preset now q ≡ some p → range_for_preset now p ≡ q)
      × ((p : PresetKey) → range_for_preset now p ≡ q → detect_preset now q ≢ none)
unfolding detect_preset
detect_preset-range now q = (
  (λ p h. first_match-some now q presets p h),
  λ p e. first_match-none now p q e presets (presets-Tried p),
)

-- After a click on a preset, a preset with the same period is shown as active.
active_preset-apply_preset :
    (now : ℕ) (p : PresetKey) (s : Period)
    → (q : PresetKey) × (active_preset now (apply_preset now p s) ≡ some q)
      × (range_for_preset now q ≡ range_for_preset now p)
unfolding active_preset apply_preset
active_preset-apply_preset now p s =
    let (sound, complete) = detect_preset-range now (range_for_preset now p) in
    elim (Option-cases (detect_preset now (range_for_preset now p))) [
      | inl e ↦ absurd (complete p refl e)
      | inr (q, e) ↦ (q, e, sound q e)
    ]
