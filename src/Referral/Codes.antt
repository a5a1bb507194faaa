-- ===== src/Referral/Codes.antt =====
-- Referral codes as texts (frontend/src/app/mini-app/lib/referral.ts).
use hunger_platform.Prelude.{
  ℕ, ◌≡◌, refl, true, some, [], ◌∷◌, ◌++◌, map, Text, codes, truthy, trim, trim_idem, trim_end-trim,
  arith, ap, is_space, trim_start, trim_end, keep_end, starts_with,
}
use hunger_platform.Referral.{
  upper, to_upper_case, normalize_referral_code, slice_from, strip_ref,
  parse_referral_from_start_param,
}

is_space-upper : (c : ℕ) → is_space (upper c) ≡ is_space c
unfolding is_space upper
is_space-upper c = ground arith

upper_idem : (c : ℕ) → upper (upper c) ≡ upper c
unfolding upper
upper_idem c = ground arith

map-upper_idem : (s : Text) → map upper (map upper s) ≡ map upper s
map-upper_idem [] = refl
map-upper_idem (c ∷ s) = cc (upper_idem c, map-upper_idem s)

trim_start-upper : (s : Text) → trim_start (map upper s) ≡ map upper (trim_start s)
unfolding trim_start
trim_start-upper [] = refl
trim_start-upper (c ∷ s) = ground (arith, is_space-upper c, trim_start-upper s)

keep_end-upper : (c : ℕ) (s : Text) → keep_end (upper c) (map upper s) ≡ map upper (keep_end c s)
unfolding keep_end
keep_end-upper c [] = ground (arith, is_space-upper c)
keep_end-upper c (d ∷ s) = refl

trim_end-upper : (s : Text) → trim_end (map upper s) ≡ map upper (trim_end s)
unfolding trim_end
trim_end-upper [] = refl
trim_end-upper (c ∷ s) = rw (trim_end-upper s, keep_end-upper c (trim_end s))

pub trim-to_upper_case : (s : Text) → trim (to_upper_case s) ≡ to_upper_case (trim s)
unfolding trim to_upper_case
trim-to_upper_case s = rw (trim_start-upper s, trim_end-upper (trim_start s))

-- Normalizing a code a second time changes nothing.
pub normalize_idem :
    (s : Text) → normalize_referral_code (normalize_referral_code s) ≡ normalize_referral_code s
unfolding normalize_referral_code
normalize_idem s = rw (trim-to_upper_case (trim s), trim_idem s) (map-upper_idem (trim s))

-- A normalized code is trimmed.
trim_normalized : (s : Text) → normalize_referral_code s ≡ s → trim s ≡ s
unfolding normalize_referral_code
trim_normalized s h = ground (arith, h, ap trim h, trim-to_upper_case (trim s), trim_idem s)

trim_end_normalized : (s : Text) → normalize_referral_code s ≡ s → trim_end s ≡ s
trim_end_normalized s h =
    let trimmed : trim s ≡ s = trim_normalized s h in cc (trim_end-trim s, ap trim_end trimmed)

upper_normalized : (s : Text) → normalize_referral_code s ≡ s → to_upper_case s ≡ s
unfolding normalize_referral_code
upper_normalized s h = cc (ap to_upper_case (trim_normalized s h))

-- Nothing is trimmed off a text that starts with `ref_` and ends with a trimmed code.
trim_ref :
    (code : Text)
    → truthy code ≡ true
    → trim_end code ≡ code
    → trim (codes "ref_" ++ code) ≡ codes "ref_" ++ code
unfolding truthy trim trim_start trim_end is_space keep_end
trim_ref [] t h = cc
trim_ref (d ∷ r) t h = rw h refl

-- A code that is normalized comes back from the start parameter `ref_CODE`.
parse-ref :
    (code : Text)
    → truthy code ≡ true
    → normalize_referral_code code ≡ code
    → parse_referral_from_start_param (some (codes "ref_" ++ code)) ≡ code
unfolding parse_referral_from_start_param strip_ref slice_from starts_with truthy to_upper_case
    upper
parse-ref code t h = rw (trim_ref code t (trim_end_normalized code h)) (upper_normalized code h)
