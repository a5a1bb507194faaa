-- ===== src/Middleware/Paths.antt =====
-- Paths below two roots that differ are different paths (frontend/src/middleware.ts).
use hunger_platform.Prelude.{
  ◌≡◌, refl, inl, inr, Bool, true, false, ◌&&◌, List, [], ◌∷◌, ◌++◌, arith, Text, codes, same,
  starts_with, ◌==◌, if◌then◌else◌, Bool-cases,
}
use hunger_platform.Middleware.{under, some_under}

-- The texts differ at a place that both have.
unfoldable pub diverge : Text → Text → Bool
diverge (a ∷ s) (b ∷ t) = if a == b then diverge s t else true
diverge _ _ = false

starts_with-diverge :
    (path p q : Text) → diverge p q ≡ true → starts_with path p ≡ true → starts_with path q ≡ false
unfolding diverge starts_with
starts_with-diverge path [] q d h = cc
starts_with-diverge path (a ∷ p) [] d h = cc
starts_with-diverge [] (a ∷ p) (b ∷ q) d h = cc
starts_with-diverge (c ∷ path) (a ∷ p) (b ∷ q) d h = ground (arith, starts_with-diverge path p q)

same→starts_with : (s t : Text) → same s t ≡ true → starts_with s t ≡ true
unfolding same starts_with
same→starts_with [] [] h = refl
same→starts_with [] (b ∷ t) h = cc
same→starts_with (a ∷ s) [] h = cc
same→starts_with (a ∷ s) (b ∷ t) h = ground (arith, same→starts_with s t)

-- `s/` starts with `t/` just when `s` is `t` or lies below it.
under_slash : (s t : Text) → under s t ≡ true → starts_with (s ++ codes "/") (t ++ codes "/") ≡ true
unfolding under same starts_with
under_slash [] [] h = refl
under_slash [] (b ∷ t) h = ground arith
under_slash (a ∷ s) [] h = ground arith
under_slash (a ∷ s) (b ∷ t) h = ground (arith, under_slash s t)

pub under-diverge :
    (path p q : Text)
    → diverge (p ++ codes "/") (q ++ codes "/") ≡ true
    → under path p ≡ true
    → under path q ≡ false
under-diverge path p q d h = elim (Bool-cases (under path q)) [
  | inl e ↦ ground (
    arith,
    under_slash path p h,
    under_slash path q e,
    starts_with-diverge (path ++ codes "/") (p ++ codes "/") (q ++ codes "/") d,
  )
  | inr e ↦ e
]

-- Every root of the first list diverges from every root of the second.
unfoldable pub diverge_all : Text → List Text → Bool
diverge_all p [] = true
diverge_all p (q ∷ qs) = diverge (p ++ codes "/") (q ++ codes "/") && diverge_all p qs

unfoldable pub all_diverge : List Text → List Text → Bool
unfolding diverge diverge_all
all_diverge [] qs = true
all_diverge (p ∷ ps) qs = diverge_all p qs && all_diverge ps qs

under-diverge_all :
    (path p : Text) (qs : List Text)
    → diverge_all p qs ≡ true
    → under path p ≡ true
    → some_under qs path ≡ false
unfolding diverge_all some_under
under-diverge_all path p [] d h = refl
under-diverge_all path p (q ∷ qs) d h =
    ground (arith, under-diverge path p q, under-diverge_all path p qs)

-- A path below a root of one list is below no root of a list that diverges from it.
pub some_under-all_diverge :
    (path : Text) (ps qs : List Text)
    → all_diverge ps qs ≡ true
    → some_under ps path ≡ true
    → some_under qs path ≡ false
unfolding some_under all_diverge
some_under-all_diverge path [] qs d h = cc
some_under-all_diverge path (p ∷ ps) qs d h =
    ground (arith, under-diverge_all path p qs, some_under-all_diverge path ps qs)

-- A path that is not below a root is not the root, and starts with no `root/`.
pub not-under :
    (path p : Text)
    → under path p ≡ false
    → (same path p ≡ false) × (starts_with path (p ++ codes "/") ≡ false)
unfolding under
not-under path p h = ground arith
