-- ===== src/Formulas/Suggestions.antt =====
-- The suggestions of the drawer (frontend/src/app/(admin)/formulas/formulas-page.tsx). The order of
-- a language is a parameter.
use hunger_platform.Prelude.{
  ◌≡◌, refl, ◌∙◌, inl, inr, ℕ, ◌+◌, ◌≤◌, Bool, true, false, ◌&&◌, ◌||◌, not, List, [], ◌∷◌, ◌++◌,
  Text, same, same→eq, trim, truthy, if◌then◌else◌, leb, arith, Bool-cases,
}
use hunger_platform.Referral.{mem}
use hunger_platform.Sorting.{sort_by, tally, is_sorted, tally-sort_by, sort_by-is_sorted}

-- `set.add(t)` where the text is not blank
unfoldable pub add_text : Text → List Text → List Text
unfolding truthy mem
add_text t set = if not (truthy t) then set else if mem t set then set else set ++ (t ∷ [])

unfoldable pub add_texts : List Text → List Text → List Text
unfolding add_text trim
add_texts [] set = set
add_texts (s ∷ group) set = add_texts group (add_text (trim s) set)

unfoldable pub add_groups : List (List Text) → List Text → List Text
unfolding add_texts
add_groups [] set = set
add_groups (g ∷ groups) set = add_groups groups (add_texts g set)

-- `mergeSortedUniqueStrings`
unfoldable pub merge_sorted_unique_strings : (Text → Text → Bool) → List (List Text) → List Text
unfolding sort_by add_groups
merge_sorted_unique_strings before groups = sort_by before (add_groups groups [])

-- A text, trimmed, is among those of the groups.
unfoldable pub among : Text → List Text → Bool
unfolding trim
among t [] = false
among t (s ∷ group) = same t (trim s) || among t group

unfoldable pub among_any : Text → List (List Text) → Bool
unfolding among
among_any t [] = false
among_any t (g ∷ groups) = among t g || among_any t groups

-- How often a text stands in a list, as a text that is read.
unfoldable pub times : Text → List Text → ℕ
unfolding tally
times t xs = tally (same t) xs

times-append :
    (t s : Text) (xs : List Text)
    → times t (xs ++ (s ∷ [])) ≡ times t xs + (if same t s then 1 else 0)
unfolding times tally
times-append t s [] = ground arith
times-append t s (x ∷ xs) = let rest = times-append t s xs in ground arith

times-mem : (t : Text) (xs : List Text) → mem t xs ≡ leb 1 (times t xs)
unfolding mem times tally
times-mem t [] = refl
times-mem t (x ∷ xs) = let rest = times-mem t xs in ground arith

-- One more text at most, where it is not there and not blank.
times-add_text :
    (t s : Text) (set : List Text)
    → times t set ≤ 1
    → times t (add_text s set) ≡ (if leb 1 (times t set) || (truthy t && same t s) then 1 else 0)
unfolding add_text
times-add_text t s set h =
    let there = times-mem s set in
    let more = times-append t s set in
    elim (Bool-cases (same t s)) [
      | inl e ↦ let eq = same→eq t s e in grind arith
      | inr e ↦ ground arith
    ]

times-add_texts :
    (t : Text) (group set : List Text)
    → times t set ≤ 1
    → times t (add_texts group set)
      ≡ (if leb 1 (times t set) || (truthy t && among t group) then 1 else 0)
unfolding add_texts among
times-add_texts t [] set h = ground arith
times-add_texts t (s ∷ group) set h =
    let one = times-add_text t (trim s) set h in
    let rest = times-add_texts t group (add_text (trim s) set) (ground arith) in ground arith

times-add_groups :
    (t : Text) (groups : List (List Text)) (set : List Text)
    → times t set ≤ 1
    → times t (add_groups groups set)
      ≡ (if leb 1 (times t set) || (truthy t && among_any t groups) then 1 else 0)
unfolding add_groups among_any
times-add_groups t [] set h = ground arith
times-add_groups t (g ∷ groups) set h =
    let one = times-add_texts t g set h in
    let rest = times-add_groups t groups (add_texts g set) (ground arith) in ground arith

-- Where the order is total, the suggestions are sorted, and each text is among them once where it is not
-- blank and one of the groups has it but for white space around it, and not at all otherwise.
pub merge_sorted_unique_strings-sorted :
    (before : Text → Text → Bool) (groups : List (List Text))
    → ((s t : Text) → before s t ≡ false → before t s ≡ true)
    → (is_sorted before (merge_sorted_unique_strings before groups) ≡ true)
      × ((t : Text)
          → times t (merge_sorted_unique_strings before groups)
            ≡ (if truthy t && among_any t groups then 1 else 0))
unfolding merge_sorted_unique_strings times
merge_sorted_unique_strings-sorted before groups total = (
  sort_by-is_sorted before total (add_groups groups []),
  λ t.
      tally-sort_by before (same t) (add_groups groups [])
      ∙ times-add_groups t groups [] (unfold times tally in omega arith),
)
