-- ===== src/Navigation/Shown.antt =====
-- What the menu of the shell shows (frontend/src/components/layout/admin-app-shell.tsx).
use hunger_platform.Prelude.{
  ◌≡◌, refl, ◌∙◌, inl, inr, ℕ, suc, ◌+◌, ◌≤◌, ◌<◌, Bool, true, false, ◌&&◌, ◌||◌, not, none, some,
  List, [], ◌∷◌, map, Text, same, same→eq, same_sym, if◌then◌else◌, leb, length, arith, Bool-cases,
  Option-cases,
}
use hunger_platform.Wizard.Handlers.{filter}
use hunger_platform.Referral.{mem}
use hunger_platform.Permissions.{read, PermUser, can}
use hunger_platform.Sorting.{tally, is_sorted, sort_by, tally-sort_by, sort_by-is_sorted}
use hunger_platform.Navigation.Whole.{distinct}
use hunger_platform.Navigation.Menu.{
  NavItem, max_safe_integer, rank, rank_or_max, nav_index, before, is_visible, items_sorted,
}

tally-filter :
    {A : Type 0} (p q : A → Bool) (xs : List A) → tally q (filter p xs) ≡ tally (λ x. p x && q x) xs
unfolding tally filter
tally-filter p q [] = refl
tally-filter p q (x ∷ xs) = let rest = tally-filter p q xs in ground arith

before-total :
    (all_items : List NavItem) (order : List Text) (a b : NavItem)
    → before all_items order a b ≡ false
    → before all_items order b a ≡ true
unfolding before
before-total all_items order a b h = ground arith

-- No `b` stands before the first `a`.
unfoldable pub not_after : Text → Text → List Text → Bool
unfolding same
not_after a b [] = true
not_after a b (x ∷ xs) =
    let rest = not_after a b xs in if same x a then true else if same x b then false else rest

-- Of two pages, the first may stand before the second: where the order names both, it names the first no
-- later; where it names one of them, that is the first; where it names neither, the program lists the
-- first no later.
unfoldable pub in_order : List NavItem → List Text → NavItem → NavItem → Bool
unfolding not_after mem
in_order all_items order a b =
    if mem a.href order
    then not (mem b.href order) || not_after a.href b.href order
    else not (mem b.href order) && not_after a.href b.href (map (λ x. x.href) all_items)

mem_cons_false :
    (h x : Text) (xs : List Text) → mem h (x ∷ xs) ≡ false → (same x h ≡ false) × (mem h xs ≡ false)
unfolding mem
mem_cons_false h x xs e = (same_sym x h ∙ ground arith, ground arith)

mem_cons_later :
    (h x : Text) (xs : List Text) → mem h (x ∷ xs) ≡ true → same x h ≡ false → mem h xs ≡ true
unfolding mem
mem_cons_later h x xs e f = let flipped = same_sym x h in ground arith

distinct_cons :
    (x : Text) (xs : List Text)
    → distinct (x ∷ xs) ≡ true
    → (mem x xs ≡ false) × (distinct xs ≡ true)
unfolding distinct
distinct_cons x xs d = (ground arith, ground arith)

rank-unnamed : (k : ℕ) (href : Text) (xs : List Text) → mem href xs ≡ false → rank k href xs ≡ none
unfolding rank
rank-unnamed k href [] h = refl
rank-unnamed k href (x ∷ xs) h =
    let (other, later) = mem_cons_false href x xs h in
    rw (rank-unnamed (suc k) href xs later) (rw other refl)

-- Where a named page stands.
rank-named :
    (k : ℕ) (href : Text) (xs : List Text)
    → mem href xs ≡ true
    → (r : ℕ) × (rank k href xs ≡ some r) × (k ≤ r) × (r < k + length xs)
unfolding rank mem
rank-named k href [] h = absurd (ground arith)
rank-named k href (x ∷ xs) h = elim (Bool-cases (mem href xs)) [
  | inl e ↦
      let (r, found, low, high) = rank-named (suc k) href xs e in
      (r, rw found refl, omega arith, ground arith)
  | inr e ↦
      let first : same x href ≡ true = same_sym x href ∙ ground arith in
      (k, rw (rank-unnamed (suc k) href xs e) (rw first refl), omega arith, ground arith)
]

rank_tail :
    (k : ℕ) (a x : Text) (xs : List Text) (i i' : ℕ)
    → rank (suc k) a xs ≡ some i'
    → rank k a (x ∷ xs) ≡ some i
    → i ≡ i'
unfolding rank
rank_tail k a x xs i i' found p = ground arith

rank_head :
    (k : ℕ) (b x : Text) (xs : List Text) (j : ℕ)
    → mem b xs ≡ false
    → same x b ≡ true
    → rank k b (x ∷ xs) ≡ some j
    → j ≡ k
unfolding rank
rank_head k b x xs j gone f q = let missing = rank-unnamed (suc k) b xs gone in ground arith

rank_next :
    (k : ℕ) (b x : Text) (xs : List Text) (j : ℕ)
    → same x b ≡ false
    → rank k b (x ∷ xs) ≡ some j
    → rank (suc k) b xs ≡ some j
unfolding rank
rank_next k b x xs j f q = elim (Option-cases (rank (suc k) b xs)) [
  | inl e ↦ absurd (ground arith)
  | inr (r, e) ↦ ground arith
]

-- Of an order that names no page twice.
rank-not_after :
    (k : ℕ) (a b : Text) (xs : List Text) (i j : ℕ)
    → distinct xs ≡ true
    → mem a xs ≡ true
    → rank k a xs ≡ some i
    → rank k b xs ≡ some j
    → i ≤ j
    → not_after a b xs ≡ true
unfolding not_after
rank-not_after k a b [] i j d m p q h = refl
rank-not_after k a b (x ∷ xs) i j d m p q h = elim (Bool-cases (same x a)) [
  | inl e ↦ rw e refl
  | inr e ↦
      let (gone_x, tail) = distinct_cons x xs d in
      let later = mem_cons_later a x xs m e in
      let (i', found, low, high) = rank-named (suc k) a xs later in
      let same_i : i ≡ i' = rank_tail k a x xs i i' found p in
      elim (Bool-cases (same x b)) [
        | inl f ↦
            let gone : mem b xs ≡ false = rw (← same→eq x b f) gone_x in
            let at_k : j ≡ k = rank_head k b x xs j gone f q in absurd (omega arith)
        | inr f ↦ rw e (
            rw f (
              rank-not_after (suc k) a b xs i j tail later (rw same_i found)
                (rank_next k b x xs j f q) h))
      ]
]

nav_index-not_after :
    (a b : Text) (xs : List NavItem)
    → nav_index a xs ≤ nav_index b xs
    → not_after a b (map (λ x. x.href) xs) ≡ true
unfolding nav_index not_after
nav_index-not_after a b [] h = refl
nav_index-not_after a b (x ∷ xs) h =
    let rest = nav_index-not_after a b xs in
    elim (Bool-cases (same x.href a)) [
      | inl e ↦ rw e refl
      | inr e ↦ elim (Bool-cases (same x.href b)) [
        | inl f ↦ absurd (ground arith)
        | inr f ↦ rw e (rw f (rest (ground arith)))
      ]
    ]

before-in_order :
    (all_items : List NavItem) (order : List Text) (a b : NavItem)
    → distinct order ≡ true
    → leb (length order) max_safe_integer ≡ true
    → before all_items order a b ≡ true
    → in_order all_items order a b ≡ true
unfolding before rank_or_max in_order
before-in_order all_items order a b d l h = elim (Bool-cases (mem a.href order)) [
  | inl e ↦
      let (i, at_i, _, high_i) = rank-named 0 a.href order e in
      elim (Bool-cases (mem b.href order)) [
        | inl f ↦
            let (j, at_j, _, high_j) = rank-named 0 b.href order f in
            let first : i ≤ j = ground arith in
            let done = rank-not_after 0 a.href b.href order i j d e at_i at_j first in ground arith
        | inr f ↦ ground arith
      ]
  | inr e ↦
      let no_i = rank-unnamed 0 a.href order e in
      elim (Bool-cases (mem b.href order)) [
        | inl f ↦ let (j, at_j, _, high_j) = rank-named 0 b.href order f in absurd (ground arith)
        | inr f ↦
            let no_j = rank-unnamed 0 b.href order f in
            let first : nav_index a.href all_items ≤ nav_index b.href all_items = ground arith in
            let done = nav_index-not_after a.href b.href all_items first in ground arith
      ]
]

is_sorted-weaker :
    {A : Type 0} (p q : A → A → Bool) (xs : List A)
    → ((x y : A) → p x y ≡ true → q x y ≡ true)
    → is_sorted p xs ≡ true
    → is_sorted q xs ≡ true
unfolding is_sorted
is_sorted-weaker p q [] f h = refl
is_sorted-weaker p q (x ∷ []) f h = refl
is_sorted-weaker p q (x ∷ y ∷ ys) f h =
    let first = f x y (ground arith) in
    let rest = is_sorted-weaker p q (y ∷ ys) f (ground arith) in ground arith

-- The menu has, of the items with any property, just as many as there are that the user may read and
-- that are not hidden. Where the stored order names no page twice, and 2 ^ 53 - 1 pages at most, the pages that it names come first,
-- as it has them, and the others follow in the order of the program.
pub items_sorted-shown :
    (all_items : List NavItem) (u : PermUser) (order gone : List Text)
    → distinct order ≡ true
    → leb (length order) max_safe_integer ≡ true
    → ((p : NavItem → Bool)
        → tally p (items_sorted all_items u order gone)
          ≡ tally (λ x. (can u read x.resource && not (mem x.href gone)) && p x) all_items)
      × (is_sorted (in_order all_items order) (items_sorted all_items u order gone) ≡ true)
unfolding items_sorted is_visible
items_sorted-shown all_items u order gone d l = (
  λ p.
      tally-sort_by (before all_items order) p (filter (is_visible u gone) all_items)
      ∙ tally-filter (is_visible u gone) p all_items,
  is_sorted-weaker (before all_items order) (in_order all_items order)
      (sort_by (before all_items order) (filter (is_visible u gone) all_items))
      (λ a b. before-in_order all_items order a b d l)
      (sort_by-is_sorted (before all_items order) (before-total all_items order)
        (filter (is_visible u gone) all_items)),
)
