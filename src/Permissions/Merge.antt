-- ===== src/Permissions/Merge.antt =====
-- What is read in the owner's defaults and in merged permissions
-- (frontend/src/lib/page-permissions-defaults.ts).
use hunger_platform.Prelude.{
  String, ◌≡◌, refl, Bool, true, Option, none, some, List, [], ◌∷◌, arith, eq_iff, str_eq,
  if◌then◌else◌, inl, inr, lookup, insert, lookup-insert, Option-cases,
}
use mathlib.Core.Option
use hunger_platform.Permissions.Defaults.{
  SectionPerms, Permissions, default_permissions_for_role, all_true, all_true_section, spread,
  merge_section, deep_merge_permissions,
}

-- A later object's entry, or else the earlier one's.
abbrev pub or_else {ℓ} : {A : Type ℓ} → Option A → Option A → Option A
or_else none b = b
or_else (some a) b = some a

-- The keys of an object are distinct.
abbrev pub HasDistinct {ℓ} : {V : Type ℓ} → List (String × V) → Type ℓ
HasDistinct [] = Unit
HasDistinct ((k, v) ∷ m) = (lookup k m ≡ none) × HasDistinct m

module _ {ℓ} {V : Type ℓ} where
  pub lookup-spread :
      (k : String) (a b : List (String × V))
      → HasDistinct b
      → lookup k (spread a b) ≡ or_else (lookup k b) (lookup k a)
  unfolding spread lookup
  lookup-spread k a [] d = refl
  lookup-spread k a ((j, v) ∷ b) (fresh, d) =
      ground (arith, lookup-spread k (insert j v a) b d, lookup-insert j k v a, eq_iff j k)

-- The flag `p[sk]?.[key]`.
unfoldable pub read_flag : Permissions → String → String → Option Bool
read_flag p sk key = elim (lookup sk p) [ none ↦ none | some s ↦ lookup key s ]

-- What the override says about a flag.
unfoldable pub read_over : List (String × Option SectionPerms) → String → String → Option Bool
read_over over sk key = elim (lookup sk over) [
  | none ↦ none
  | some none ↦ none
  | some (some s) ↦ lookup key s
]

-- The keys of the override are distinct, and so are those of each section that it gives.
abbrev pub IsObject : List (String × Option SectionPerms) → Type 0
IsObject [] = Unit
IsObject ((k, none) ∷ m) = (lookup k m ≡ none) × IsObject m
IsObject ((k, some s) ∷ m) = (lookup k m ≡ none) × HasDistinct s × IsObject m

-- The section that `merge_section` spreads the override over.
section_or_empty : Option SectionPerms → SectionPerms
section_or_empty none = []
section_or_empty (some s) = s

read-merge_section :
    (out : Permissions) (k sk key : String) (s : SectionPerms)
    → HasDistinct s
    → read_flag (merge_section out k (some s)) sk key ≡ (
        if str_eq k sk then or_else (lookup key s) (read_flag out sk key) else read_flag out sk key)
unfolding read_flag merge_section lookup section_or_empty
read-merge_section out k sk key s d =
    let merged : SectionPerms = spread (section_or_empty (lookup k out)) s in
    ground (
      arith,
      eq_iff k sk,
      lookup-insert k sk merged out,
      lookup-spread key (section_or_empty (lookup k out)) s d,
    )

merge_section-none : (out : Permissions) (k : String) → merge_section out k none ≡ out
unfolding merge_section
merge_section-none out k = refl

-- Merged permissions read as the override where it sets a flag, and as the base elsewhere.
pub read-deep_merge :
    (base : Permissions) (over : List (String × Option SectionPerms)) (sk key : String)
    → IsObject over
    → read_flag (deep_merge_permissions base over) sk key
      ≡ or_else (read_over over sk key) (read_flag base sk key)
unfolding deep_merge_permissions read_over lookup
read-deep_merge base [] sk key h = refl
read-deep_merge base ((k, none) ∷ over) sk key (fresh, h) =
    ground (arith, read-deep_merge base over sk key h, merge_section-none base k, eq_iff k sk)
read-deep_merge base ((k, some s) ∷ over) sk key (fresh, d, h) =
    let out : Permissions = merge_section base k (some s) in
    ground
      (arith, read-deep_merge out over sk key h, read-merge_section base k sk key s d, eq_iff k sk)

-- Merging the same override a second time changes no flag.
pub deep_merge_idempotent :
    (base : Permissions) (over : List (String × Option SectionPerms)) (sk key : String)
    → IsObject over
    → read_flag (deep_merge_permissions (deep_merge_permissions base over) over) sk key
      ≡ read_flag (deep_merge_permissions base over) sk key
deep_merge_idempotent base over sk key h = ground (
  arith,
  read-deep_merge base over sk key h,
  read-deep_merge (deep_merge_permissions base over) over sk key h,
)

lookup-all_true_section :
    (key : String) (s : SectionPerms)
    → lookup key (all_true_section s) ≡ Option.map (λ _. true) (lookup key s)
unfolding all_true_section lookup
lookup-all_true_section key [] = refl
lookup-all_true_section key ((k, b) ∷ s) = ground (arith, lookup-all_true_section key s)

lookup-all_true :
    (sk : String) (p : Permissions)
    → lookup sk (all_true p) ≡ Option.map all_true_section (lookup sk p)
unfolding all_true lookup
lookup-all_true sk [] = refl
lookup-all_true sk ((k, s) ∷ p) = ground (arith, lookup-all_true sk p)

read-all_true :
    (p : Permissions) (sk key : String)
    → read_flag (all_true p) sk key ≡ Option.map (λ _. true) (read_flag p sk key)
unfolding read_flag
read-all_true p sk key = elim (Option-cases (lookup sk p)) [
  | inl e ↦ ground (arith, lookup-all_true sk p)
  | inr (s, e) ↦ ground (arith, lookup-all_true sk p, lookup-all_true_section key s)
]

-- The owner's defaults have the flags of the admin's, all of them set.
pub read-owner :
    (sk key : String)
    → read_flag (default_permissions_for_role "owner") sk key
      ≡ Option.map (λ _. true) (read_flag (default_permissions_for_role "admin") sk key)
read-owner sk key =
    unfold default_permissions_for_role in
    read-all_true (default_permissions_for_role "admin") sk key
