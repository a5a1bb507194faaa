-- ===== src/Dashboard/Counts.antt =====
-- That the counts of the dashboard are right
-- (frontend/src/app/(admin)/dashboard/admin-dashboard.tsx).
use hunger_platform.Prelude.{
  ◌≡◌, refl, ap, ◌∙◌, ◌⊎◌, inl, inr, ℕ, ◌+◌, ◌≤◌, Bool, true, false, ◌&&◌, ◌||◌, not, Option, none,
  some, List, [], ◌∷◌, Text, all, suc, same, truthy, same→eq, same_refl, same_sym, if◌then◌else◌,
  ltb, ◌==◌, arith, Bool-cases, if-rule,
}
use hunger_platform.Wizard.Handlers.{find, nth}
use hunger_platform.Sorting.{tally}
use hunger_platform.Dashboard.{
  CalendarBooking, active, bump, counted, top, top_master, MasterItem, top_master_name, length,
}

-- `n[key] ?? 0`
unfoldable pub get : Text → List (Text × ℕ) → ℕ
get k [] = 0
get k ((name, n) ∷ counts) = if same name k then n else get k counts

unfoldable has : Text → List (Text × ℕ) → Bool
has k [] = false
has k ((name, n) ∷ counts) = same name k || has k counts

unfoldable distinct_keys : List (Text × ℕ) → Bool
unfolding has
distinct_keys [] = true
distinct_keys ((name, n) ∷ counts) = not (has name counts) && distinct_keys counts

-- How many of the bookings are active and have the key `k`.
unfoldable pub hits : (CalendarBooking → Text) → Text → List CalendarBooking → ℕ
unfolding tally active
hits key k bookings = tally (λ b. active b && same (key b) k) bookings

get-bump :
    (k key : Text) (counts : List (Text × ℕ))
    → get k (bump key counts) ≡ (if same key k then get k counts + 1 else get k counts)
unfolding get bump
get-bump k key [] = ground arith
get-bump k key ((name, n) ∷ counts) =
    let rest = get-bump k key counts in
    elim (Bool-cases (same name key)) [
      | inl e ↦ let eq = same→eq name key e in grind arith
      | inr e ↦ elim (Bool-cases (same name k)) [
        | inl f ↦
            let other : same key k ≡ false = rw⁻¹ (same→eq name k f) (same_sym key name ∙ e) in
            ground arith
        | inr f ↦ ground arith
      ]
    ]

has-bump :
    (k key : Text) (counts : List (Text × ℕ))
    → has k (bump key counts) ≡ (has k counts || same key k)
unfolding has bump
has-bump k key [] = ground arith
has-bump k key ((name, n) ∷ counts) =
    let rest = has-bump k key counts in
    elim (Bool-cases (same name key)) [
      | inl e ↦ let eq = same→eq name key e in grind arith
      | inr e ↦ ground arith
    ]

distinct_keys-bump :
    (key : Text) (counts : List (Text × ℕ))
    → distinct_keys counts ≡ true
    → distinct_keys (bump key counts) ≡ true
unfolding distinct_keys bump has
distinct_keys-bump key [] h = refl
distinct_keys-bump key ((name, n) ∷ counts) h =
    let rest = distinct_keys-bump key counts (ground arith) in
    let there = has-bump name key counts in
    elim (Bool-cases (same name key)) [
      | inl e ↦ ground arith
      | inr e ↦ let flipped = same_sym key name in ground arith
    ]

-- An entry with its count is there.
Held : Text → ℕ → List (Text × ℕ) → Type 0
Held id n counts = (has id counts ≡ true) × (get id counts ≡ n)

Held-cons :
    (id name : Text) (n m : ℕ) (counts : List (Text × ℕ))
    → has name counts ≡ false
    → Held id n counts
    → Held id n ((name, m) ∷ counts)
unfolding Held has get
Held-cons id name n m counts fresh (there, value) = elim (Bool-cases (same name id)) [
  | inl e ↦ let eq = same→eq name id e in absurd (grind arith)
  | inr e ↦ (ground arith, ground arith)
]

-- The result is what the loop began with, or an entry of the list.
Chosen : Option Text × ℕ → List (Text × ℕ) → Option Text × ℕ → Type 0
Chosen first counts r = (r ≡ first) ⊎ ((id : Text) × (r.0 ≡ some id) × Held id r.1 counts)

Chosen-later :
    (name : Text) (n : ℕ) (first : Option Text × ℕ) (counts : List (Text × ℕ)) (r : Option Text × ℕ)
    → has name counts ≡ false
    → Chosen first counts r
    → Chosen first ((name, n) ∷ counts) r
unfolding Chosen
Chosen-later name n first counts r fresh (inl e) = inl e
Chosen-later name n first counts r fresh (inr (id, e, held)) =
    inr (id, e, Held-cons id name r.1 n counts fresh held)

Chosen-here :
    (name : Text) (n : ℕ) (first : Option Text × ℕ) (counts : List (Text × ℕ)) (r : Option Text × ℕ)
    → has name counts ≡ false
    → Chosen (some name, n) counts r
    → Chosen first ((name, n) ∷ counts) r
unfolding Chosen Held has get
Chosen-here name n first counts r fresh (inl e) =
    let self = same_refl name in
    let value : r.1 ≡ n = ap (λ x. x.1) e in
    inr (name, ap (λ x. x.0) e, (ground arith, ground arith))
Chosen-here name n first counts r fresh (inr (id, e, held)) =
    inr (id, e, Held-cons id name r.1 n counts fresh held)

top-Chosen :
    (counts : List (Text × ℕ)) (best : Option Text) (most : ℕ)
    → distinct_keys counts ≡ true
    → Chosen (best, most) counts (top counts (best, most))
unfolding top distinct_keys
top-Chosen [] best most h = unfold Chosen in inl refl
top-Chosen ((name, n) ∷ counts) best most h =
    if-rule (Chosen (best, most) ((name, n) ∷ counts)) (ltb most n) _ _
      (λ _.
        Chosen-here name n (best, most) counts (top counts (some name, n)) (ground arith)
          (top-Chosen counts (some name) n (ground arith)))
      (λ _.
        Chosen-later name n (best, most) counts (top counts (best, most)) (ground arith)
          (top-Chosen counts best most (ground arith)))

top-most :
    (counts : List (Text × ℕ)) (best : Option Text) (most : ℕ)
    → (most ≤ (top counts (best, most)).1)
      × ((k : Text) → get k counts ≤ (top counts (best, most)).1)
unfolding top get
top-most [] best most = (omega arith, λ k. omega arith)
top-most ((name, n) ∷ counts) best most =
    if-rule
      (λ (r : Option Text × ℕ).
        (most ≤ r.1) × ((k : Text) → (if same name k then n else get k counts) ≤ r.1))
      (ltb most n) _ _
      (λ e.
        let rest = top-most counts (some name) n in
        let first = rest.0 in (ground arith, λ k. let one = rest.1 k in ground arith))
      (λ e.
        let rest = top-most counts best most in
        let first = rest.0 in (first, λ k. let one = rest.1 k in ground arith))

get-counted :
    (key : CalendarBooking → Text) (k : Text) (bs : List CalendarBooking) (counts : List (Text × ℕ))
    → get k (counted key bs counts) ≡ get k counts + hits key k bs
unfolding counted hits tally
get-counted key k [] counts = omega arith
get-counted key k (b ∷ bs) counts =
    let skipped = get-counted key k bs counts in
    let kept = get-counted key k bs (bump (key b) counts) in
    let one = get-bump k (key b) counts in ground arith

distinct_keys-counted :
    (key : CalendarBooking → Text) (bs : List CalendarBooking) (counts : List (Text × ℕ))
    → distinct_keys counts ≡ true
    → distinct_keys (counted key bs counts) ≡ true
unfolding counted
distinct_keys-counted key [] counts h = h
distinct_keys-counted key (b ∷ bs) counts h =
    if-rule (λ c. distinct_keys c ≡ true) (not (active b)) _ _
      (λ _. distinct_keys-counted key bs counts h)
      (λ _.
        distinct_keys-counted key bs (bump (key b) counts) (distinct_keys-bump (key b) counts h))

top_master-counted :
    (bookings : List CalendarBooking)
    → ((k : Text) → hits (λ b. b.master_id) k bookings ≤ (top_master bookings).1)
      × ((top_master bookings ≡ (none, 0))
          ⊎ ((id : Text) × ((top_master bookings).0 ≡ some id)
              × (hits (λ b. b.master_id) id bookings ≡ (top_master bookings).1)))
unfolding top_master Chosen Held get
top_master-counted bookings =
    let counts = counted (λ b. b.master_id) bookings [] in
    (
      λ k.
          let most = (top-most counts none 0).1 k in
          let value = get-counted (λ b. b.master_id) k bookings [] in omega arith,
      elim (top-Chosen counts none 0
          (distinct_keys-counted (λ b. b.master_id) bookings [] (unfold distinct_keys in refl))) [
            | inl e ↦ inl e
            | inr (id, e, (_, value)) ↦
                let exact = get-counted (λ b. b.master_id) id bookings [] in
                inr (id, e, omega arith)
          ],
    )

-- No booking of the list is active.
hits-none :
    (key : CalendarBooking → Text) (bookings : List CalendarBooking) (best : Option Text × ℕ)
    → ((k : Text) → hits key k bookings ≤ best.1)
    → best ≡ (none, 0)
    → (k : Text) → hits key k bookings ≡ 0
hits-none key bookings best most e k =
    let bound = most k in let zero_count : best.1 ≡ 0 = ap (λ x. x.1) e in omega arith

-- What is found is in the list, and where nothing is found nothing would pass.
found_in :
    (id : Text) (masters : List MasterItem)
    → ((find (λ m. same m.id id) masters ≡ none) × (all (λ m. not (same m.id id)) masters ≡ true))
      ⊎ ((m : MasterItem) × (find (λ m'. same m'.id id) masters ≡ some m)
          × (m.id ≡ id)
          × ((n : ℕ) × (nth n masters ≡ some m)))
unfolding find nth
found_in id [] = inl (refl, refl)
found_in id (m ∷ masters) = elim (Bool-cases (same m.id id)) [
  | inl e ↦ inr (m, ground arith, same→eq m.id id e, (0, refl))
  | inr e ↦ elim (found_in id masters) [
    | inl (missing, others) ↦ inl (ground arith, ground arith)
    | inr (m', found, eq, (n, at)) ↦ inr (m', ground arith, eq, (suc n, at))
  ]
]

-- What the dashboard shows for the top master.
unfoldable pub Shows : Bool → List MasterItem → List CalendarBooking → ℕ → Option Text → Type 0
Shows is_master masters bookings count none =
    (is_master ≡ true)
    ⊎ ((k : Text) → hits (λ b. b.master_id) k bookings ≡ 0)
    ⊎ ((id : Text) × (hits (λ b. b.master_id) id bookings ≡ count)
        × ((truthy id ≡ false) ⊎ (all (λ m. not (same m.id id)) masters ≡ true)))
Shows is_master masters bookings count (some name) =
    (is_master ≡ false)
    × ((m : MasterItem) × (n : ℕ) × (nth n masters ≡ some m)
        × (m.display_name ≡ name)
        × (hits (λ b. b.master_id) m.id bookings ≡ count))

not_empty :
    (n : ℕ) (masters : List MasterItem) (m : MasterItem)
    → nth n masters ≡ some m
    → (length masters == 0) ≡ false
unfolding nth
not_empty n [] m h = absurd cc
not_empty n (x ∷ masters) m h = ground arith

shown-Shows :
    (is_master : Bool) (masters : List MasterItem) (bookings : List CalendarBooking) (count : ℕ)
    (id : Text)
    → hits (λ b. b.master_id) id bookings ≡ count
    → Shows is_master masters bookings count (top_master_name is_master masters (some id))
unfolding top_master_name Shows
shown-Shows true masters bookings count id h = inl refl
shown-Shows false masters bookings count id h = elim (Bool-cases (truthy id)) [
  | inl e ↦ elim (found_in id masters) [
    | inl (missing, others) ↦
        let no_name : top_master_name false masters (some id) ≡ none =
          unfold top_master_name in ground arith in
        rw no_name (unfold Shows in inr (inr (id, h, inr others)))
    | inr (m, found, eq, (n, at)) ↦
        let a_name : top_master_name false masters (some id) ≡ some m.display_name =
          let some_master = not_empty n masters m at in unfold top_master_name in ground arith in
        rw a_name (unfold Shows in (refl, (m, n, at, refl, rw eq h)))
  ]
  | inr e ↦
      let no_name : top_master_name false masters (some id) ≡ none =
        unfold top_master_name in ground arith in
      rw no_name (unfold Shows in inr (inr (id, h, inl e)))
]

-- The count that the dashboard shows beside the top master is the greatest number of active bookings
-- that a master has, or 0 where no booking is active. A name is shown on the salon's own dashboard only,
-- and is the name of a loaded master with just that many active bookings. None is shown on a master's own
-- dashboard, where no booking is active, and where a master with that many has an empty id or is not
-- among the loaded.
pub top_master-most :
    (bookings : List CalendarBooking) (is_master : Bool) (masters : List MasterItem)
    → ((k : Text) → hits (λ b. b.master_id) k bookings ≤ (top_master bookings).1)
      × ((top_master bookings ≡ (none, 0))
          ⊎ ((id : Text) × ((top_master bookings).0 ≡ some id)
              × (hits (λ b. b.master_id) id bookings ≡ (top_master bookings).1)))
      × Shows is_master masters bookings
          (top_master bookings).1
          (top_master_name is_master masters (top_master bookings).0)
top_master-most bookings is_master masters =
    let (most, counted_right) = top_master-counted bookings in
    (
      most,
      counted_right,
      elim counted_right [
        | inl e ↦
            let no_id : (top_master bookings).0 ≡ none = ap (λ x. x.0) e in
            rw no_id (
              unfold top_master_name Shows in
              inr (inl (hits-none (λ b. b.master_id) bookings (top_master bookings) most e)))
        | inr (id, e, h) ↦
            rw e (shown-Shows is_master masters bookings (top_master bookings).1 id h)
      ],
    )
