-- ===== src/Navigation/Menu.antt =====
-- The menu of the shell and the pages that it guards
-- (frontend/src/components/layout/admin-app-shell.tsx).
use hunger_platform.Prelude.{
  ℕ, suc, Bool, ◌&&◌, ◌||◌, not, Option, none, some, List, [], ◌∷◌, ◌++◌, Text, codes, same,
  starts_with, if◌then◌else◌, ltb, leb, ◌==◌,
}
use hunger_platform.Wizard.Handlers.{filter}
use hunger_platform.Referral.{mem}
use hunger_platform.Permissions.{
  Resource, dashboard, bookings, clients, masters, services, schedule, broadcasts, chats,
  statistics, reports, ai, blacklist, users, settings, audit, inventory, formulas, master_dashboard,
  read, PermUser, can,
}
use hunger_platform.Sorting.{sort_by}

pub record NavItem : Type 0 where
  pub href : Text
  pub resource : Resource

abbrev pub nav : List NavItem
nav =
    record { href = codes "/dashboard"; resource = dashboard }
    ∷ record { href = codes "/bookings"; resource = bookings }
    ∷ record { href = codes "/clients"; resource = clients }
    ∷ record { href = codes "/masters"; resource = masters }
    ∷ record { href = codes "/services"; resource = services }
    ∷ record { href = codes "/schedule"; resource = schedule }
    ∷ record { href = codes "/broadcasts"; resource = broadcasts }
    ∷ record { href = codes "/chats"; resource = chats }
    ∷ record { href = codes "/statistics"; resource = statistics }
    ∷ record { href = codes "/reports"; resource = reports }
    ∷ record { href = codes "/discounts"; resource = settings }
    ∷ record { href = codes "/ai"; resource = ai }
    ∷ record { href = codes "/inventory"; resource = inventory }
    ∷ record { href = codes "/formulas"; resource = formulas }
    ∷ record { href = codes "/blacklist"; resource = blacklist }
    ∷ record { href = codes "/users"; resource = users }
    ∷ record { href = codes "/settings"; resource = settings }
    ∷ record { href = codes "/audit"; resource = audit }
    ∷ []

-- `Number.MAX_SAFE_INTEGER`
abbrev pub max_safe_integer : ℕ
max_safe_integer = 9007199254740991

-- `orderRank.get(href)`, where a later entry of the map replaces an earlier one
unfoldable pub rank : ℕ → Text → List Text → Option ℕ
unfolding same
rank k href [] = none
rank k href (x ∷ xs) = elim (rank (suc k) href xs) [
  | none ↦ if same x href then some k else none
  | some r ↦ some r
]

unfoldable pub rank_or_max : Text → List Text → ℕ
unfolding rank
rank_or_max href order = elim (rank 0 href order) [ none ↦ max_safe_integer | some r ↦ r ]

-- `NAV.findIndex`
unfoldable pub nav_index : Text → List NavItem → ℕ
unfolding same
nav_index href [] = 0
nav_index href (x ∷ xs) = if same x.href href then 0 else suc (nav_index href xs)

-- Whether the comparison puts `a` no later than `b`.
unfoldable pub before : List NavItem → List Text → NavItem → NavItem → Bool
unfolding rank_or_max nav_index
before all_items order a b =
    if rank_or_max a.href order == rank_or_max b.href order
    then leb (nav_index a.href all_items) (nav_index b.href all_items)
    else ltb (rank_or_max a.href order) (rank_or_max b.href order)

-- An item that the user may read and that is not hidden.
unfoldable pub is_visible : PermUser → List Text → NavItem → Bool
unfolding can mem
is_visible u gone item = can u read item.resource && not (mem item.href gone)

unfoldable pub items_sorted : List NavItem → PermUser → List Text → List Text → List NavItem
unfolding sort_by before filter is_visible
items_sorted all_items u order gone =
    sort_by (before all_items order) (filter (is_visible u gone) all_items)

-- The first item of a master.
unfoldable pub items : List NavItem → Bool → PermUser → List Text → List Text → List NavItem
unfolding items_sorted
items all_items is_master u order gone =
    if is_master
    then record { href = codes "/m/dashboard"; resource = master_dashboard }
      ∷ items_sorted all_items u order gone
    else items_sorted all_items u order gone

abbrev pub guards : List (Text × Resource)
guards =
    (codes "/bookings", bookings)
    ∷ (codes "/clients", clients)
    ∷ (codes "/schedule", schedule)
    ∷ (codes "/statistics", statistics)
    ∷ (codes "/reports", reports)
    ∷ (codes "/blacklist", blacklist)
    ∷ (codes "/formulas", formulas)
    ∷ (codes "/chats", chats)
    ∷ (codes "/masters", masters)
    ∷ (codes "/inventory", inventory)
    ∷ []

unfoldable pub is_under : Text → Text → Bool
unfolding same starts_with
is_under prefix path = same path prefix || starts_with path (prefix ++ codes "/")

-- Where the effect sends the user, if anywhere: the first guard of the path decides.
unfoldable pub guard_redirect : List (Text × Resource) → Bool → PermUser → Text → Option Text
unfolding is_under can
guard_redirect [] is_master u path = none
guard_redirect ((prefix, res) ∷ gs) is_master u path =
    let others = guard_redirect gs is_master u path in
    if is_under prefix path
    then (if not (can u read res)
        then some (if is_master then codes "/m/dashboard" else codes "/dashboard")
        else none)
    else others
