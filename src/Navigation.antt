-- ===== src/Navigation.antt =====
-- The order of the menu as the settings edit it
-- (frontend/src/app/(admin)/settings/settings-section.tsx) and as the shell shows it
-- (frontend/src/components/layout/admin-app-shell.tsx).
pub mod Lists
pub mod Counts
pub mod Events
pub mod Whole
pub mod Kept
pub mod Moves
pub mod Reopened
pub mod Menu
pub mod Shown
use hunger_platform.Prelude.{
  Bool, true, false, not, List, [], ◌∷◌, ◌++◌, Text, codes, if◌then◌else◌, map,
}
use hunger_platform.Wizard.Handlers.{filter}
use hunger_platform.Referral.{mem}

-- The addresses that the settings list.
abbrev pub nav_items : List Text
nav_items =
    codes "/dashboard"
    ∷ codes "/bookings"
    ∷ codes "/clients"
    ∷ codes "/masters"
    ∷ codes "/services"
    ∷ codes "/schedule"
    ∷ codes "/broadcasts"
    ∷ codes "/chats"
    ∷ codes "/statistics"
    ∷ codes "/ai"
    ∷ codes "/inventory"
    ∷ codes "/formulas"
    ∷ codes "/blacklist"
    ∷ codes "/users"
    ∷ codes "/settings"
    ∷ codes "/audit"
    ∷ []

-- What is left of the stored order where `seen` holds what was met before: each address of `nav` once.
unfoldable pub ordered : List Text → List Text → List Text → List Text
unfolding mem
ordered nav seen [] = []
ordered nav seen (href ∷ stored) =
    let met = ordered nav (href ∷ seen) stored in
    let skipped = ordered nav seen stored in
    if mem href seen then skipped else if not (mem href nav) then skipped else href ∷ met

-- The addresses of `nav` that are not in `seen`.
unfoldable pub missing : List Text → List Text → List Text
unfolding mem filter
missing nav seen = filter (λ href. not (mem href seen)) nav

unfoldable pub initial_order : List Text → List Text → List Text
unfolding ordered missing
initial_order nav stored = let known = ordered nav [] stored in known ++ missing nav known

unfoldable pub initial_hidden : List Text → List Text → List Text
unfolding mem filter
initial_hidden nav stored = filter (λ href. mem href nav) stored
