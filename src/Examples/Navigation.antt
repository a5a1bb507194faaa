-- ===== src/Examples/Navigation.antt =====
-- The menu and its settings at concrete inputs
-- (frontend/src/app/(admin)/settings/settings-section.tsx,
-- frontend/src/components/layout/admin-app-shell.tsx).
use hunger_platform.Prelude.{
  ◌≡◌, refl, Bool, true, false, ◌&&◌, not, none, List, [], ◌∷◌, ◌++◌, Text, codes, same,
}
use hunger_platform.Referral.{mem}
use hunger_platform.Permissions.{admin, read, PermUser, can}
use hunger_platform.Sorting.{tally, is_sorted}
use hunger_platform.Navigation.{nav_items, missing, initial_order}
use hunger_platform.Navigation.Whole.{distinct}
use hunger_platform.Navigation.Events.{
  Integrations, start, Event, moved_down, removed, save_clicked, run,
}
use hunger_platform.Navigation.Kept.{IsKept, run-IsKept}
use hunger_platform.Navigation.Reopened.{initial_order-IsKept}
use hunger_platform.Navigation.Menu.{NavItem, nav, items_sorted}
use hunger_platform.Navigation.Shown.{in_order, items_sorted-shown}

abbrev some_integrations : Integrations
some_integrations = record {
  admin_nav_order = codes "/chats" ∷ codes "/chats" ∷ codes "/gone" ∷ codes "/bookings" ∷ [];
  admin_nav_hidden = codes "/ai" ∷ [];
}

abbrev some_changes : List Event
some_changes = moved_down 0 ∷ removed 3 ∷ save_clicked false ∷ []

run-IsKept_example :
    IsKept nav_items
      (run nav_items some_integrations some_changes (start nav_items some_integrations)).order
      (run nav_items some_integrations some_changes (start nav_items some_integrations)).hidden
run-IsKept_example =
    run-IsKept nav_items some_integrations some_changes (unfold distinct mem same in refl)

initial_order-IsKept_example :
    (initial_order nav_items
        (run nav_items some_integrations some_changes (start nav_items some_integrations)).order
      ≡ (run nav_items some_integrations some_changes (start nav_items some_integrations)).order
        ++ missing nav_items
            (run nav_items some_integrations some_changes
              (start nav_items some_integrations)).order)
    × ((x : Text)
        → mem x (
            initial_order nav_items
              (run nav_items some_integrations some_changes
                (start nav_items some_integrations)).order)
          ≡ mem x nav_items)
initial_order-IsKept_example =
    initial_order-IsKept nav_items
      (run nav_items some_integrations some_changes (start nav_items some_integrations)).order
      (run nav_items some_integrations some_changes (start nav_items some_integrations)).hidden
      (unfold distinct mem same in refl)
      (run-IsKept nav_items some_integrations some_changes (unfold distinct mem same in refl))

abbrev some_admin : PermUser
some_admin = record { role = admin; page_permissions = none; reports_access = none }

items_sorted-shown_example :
    ((p : NavItem → Bool)
      → tally p (items_sorted nav some_admin (codes "/chats" ∷ []) (codes "/ai" ∷ []))
        ≡ tally
            (λ x. (can some_admin read x.resource && not (mem x.href (codes "/ai" ∷ []))) && p x)
            nav)
    × (is_sorted
          (in_order nav (codes "/chats" ∷ []))
          (items_sorted nav some_admin (codes "/chats" ∷ []) (codes "/ai" ∷ []))
        ≡ true)
items_sorted-shown_example =
    items_sorted-shown nav some_admin (codes "/chats" ∷ []) (codes "/ai" ∷ [])
      (unfold distinct mem in refl) refl
