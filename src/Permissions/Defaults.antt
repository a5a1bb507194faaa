-- ===== src/Permissions/Defaults.antt =====
-- The permissions that a role starts with (frontend/src/lib/page-permissions-defaults.ts).
-- `structuredClone` copies a value, and a value of the model is its own copy.
mod Dashboards
mod Tables
unfoldable pub use Dashboards.{SectionPerms, Permissions, spread}
use hunger_platform.Prelude.{
  String, Bool, true, false, Option, none, some, List, [], ◌∷◌, str_eq, if◌then◌else◌, lookup,
  insert,
}
use Tables.{admin_permissions, master_permissions, reception_permissions}

-- `allTrue`, on a section and on the sections.
unfoldable pub all_true_section : SectionPerms → SectionPerms
all_true_section [] = []
all_true_section ((k, _) ∷ s) = (k, true) ∷ all_true_section s

unfoldable pub all_true : Permissions → Permissions
all_true [] = []
all_true ((k, s) ∷ p) = (k, all_true_section s) ∷ all_true p

unfoldable pub default_permissions_for_role : String → Permissions
unfolding admin_permissions master_permissions reception_permissions all_true all_true_section
default_permissions_for_role role =
    if str_eq role "owner"
    then all_true admin_permissions
    else if str_eq role "admin"
    then admin_permissions
    else if str_eq role "reception"
    then reception_permissions
    else if str_eq role "master"
    then master_permissions
    else master_permissions

-- One round of the loop of `deepMergePermissions`, and the loop.
unfoldable pub merge_section : Permissions → String → Option SectionPerms → Permissions
unfolding spread
merge_section out sk none = out
merge_section out sk (some sv) =
    insert sk (spread (elim (lookup sk out) [ none ↦ [] | some s ↦ s ]) sv) out

unfoldable pub deep_merge_permissions :
    Permissions → List (String × Option SectionPerms) → Permissions
deep_merge_permissions out [] = out
deep_merge_permissions out ((sk, sv) ∷ over) = deep_merge_permissions (merge_section out sk sv) over
