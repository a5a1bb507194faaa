-- ===== src/Permissions/Hook.antt =====
-- What the pages ask of the user that is loaded (`usePermissions` of
-- frontend/src/hooks/usePermissions.ts); `none` while there is no user.
use hunger_platform.Prelude.{
  String, ◌≡◌, Bool, true, false, ◌||◌, Option, none, some, List, lookup, arith,
}
use hunger_platform.Permissions.{
  owner, admin, Role, PagePermissions, PermUser, is_role, can_export_clients,
}

pub record UserMe : Type 0 where
  pub role : Role
  pub effective_permissions : Option (List (String × Bool))
  pub page_permissions : PagePermissions
  pub reports_access : Option Bool

unfoldable pub perm_user : Option UserMe → Option PermUser
perm_user none = none
perm_user (some me) = some (record {
  role = me.role;
  page_permissions = me.page_permissions;
  reports_access = me.reports_access;
})

unfoldable pub export_clients_allowed : Option UserMe → Bool
unfolding perm_user
export_clients_allowed me = elim (perm_user me) [ none ↦ false | some u ↦ can_export_clients u ]

-- `me?.effective_permissions?.[permission] ?? false`
unfoldable pub has_permission : Option UserMe → String → Bool
has_permission none permission = false
has_permission (some me) permission = elim me.effective_permissions [
  | none ↦ false
  | some p ↦ elim (lookup permission p) [ none ↦ false | some b ↦ b ]
]

unfoldable pub is_owner : Option UserMe → Bool
is_owner none = false
is_owner (some me) = is_role me.role owner

unfoldable pub is_admin : Option UserMe → Bool
is_admin none = false
is_admin (some me) = is_role me.role owner || is_role me.role admin

-- An owner counts as an admin, and may export the clients.
pub is_owner-is_admin :
    (me : Option UserMe)
    → is_owner me ≡ true
    → (is_admin me ≡ true) × (export_clients_allowed me ≡ true)
unfolding is_owner is_admin export_clients_allowed perm_user can_export_clients
is_owner-is_admin none h = cc
is_owner-is_admin (some me) h = ground arith
