-- ===== src/Permissions/Roles.antt =====
-- What the default permissions of a role let it do: `can` of frontend/src/lib/permissions.ts over
-- the defaults of frontend/src/lib/page-permissions-defaults.ts.
use hunger_platform.Prelude.{
  String, ◌≡◌, ◌≢◌, true, Option, none, some, List, [], ◌∷◌, arith, lookup,
}
use hunger_platform.Permissions.{
  Role, owner, admin, reception, master, Resource, dashboard, master_dashboard, Action, read, flag,
  pget, section_of, PermUser, can, SectionFlags,
}
use hunger_platform.Permissions.Defaults.{Permissions, default_permissions_for_role}

-- The server sends the sections as they are.
unfoldable pub as_page : Permissions → List (String × Option SectionFlags)
as_page [] = []
as_page ((k, s) ∷ p) = (k, some s) ∷ as_page p

abbrev pub role_name : Role → String
role_name owner = "owner"
role_name admin = "admin"
role_name reception = "reception"
role_name master = "master"

-- A user with the defaults of the role.
unfoldable pub default_user : Role → PermUser
unfolding as_page
default_user role = record {
  role = role;
  page_permissions = some (as_page (default_permissions_for_role (role_name role)));
  reports_access = none;
}

-- With the defaults, whatever a reception may do an admin may do.
can-reception-admin :
    (action : Action) (resource : Resource)
    → can (default_user reception) action resource ≡ true
    → can (default_user admin) action resource ≡ true
unfolding can section_of default_user default_permissions_for_role pget flag lookup
can-reception-admin read dashboard h = ground arith
can-reception-admin _ _ h = ground arith

-- With the defaults, whatever a master may do an admin may do, the master's own dashboard apart.
can-master-admin :
    (action : Action) (resource : Resource)
    → resource ≢ master_dashboard
    → can (default_user master) action resource ≡ true
    → can (default_user admin) action resource ≡ true
unfolding can section_of default_user default_permissions_for_role pget flag lookup
can-master-admin read dashboard d h = ground arith
can-master-admin _ _ d h = ground arith
