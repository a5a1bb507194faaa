-- ===== src/Examples/Access.antt =====
-- Who may see what, at concrete users, tokens and paths (frontend/src/lib/permissions.ts,
-- frontend/src/lib/page-permissions-defaults.ts and frontend/src/middleware.ts).
use hunger_platform.Prelude.{
  String, ◌≡◌, ◌≢◌, refl, true, false, Option, none, some, List, [], ◌∷◌, Text, codes, arith,
  lookup,
}
use hunger_platform.Permissions.{
  owner, admin, clients, users, create, PermUser, can, flag, pget, section_of,
}
use hunger_platform.Permissions.Editor.{Draft, set_section_key, can-set_section_key}
use hunger_platform.Permissions.Denial.{can_disabled}
use hunger_platform.Permissions.Defaults.{Permissions, SectionPerms, deep_merge_permissions}
use hunger_platform.Permissions.Merge.{read_flag, read_over, or_else, read-deep_merge}
use hunger_platform.Middleware.{Env, session_of}
use hunger_platform.Middleware.Redirects.{settle, settle_total}

-- An admin whose clients are off, whose services are for viewing only, and who has the reports.
abbrev some_admin : PermUser
some_admin = record {
  role = admin;
  page_permissions = some (
      ("clients", some (("enabled", false) ∷ ("create", true) ∷ []))
      ∷ ("services", some (("enabled", true) ∷ ("view_only", true) ∷ []))
      ∷ ("staff", some (("enabled", true) ∷ ("manage_permissions", true) ∷ []))
      ∷ []);
  reports_access = some true;
}

not_owner : some_admin.role ≢ owner
not_owner = ground arith

can_disabled_example : can some_admin create clients ≡ false
can_disabled_example =
    can_disabled some_admin create clients "clients" not_owner (unfold section_of in refl)
      (unfold pget lookup flag in refl)

abbrev two_sections : Permissions
two_sections =
    ("clients", ("enabled", true) ∷ ("create", false) ∷ []) ∷ ("staff", ("enabled", true) ∷ []) ∷ []

abbrev override : List (String × Option SectionPerms)
override = ("clients", some (("create", true) ∷ [])) ∷ ("staff", none) ∷ []

read-deep_merge_example :
    read_flag (deep_merge_permissions two_sections override) "clients" "create"
    ≡ or_else (read_over override "clients" "create") (read_flag two_sections "clients" "create")
read-deep_merge_example =
    read-deep_merge two_sections override "clients" "create"
      (unfold lookup in (refl, (refl, tt), (refl, tt)))

-- A gate with a secret, whose token library finds each token good and reads the role in it.
abbrev verify_any : Text → Text → Option (Option String)
verify_any token secret = some (some "reception")

abbrev gate : Env
gate = record { jwt_secret = some (codes "secret"); jwt_verify = verify_any }

abbrev shut_gate : Env
shut_gate = record { jwt_secret = none; jwt_verify = verify_any }

settle_total_example : settle 3 (session_of gate (some (codes "token"))) (codes "/users") ≢ none
settle_total_example = settle_total gate (some (codes "token")) (codes "/users")

-- A draft whose section of the clients is off.
abbrev some_draft : Draft
some_draft =
    ("clients", some (("enabled", false) ∷ ("create", false) ∷ []))
    ∷ ("staff", some (("enabled", true) ∷ []))
    ∷ []

can-set_section_key_example :
    can
      (record {
        role = admin;
        page_permissions = some (set_section_key some_draft "staff" "enabled" false);
        reports_access = none;
      })
      create
      users
    ≡ false
can-set_section_key_example =
    can-set_section_key some_draft admin none create users "staff" (λ e. cc)
      (unfold section_of in refl)
