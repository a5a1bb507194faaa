-- ===== src/Permissions/Denial.antt =====
-- What `can` (frontend/src/lib/permissions.ts) refuses.
use hunger_platform.Prelude.{
  String, ◌≡◌, refl, ◌≢◌, ◌⊎◌, true, false, Option, none, some, arith, eq_iff, lookup, ◌&&◌, not,
}
use hunger_platform.Permissions.{
  master, reception, owner, admin, Resource, dashboard, bookings, clients, masters, services,
  schedule, broadcasts, chats, statistics, reports, ai, blacklist, users, settings, audit,
  inventory, formulas, master_dashboard, Action, read, manage, SectionFlags, PagePermissions,
  pget_in, pget, section_of, PermUser, can, owner_can, is_role, is_action,
}

pget_in_off :
    (s : Option (Option SectionFlags)) (key : String)
    → pget_in s "enabled" ≡ false
    → pget_in s key ≡ false
unfolding pget_in
pget_in_off none key h = refl
pget_in_off (some none) key h = refl
pget_in_off (some (some s)) key h = ground (arith, eq_iff key "enabled", eq_iff "enabled" "enabled")

-- No flag of a section counts unless the section is enabled.
pub pget_off :
    (p : PagePermissions) (section key : String)
    → pget p section "enabled" ≡ false
    → pget p section key ≡ false
unfolding pget
pget_off none section key h = refl
pget_off (some p) section key h = pget_in_off (lookup section p) key h

-- No flag of the section counts.
IsOff : PagePermissions → Option String → Type 0
IsOff p none = Unit
IsOff p (some sec) = (key : String) → pget p sec key ≡ false

IsOff-disabled :
    (p : PagePermissions) (o : Option String) (sec : String)
    → o ≡ some sec
    → pget p sec "enabled" ≡ false
    → IsOff p o
unfolding IsOff
IsOff-disabled p none sec e h = tt
IsOff-disabled p (some t) sec e h = let same : t ≡ sec = cc in λ key. pget_off p t key (rw same h)

can-IsOff :
    (user : PermUser) (action : Action) (resource : Resource)
    → user.role ≢ owner
    → resource ≢ dashboard
    → IsOff user.page_permissions (section_of resource)
    → can user action resource ≡ false
unfolding can section_of IsOff
can-IsOff u a dashboard h d off = absurd (d refl)
can-IsOff u a bookings h d off =
    ground (arith, off "enabled", off "create", off "edit", off "cancel")
can-IsOff u a clients h d off =
    ground (arith, off "enabled", off "create", off "edit", off "delete")
can-IsOff u a masters h d off = ground (arith, off "enabled", off "edit_profiles")
can-IsOff u a services h d off = ground (arith, off "enabled", off "create_edit", off "delete")
can-IsOff u a schedule h d off = ground (arith, off "enabled", off "edit_own", off "edit_others")
can-IsOff u a broadcasts h d off = ground (arith, off "enabled", off "create", off "send")
can-IsOff u a chats h d off = ground (arith, off "enabled", off "reply")
can-IsOff u a statistics h d off = ground (arith, off "enabled")
can-IsOff u a reports h d off = ground arith
can-IsOff u a ai h d off = ground (arith, off "enabled", off "manage_settings")
can-IsOff u a blacklist h d off = ground (arith, off "enabled", off "add", off "remove")
can-IsOff u a users h d off = ground (arith, off "enabled", off "create", off "manage_permissions")
can-IsOff u a settings h d off = ground (arith, off "enabled", off "edit")
can-IsOff u a audit h d off = ground (arith, off "enabled")
can-IsOff u a inventory h d off =
    ground (arith, off "enabled", off "edit_stock", off "manage_items")
can-IsOff u a formulas h d off =
    ground (arith, off "enabled", off "create", off "edit", off "delete")
can-IsOff u a master_dashboard h d off = ground (arith, off "enabled")

-- A resource with a section is refused to everyone but the owner, whatever the action, when that
-- section is not enabled.
pub can_disabled :
    (user : PermUser) (action : Action) (resource : Resource) (sec : String)
    → user.role ≢ owner
    → section_of resource ≡ some sec
    → pget user.page_permissions sec "enabled" ≡ false
    → can user action resource ≡ false
unfolding section_of
can_disabled u a dashboard sec h e off = cc
can_disabled u a resource sec h e off =
    can-IsOff u a resource h (λ d. cc)
      (IsOff-disabled u.page_permissions (section_of resource) sec e off)

-- Only an owner is ever granted the reports: whatever the action, the sections and the
-- `reports_access` flag, `can` refuses them to an admin, a reception and a master.
can-reports :
    (user : PermUser) (action : Action)
    → can user action reports ≡ (is_role user.role owner && not (is_action action manage))
unfolding can section_of owner_can
can-reports u a = ground arith

-- The sections with a `view_only` flag that shuts all but reading.
pub data HasViewOnly : Resource → String → Type 0 where
  of_services : HasViewOnly services "services"
  of_masters : HasViewOnly masters "specialists"

-- A user other than the owner may do nothing but read the services, or the masters, when their
-- section is marked `view_only`.
can-view_only :
    (user : PermUser) (action : Action) (resource : Resource) (sec : String)
    → HasViewOnly resource sec
    → user.role ≢ owner
    → action ≢ read
    → pget user.page_permissions sec "view_only" ≡ true
    → can user action resource ≡ false
unfolding can section_of
can-view_only u a _ _ of_services h r v = ground arith
can-view_only u a _ _ of_masters h r v = ground arith

-- To manage is granted to others than the owner only for the staff and the AI, to an admin for the
-- dashboard, the settings and the audit log, to a reception for the dashboard, and to a master for
-- the master dashboard.
can-manage :
    (user : PermUser) (resource : Resource)
    → user.role ≢ owner
    → can user manage resource ≡ true
    → (resource ≡ users)
      ⊎ (resource ≡ ai)
      ⊎ ((user.role ≡ admin)
          × ((resource ≡ dashboard) ⊎ (resource ≡ settings) ⊎ (resource ≡ audit)))
      ⊎ ((user.role ≡ reception) × (resource ≡ dashboard))
      ⊎ ((user.role ≡ master) × (resource ≡ master_dashboard))
unfolding can section_of
can-manage u dashboard h e = ground arith
can-manage u _ h e = ground arith
