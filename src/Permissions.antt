-- ===== src/Permissions.antt =====
-- Page permissions and what they let a user do (frontend/src/lib/permissions.ts).
pub mod Denial
pub mod Defaults
pub mod Merge
pub mod Roles
pub mod Hook
pub mod Editor
use hunger_platform.Prelude.{
  ℕ, String, Bool, true, false, ◌&&◌, ◌||◌, not, Option, none, some, List, ◌==◌, str_eq,
  if◌then◌else◌, lookup,
}

pub data Role : Type 0 where
  owner admin reception master : Role

pub data Resource : Type 0 where
  dashboard bookings clients masters services schedule broadcasts chats statistics : Resource
  reports ai blacklist users settings audit inventory formulas master_dashboard : Resource

pub data Action : Type 0 where
  read create update delete manage : Action

-- The flags of a section, and the sections of a user. A section may be there as `undefined`.
abbrev pub SectionFlags : Type 0
SectionFlags = List (String × Bool)

abbrev pub PagePermissions : Type 0
PagePermissions = Option (List (String × Option SectionFlags))

-- `Boolean(s[key])`
unfoldable pub flag : SectionFlags → String → Bool
flag s key = elim (lookup key s) [ none ↦ false | some b ↦ b ]

pget_in : Option (Option SectionFlags) → String → Bool
pget_in none key = false
pget_in (some none) key = false
pget_in (some (some s)) key =
    if not (str_eq key "enabled") && not (flag s "enabled") then false else flag s key

unfoldable pub pget : PagePermissions → String → String → Bool
unfolding pget_in
pget none section key = false
pget (some p) section key = pget_in (lookup section p) key

unfoldable pub section_of : Resource → Option String
section_of bookings = some "bookings"
section_of clients = some "clients"
section_of masters = some "specialists"
section_of services = some "services"
section_of schedule = some "schedule"
section_of broadcasts = some "broadcasts"
section_of chats = some "chats"
section_of statistics = some "analytics"
section_of ai = some "ai"
section_of blacklist = some "blacklist"
section_of users = some "staff"
section_of settings = some "settings"
section_of audit = some "audit_log"
section_of inventory = some "inventory"
section_of formulas = some "formulas"
section_of master_dashboard = some "master_dashboard"
section_of dashboard = none
section_of reports = none

-- `===` on roles, resources and actions.
abbrev role_index : Role → ℕ
role_index owner = 0
role_index admin = 1
role_index reception = 2
role_index master = 3

abbrev pub is_role : Role → Role → Bool
is_role r s = role_index r == role_index s

abbrev resource_index : Resource → ℕ
resource_index dashboard = 0
resource_index bookings = 1
resource_index clients = 2
resource_index masters = 3
resource_index services = 4
resource_index schedule = 5
resource_index broadcasts = 6
resource_index chats = 7
resource_index statistics = 8
resource_index reports = 9
resource_index ai = 10
resource_index blacklist = 11
resource_index users = 12
resource_index settings = 13
resource_index audit = 14
resource_index inventory = 15
resource_index formulas = 16
resource_index master_dashboard = 17

abbrev pub is_resource : Resource → Resource → Bool
is_resource r s = resource_index r == resource_index s

abbrev action_index : Action → ℕ
action_index read = 0
action_index create = 1
action_index update = 2
action_index delete = 3
action_index manage = 4

abbrev pub is_action : Action → Action → Bool
is_action a b = action_index a == action_index b

pub record PermUser : Type 0 where
  pub role : Role
  pub page_permissions : PagePermissions
  pub reports_access : Option Bool

-- The branch of `can` for the owner.
unfoldable pub owner_can : Action → Resource → Bool
owner_can action resource =
    if is_action action manage
    then is_resource resource users || is_resource resource settings || is_resource resource audit
    else if is_resource resource master_dashboard
    then false
    else true

module _ (user : PermUser) (action : Action) where
  open user use {role, page_permissions as p, reports_access}

  abbrev is : Action → Bool
  is a = is_action action a

  -- `if (resource === "users")`
  can_users : Bool
  can_users =
      if is read
      then pget p "staff" "enabled" && pget p "staff" "view_list"
      else if is create
      then pget p "staff" "create"
      else if is manage
      then pget p "staff" "manage_permissions"
      else false

  -- `if (action === "manage")`
  can_manage : String → Resource → Bool
  can_manage sec resource =
      if is_resource resource settings || is_resource resource audit
      then is_role role admin && pget p sec "enabled"
      else if is_resource resource ai
      then pget p "ai" "manage_settings"
      else false

  -- The tests from `settings` to `bookings`, for the actions left over by `read` and `manage`.
  -- `next` is what follows them.
  can_people : Resource → Bool → Bool
  can_people resource next =
      if is_resource resource settings
      then (if is update then pget p "settings" "edit" else pget p "settings" "enabled")
      else if is_resource resource audit
      then false
      else if is_resource resource clients
      then (if is create
          then pget p "clients" "create"
          else if is update
          then pget p "clients" "edit"
          else if is delete
          then pget p "clients" "delete"
          else pget p "clients" "enabled")
      else if is_resource resource bookings
      then (if is create
          then pget p "bookings" "create"
          else if is update
          then pget p "bookings" "edit"
          else if is delete
          then pget p "bookings" "cancel"
          else pget p "bookings" "enabled")
      else next

  -- The tests from `broadcasts` to `formulas`.
  can_stock : Resource → Bool → Bool
  can_stock resource next =
      if is_resource resource broadcasts
      then (if is create
          then pget p "broadcasts" "create"
          else if is update || is delete
          then pget p "broadcasts" "send"
          else pget p "broadcasts" "enabled")
      else if is_resource resource inventory
      then (if is update || is create || is delete
          then pget p "inventory" "edit_stock" || pget p "inventory" "manage_items"
          else pget p "inventory" "enabled")
      else if is_resource resource formulas
      then (if is create
          then pget p "formulas" "create"
          else if is update
          then pget p "formulas" "edit"
          else if is delete
          then pget p "formulas" "delete"
          else pget p "formulas" "enabled")
      else next

  -- The tests from `services` to `statistics`.
  can_salon : Resource → Bool → Bool
  can_salon resource next =
      if is_resource resource services
      then (if pget p "services" "view_only"
          then false
          else if is delete
          then pget p "services" "delete"
          else pget p "services" "create_edit")
      else if is_resource resource masters
      then (if pget p "specialists" "view_only"
          then false
          else pget p "specialists" "edit_profiles")
      else if is_resource resource schedule
      then (if is update
          then pget p "schedule" "edit_own" || pget p "schedule" "edit_others"
          else pget p "schedule" "enabled")
      else if is_resource resource statistics
      then pget p "analytics" "enabled"
      else next

  -- `Boolean(user.reports_access)`
  abbrev has_reports_access : Bool
  has_reports_access = elim reports_access [ none ↦ false | some b ↦ b ]

  -- The tests from `reports` to the end.
  can_rest : String → Resource → Bool
  can_rest sec resource =
      if is_resource resource reports
      then (if is_role role admin then has_reports_access else false)
      else if is_resource resource chats
      then (if is create || is update then pget p "chats" "reply" else pget p "chats" "enabled")
      else if is_resource resource ai
      then pget p "ai" "enabled"
      else if is_resource resource blacklist
      then (if is create
          then pget p "blacklist" "add"
          else if is delete
          then pget p "blacklist" "remove"
          else if is update && pget p "blacklist" "view_only"
          then false
          else pget p "blacklist" "enabled")
      else pget p sec "enabled"

  -- What follows `const sec = SECTION[resource]; if (!sec) return false;`
  can_section : String → Resource → Bool
  unfolding can_users can_manage can_people can_stock can_salon can_rest
  can_section sec resource =
      if is_resource resource users
      then can_users
      else if is read
      then pget p sec "enabled"
      else if is manage
      then can_manage sec resource
      else can_people resource (can_stock resource (can_salon resource (can_rest sec resource)))

  unfoldable pub can : Resource → Bool
  unfolding owner_can can_section section_of
  can resource =
      if is_role role owner
      then owner_can action resource
      else if is_resource resource dashboard
      then is_role role admin || is_role role reception
      else if is_resource resource master_dashboard
      then is_role role master && pget p "master_dashboard" "enabled"
      else elim (section_of resource) [ none ↦ false | some sec ↦ can_section sec resource ]

unfoldable pub can_export_clients : PermUser → Bool
can_export_clients user =
    if is_role user.role owner then true else pget user.page_permissions "clients" "export"
