-- ===== src/Permissions/Defaults/Tables.antt =====
-- The tables of the roles (frontend/src/lib/page-permissions-defaults.ts).
use hunger_platform.Prelude.{true, false, [], ◌∷◌}
use hunger_platform.Permissions.Defaults.Dashboards.{
  Permissions, master_dashboard_disabled, master_dashboard_master_defaults, salon_dashboard_full,
  salon_dashboard_reception, salon_dashboard_all_off,
}

unfoldable pub admin_permissions : Permissions
unfolding salon_dashboard_full master_dashboard_disabled
admin_permissions =
    ("salon_dashboard", salon_dashboard_full)
    ∷ ("master_dashboard", master_dashboard_disabled)
    ∷ (
      "bookings",
      ("enabled", true)
          ∷ ("view_all", true)
          ∷ ("create", true)
          ∷ ("edit", true)
          ∷ ("cancel", true)
          ∷ ("view_client_contacts", true)
          ∷ ("view_calendar_booking_phones", true)
          ∷ [],
    )
    ∷ (
      "clients",
      ("enabled", true)
          ∷ ("view_all", true)
          ∷ ("view_phones", true)
          ∷ ("export", true)
          ∷ ("create", true)
          ∷ ("edit", true)
          ∷ ("delete", false)
          ∷ ("view_history", true)
          ∷ [],
    )
    ∷ (
      "chats",
      ("enabled", true) ∷ ("view_all", true) ∷ ("reply", true) ∷ ("view_history", true) ∷ [],
    )
    ∷ (
      "schedule",
      ("enabled", true) ∷ ("view_all", true) ∷ ("edit_own", true) ∷ ("edit_others", true) ∷ [],
    )
    ∷ (
      "formulas",
      ("enabled", true)
          ∷ ("view_all", true)
          ∷ ("create", true)
          ∷ ("edit", true)
          ∷ ("delete", true)
          ∷ [],
    )
    ∷ ("analytics", ("enabled", true) ∷ ("view_all", true) ∷ ("view_financial", true) ∷ [])
    ∷ (
      "broadcasts",
      ("enabled", true) ∷ ("create", true) ∷ ("send", true) ∷ ("view_stats", true) ∷ [],
    )
    ∷ (
      "services",
      ("enabled", true) ∷ ("view_only", false) ∷ ("create_edit", true) ∷ ("delete", true) ∷ [],
    )
    ∷ (
      "inventory",
      ("enabled", true) ∷ ("view_only", false) ∷ ("edit_stock", true) ∷ ("manage_items", true) ∷ [],
    )
    ∷ ("ai", ("enabled", true) ∷ ("use_chat", true) ∷ ("manage_settings", true) ∷ [])
    ∷ (
      "blacklist",
      ("enabled", true) ∷ ("view_only", false) ∷ ("add", true) ∷ ("remove", true) ∷ [],
    )
    ∷ ("specialists", ("enabled", true) ∷ ("view_only", false) ∷ ("edit_profiles", true) ∷ [])
    ∷ (
      "staff",
      ("enabled", false)
          ∷ ("view_list", false)
          ∷ ("create", false)
          ∷ ("manage_permissions", false)
          ∷ [],
    )
    ∷ ("settings", ("enabled", true) ∷ ("view_only", false) ∷ ("edit", true) ∷ [])
    ∷ ("audit_log", ("enabled", true) ∷ [])
    ∷ []

unfoldable pub master_permissions : Permissions
unfolding salon_dashboard_all_off master_dashboard_master_defaults
master_permissions =
    ("salon_dashboard", salon_dashboard_all_off)
    ∷ ("master_dashboard", master_dashboard_master_defaults)
    ∷ (
      "bookings",
      ("enabled", true)
          ∷ ("view_all", false)
          ∷ ("create", true)
          ∷ ("edit", true)
          ∷ ("cancel", true)
          ∷ ("view_client_contacts", true)
          ∷ ("view_calendar_booking_phones", false)
          ∷ [],
    )
    ∷ (
      "clients",
      ("enabled", true)
          ∷ ("view_all", false)
          ∷ ("view_phones", false)
          ∷ ("export", false)
          ∷ ("create", false)
          ∷ ("edit", false)
          ∷ ("delete", false)
          ∷ ("view_history", true)
          ∷ [],
    )
    ∷ (
      "chats",
      ("enabled", true) ∷ ("view_all", false) ∷ ("reply", true) ∷ ("view_history", true) ∷ [],
    )
    ∷ (
      "schedule",
      ("enabled", true) ∷ ("view_all", false) ∷ ("edit_own", true) ∷ ("edit_others", false) ∷ [],
    )
    ∷ (
      "formulas",
      ("enabled", true)
          ∷ ("view_all", false)
          ∷ ("create", true)
          ∷ ("edit", true)
          ∷ ("delete", false)
          ∷ [],
    )
    ∷ ("analytics", ("enabled", true) ∷ ("view_all", false) ∷ ("view_financial", false) ∷ [])
    ∷ (
      "broadcasts",
      ("enabled", false) ∷ ("create", false) ∷ ("send", false) ∷ ("view_stats", false) ∷ [],
    )
    ∷ (
      "services",
      ("enabled", false) ∷ ("view_only", true) ∷ ("create_edit", false) ∷ ("delete", false) ∷ [],
    )
    ∷ (
      "inventory",
      ("enabled", false)
          ∷ ("view_only", false)
          ∷ ("edit_stock", false)
          ∷ ("manage_items", false)
          ∷ [],
    )
    ∷ ("ai", ("enabled", false) ∷ ("use_chat", false) ∷ ("manage_settings", false) ∷ [])
    ∷ (
      "blacklist",
      ("enabled", false) ∷ ("view_only", false) ∷ ("add", false) ∷ ("remove", false) ∷ [],
    )
    ∷ ("specialists", ("enabled", false) ∷ ("view_only", false) ∷ ("edit_profiles", false) ∷ [])
    ∷ (
      "staff",
      ("enabled", false)
          ∷ ("view_list", false)
          ∷ ("create", false)
          ∷ ("manage_permissions", false)
          ∷ [],
    )
    ∷ ("settings", ("enabled", false) ∷ ("view_only", false) ∷ ("edit", false) ∷ [])
    ∷ ("audit_log", ("enabled", false) ∷ [])
    ∷ []

unfoldable pub reception_permissions : Permissions
unfolding salon_dashboard_reception master_dashboard_disabled
reception_permissions =
    ("salon_dashboard", salon_dashboard_reception)
    ∷ ("master_dashboard", master_dashboard_disabled)
    ∷ (
      "bookings",
      ("enabled", true)
          ∷ ("view_all", true)
          ∷ ("create", true)
          ∷ ("edit", true)
          ∷ ("cancel", true)
          ∷ ("view_client_contacts", true)
          ∷ ("view_calendar_booking_phones", true)
          ∷ [],
    )
    ∷ (
      "clients",
      ("enabled", true)
          ∷ ("view_all", true)
          ∷ ("view_phones", true)
          ∷ ("export", false)
          ∷ ("create", true)
          ∷ ("edit", true)
          ∷ ("delete", false)
          ∷ ("view_history", true)
          ∷ [],
    )
    ∷ (
      "chats",
      ("enabled", true) ∷ ("view_all", true) ∷ ("reply", true) ∷ ("view_history", true) ∷ [],
    )
    ∷ (
      "schedule",
      ("enabled", true) ∷ ("view_all", true) ∷ ("edit_own", true) ∷ ("edit_others", false) ∷ [],
    )
    ∷ (
      "formulas",
      ("enabled", true)
          ∷ ("view_all", true)
          ∷ ("create", false)
          ∷ ("edit", false)
          ∷ ("delete", false)
          ∷ [],
    )
    ∷ ("analytics", ("enabled", false) ∷ ("view_all", false) ∷ ("view_financial", false) ∷ [])
    ∷ (
      "broadcasts",
      ("enabled", false) ∷ ("create", false) ∷ ("send", false) ∷ ("view_stats", false) ∷ [],
    )
    ∷ (
      "services",
      ("enabled", false) ∷ ("view_only", true) ∷ ("create_edit", false) ∷ ("delete", false) ∷ [],
    )
    ∷ (
      "inventory",
      ("enabled", false)
          ∷ ("view_only", false)
          ∷ ("edit_stock", false)
          ∷ ("manage_items", false)
          ∷ [],
    )
    ∷ ("ai", ("enabled", false) ∷ ("use_chat", false) ∷ ("manage_settings", false) ∷ [])
    ∷ (
      "blacklist",
      ("enabled", true) ∷ ("view_only", false) ∷ ("add", true) ∷ ("remove", true) ∷ [],
    )
    ∷ ("specialists", ("enabled", false) ∷ ("view_only", false) ∷ ("edit_profiles", false) ∷ [])
    ∷ (
      "staff",
      ("enabled", false)
          ∷ ("view_list", false)
          ∷ ("create", false)
          ∷ ("manage_permissions", false)
          ∷ [],
    )
    ∷ ("settings", ("enabled", false) ∷ ("view_only", false) ∷ ("edit", false) ∷ [])
    ∷ ("audit_log", ("enabled", false) ∷ [])
    ∷ []
