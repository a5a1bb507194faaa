-- ===== src/Permissions/Defaults/Dashboards.antt =====
-- The flags of the dashboards (frontend/src/lib/page-permissions-defaults.ts).
use hunger_platform.Prelude.{String, Bool, true, false, List, [], ◌∷◌, insert}

abbrev pub SectionPerms : Type 0
SectionPerms = List (String × Bool)

abbrev pub Permissions : Type 0
Permissions = List (String × SectionPerms)

unfoldable pub master_dashboard_disabled : SectionPerms
master_dashboard_disabled =
    ("enabled", false)
    ∷ ("show_kpi_bookings_today", false)
    ∷ ("show_kpi_pending", false)
    ∷ ("show_kpi_revenue_today", false)
    ∷ ("show_kpi_total_clients", false)
    ∷ ("show_section_today", false)
    ∷ ("show_section_upcoming", false)
    ∷ ("show_client_names", false)
    ∷ ("own_clients_only", true)
    ∷ ("show_header_actions", false)
    ∷ ("show_broadcast_banner", false)
    ∷ ("show_bot_banner", false)
    ∷ ("show_kpi_revenue_month", false)
    ∷ ("show_kpi_new_clients_week", false)
    ∷ ("show_kpi_retention", false)
    ∷ ("show_revenue_chart", false)
    ∷ ("show_services_chart", false)
    ∷ ("show_activity_today", false)
    ∷ ("show_pending_confirmations", false)
    ∷ ("show_quick_actions", false)
    ∷ ("show_footer_top_master", false)
    ∷ []

unfoldable pub master_dashboard_master_defaults : SectionPerms
master_dashboard_master_defaults =
    ("enabled", true)
    ∷ ("show_kpi_bookings_today", true)
    ∷ ("show_kpi_pending", true)
    ∷ ("show_kpi_revenue_today", true)
    ∷ ("show_kpi_total_clients", true)
    ∷ ("show_section_today", true)
    ∷ ("show_section_upcoming", true)
    ∷ ("show_client_names", true)
    ∷ ("own_clients_only", true)
    ∷ ("show_header_actions", true)
    ∷ ("show_broadcast_banner", false)
    ∷ ("show_bot_banner", false)
    ∷ ("show_kpi_revenue_month", true)
    ∷ ("show_kpi_new_clients_week", true)
    ∷ ("show_kpi_retention", true)
    ∷ ("show_revenue_chart", true)
    ∷ ("show_services_chart", true)
    ∷ ("show_activity_today", true)
    ∷ ("show_pending_confirmations", true)
    ∷ ("show_quick_actions", true)
    ∷ ("show_footer_top_master", true)
    ∷ []

unfoldable pub salon_dashboard_full : SectionPerms
salon_dashboard_full =
    ("enabled", true)
    ∷ ("show_header_actions", true)
    ∷ ("show_broadcast_banner", true)
    ∷ ("show_bot_banner", true)
    ∷ ("show_kpi_bookings_today", true)
    ∷ ("show_kpi_revenue_month", true)
    ∷ ("show_kpi_new_clients_week", true)
    ∷ ("show_kpi_retention", true)
    ∷ ("show_revenue_chart", true)
    ∷ ("show_services_chart", true)
    ∷ ("show_activity_today", true)
    ∷ ("show_pending_confirmations", true)
    ∷ ("show_quick_actions", true)
    ∷ ("show_footer_top_master", true)
    ∷ ("own_clients_only", false)
    ∷ []

-- `{ ...a, ...b }`
unfoldable pub spread {ℓ} : {V : Type ℓ} → List (String × V) → List (String × V) → List (String × V)
spread a [] = a
spread a ((k, v) ∷ b) = spread (insert k v a) b

unfoldable pub salon_dashboard_reception : SectionPerms
unfolding spread salon_dashboard_full
salon_dashboard_reception = spread salon_dashboard_full (
    ("show_broadcast_banner", false)
    ∷ ("show_bot_banner", false)
    ∷ ("show_footer_top_master", false)
    ∷ [])

-- The loop of `salonDashboardAllOff` over the keys of `salonDashboardFull`.
unfoldable pub all_off : SectionPerms → SectionPerms
all_off [] = []
all_off ((k, _) ∷ s) = (k, false) ∷ all_off s

unfoldable pub salon_dashboard_all_off : SectionPerms
unfolding all_off salon_dashboard_full
salon_dashboard_all_off = all_off salon_dashboard_full
