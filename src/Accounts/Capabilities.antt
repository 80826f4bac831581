-- ===== src/Accounts/Capabilities.antt =====
-- accounts/models.py and accounts/capabilities.py: the roles of users, and what each may do.
use spare_part.Base.{Bool, true, false, ◌||◌, List, [], ◌∷◌, Option, none, some, if◌then◌else◌}

-- `User.Role`; `no_role` is an empty or unknown text.
pub data Role : Type 0 where
  operator supervisor technician manager procurement super_admin no_role : Role

abbrev pub same_role : Role → Role → Bool
same_role operator operator = true
same_role supervisor supervisor = true
same_role technician technician = true
same_role manager manager = true
same_role procurement procurement = true
same_role super_admin super_admin = true
same_role no_role no_role = true
same_role _ _ = false

pub record User : Type 0 where
  pub role : Role
  pub is_superuser : Bool
  pub is_authenticated : Bool

-- `r in roles`
abbrev pub in_roles : Role → List Role → Bool
in_roles r [] = false
in_roles r (s ∷ roles) = same_role r s || in_roles r roles

-- `User.is_super_admin_role`
unfoldable pub is_super_admin_role : User → Bool
is_super_admin_role u = same_role u.role super_admin || u.is_superuser

-- `User.has_any_role`
unfoldable pub has_any_role : User → List Role → Bool
unfolding is_super_admin_role
has_any_role u roles = if is_super_admin_role u then true else in_roles u.role roles

-- The keys of the capabilities.
pub data Capability : Type 0 where
  super_full view_issues report_issue validate_issue : Capability
  view_work_orders create_work_order assign_technician issue_parts_to_wo : Capability
  request_part_on_wo approve_part_request raise_part_shortage_report decide_part_shortage_report :
      Capability
  request_external_repair approve_external_repair_request close_or_review_wo execute_work_order :
      Capability
  view_stock stock_in consume_consumables issue_consumables : Capability
  view_consumables create_purchase_request view_procurement_requests view_purchase_orders :
      Capability
  procurement_officer_update procurement_receive pm_schedule_manage tools_search : Capability
  tools_list tools_self_assign tools_assign tools_manage : Capability
  tools_dashboard emergency_wo repair_create repair_list : Capability
  repair_officer repair_manager_accept reports kpi_dashboard : Capability
  audit_log quick_log manage_system_users issue_archive : Capability
  machine_manage : Capability

-- `role_in(*roles)`
abbrev pub role_in : User → List Role → Bool
role_in u roles = is_super_admin_role u || in_roles u.role roles

-- The flag of a user who is signed in.
unfoldable pub granted : User → Capability → Bool
unfolding is_super_admin_role
granted u super_full = is_super_admin_role u || u.is_superuser
granted u audit_log = same_role u.role super_admin || u.is_superuser
granted u manage_system_users = is_super_admin_role u
granted u view_issues = role_in u (operator ∷ supervisor ∷ manager ∷ [])
granted u report_issue = role_in u (operator ∷ supervisor ∷ manager ∷ [])
granted u validate_issue = role_in u (supervisor ∷ manager ∷ [])
granted u view_work_orders = role_in u (technician ∷ manager ∷ supervisor ∷ procurement ∷ [])
granted u create_work_order = role_in u (manager ∷ [])
granted u assign_technician = role_in u (manager ∷ [])
granted u issue_parts_to_wo = role_in u (manager ∷ [])
granted u request_part_on_wo = role_in u (technician ∷ [])
granted u approve_part_request = role_in u (manager ∷ [])
granted u raise_part_shortage_report = role_in u (technician ∷ manager ∷ [])
granted u decide_part_shortage_report = role_in u (manager ∷ super_admin ∷ [])
granted u request_external_repair = role_in u (technician ∷ [])
granted u approve_external_repair_request = role_in u (manager ∷ [])
granted u close_or_review_wo = role_in u (manager ∷ [])
granted u execute_work_order = role_in u (technician ∷ []) || is_super_admin_role u
granted u view_stock = role_in u (manager ∷ procurement ∷ [])
granted u stock_in = role_in u (manager ∷ procurement ∷ [])
granted u consume_consumables = role_in u (operator ∷ technician ∷ [])
granted u issue_consumables = role_in u (supervisor ∷ manager ∷ [])
granted u view_consumables = role_in u (operator ∷ supervisor ∷ technician ∷ manager ∷ [])
granted u create_purchase_request = role_in u (manager ∷ [])
granted u view_procurement_requests = role_in u (manager ∷ procurement ∷ supervisor ∷ [])
granted u view_purchase_orders = role_in u (manager ∷ procurement ∷ super_admin ∷ [])
granted u procurement_officer_update = role_in u (procurement ∷ [])
granted u procurement_receive = role_in u (manager ∷ procurement ∷ [])
granted u pm_schedule_manage = role_in u (manager ∷ [])
granted u tools_search = role_in u (operator ∷ technician ∷ supervisor ∷ manager ∷ [])
granted u tools_list = role_in u (operator ∷ technician ∷ supervisor ∷ manager ∷ [])
granted u tools_self_assign = role_in u (operator ∷ technician ∷ supervisor ∷ manager ∷ [])
granted u tools_assign = role_in u (supervisor ∷ manager ∷ [])
granted u tools_manage = role_in u (manager ∷ [])
granted u tools_dashboard = role_in u (manager ∷ [])
granted u emergency_wo = role_in u (manager ∷ [])
granted u repair_create = role_in u (manager ∷ [])
granted u repair_list = role_in u (manager ∷ procurement ∷ supervisor ∷ [])
granted u repair_officer = role_in u (procurement ∷ [])
granted u repair_manager_accept = role_in u (manager ∷ [])
granted u reports = role_in u (supervisor ∷ technician ∷ manager ∷ procurement ∷ [])
granted u kpi_dashboard = role_in u (supervisor ∷ technician ∷ manager ∷ procurement ∷ [])
granted u quick_log = role_in u (operator ∷ supervisor ∷ technician ∷ manager ∷ [])
granted u issue_archive = role_in u (manager ∷ super_admin ∷ [])
granted u machine_manage = role_in u (manager ∷ [])

-- `get_mms_capabilities`: all flags are down without a signed-in user.
unfoldable pub get_mms_capabilities : Option User → Capability → Bool
unfolding granted
get_mms_capabilities none c = false
get_mms_capabilities (some u) c = if u.is_authenticated then granted u c else false
