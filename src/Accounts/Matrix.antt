-- ===== src/Accounts/Matrix.antt =====
-- What the capabilities of accounts/capabilities.py guarantee about who may do what.
use spare_part.Base.{◌≡◌, refl, true, false, Option, none, some, ◌⊎◌, arith}
use spare_part.Accounts.Capabilities.{User, Capability, get_mms_capabilities, is_super_admin_role}

-- A signed-in super admin or superuser has every capability.
super_admin_has_all :
    (u : User) (c : Capability)
    → u.is_authenticated ≡ true
    → is_super_admin_role u ≡ true
    → get_mms_capabilities (some u) c ≡ true
unfolding get_mms_capabilities
super_admin_has_all u Capability.super_full a h = ground arith
super_admin_has_all u _ a h = ground arith

-- Without a signed-in user every capability is refused.
signed_out_has_none :
    (u : Option User) (c : Capability)
    → ((v : User) → u ≡ some v → v.is_authenticated ≡ false)
    → get_mms_capabilities u c ≡ false
unfolding get_mms_capabilities
signed_out_has_none none c h = refl
signed_out_has_none (some u) c h = rw (h u refl)

-- The matrix of capabilities, by which the pages are shown, grants nobody but a super admin both the request of
-- parts and its approval, both the request of an external repair and its approval, or both the decision on a
-- shortage and the update of a procurement officer. It says nothing of the roles that the views admit by
-- themselves.
pub duties_are_separate :
    (u : User)
    → is_super_admin_role u ≡ false
    → let may = get_mms_capabilities (some u) in
      ((may Capability.request_part_on_wo ≡ false) ⊎ (may Capability.approve_part_request ≡ false))
      × ((may Capability.request_external_repair ≡ false)
          ⊎ (may Capability.approve_external_repair_request ≡ false))
      × ((may Capability.decide_part_shortage_report ≡ false)
          ⊎ (may Capability.procurement_officer_update ≡ false))
unfolding get_mms_capabilities
duties_are_separate u h = ground arith

-- The capability to see the page on which an action stands; of the others, the capability itself.
abbrev pub page_of : Capability → Capability
page_of Capability.report_issue = Capability.view_issues
page_of Capability.validate_issue = Capability.view_issues
page_of Capability.create_work_order = Capability.view_work_orders
page_of Capability.assign_technician = Capability.view_work_orders
page_of Capability.issue_parts_to_wo = Capability.view_work_orders
page_of Capability.request_part_on_wo = Capability.view_work_orders
page_of Capability.approve_part_request = Capability.view_work_orders
page_of Capability.raise_part_shortage_report = Capability.view_work_orders
page_of Capability.request_external_repair = Capability.view_work_orders
page_of Capability.approve_external_repair_request = Capability.view_work_orders
page_of Capability.close_or_review_wo = Capability.view_work_orders
page_of Capability.execute_work_order = Capability.view_work_orders
page_of Capability.stock_in = Capability.view_stock
page_of Capability.consume_consumables = Capability.view_consumables
page_of Capability.issue_consumables = Capability.view_consumables
page_of Capability.create_purchase_request = Capability.view_procurement_requests
page_of Capability.procurement_officer_update = Capability.view_purchase_orders
page_of Capability.procurement_receive = Capability.view_purchase_orders
page_of Capability.tools_self_assign = Capability.tools_list
page_of Capability.tools_assign = Capability.tools_list
page_of Capability.tools_manage = Capability.tools_list
page_of Capability.repair_create = Capability.repair_list
page_of Capability.repair_officer = Capability.repair_list
page_of Capability.repair_manager_accept = Capability.repair_list
page_of c = c

-- Whoever may act may see: an action is granted only with the page on which it stands.
actions_have_pages :
    (u : Option User) (c : Capability)
    → get_mms_capabilities u c ≡ true
    → get_mms_capabilities u (page_of c) ≡ true
unfolding get_mms_capabilities
actions_have_pages none c h = absurd (ground arith)
actions_have_pages (some u) Capability.super_full h = h
actions_have_pages (some u) _ h = ground arith
