-- ===== src/Accounts/Tests.antt =====
-- A few users, and the theorems about accounts/capabilities.py at them.
use spare_part.Base.{◌≡◌, refl, true, false, ◌⊎◌, some}
use spare_part.Accounts.Capabilities.{
  Role, User, Capability, get_mms_capabilities, is_super_admin_role,
}
use spare_part.Accounts.Matrix.{duties_are_separate}

abbrev root : User
root = record { role = Role.manager; is_superuser = true; is_authenticated = true }

abbrev manager_user : User
manager_user = record { role = Role.manager; is_superuser = false; is_authenticated = true }

abbrev guest : User
guest = record { role = Role.super_admin; is_superuser = true; is_authenticated = false }

duties_are_separate_example :
    let may = get_mms_capabilities (some manager_user) in
    ((may Capability.request_part_on_wo ≡ false) ⊎ (may Capability.approve_part_request ≡ false))
    × ((may Capability.request_external_repair ≡ false)
        ⊎ (may Capability.approve_external_repair_request ≡ false))
    × ((may Capability.decide_part_shortage_report ≡ false)
        ⊎ (may Capability.procurement_officer_update ≡ false))
unfolding is_super_admin_role
duties_are_separate_example = duties_are_separate manager_user refl
