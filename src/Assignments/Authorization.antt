-- ===== src/Assignments/Authorization.antt =====
-- apps/web/src/features/assignments/authorization.ts: who may see a lead or a client.
use heritage_philippines_v.Prelude.{ℕ, Bool, true, false, Option, none, some, ◌==◌, is_some}
use heritage_philippines_v.Payments.Model.{Role, AuthenticatedUser}
use heritage_philippines_v.Crm.Model.{Assignment}
use heritage_philippines_v.Crm.Store.{CrmStore}
use heritage_philippines_v.Assignments.Repository.{
  find_active_assignment_for_lead, find_active_assignment_for_client, find_client_profile_ownership,
}

-- `active && active.assignedStaffId === actor.id`
abbrev pub is_assigned_to : ℕ → Option Assignment → Bool
is_assigned_to id none = false
is_assigned_to id (some a) = a.assigned_staff_id == id

-- `access.allowed`
unfoldable pub can_access_lead : AuthenticatedUser → ℕ → CrmStore → Bool
can_access_lead actor lead_id s = elim actor.role [
  | Role.admin_manager ↦ true
  | Role.travel_consultant ↦ is_assigned_to actor.id (find_active_assignment_for_lead lead_id s)
  | _ ↦ false
]

unfoldable pub can_access_client : AuthenticatedUser → ℕ → CrmStore → Bool
can_access_client actor client_id s = elim actor.role [
  | Role.admin_manager ↦ true
  | Role.travel_consultant ↦ is_assigned_to actor.id (find_active_assignment_for_client client_id s)
  | Role.client ↦ is_some (find_client_profile_ownership actor.id client_id s)
  | _ ↦ false
]
