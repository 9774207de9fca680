-- ===== src/Assignments/Listing.antt =====
-- apps/web/src/features/assignments/service.ts and repository.ts: the lists of staff that may be
-- assigned, and the name that a client's portal shows.
use heritage_philippines_v.Prelude.{
  ℕ, Bool, true, Option, none, some, List, [], ◌∷◌, map, ◌&&◌, ◌||◌, ◌==◌, ◌*◌, ◌-◌, length, find,
  select,
}
use heritage_philippines_v.Transaction.{Action, pure, require, gets, ◌>>=◌, ◌>>◌}
use heritage_philippines_v.Payments.Model.{Text, Role, AuthenticatedUser}
use heritage_philippines_v.Crm.Model.{Assignment, User}
use heritage_philippines_v.Crm.Store.{CrmStore, Runtime}
use heritage_philippines_v.Crm.Calls.{permit, run_once}
use heritage_philippines_v.Assignments.Model.{
  AssignmentErrorCode, role_not_permitted, client_not_found, role_eq,
}
use heritage_philippines_v.Assignments.Repository.{find_active_assignment_for_client}
use heritage_philippines_v.Assignments.Authorization.{can_access_client}
use heritage_philippines_v.Assignments.Service.{AssignmentTx, is_admin_manager}
use heritage_philippines_v.Leads.Reads.{page_of}

pub record EligibleStaff : Type 0 where
  pub id : ℕ
  pub name : Text
  pub email : Text

pub record StaffQuery : Type 0 where
  pub search : Option Text
  pub page : ℕ
  pub page_size : ℕ

pub record StaffPage : Type 0 where
  pub items : List EligibleStaff
  pub page : ℕ
  pub page_size : ℕ
  pub total : ℕ

abbrev is_found : Runtime → Option Text → User → Bool
is_found w none u = true
is_found w (some []) u = true
is_found w (some (c ∷ t)) u = w.contains u.name (c ∷ t) || w.contains u.email (c ∷ t)

abbrev is_eligible : Runtime → Role → Option Text → User → Bool
is_eligible w role search u = role_eq u.role role && u.is_active && is_found w search u

-- The two list queries of the repository, for their role.
unfoldable pub list_eligible :
    Runtime → Role → Option Text → ℕ → ℕ → CrmStore → List EligibleStaff × ℕ
list_eligible w role search skip take s =
    let rows = w.by_name (select (is_eligible w role search) s.users) in
    (
      map (λ u. record { id = u.id; name = u.name; email = u.email }) (page_of skip take rows),
      length rows,
    )

abbrev staff_page : StaffQuery → List EligibleStaff × ℕ → StaffPage
staff_page query found = record {
  items = found.0;
  page = query.page;
  page_size = query.page_size;
  total = found.1;
}

abbrev staff_body : Runtime → Role → StaffQuery → AssignmentTx StaffPage
staff_body w role query = do
  found ←
      gets (list_eligible w role query.search ((query.page - 1) * query.page_size) query.page_size)
  pure (staff_page query found)

unfoldable pub list_eligible_travel_consultants :
    Runtime → AuthenticatedUser → StaffQuery → Action CrmStore AssignmentErrorCode StaffPage
unfolding permit run_once list_eligible
list_eligible_travel_consultants w actor query =
    permit (is_admin_manager actor) role_not_permitted
      (run_once (staff_body w Role.travel_consultant query))

unfoldable pub list_eligible_finance_staff :
    Runtime → AuthenticatedUser → StaffQuery → Action CrmStore AssignmentErrorCode StaffPage
unfolding permit run_once list_eligible
list_eligible_finance_staff w actor query =
    permit (is_admin_manager actor) role_not_permitted
      (run_once (staff_body w Role.finance_accounting query))

abbrev staff_name : List User → Option Assignment → Option Text
staff_name users none = none
staff_name users (some a) = elim (find (λ u. u.id == a.assigned_staff_id) users) [
  | none ↦ none
  | some u ↦ some u.name
]

unfoldable pub find_active_consultant_name_for_client : ℕ → CrmStore → Option Text
find_active_consultant_name_for_client client_id s =
    staff_name s.users (find_active_assignment_for_client client_id s)

abbrev name_body : AuthenticatedUser → ℕ → AssignmentTx (Option Text)
name_body actor client_id = do
  allowed ← gets (can_access_client actor client_id)
  require allowed client_not_found
  gets (find_active_consultant_name_for_client client_id)

unfoldable pub get_active_consultant_name_for_client :
    AuthenticatedUser → ℕ → Action CrmStore AssignmentErrorCode (Option Text)
unfolding permit run_once
get_active_consultant_name_for_client actor client_id =
    permit (role_eq actor.role Role.client) role_not_permitted
      (run_once (name_body actor client_id))
