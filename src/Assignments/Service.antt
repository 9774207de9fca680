-- ===== src/Assignments/Service.antt =====
-- apps/web/src/features/assignments/service.ts: assigning a travel consultant to a lead, a client or
-- a booking, and ending the assignment.
use heritage_philippines_v.Prelude.{
  ℕ, Bool, not, Option, none, some, [], ◌∷◌, ◌++◌, ◌&&◌, is_some, if◌then◌else◌,
}
use heritage_philippines_v.Transaction.{
  Action, Schedule, pure, require, or_throw, or_else, gets, ◌>>=◌, ◌>>◌,
}
use heritage_philippines_v.Payments.Model.{Text, Role, AuthenticatedUser}
use heritage_philippines_v.Crm.Model.{Assignment, AuditState, words}
use heritage_philippines_v.Crm.Store.{CrmStore, CrmTx, Runtime, is_present, insert_audit_row}
use heritage_philippines_v.Crm.Calls.{permit, run_with_conflict}
use heritage_philippines_v.Assignments.Model.{
  AssignmentErrorCode, role_not_permitted, lead_not_found, client_not_found, booking_not_found,
  assignee_not_found, assignee_inactive, assignee_ineligible_role, reason_required,
  assignment_conflict, TargetKind, lead, client, booking, role_eq,
}
use heritage_philippines_v.Assignments.Audit.{
  entity_type, assigned_action, reassigned_action, ended_action, sanitize_assignment_snapshot,
}
use heritage_philippines_v.Assignments.Repository.{
  has_target, find_active_assignment_for_lead, find_active_assignment_for_client,
  find_active_assignment_for_booking, find_assignee_candidate_by_id, create_assignment,
  end_assignment_by_id,
}
use heritage_philippines_v.Assignments.Authorization.{is_assigned_to}
use Prim.Native.String.{String}

abbrev pub AssignmentTx : Type 0 → Type 0
AssignmentTx = CrmTx AssignmentErrorCode

unfoldable pub run_assignment_transaction :
    {A : Type 0} → Schedule CrmStore → AssignmentTx A → Action CrmStore AssignmentErrorCode A
unfolding run_with_conflict
run_assignment_transaction = run_with_conflict assignment_conflict

-- The checks of `assertEligibleAssignee` and of `assertEligibleFinanceAssignee`, for their role.
unfoldable pub assert_eligible : Role → ℕ → AssignmentTx (Unit {0})
assert_eligible role assigned_staff_id = do
  found ← gets (find_assignee_candidate_by_id assigned_staff_id)
  candidate ← or_throw found assignee_not_found
  require candidate.is_active assignee_inactive
  require (role_eq candidate.role role) assignee_ineligible_role

unfoldable pub assert_eligible_assignee : ℕ → AssignmentTx (Unit {0})
unfolding assert_eligible
assert_eligible_assignee = assert_eligible Role.travel_consultant

abbrev pub not_found_error : TargetKind → AssignmentErrorCode
not_found_error lead = lead_not_found
not_found_error client = client_not_found
not_found_error booking = booking_not_found

unfoldable pub find_active_assignment : TargetKind → ℕ → CrmStore → Option Assignment
unfolding find_active_assignment_for_lead find_active_assignment_for_client
    find_active_assignment_for_booking
find_active_assignment lead id = find_active_assignment_for_lead id
find_active_assignment client id = find_active_assignment_for_client id
find_active_assignment booking id = find_active_assignment_for_booking id

-- The new row, with the target's own column set.
abbrev pub assignment_row : ℕ → TargetKind → ℕ → ℕ → ℕ → ℕ → Assignment
assignment_row now kind target_id id assigned_staff_id assigned_by_user_id = record {
  id = id;
  assigned_staff_id = assigned_staff_id;
  assigned_by_user_id = assigned_by_user_id;
  role = Role.travel_consultant;
  lead_id = elim kind [ lead ↦ some target_id | _ ↦ none ];
  client_id = elim kind [ client ↦ some target_id | _ ↦ none ];
  booking_id = elim kind [ booking ↦ some target_id | _ ↦ none ];
  ended_at = none;
  created_at = now;
  updated_at = now;
}

-- `active && active.assignedStaffId === assignedStaffId`: the answer is that row.
abbrev pub unchanged : ℕ → Option Assignment → Option Assignment
unchanged assigned_staff_id none = none
unchanged assigned_staff_id (some a) =
    if is_assigned_to assigned_staff_id (some a) then some a else none

abbrev pub end_found : ℕ → Option Assignment → AssignmentTx (Unit {0})
end_found now none = pure tt
end_found now (some a) = end_assignment_by_id now a.id >>= (λ row. pure tt)

-- `if (active) await repository.endAssignmentById(tx, active.id)`
unfoldable pub end_active : ℕ → Option Assignment → AssignmentTx (Unit {0})
end_active = end_found

abbrev pub snapshot_before : Option Assignment → Option AuditState
snapshot_before none = none
snapshot_before (some a) = some (sanitize_assignment_snapshot a)

-- `...(reason ? { reason } : {})`
abbrev pub reason_key : Option Text → AuditState
reason_key none = []
reason_key (some []) = []
reason_key (some (c ∷ t)) = ("reason", words (c ∷ t)) ∷ []

abbrev pub replacement_action : TargetKind → Option Assignment → String
replacement_action kind none = assigned_action kind
replacement_action kind (some a) = reassigned_action kind

unfoldable pub assign_anew :
    Runtime → TargetKind → ℕ → ℕ → ℕ → Option Text → Option Assignment → AssignmentTx Assignment
assign_anew w kind actor_id target_id assigned_staff_id reason active = do
  assert_eligible_assignee assigned_staff_id
  require (not (is_some active && not (is_present reason))) reason_required
  end_active w.now active
  created ←
      create_assignment
        (assignment_row w.now kind target_id (w.random_uuid 0) assigned_staff_id actor_id)
  insert_audit_row (record {
    actor_id = actor_id;
    action = replacement_action kind active;
    entity_type = entity_type kind;
    entity_id = target_id;
    before_state = snapshot_before active;
    after_state = some (sanitize_assignment_snapshot created ++ reason_key reason);
  })
  pure created

unfoldable pub set_assignment_body :
    Runtime → TargetKind → ℕ → ℕ → ℕ → Option Text → AssignmentTx Assignment
unfolding assign_anew
set_assignment_body w kind actor_id target_id assigned_staff_id reason = do
  target ← gets (has_target kind target_id)
  require target (not_found_error kind)
  active ← gets (find_active_assignment kind target_id)
  or_else (unchanged assigned_staff_id active)
      (assign_anew w kind actor_id target_id assigned_staff_id reason active)

-- `assertAssignmentMutationActor`
abbrev pub is_admin_manager : AuthenticatedUser → Bool
is_admin_manager actor = role_eq actor.role Role.admin_manager

unfoldable pub set_assignment :
    Runtime
    → Schedule CrmStore
    → TargetKind
    → AuthenticatedUser
    → ℕ
    → ℕ
    → Option Text
    → Action CrmStore AssignmentErrorCode Assignment
unfolding permit run_assignment_transaction
set_assignment w schedule kind actor target_id assigned_staff_id reason =
    permit (is_admin_manager actor) role_not_permitted (
      run_assignment_transaction schedule
        (set_assignment_body w kind actor.id target_id assigned_staff_id reason))

unfoldable pub end_given :
    Runtime → TargetKind → ℕ → ℕ → Text → Option Assignment → AssignmentTx (Option Assignment)
end_given w kind actor_id target_id reason none = pure none
end_given w kind actor_id target_id reason (some active) = do
  row ← end_assignment_by_id w.now active.id
  insert_audit_row (record {
    actor_id = actor_id;
    action = ended_action kind;
    entity_type = entity_type kind;
    entity_id = target_id;
    before_state = some (sanitize_assignment_snapshot active);
    after_state = some (sanitize_assignment_snapshot row ++ (("reason", words reason) ∷ []));
  })
  pure (some row)

unfoldable pub end_assignment_body :
    Runtime → TargetKind → ℕ → ℕ → Text → AssignmentTx (Option Assignment)
unfolding end_given
end_assignment_body w kind actor_id target_id reason = do
  target ← gets (has_target kind target_id)
  require target (not_found_error kind)
  active ← gets (find_active_assignment kind target_id)
  end_given w kind actor_id target_id reason active

unfoldable pub end_assignment :
    Runtime
    → Schedule CrmStore
    → TargetKind
    → AuthenticatedUser
    → ℕ
    → Text
    → Action CrmStore AssignmentErrorCode (Option Assignment)
unfolding permit run_assignment_transaction
end_assignment w schedule kind actor target_id reason =
    permit (is_admin_manager actor) role_not_permitted
      (run_assignment_transaction schedule (end_assignment_body w kind actor.id target_id reason))
