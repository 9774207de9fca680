-- ===== src/Leads/Service/Actors.antt =====
-- apps/web/src/features/leads/errors.ts, and the checks of leads/service.ts that come before a
-- transaction or first in it.
use heritage_philippines_v.Prelude.{ℕ, Bool, true, Option, none, some}
use heritage_philippines_v.Transaction.{
  domain, err, Action, Schedule, gets, require, or_throw, ◌>>=◌,
}
use heritage_philippines_v.Transaction.Retry.{settle}
use heritage_philippines_v.Payments.Model.{Role, AuthenticatedUser}
use heritage_philippines_v.Crm.Model.{Assignment, LeadRecord}
use heritage_philippines_v.Crm.Store.{CrmStore, CrmTx}
use heritage_philippines_v.Assignments.Repository.{find_active_assignment_for_lead}
use heritage_philippines_v.Assignments.Authorization.{is_assigned_to}
use heritage_philippines_v.Leads.Repository.{LeadActor, LeadActorRole, find_lead_by_id}

pub data LeadErrorCode : Type 0 where
  validation_error role_not_permitted lead_not_found lead_forbidden lead_locked : LeadErrorCode
  reason_required invalid_status_transition conversion_endpoint_required : LeadErrorCode
  conversion_not_eligible client_match_requires_link client_link_not_available : LeadErrorCode
  lead_conflict : LeadErrorCode

-- `LeadError.status`
unfoldable pub status_by_code : LeadErrorCode → ℕ
status_by_code validation_error = 400
status_by_code role_not_permitted = 403
status_by_code lead_not_found = 404
status_by_code lead_forbidden = 403
status_by_code lead_locked = 409
status_by_code reason_required = 409
status_by_code invalid_status_transition = 409
status_by_code conversion_endpoint_required = 409
status_by_code conversion_not_eligible = 409
status_by_code client_match_requires_link = 409
status_by_code client_link_not_available = 409
status_by_code lead_conflict = 409

abbrev pub LeadTx : Type 0 → Type 0
LeadTx = CrmTx LeadErrorCode

abbrev pub LeadAction : Type 0 → Type 0
LeadAction = Action CrmStore LeadErrorCode

unfoldable pub assert_lead_actor : AuthenticatedUser → Option LeadActor
assert_lead_actor actor = elim actor.role [
  | Role.admin_manager ↦ some (record { id = actor.id; role = LeadActorRole.admin_manager })
  | Role.travel_consultant ↦ some (record { id = actor.id; role = LeadActorRole.travel_consultant })
  | _ ↦ none
]

abbrev pub permitted : {A : Type 0} → Option LeadActor → (LeadActor → LeadAction A) → LeadAction A
permitted none body s = (err (domain role_not_permitted), s)
permitted (some a) body s = body a s

-- `assertLeadActor(actor)`, and the rest of the call.
unfoldable pub as_lead_actor :
    {A : Type 0} → AuthenticatedUser → (LeadActor → LeadAction A) → LeadAction A
unfolding assert_lead_actor
as_lead_actor actor body = permitted (assert_lead_actor actor) body

abbrev pub not_found_or_forbidden : LeadActor → LeadErrorCode
not_found_or_forbidden actor = elim actor.role [
  | LeadActorRole.admin_manager ↦ lead_not_found
  | LeadActorRole.travel_consultant ↦ lead_forbidden
]

abbrev pub still_assigned : LeadActor → Option Assignment → Bool
still_assigned actor active = elim actor.role [
  | LeadActorRole.admin_manager ↦ true
  | LeadActorRole.travel_consultant ↦ is_assigned_to actor.id active
]

-- The check that a transaction of a consultant makes first: the lead is still assigned to them.
unfoldable pub recheck_assignment : LeadActor → ℕ → LeadTx (Unit {0})
recheck_assignment actor id = do
  active ← gets (find_active_assignment_for_lead id)
  require (still_assigned actor active) (not_found_or_forbidden actor)

unfoldable pub find_lead_or_refuse : LeadActor → ℕ → LeadTx LeadRecord
find_lead_or_refuse actor id = do
  found ← gets (find_lead_by_id id)
  or_throw found (not_found_or_forbidden actor)

-- `prisma.$transaction`: one attempt.
unfoldable pub run_plain : {A : Type 0} → Schedule CrmStore → LeadTx A → LeadAction A
run_plain schedule fn s =
    let now = schedule.attempt 1 in let start = now.others s in settle now.outcome start (fn start)
