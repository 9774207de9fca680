-- ===== src/Leads/Service/Status.antt =====
-- apps/web/src/features/leads/service.ts: `updateLeadStatus`.
use heritage_philippines_v.Prelude.{ℕ, not, Option, none, some, ◌&&◌, if◌then◌else◌}
use heritage_philippines_v.Transaction.{Schedule, pure, throw, require, or_else, ◌>>=◌, ◌>>◌}
use heritage_philippines_v.Payments.Model.{Text, AuthenticatedUser}
use heritage_philippines_v.Crm.Model.{LeadStatus, LeadRecord}
use heritage_philippines_v.Crm.Store.{CrmStore, Runtime, is_present, insert_audit_row}
use heritage_philippines_v.Crm.Calls.{permit, run_with_conflict}
use heritage_philippines_v.Assignments.Authorization.{can_access_lead}
use heritage_philippines_v.Leads.Transitions.{
  TransitionOutcome, allowed, rejected, deferred_to_conversion_endpoint, status_eq,
  get_transition_outcome, is_reason_required,
}
use heritage_philippines_v.Leads.Audit.{lead_audit_entity_type, sanitize_lead_status_snapshot}
use heritage_philippines_v.Leads.Repository.{LeadActor, update_lead_status_with_history}
use heritage_philippines_v.Leads.Service.Actors.{
  lead_conflict, conversion_endpoint_required, invalid_status_transition, reason_required, LeadTx,
  LeadAction, as_lead_actor, not_found_or_forbidden, recheck_assignment, find_lead_or_refuse,
}

pub record UpdateLeadStatusInput : Type 0 where
  pub expected_status : LeadStatus
  pub new_status : LeadStatus
  pub reason : Option Text

abbrev outcome_check : TransitionOutcome → LeadTx (Unit {0})
outcome_check allowed = pure tt
outcome_check deferred_to_conversion_endpoint = throw conversion_endpoint_required
outcome_check rejected = throw invalid_status_transition

unfoldable pub check_outcome : TransitionOutcome → LeadTx (Unit {0})
check_outcome = outcome_check

-- The answer of a call that asks for the status that the lead has.
abbrev pub same_status : LeadStatus → LeadRecord → Option LeadRecord
same_status status l = if status_eq l.status status then some l else none

-- The rest of the body, for a lead of another status than the one asked for.
unfoldable pub move_lead :
    Runtime → LeadActor → ℕ → UpdateLeadStatusInput → LeadRecord → LeadTx LeadRecord
move_lead w actor id input found = do
  require (status_eq found.status input.expected_status) lead_conflict
  check_outcome (get_transition_outcome found.status input.new_status)
  require (not (is_reason_required found.status input.new_status && not (is_present input.reason)))
      reason_required
  updated ←
      update_lead_status_with_history w.now (w.random_uuid 0) id found.status input.new_status
        actor.id
  insert_audit_row (record {
    actor_id = actor.id;
    action = "LEAD_STATUS_CHANGED";
    entity_type = lead_audit_entity_type;
    entity_id = id;
    before_state = some (sanitize_lead_status_snapshot found.status none);
    after_state = some (sanitize_lead_status_snapshot updated.status input.reason);
  })
  pure updated

unfoldable pub update_lead_status_body :
    Runtime → LeadActor → ℕ → UpdateLeadStatusInput → LeadTx LeadRecord
unfolding move_lead
update_lead_status_body w actor id input = do
  recheck_assignment actor id
  found ← find_lead_or_refuse actor id
  or_else (same_status input.new_status found) (move_lead w actor id input found)

unfoldable pub update_lead_status :
    Runtime
    → Schedule CrmStore
    → AuthenticatedUser
    → ℕ
    → UpdateLeadStatusInput
    → LeadAction LeadRecord
unfolding as_lead_actor permit run_with_conflict
update_lead_status w schedule actor id input = as_lead_actor actor (λ a s.
    permit (can_access_lead actor id s) (not_found_or_forbidden a)
      (run_with_conflict lead_conflict schedule (update_lead_status_body w a id input)) s)
