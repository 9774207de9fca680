-- ===== src/Leads/Service/Convert.antt =====
-- apps/web/src/features/leads/service.ts: `convertLead`.
use heritage_philippines_v.Prelude.{
  ℕ, Bool, true, false, Option, none, some, List, [], ◌∷◌, ◌==◌, find, if◌then◌else◌,
}
use heritage_philippines_v.Transaction.{Schedule, pure, gets, require, or_throw, ◌>>=◌, ◌>>◌}
use heritage_philippines_v.Payments.Model.{AuthenticatedUser}
use heritage_philippines_v.Crm.Model.{LeadRecord, Assignment, qualified, converted_to_client}
use heritage_philippines_v.Crm.Store.{CrmStore, Runtime, insert_audit_row}
use heritage_philippines_v.Crm.Calls.{permit, run_with_conflict}
use heritage_philippines_v.Assignments.Model.{TargetKind}
use heritage_philippines_v.Assignments.Audit.{sanitize_assignment_snapshot}
use heritage_philippines_v.Assignments.Repository.{
  find_active_assignment_for_lead, find_active_assignment_for_client, create_assignment,
}
use heritage_philippines_v.Assignments.Service.{assignment_row}
use heritage_philippines_v.Assignments.Authorization.{can_access_lead, can_access_client}
use heritage_philippines_v.Leads.Transitions.{status_eq}
use heritage_philippines_v.Leads.Audit.{
  lead_audit_entity_type, sanitize_client_created_snapshot, sanitize_lead_conversion_snapshot,
  parse_conversion_audit_state,
}
use heritage_philippines_v.Leads.Repository.{LeadActor}
use heritage_philippines_v.Leads.Matches.{
  ContactParams, DuplicateMatchRow, find_duplicate_client_matches,
}
use heritage_philippines_v.Leads.Conversion.{
  ClientSummary, find_client_summary_by_id, create_client_from_lead, convert_lead_with_history,
  find_lead_conversion_audit,
}
use heritage_philippines_v.Leads.Service.Actors.{
  client_link_not_available, client_match_requires_link, lead_conflict, LeadTx, LeadAction,
  as_lead_actor, not_found_or_forbidden, find_lead_or_refuse, still_assigned,
}

pub record ConvertLeadResult : Type 0 where
  pub lead : LeadRecord
  pub client : ClientSummary
  pub client_created : Bool

abbrev pub check_client : LeadActor → Option ℕ → LeadTx (Unit {0})
check_client actor none = pure tt
check_client actor (some client_id) = do
  active ← gets (find_active_assignment_for_client client_id)
  require (still_assigned actor active) client_link_not_available

-- A consultant links only a client that is still assigned to them.
unfoldable pub recheck_client : LeadActor → Option ℕ → LeadTx (Unit {0})
recheck_client = check_client

-- Not `input.clientId && input.clientId !== found.clientId`.
abbrev pub links_to : Option ℕ → ℕ → Bool
links_to none client_id = true
links_to (some wanted) client_id = wanted == client_id

-- A lead that is converted already: the answer of its conversion, from its audit row.
unfoldable pub replay_conversion : ℕ → Option ℕ → LeadRecord → LeadTx ConvertLeadResult
replay_conversion id wanted found = do
  client_id ← or_throw found.client_id lead_conflict
  require (links_to wanted client_id) lead_conflict
  after_state ← gets (find_lead_conversion_audit id)
  state ← or_throw (parse_conversion_audit_state after_state) lead_conflict
  require (state.client_id == client_id) lead_conflict
  summary ← gets (find_client_summary_by_id client_id)
  client ← or_throw summary lead_conflict
  pure (record { lead = found; client = client; client_created = state.client_created })

abbrev no_matches : List DuplicateMatchRow → Bool
no_matches [] = true
no_matches (m ∷ ms) = false

abbrev pub chosen :
    Runtime → LeadRecord → Option ℕ → List DuplicateMatchRow → LeadTx (ClientSummary × Bool)
chosen w found none matches = do
  require (no_matches matches) client_match_requires_link
  client ← create_client_from_lead (w.random_uuid 0) found
  pure (client, true)
chosen w found (some client_id) matches = do
  matched ← or_throw (find (λ m. m.id == client_id) matches) client_link_not_available
  pure (record { id = matched.id; full_name = matched.full_name }, false)

-- The client of the lead, and whether it is a new one.
unfoldable pub choose_client :
    Runtime → LeadRecord → Option ℕ → List DuplicateMatchRow → LeadTx (ClientSummary × Bool)
choose_client = chosen

abbrev pub inherited :
    Runtime → LeadActor → ClientSummary × Bool → Option Assignment → LeadTx (Unit {0})
inherited w actor (client, false) active = pure tt
inherited w actor (client, true) none = pure tt
inherited w actor (client, true) (some active) = do
  assignment ← create_assignment (
      assignment_row w.now TargetKind.client client.id (w.random_uuid 1) active.assigned_staff_id
        actor.id)
  insert_audit_row (record {
    actor_id = actor.id;
    action = "CLIENT_ASSIGNMENT_CREATED";
    entity_type = "Client";
    entity_id = client.id;
    before_state = none;
    after_state = some (sanitize_assignment_snapshot assignment);
  })

-- A new client is assigned to the consultant of the lead.
unfoldable pub inherit_assignment :
    Runtime → LeadActor → ClientSummary × Bool → Option Assignment → LeadTx (Unit {0})
inherit_assignment = inherited

abbrev pub created_audit : LeadActor → ℕ → LeadRecord → ClientSummary × Bool → LeadTx (Unit {0})
created_audit actor id found (client, false) = pure tt
created_audit actor id found (client, true) = insert_audit_row (record {
  actor_id = actor.id;
  action = "CLIENT_CREATED";
  entity_type = "Client";
  entity_id = client.id;
  before_state = none;
  after_state = some (sanitize_client_created_snapshot id found.email found.phone);
})

unfoldable pub audit_client_created :
    LeadActor → ℕ → LeadRecord → ClientSummary × Bool → LeadTx (Unit {0})
audit_client_created = created_audit

abbrev pub params_of : LeadRecord → ContactParams
params_of l = record {
  normalized_email = l.normalized_email;
  normalized_phone = l.normalized_phone;
}

unfoldable pub convert_anew :
    Runtime → LeadActor → ℕ → Option ℕ → LeadRecord → Option Assignment → LeadTx ConvertLeadResult
convert_anew w actor id wanted found active = do
  require (status_eq found.status qualified) lead_conflict
  matches ← gets (find_duplicate_client_matches (params_of found))
  choice ← choose_client w found wanted matches
  inherit_assignment w actor choice active
  updated ← convert_lead_with_history w.now (w.random_uuid 2) id choice.0.id actor.id
  audit_client_created actor id found choice
  insert_audit_row (record {
    actor_id = actor.id;
    action = "LEAD_CONVERTED_TO_CLIENT";
    entity_type = lead_audit_entity_type;
    entity_id = id;
    before_state = none;
    after_state = some (sanitize_lead_conversion_snapshot choice.0.id choice.1);
  })
  pure (record { lead = updated; client = choice.0; client_created = choice.1 })

unfoldable pub convert_lead_body : Runtime → LeadActor → ℕ → Option ℕ → LeadTx ConvertLeadResult
unfolding replay_conversion convert_anew
convert_lead_body w actor id wanted = do
  found ← find_lead_or_refuse actor id
  active ← gets (find_active_assignment_for_lead id)
  require (still_assigned actor active) (not_found_or_forbidden actor)
  recheck_client actor wanted
  (if status_eq found.status converted_to_client
      then replay_conversion id wanted found
      else convert_anew w actor id wanted found active)

abbrev pub client_allowed : AuthenticatedUser → Option ℕ → CrmStore → Bool
client_allowed actor none s = true
client_allowed actor (some client_id) s = can_access_client actor client_id s

unfoldable pub convert_lead :
    Runtime → Schedule CrmStore → AuthenticatedUser → ℕ → Option ℕ → LeadAction ConvertLeadResult
unfolding as_lead_actor permit run_with_conflict
convert_lead w schedule actor id wanted = as_lead_actor actor (λ a s.
    permit (can_access_lead actor id s) (not_found_or_forbidden a)
      (permit (client_allowed actor wanted s) client_link_not_available
        (run_with_conflict lead_conflict schedule (convert_lead_body w a id wanted)))
      s)
