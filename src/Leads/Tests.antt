-- ===== src/Leads/Tests.antt =====
-- The laws of leads on a concrete store.
use heritage_philippines_v.Prelude.{
  ℕ, true, none, some, [], ◌∷◌, ◌≡◌, ◌+◌, refl, arith, ◌&&◌, select,
}
use heritage_philippines_v.Transaction.{Schedule, ok, committed, ◌>>=◌, ◌>>◌}
use heritage_philippines_v.Payments.Model.{Role, AuthenticatedUser}
use heritage_philippines_v.Crm.Model.{
  AuditState, new, contacted, qualified, converted_to_client, spam, LeadRecord, Client, AuditLog,
}
use heritage_philippines_v.Crm.Store.{
  CrmStore, Runtime, write_unless, updated_row, insert_audit_row,
}
use heritage_philippines_v.Assignments.Model.{TargetKind}
use heritage_philippines_v.Assignments.Slots.{OneActive}
use heritage_philippines_v.Assignments.Repository.{find_active, find_active_assignment_for_lead}
use heritage_philippines_v.Assignments.Service.{assignment_row}
use heritage_philippines_v.Leads.Transitions.{allowed, get_transition_outcome, is_reason_required}
use heritage_philippines_v.Leads.Transitions.Laws.{
  outcome_by_stage, get_transition_outcome-stage, is_reason_required-stage, stage, asks_reason,
}
use heritage_philippines_v.Leads.Repository.{
  LeadActor, LeadActorRole, find_lead, find_lead_by_id, set_lead, with_status, history_row,
}
use heritage_philippines_v.Leads.Reads.{ListLeadsParams, matching_leads, history_of}
use heritage_philippines_v.Leads.Audit.{
  sanitize_lead_conversion_snapshot, sanitize_client_created_snapshot,
}
use heritage_philippines_v.Leads.Conversion.{
  ClientSummary, converted, find_client, create_client_from_lead, convert_lead_with_history,
}
use heritage_philippines_v.Leads.Service.Convert.{
  ConvertLeadResult, convert_anew, choose_client, inherit_assignment, audit_client_created,
  replay_conversion,
}
use heritage_philippines_v.Leads.Replay.{answer_of, convert_anew-replayed}
use Prim.Native.String.{String}
use heritage_philippines_v.Leads.Matches.{ContactParams, find_duplicate_client_matches}
use heritage_philippines_v.Leads.Service.Actors.{assert_lead_actor}
use heritage_philippines_v.Leads.Service.Create.{CreateLeadInput}
use heritage_philippines_v.Leads.Service.Duplicates.{find_duplicate_matches}
use heritage_philippines_v.Leads.Service.Status.{UpdateLeadStatusInput, update_lead_status_body}
use heritage_philippines_v.Leads.Lifecycle.{LeadsFit}
use heritage_philippines_v.Leads.Lifecycle.Reached.{CrmReaches-LeadsFit}
use heritage_philippines_v.Leads.Kept.Calling.{CrmRequest, serve}
use heritage_philippines_v.Leads.Kept.Reaching.{CrmReaches, stay, after_call}
use heritage_philippines_v.Leads.Moves.{
  status_audit, update_lead_status_body-move_answer, update_lead_status_body-again,
}
use heritage_philippines_v.Leads.Scope.{
  matching_leads-can_access_lead, passes, find_duplicate_matches-visible, visible_matches,
}
use heritage_philippines_v.Assignments.Authorization.{can_access_lead}

abbrev runtime : Runtime
runtime = record {
  to_lower_case = λ t. t;
  contains = λ t u. true;
  random_uuid = λ n. 100 + n;
  now = 5;
  by_name = λ us. us;
}

-- No other transaction commits meanwhile, and every attempt commits.
abbrev alone : Schedule CrmStore
alone = record { attempt = λ n. record { others = λ s. s; outcome = committed }; settled = λ s. s }

abbrev admin : AuthenticatedUser
admin = record { id = 1; role = Role.admin_manager }

abbrev consultant : AuthenticatedUser
consultant = record { id = 2; role = Role.travel_consultant }

abbrev empty : CrmStore
empty = record {
  leads = [];
  history = [];
  clients = [];
  bookings = [];
  assignments = [];
  users = [];
  profiles = [];
  audit_log = [];
}

abbrev ana : CreateLeadInput
ana = record {
  full_name = 65 ∷ 110 ∷ 97 ∷ [];
  source = 119 ∷ [];
  email = none;
  phone = some (57 ∷ []);
  notes = none;
}

abbrev to_qualified : CrmRequest
to_qualified =
    CrmRequest.move 100 (record { expected_status = new; new_status = qualified; reason = none })

abbrev unassign_lead : CrmRequest
unassign_lead = CrmRequest.unassign TargetKind.lead 100 (120 ∷ [])

abbrev created_store : CrmStore
created_store = serve runtime alone consultant (CrmRequest.create ana) empty

abbrev converted_store : CrmStore
converted_store =
    serve runtime alone admin (CrmRequest.convert 100 none)
      (serve runtime alone consultant to_qualified created_store)

-- Ana's lead is created by a consultant, moved to QUALIFIED and converted, and the consultant's
-- assignment is ended.
requests : CrmReaches empty (serve runtime alone admin unassign_lead converted_store)
requests =
    after_call runtime alone admin unassign_lead
      (after_call runtime alone admin (CrmRequest.convert 100 none)
        (after_call runtime alone consultant to_qualified
          (after_call runtime alone consultant (CrmRequest.create ana) stay (λ n u. stay)
            (λ u. stay))
          (λ n u. stay) (λ u. stay))
        (λ n u. stay) (λ u. stay))
      (λ n u. stay) (λ u. stay)

empty-LeadsFit : LeadsFit empty
unfolding find_lead history_of
empty-LeadsFit = record { at = λ id. record { follows = tt; linked = tt } }

CrmReaches-LeadsFit_example : LeadsFit (serve runtime alone admin unassign_lead converted_store)
CrmReaches-LeadsFit_example = CrmReaches-LeadsFit requests empty-LeadsFit

get_transition_outcome-stage_example :
    get_transition_outcome spam qualified ≡ outcome_by_stage spam qualified
get_transition_outcome-stage_example = get_transition_outcome-stage spam qualified

is_reason_required-stage_example :
    (is_reason_required contacted spam ≡ asks_reason (stage contacted) spam)
    × (is_reason_required contacted spam ≡ true → get_transition_outcome contacted spam ≡ allowed)
is_reason_required-stage_example = is_reason_required-stage contacted spam

abbrev ben : LeadRecord
ben = record {
  id = 7;
  status = contacted;
  full_name = 66 ∷ [];
  email = none;
  phone = some (57 ∷ []);
  normalized_email = none;
  normalized_phone = some (57 ∷ []);
  source = 119 ∷ [];
  notes = none;
  client_id = none;
  created_at = 2;
  updated_at = 3;
}

-- Ben's lead, assigned to the consultant.
abbrev bens : CrmStore
bens = record empty {
  leads = ben ∷ [];
  assignments = assignment_row 1 TargetKind.lead 7 30 2 1 ∷ [];
}

abbrev actor : LeadActor
actor = record { id = 2; role = LeadActorRole.travel_consultant }

abbrev as_spam : UpdateLeadStatusInput
as_spam = record { expected_status = contacted; new_status = spam; reason = some (120 ∷ []) }

abbrev after_spam : CrmStore
after_spam = record bens {
  leads = set_lead 7 (with_status 5 spam) bens.leads;
  history = history_row 100 7 (some contacted) spam 2 ∷ [];
  audit_log = status_audit runtime actor 7 as_spam bens ben ∷ [];
}

update_lead_status_body-move_answer_example :
    update_lead_status_body runtime actor 7 as_spam bens ≡ ok (with_status 5 spam ben, after_spam)
unfolding find_lead find_active_assignment_for_lead find_active get_transition_outcome
    is_reason_required
update_lead_status_body-move_answer_example =
    update_lead_status_body-move_answer runtime actor 7 as_spam bens ben refl refl

marked :
    update_lead_status_body runtime actor 7 as_spam bens ≡ ok (with_status 5 spam ben, after_spam)
unfolding find_lead find_active_assignment_for_lead find_active get_transition_outcome
    is_reason_required
marked = update_lead_status_body-move_answer runtime actor 7 as_spam bens ben refl refl

-- The same call, now with a stale expected status and no reason.
abbrev spam_again : UpdateLeadStatusInput
spam_again = record { expected_status = new; new_status = spam; reason = none }

update_lead_status_body-again_example :
    update_lead_status_body runtime actor 7 spam_again after_spam
    ≡ ok (with_status 5 spam ben, after_spam)
update_lead_status_body-again_example =
    update_lead_status_body-again runtime runtime actor 7 as_spam spam_again bens after_spam
      (with_status 5 spam ben) refl marked

one_lead : OneActive bens
one_lead = record { at = λ slot. ground arith }

abbrev every_lead : ListLeadsParams
every_lead = record { skip = 0; take = 20; status = none; source = none; search = none }

matching_leads-can_access_lead_example :
    matching_leads runtime actor every_lead bens
    ≡ select (λ l. can_access_lead consultant l.id bens && passes runtime every_lead l) (ben ∷ [])
unfolding assert_lead_actor
matching_leads-can_access_lead_example =
    matching_leads-can_access_lead runtime consultant actor every_lead bens one_lead refl

abbrev bens_phone : ContactParams
bens_phone = record { normalized_email = none; normalized_phone = some (57 ∷ []) }

find_duplicate_matches-visible_example :
    find_duplicate_matches consultant bens_phone none bens
    ≡ visible_matches consultant bens_phone none bens
find_duplicate_matches-visible_example =
    find_duplicate_matches-visible consultant bens_phone none bens

-- Ben's lead once it is qualified, with no assignment.
abbrev ready : LeadRecord
ready = with_status 4 qualified ben

abbrev before : CrmStore
before = record empty { leads = ready ∷ [] }

abbrev by_admin : LeadActor
by_admin = record { id = 1; role = LeadActorRole.admin_manager }

abbrev bens_client : Client
bens_client = record {
  id = 100;
  full_name = 66 ∷ [];
  email = none;
  phone = some (57 ∷ []);
  normalized_email = none;
  normalized_phone = some (57 ∷ []);
}

abbrev bens_summary : ClientSummary
bens_summary = record { id = 100; full_name = 66 ∷ [] }

abbrev result : ConvertLeadResult
result = record {
  lead = converted runtime.now 100 ready;
  client = bens_summary;
  client_created = true;
}

abbrev audit_row : String → String → ℕ → AuditState → AuditLog
audit_row action entity_type entity_id state = record {
  actor_id = 1;
  action = action;
  entity_type = entity_type;
  entity_id = entity_id;
  before_state = none;
  after_state = some state;
}

abbrev after : CrmStore
after = record before {
  leads = converted runtime.now 100 ready ∷ [];
  history = history_row 102 7 (some qualified) converted_to_client 1 ∷ [];
  clients = bens_client ∷ [];
  audit_log =
      audit_row "LEAD_CONVERTED_TO_CLIENT" "Lead" 7 (sanitize_lead_conversion_snapshot 100 true)
      ∷ audit_row "CLIENT_CREATED" "Client" 100
          (sanitize_client_created_snapshot 7 none (some (57 ∷ [])))
      ∷ [];
}

convert_anew-replayed_example :
    (find_lead after.leads 7 ≡ some (converted runtime.now 100 ready))
    × ((c : Client) × (find_client after.clients 100 ≡ some c)
        × (replay_conversion 7 (some 100) (converted runtime.now 100 ready) after
            ≡ ok (answer_of result (record { id = c.id; full_name = c.full_name }), after)))
unfolding convert_anew choose_client inherit_assignment audit_client_created create_client_from_lead
    convert_lead_with_history find_duplicate_client_matches find_lead_by_id find_lead find_client
    write_unless updated_row insert_audit_row ◌>>=◌ ◌>>◌
convert_anew-replayed_example =
    convert_anew-replayed runtime by_admin 7 none (some 100) ready none before after result refl
      refl
