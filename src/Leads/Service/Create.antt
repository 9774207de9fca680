-- ===== src/Leads/Service/Create.antt =====
-- apps/web/src/features/leads/service.ts: `createLead`.
use heritage_philippines_v.Prelude.{ℕ, Option, none, some, [], ◌∷◌}
use heritage_philippines_v.Transaction.{Result, ok, err, Schedule, pure, ◌>>=◌, ◌>>◌}
use heritage_philippines_v.Payments.Model.{Text, AuthenticatedUser}
use heritage_philippines_v.Contacts.{normalize_email, normalize_phone}
use heritage_philippines_v.Crm.Model.{LeadRecord}
use heritage_philippines_v.Crm.Store.{CrmStore, Runtime, insert_audit_row}
use heritage_philippines_v.Assignments.Model.{TargetKind}
use heritage_philippines_v.Assignments.Audit.{sanitize_assignment_snapshot}
use heritage_philippines_v.Assignments.Repository.{create_assignment}
use heritage_philippines_v.Assignments.Service.{assignment_row}
use heritage_philippines_v.Leads.Audit.{lead_audit_entity_type, sanitize_lead_created_snapshot}
use heritage_philippines_v.Leads.Repository.{
  LeadActor, LeadActorRole, CreateLeadRow, create_lead_with_initial_history,
}
use heritage_philippines_v.Leads.Matches.{ContactParams}
use heritage_philippines_v.Leads.Service.Actors.{
  LeadErrorCode, LeadTx, LeadAction, as_lead_actor, run_plain,
}
use heritage_philippines_v.Leads.Service.Duplicates.{DuplicateMatchResult, find_duplicate_matches}

pub record CreateLeadInput : Type 0 where
  pub full_name : Text
  pub source : Text
  pub email : Option Text
  pub phone : Option Text
  pub notes : Option Text

pub record CreateLeadResult : Type 0 where
  pub lead : LeadRecord
  pub duplicates : DuplicateMatchResult

-- `value ? normalize(value) : null`
abbrev pub normalized : (Text → Text) → Option Text → Option Text
normalized f none = none
normalized f (some []) = none
normalized f (some (c ∷ t)) = some (f (c ∷ t))

-- The row of the new lead; its id is the call's first UUID.
abbrev pub create_row : Runtime → ℕ → CreateLeadInput → CreateLeadRow
create_row w actor_id input = record {
  id = w.random_uuid 0;
  history_id = w.random_uuid 1;
  full_name = input.full_name;
  email = input.email;
  phone = input.phone;
  normalized_email = normalized (normalize_email w.to_lower_case) input.email;
  normalized_phone = normalized normalize_phone input.phone;
  source = input.source;
  notes = input.notes;
  changed_by_user_id = actor_id;
}

abbrev pub assign_as : LeadActorRole → Runtime → ℕ → ℕ → LeadTx (Unit {0})
assign_as LeadActorRole.admin_manager w actor_id lead_id = pure tt
assign_as LeadActorRole.travel_consultant w actor_id lead_id = do
  assignment ←
      create_assignment
        (assignment_row w.now TargetKind.lead lead_id (w.random_uuid 2) actor_id actor_id)
  insert_audit_row (record {
    actor_id = actor_id;
    action = "LEAD_ASSIGNMENT_CREATED";
    entity_type = "Lead";
    entity_id = lead_id;
    before_state = none;
    after_state = some (sanitize_assignment_snapshot assignment);
  })

-- A consultant's new lead is assigned to that consultant.
unfoldable pub assign_to_creator : Runtime → LeadActor → ℕ → LeadTx (Unit {0})
assign_to_creator w actor lead_id = assign_as actor.role w actor.id lead_id

unfoldable pub create_lead_body : Runtime → LeadActor → CreateLeadInput → LeadTx LeadRecord
create_lead_body w actor input = do
  created ← create_lead_with_initial_history w.now (create_row w actor.id input)
  insert_audit_row (record {
    actor_id = actor.id;
    action = "LEAD_CREATED";
    entity_type = lead_audit_entity_type;
    entity_id = created.id;
    before_state = none;
    after_state = some (sanitize_lead_created_snapshot created);
  })
  assign_to_creator w actor created.id
  pure created

abbrev pub contact_params : Runtime → CreateLeadInput → ContactParams
contact_params w input = record {
  normalized_email = normalized (normalize_email w.to_lower_case) input.email;
  normalized_phone = normalized normalize_phone input.phone;
}

abbrev pub with_duplicates :
    DuplicateMatchResult
    → Result LeadErrorCode LeadRecord × CrmStore
    → Result LeadErrorCode CreateLeadResult × CrmStore
with_duplicates d (ok l, s) = (ok (record { lead = l; duplicates = d }), s)
with_duplicates d (err e, s) = (err e, s)

unfoldable pub create_lead :
    Runtime → Schedule CrmStore → AuthenticatedUser → CreateLeadInput → LeadAction CreateLeadResult
unfolding as_lead_actor run_plain
create_lead w schedule actor input = as_lead_actor actor (λ a s.
    with_duplicates (find_duplicate_matches actor (contact_params w input) none s)
      (run_plain schedule (create_lead_body w a input) s))
