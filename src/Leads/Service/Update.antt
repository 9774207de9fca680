-- ===== src/Leads/Service/Update.antt =====
-- apps/web/src/features/leads/service.ts: `updateLead`.
use heritage_philippines_v.Prelude.{
  ℕ, Bool, true, false, not, Option, none, some, List, [], ◌∷◌, ◌++◌, ◌||◌, is_some, if◌then◌else◌,
}
use heritage_philippines_v.Transaction.{Result, ok, err, domain, Schedule, pure, ◌>>=◌, ◌>>◌}
use heritage_philippines_v.Payments.Model.{Text, AuthenticatedUser}
use heritage_philippines_v.Payments.Currencies.{text_eq}
use heritage_philippines_v.Contacts.{normalize_email, normalize_phone}
use heritage_philippines_v.Crm.Model.{LeadRecord, converted_to_client}
use heritage_philippines_v.Crm.Store.{CrmStore, Runtime, is_present, insert_audit_row}
use heritage_philippines_v.Crm.Calls.{permit, run_with_conflict}
use heritage_philippines_v.Assignments.Authorization.{can_access_lead}
use heritage_philippines_v.Leads.Transitions.{status_eq}
use heritage_philippines_v.Leads.Audit.{lead_audit_entity_type, sanitize_lead_update_snapshot}
use heritage_philippines_v.Leads.Repository.{
  LeadActor, UpdateLeadData, given, update_lead_fields, find_lead_by_id,
}
use heritage_philippines_v.Leads.Matches.{ContactParams}
use heritage_philippines_v.Leads.Service.Actors.{
  LeadErrorCode, validation_error, lead_locked, lead_conflict, LeadTx, LeadAction, as_lead_actor,
  not_found_or_forbidden, recheck_assignment,
}
use heritage_philippines_v.Leads.Service.Duplicates.{DuplicateMatchResult, find_duplicate_matches}
use heritage_philippines_v.Leads.Service.Create.{normalized}
use Prim.Native.String.{String}

-- A key that the patch does not have is `none`; `notes`, `email` and `phone` may be null.
pub record UpdateLeadInput : Type 0 where
  pub full_name : Option Text
  pub source : Option Text
  pub email : Option (Option Text)
  pub phone : Option (Option Text)
  pub notes : Option (Option Text)

pub record UpdateLeadResult : Type 0 where
  pub lead : LeadRecord
  pub duplicates : Option DuplicateMatchResult

-- `a !== b` on strings or null
abbrev pub differs : Option Text → Option Text → Bool
differs none none = false
differs none (some u) = true
differs (some t) none = true
differs (some t) (some u) = not (text_eq t u)

-- What the patch changes: a key that it has, with another value than the row's.
abbrev changed_text : Option Text → Text → Option Text
changed_text none old = none
changed_text (some t) old = if text_eq t old then none else some t

abbrev changed_nullable : Option (Option Text) → Option Text → Option (Option Text)
changed_nullable none old = none
changed_nullable (some t) old = if differs t old then some t else none

abbrev normalized_change : (Text → Text) → Option (Option Text) → Option (Option Text)
normalized_change f none = none
normalized_change f (some t) = some (normalized f t)

-- `data` of the update.
unfoldable pub update_data : Runtime → UpdateLeadInput → LeadRecord → UpdateLeadData
update_data w input existing =
    let email = changed_nullable input.email existing.email in
    let phone = changed_nullable input.phone existing.phone in
    record {
      full_name = changed_text input.full_name existing.full_name;
      email = email;
      phone = phone;
      normalized_email = normalized_change (normalize_email w.to_lower_case) email;
      normalized_phone = normalized_change normalize_phone phone;
      source = changed_text input.source existing.source;
      notes = changed_nullable input.notes existing.notes;
    }

abbrev name_if {ℓ} : {A : Type ℓ} → Option A → String → List String
name_if none name = []
name_if (some x) name = name ∷ []

unfoldable pub changed_fields : UpdateLeadData → List String
changed_fields d =
    name_if d.full_name "fullName"
    ++ (name_if d.source "source"
        ++ (name_if d.notes "notes" ++ (name_if d.email "email" ++ name_if d.phone "phone")))

abbrev pub is_empty : List String → Bool
is_empty [] = true
is_empty (x ∷ xs) = false

unfoldable pub update_lead_body :
    Runtime → LeadActor → ℕ → UpdateLeadInput → LeadRecord → LeadTx LeadRecord
unfolding update_data changed_fields
update_lead_body w actor id input existing = do
  recheck_assignment actor id
  result ← update_lead_fields w.now id (update_data w input existing)
  insert_audit_row (record {
    actor_id = actor.id;
    action = "LEAD_UPDATED";
    entity_type = lead_audit_entity_type;
    entity_id = id;
    before_state = none;
    after_state = some (
        sanitize_lead_update_snapshot (changed_fields (update_data w input existing))
          (is_present (given input.email existing.email))
          (is_present (given input.phone existing.phone)));
  })
  pure result

abbrev final_params : UpdateLeadData → LeadRecord → ContactParams
final_params d existing = record {
  normalized_email = given d.normalized_email existing.normalized_email;
  normalized_phone = given d.normalized_phone existing.normalized_phone;
}

-- The duplicates are looked for again when the patch has an email or a phone.
unfoldable pub update_duplicates :
    Runtime
    → AuthenticatedUser
    → ℕ
    → UpdateLeadInput
    → LeadRecord
    → CrmStore
    → Option DuplicateMatchResult
unfolding update_data
update_duplicates w actor id input existing s =
    if is_some input.email || is_some input.phone
    then some (
        find_duplicate_matches actor (final_params (update_data w input existing) existing)
          (some id) s)
    else none

abbrev pub updated_with :
    Option DuplicateMatchResult
    → Result LeadErrorCode LeadRecord × CrmStore
    → Result LeadErrorCode UpdateLeadResult × CrmStore
updated_with d (ok l, s) = (ok (record { lead = l; duplicates = d }), s)
updated_with d (err e, s) = (err e, s)

-- The write, unless the patch changes nothing.
unfoldable pub write_changes :
    Runtime
    → Schedule CrmStore
    → AuthenticatedUser
    → LeadActor
    → ℕ
    → UpdateLeadInput
    → LeadRecord
    → LeadAction UpdateLeadResult
unfolding run_with_conflict update_duplicates changed_fields
write_changes w schedule actor a id input existing s =
    let duplicates = update_duplicates w actor id input existing s in
    if is_empty (changed_fields (update_data w input existing))
    then (ok (record { lead = existing; duplicates = duplicates }), s)
    else updated_with duplicates
        (run_with_conflict lead_conflict schedule (update_lead_body w a id input existing) s)

abbrev pub keeps_contact : UpdateLeadInput → LeadRecord → Bool
keeps_contact input existing =
    is_present (given input.email existing.email) || is_present (given input.phone existing.phone)

-- The rest of the call, once the lead is read.
unfoldable pub update_existing :
    Runtime
    → Schedule CrmStore
    → AuthenticatedUser
    → LeadActor
    → ℕ
    → UpdateLeadInput
    → LeadRecord
    → LeadAction UpdateLeadResult
unfolding permit write_changes
update_existing w schedule actor a id input existing =
    permit (not (status_eq existing.status converted_to_client)) lead_locked (
      permit (keeps_contact input existing) validation_error
        (write_changes w schedule actor a id input existing))

abbrev pub on_found :
    {A : Type 0} → LeadActor → (LeadRecord → LeadAction A) → Option LeadRecord → LeadAction A
on_found a body none s = (err (domain (not_found_or_forbidden a)), s)
on_found a body (some l) s = body l s

unfoldable pub update_lead :
    Runtime
    → Schedule CrmStore
    → AuthenticatedUser
    → ℕ
    → UpdateLeadInput
    → LeadAction UpdateLeadResult
unfolding as_lead_actor permit update_existing
update_lead w schedule actor id input = as_lead_actor actor (λ a s.
    permit (can_access_lead actor id s) (not_found_or_forbidden a)
      (λ s. on_found a (update_existing w schedule actor a id input) (find_lead_by_id id s) s) s)
