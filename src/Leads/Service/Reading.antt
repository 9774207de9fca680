-- ===== src/Leads/Service/Reading.antt =====
-- apps/web/src/features/leads/service.ts: the calls that only read.
use heritage_philippines_v.Prelude.{ℕ, Bool, Option, List, ◌*◌, ◌-◌}
use heritage_philippines_v.Transaction.{pure, gets, require, or_throw, ◌>>=◌, ◌>>◌}
use heritage_philippines_v.Payments.Model.{Text, AuthenticatedUser}
use heritage_philippines_v.Crm.Model.{LeadStatus, qualified}
use heritage_philippines_v.Crm.Store.{Runtime}
use heritage_philippines_v.Crm.Calls.{run_once}
use heritage_philippines_v.Assignments.Authorization.{can_access_lead, can_access_client}
use heritage_philippines_v.Leads.Transitions.{status_eq}
use heritage_philippines_v.Leads.Repository.{LeadActor}
use heritage_philippines_v.Leads.Reads.{
  LeadRecordWithAssignment, LeadStatusHistoryRow, ListLeadsParams, find_lead_by_id_for_read,
  list_leads_for_actor, list_lead_status_history,
}
use heritage_philippines_v.Leads.Matches.{
  MatchedOn, DuplicateMatchRow, find_duplicate_client_matches,
}
use heritage_philippines_v.Leads.Service.Actors.{
  conversion_not_eligible, LeadTx, LeadAction, as_lead_actor, not_found_or_forbidden,
  find_lead_or_refuse,
}
use heritage_philippines_v.Leads.Service.Duplicates.{collect}
use heritage_philippines_v.Leads.Service.Convert.{params_of}

-- `canAccessLead`, and the error of a call whose actor may not see the lead.
unfoldable pub check_access : AuthenticatedUser → LeadActor → ℕ → LeadTx (Unit {0})
check_access actor a id = do
  allowed ← gets (can_access_lead actor id)
  require allowed (not_found_or_forbidden a)

abbrev by_id_body : AuthenticatedUser → ℕ → LeadActor → LeadTx LeadRecordWithAssignment
by_id_body actor id a = do
  check_access actor a id
  found ← gets (find_lead_by_id_for_read id)
  or_throw found (not_found_or_forbidden a)

unfoldable pub get_lead_by_id : AuthenticatedUser → ℕ → LeadAction LeadRecordWithAssignment
unfolding as_lead_actor run_once
get_lead_by_id actor id = as_lead_actor actor (λ a. run_once (by_id_body actor id a))

pub record ListLeadsQuery : Type 0 where
  pub status : Option LeadStatus
  pub source : Option Text
  pub search : Option Text
  pub page : ℕ
  pub page_size : ℕ

pub record ListLeadsResult : Type 0 where
  pub items : List LeadRecordWithAssignment
  pub page : ℕ
  pub page_size : ℕ
  pub total : ℕ

-- `(page - 1) * pageSize`, for a page that counts from 1.
abbrev pub skipped : ℕ → ℕ → ℕ
skipped page page_size = (page - 1) * page_size

abbrev list_params : ListLeadsQuery → ListLeadsParams
list_params query = record {
  skip = skipped query.page query.page_size;
  take = query.page_size;
  status = query.status;
  source = query.source;
  search = query.search;
}

abbrev leads_page : ListLeadsQuery → List LeadRecordWithAssignment × ℕ → ListLeadsResult
leads_page query found = record {
  items = found.0;
  page = query.page;
  page_size = query.page_size;
  total = found.1;
}

abbrev list_body : Runtime → ListLeadsQuery → LeadActor → LeadTx ListLeadsResult
list_body w query a = do
  found ← gets (list_leads_for_actor w a (list_params query))
  pure (leads_page query found)

unfoldable pub list_leads :
    Runtime → AuthenticatedUser → ListLeadsQuery → LeadAction ListLeadsResult
unfolding as_lead_actor run_once
list_leads w actor query = as_lead_actor actor (λ a. run_once (list_body w query a))

pub record ListLeadStatusHistoryResult : Type 0 where
  pub items : List LeadStatusHistoryRow
  pub page : ℕ
  pub page_size : ℕ
  pub total : ℕ

abbrev history_page : ℕ → ℕ → List LeadStatusHistoryRow × ℕ → ListLeadStatusHistoryResult
history_page page page_size found = record {
  items = found.0;
  page = page;
  page_size = page_size;
  total = found.1;
}

abbrev history_body : AuthenticatedUser → ℕ → ℕ → ℕ → LeadActor → LeadTx ListLeadStatusHistoryResult
history_body actor id page page_size a = do
  check_access actor a id
  existing ← find_lead_or_refuse a id
  found ← gets (list_lead_status_history id (skipped page page_size) page_size)
  pure (history_page page page_size found)

unfoldable pub get_lead_status_history :
    AuthenticatedUser → ℕ → ℕ → ℕ → LeadAction ListLeadStatusHistoryResult
unfolding as_lead_actor run_once
get_lead_status_history actor id page page_size =
    as_lead_actor actor (λ a. run_once (history_body actor id page page_size a))

pub record AccessibleConversionCandidate : Type 0 where
  pub id : ℕ
  pub full_name : Text
  pub matched_on : List MatchedOn

pub record ConversionOptions : Type 0 where
  pub accessible_matches : List AccessibleConversionCandidate
  pub restricted_match_detected : Bool

abbrev candidate : DuplicateMatchRow → AccessibleConversionCandidate
candidate m = record { id = m.id; full_name = m.full_name; matched_on = m.matched_on }

abbrev options_of : List AccessibleConversionCandidate × Bool → ConversionOptions
options_of found = record { accessible_matches = found.0; restricted_match_detected = found.1 }

abbrev options_body : AuthenticatedUser → ℕ → LeadActor → LeadTx ConversionOptions
options_body actor id a = do
  check_access actor a id
  found ← find_lead_or_refuse a id
  require (status_eq found.status qualified) conversion_not_eligible
  matches ← gets (find_duplicate_client_matches (params_of found))
  shown ← gets (λ s. collect (λ m. can_access_client actor m.id s) candidate matches)
  pure (options_of shown)

unfoldable pub get_conversion_options : AuthenticatedUser → ℕ → LeadAction ConversionOptions
unfolding as_lead_actor run_once
get_conversion_options actor id = as_lead_actor actor (λ a. run_once (options_body actor id a))
