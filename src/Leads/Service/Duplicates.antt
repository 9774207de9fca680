-- ===== src/Leads/Service/Duplicates.antt =====
-- apps/web/src/features/leads/service.ts: the duplicates of a contact that an actor may see.
use heritage_philippines_v.Prelude.{
  ℕ, Bool, true, false, not, Option, none, some, List, [], ◌∷◌, ◌++◌, ◌&&◌, ◌||◌, if◌then◌else◌,
}
use heritage_philippines_v.Payments.Model.{Text, AuthenticatedUser}
use heritage_philippines_v.Crm.Model.{LeadStatus}
use heritage_philippines_v.Crm.Store.{CrmStore, is_present}
use heritage_philippines_v.Assignments.Authorization.{can_access_lead, can_access_client}
use heritage_philippines_v.Leads.Matches.{
  MatchedOn, ContactParams, LeadDuplicateMatchRow, DuplicateMatchRow, find_duplicate_lead_matches,
  find_duplicate_client_matches,
}

pub data MatchType : Type 0 where
  lead client : MatchType

pub record AuthorizedDuplicateMatch : Type 0 where
  pub type : MatchType
  pub id : ℕ
  pub full_name : Text
  pub status : Option LeadStatus
  pub matched_on : List MatchedOn

pub record DuplicateMatchResult : Type 0 where
  pub duplicate_matches : List AuthorizedDuplicateMatch
  pub restricted_match_detected : Bool

-- The loop over the matches: an accessible one is listed, any other raises the flag.
abbrev pub collect : {A B : Type 0} → (A → Bool) → (A → B) → List A → List B × Bool
collect allowed shape [] = ([], false)
collect allowed shape (x ∷ xs) =
    let rest = collect allowed shape xs in
    if allowed x then (shape x ∷ rest.0, rest.1) else (rest.0, true)

abbrev pub lead_match : LeadDuplicateMatchRow → AuthorizedDuplicateMatch
lead_match m = record {
  type = lead;
  id = m.id;
  full_name = m.full_name;
  status = some m.status;
  matched_on = m.matched_on;
}

abbrev pub client_match : DuplicateMatchRow → AuthorizedDuplicateMatch
client_match m = record {
  type = client;
  id = m.id;
  full_name = m.full_name;
  status = none;
  matched_on = m.matched_on;
}

abbrev pub joined :
    List AuthorizedDuplicateMatch × Bool
    → List AuthorizedDuplicateMatch × Bool
    → DuplicateMatchResult
joined leads clients = record {
  duplicate_matches = leads.0 ++ clients.0;
  restricted_match_detected = leads.1 || clients.1;
}

unfoldable pub find_duplicate_matches :
    AuthenticatedUser → ContactParams → Option ℕ → CrmStore → DuplicateMatchResult
find_duplicate_matches actor params exclude_lead_id s =
    if not (is_present params.normalized_email) && not (is_present params.normalized_phone)
    then record { duplicate_matches = []; restricted_match_detected = false }
    else joined
        (collect (λ m. can_access_lead actor m.id s) lead_match
          (find_duplicate_lead_matches params exclude_lead_id s))
        (collect (λ m. can_access_client actor m.id s) client_match
          (find_duplicate_client_matches params s))
