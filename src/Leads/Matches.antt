-- ===== src/Leads/Matches.antt =====
-- apps/web/src/features/leads/repository.ts: the leads and clients with the same normalized email or
-- phone.
use heritage_philippines_v.Prelude.{
  ℕ, Bool, true, false, not, Option, none, some, List, [], ◌∷◌, ◌++◌, map, ◌&&◌, ◌||◌, ◌==◌, select,
  if◌then◌else◌,
}
use heritage_philippines_v.Payments.Model.{Text}
use heritage_philippines_v.Payments.Currencies.{text_eq}
use heritage_philippines_v.Crm.Model.{LeadStatus, LeadRecord, Client}
use heritage_philippines_v.Crm.Store.{CrmStore, is_present}

pub data MatchedOn : Type 0 where
  by_email by_phone : MatchedOn

-- The `params` of a search: what is absent or empty is not searched for.
pub record ContactParams : Type 0 where
  pub normalized_email : Option Text
  pub normalized_phone : Option Text

abbrev pub same_text : Option Text → Option Text → Bool
same_text none u = false
same_text (some t) none = false
same_text (some t) (some u) = text_eq t u

-- `params.x && row.x === params.x`
abbrev pub hits : Option Text → Option Text → Bool
hits wanted actual = is_present wanted && same_text actual wanted

abbrev pub compute_matched_on : Option Text → Option Text → ContactParams → List MatchedOn
compute_matched_on email phone params =
    (if hits params.normalized_email email then by_email ∷ [] else [])
    ++ (if hits params.normalized_phone phone then by_phone ∷ [] else [])

-- The `OR` of the conditions; with no condition there is no match.
abbrev pub is_match : Option Text → Option Text → ContactParams → Bool
is_match email phone params =
    hits params.normalized_email email || hits params.normalized_phone phone

pub record LeadDuplicateMatchRow : Type 0 where
  pub id : ℕ
  pub full_name : Text
  pub status : LeadStatus
  pub matched_on : List MatchedOn

pub record DuplicateMatchRow : Type 0 where
  pub id : ℕ
  pub full_name : Text
  pub matched_on : List MatchedOn

abbrev is_other : Option ℕ → LeadRecord → Bool
is_other none l = true
is_other (some excluded) l = not (l.id == excluded)

unfoldable pub find_duplicate_lead_matches :
    ContactParams → Option ℕ → CrmStore → List LeadDuplicateMatchRow
find_duplicate_lead_matches params exclude_id s =
    map
      (λ l. record {
        id = l.id;
        full_name = l.full_name;
        status = l.status;
        matched_on = compute_matched_on l.normalized_email l.normalized_phone params;
      })
      (select (λ l. is_match l.normalized_email l.normalized_phone params && is_other exclude_id l)
        s.leads)

abbrev pub client_match_row : ContactParams → Client → DuplicateMatchRow
client_match_row params c = record {
  id = c.id;
  full_name = c.full_name;
  matched_on = compute_matched_on c.normalized_email c.normalized_phone params;
}

unfoldable pub find_duplicate_client_matches : ContactParams → CrmStore → List DuplicateMatchRow
find_duplicate_client_matches params s =
    map (client_match_row params)
      (select (λ c. is_match c.normalized_email c.normalized_phone params) s.clients)
