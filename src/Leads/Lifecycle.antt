-- ===== src/Leads/Lifecycle.antt =====
-- The life of a lead: the rows of its status history, read from the newest, lead from the status it
-- has back to NEW by moves that the transition matrix or the conversion makes, and a lead has a
-- client exactly when it is converted.
use heritage_philippines_v.Prelude.{ℕ, Option, none, some, List, [], ◌∷◌, ◌≡◌, ◌⊎◌, is_some}
use heritage_philippines_v.Crm.Model.{
  LeadStatus, new, qualified, converted_to_client, LeadRecord, LeadStatusHistory,
}
use heritage_philippines_v.Crm.Store.{CrmStore}
use heritage_philippines_v.Leads.Transitions.{allowed, get_transition_outcome, status_eq}
use heritage_philippines_v.Leads.Repository.{find_lead}
use heritage_philippines_v.Leads.Reads.{history_of}
pub mod Rows
pub mod Steps
pub mod Bodies
pub mod Reached

-- A move of a lead that some code makes.
abbrev pub Move : Option LeadStatus → LeadStatus → Type 0
Move none next = next ≡ new
Move (some current) next =
    (get_transition_outcome current next ≡ allowed)
    ⊎ ((current ≡ qualified) × (next ≡ converted_to_client))

-- The rows, the newest first, lead to the status, or there are none for no lead.
abbrev pub Follows : Option LeadStatus → List LeadStatusHistory → Type 0
Follows none [] = Unit
Follows none (h ∷ hs) = ⊥
Follows (some status) [] = ⊥
Follows (some status) (h ∷ hs) =
    (h.new_status ≡ status) × Move h.previous_status status × Follows h.previous_status hs

abbrev pub status_of : Option LeadRecord → Option LeadStatus
status_of none = none
status_of (some l) = some l.status

-- `clientId` is set when the lead is converted, and only then.
abbrev pub Linked : Option LeadRecord → Type 0
Linked none = Unit
Linked (some l) = is_some l.client_id ≡ status_eq l.status converted_to_client

pub record Lived (lead : Option LeadRecord) (rows : List LeadStatusHistory) : Type 0 where
  pub follows : Follows (status_of lead) rows
  pub linked : Linked lead

pub record LeadsFit (s : CrmStore) : Type 0 where
  pub at : (id : ℕ) → Lived (find_lead s.leads id) (history_of s.history id)
