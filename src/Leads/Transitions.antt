-- ===== src/Leads/Transitions.antt =====
-- apps/web/src/features/leads/transitions.ts: the moves of a lead's status that the generic
-- endpoint allows, and those that need a reason.
use heritage_philippines_v.Prelude.{Bool, List, [], ◌∷◌, ◌&&◌, ◌==◌, any, if◌then◌else◌, ℕ}
use heritage_philippines_v.Crm.Model.{
  LeadStatus, new, under_review, contacted, consultation_scheduled, qualified, converted_to_client,
  not_proceeding, duplicate, spam, archived,
}
pub mod Laws

pub data TransitionOutcome : Type 0 where
  allowed rejected deferred_to_conversion_endpoint : TransitionOutcome

abbrev pub index : LeadStatus → ℕ
index new = 0
index under_review = 1
index contacted = 2
index consultation_scheduled = 3
index qualified = 4
index converted_to_client = 5
index not_proceeding = 6
index duplicate = 7
index spam = 8
index archived = 9

abbrev pub status_eq : LeadStatus → LeadStatus → Bool
status_eq a b = index a == index b

abbrev transition_matrix : LeadStatus → List LeadStatus
transition_matrix new =
    under_review ∷ contacted ∷ consultation_scheduled ∷ qualified ∷ not_proceeding ∷ duplicate
    ∷ spam ∷ archived ∷ []
transition_matrix under_review =
    contacted ∷ consultation_scheduled ∷ qualified ∷ not_proceeding ∷ duplicate ∷ spam ∷ archived
    ∷ []
transition_matrix contacted =
    consultation_scheduled ∷ qualified ∷ not_proceeding ∷ duplicate ∷ spam ∷ archived ∷ []
transition_matrix consultation_scheduled =
    qualified ∷ not_proceeding ∷ duplicate ∷ spam ∷ archived ∷ []
transition_matrix qualified = not_proceeding ∷ duplicate ∷ spam ∷ archived ∷ []
transition_matrix converted_to_client = []
transition_matrix not_proceeding = under_review ∷ archived ∷ []
transition_matrix duplicate = under_review ∷ archived ∷ []
transition_matrix spam = under_review ∷ archived ∷ []
transition_matrix archived = under_review ∷ []

abbrev reason_required_matrix : LeadStatus → List LeadStatus
reason_required_matrix new = duplicate ∷ spam ∷ []
reason_required_matrix under_review = duplicate ∷ spam ∷ []
reason_required_matrix contacted = duplicate ∷ spam ∷ []
reason_required_matrix consultation_scheduled = duplicate ∷ spam ∷ []
reason_required_matrix qualified = duplicate ∷ spam ∷ []
reason_required_matrix converted_to_client = []
reason_required_matrix not_proceeding = under_review ∷ []
reason_required_matrix duplicate = under_review ∷ []
reason_required_matrix spam = under_review ∷ []
reason_required_matrix archived = under_review ∷ []

unfoldable pub get_transition_outcome : LeadStatus → LeadStatus → TransitionOutcome
get_transition_outcome current next =
    if status_eq current qualified && status_eq next converted_to_client
    then deferred_to_conversion_endpoint
    else if any (status_eq next) (transition_matrix current)
    then allowed
    else rejected

unfoldable pub is_reason_required : LeadStatus → LeadStatus → Bool
is_reason_required current next = any (status_eq next) (reason_required_matrix current)
