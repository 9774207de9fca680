-- ===== src/Leads/Lifecycle/Reached.antt =====
-- Calls reach only stores in which every lead's life is in order.
use heritage_philippines_v.Prelude.{ℕ, refl}
use heritage_philippines_v.Transaction.Rules.{Ensures, Ensures-map, Ensures-pure, bind_gets}
use heritage_philippines_v.Crm.Model.{LeadRecord}
use heritage_philippines_v.Crm.Store.{CrmStore}
use heritage_philippines_v.Crm.Writes.{then_insert}
use heritage_philippines_v.Assignments.Writes.{
  create_assignment-Ensures, end_assignment_by_id-Ensures,
}
use heritage_philippines_v.Leads.Conversion.{create_client_from_lead}
use heritage_philippines_v.Leads.Lifecycle.{LeadsFit}
use heritage_philippines_v.Leads.Lifecycle.Steps.{LeadsFit-Same}
use heritage_philippines_v.Leads.Lifecycle.Bodies.{
  create_lead_with_initial_history-LeadsFit, update_lead_fields-LeadsFit,
  update_lead_status_with_history-LeadsFit, convert_lead_with_history-LeadsFit,
}
use heritage_philippines_v.Leads.Kept.{Kept}
use heritage_philippines_v.Leads.Kept.Reaching.{CrmReaches, CrmReaches-Kept}
use heritage_philippines_v.Prelude.{ap}

create_client-LeadsFit :
    {E : Type 0} (id : ℕ) (l : LeadRecord) (s : CrmStore)
    → LeadsFit s
    → Ensures {E = E} (λ c t. LeadsFit t) (create_client_from_lead id l s)
unfolding create_client_from_lead
create_client-LeadsFit id l s h =
    bind_gets _ _ _ _
      (then_insert _ _ _ _ _ _ s (λ fresh. Ensures-pure _ _ _ (LeadsFit-Same s _ (refl, refl) h)))

LeadsFit-Kept : Kept LeadsFit
LeadsFit-Kept = record {
  audit = λ entry s h. LeadsFit-Same s _ (refl, refl) h;
  lead_created = λ now input s h. create_lead_with_initial_history-LeadsFit s h now input;
  lead_changed = λ now id d s h. update_lead_fields-LeadsFit s h now id d;
  lead_moved = λ now row_id id actor_id l next s h found move.
      update_lead_status_with_history-LeadsFit s h now row_id id actor_id l next found move;
  lead_converted = λ now row_id id client_id actor_id l s h found was.
      convert_lead_with_history-LeadsFit s h now row_id id client_id actor_id l found was;
  client_created = λ id l s h. create_client-LeadsFit id l s h;
  assignment_created = λ row s h active.
      Ensures-map _ _
        (λ a t e.
          LeadsFit-Same s t
            (ap (λ (u : CrmStore). u.leads) e.2, ap (λ (u : CrmStore). u.history) e.2) h)
        (create_assignment-Ensures s row);
  assignment_ended = λ now id s h.
      Ensures-map _ _
        (λ a t e.
          LeadsFit-Same s t
            (ap (λ (u : CrmStore). u.leads) e.1, ap (λ (u : CrmStore). u.history) e.1) h)
        (end_assignment_by_id-Ensures s now id);
}

-- Whatever calls of leads and assignments reach, from a store in which it is so: the status history
-- of every lead, from its newest row to its oldest, goes from the status that the lead has back to
-- NEW by moves that the transition matrix allows or the conversion of a qualified lead, no history
-- row lacks its lead, and a lead has a client exactly when its status is CONVERTED_TO_CLIENT.
pub CrmReaches-LeadsFit : {s t : CrmStore} → CrmReaches s t → LeadsFit s → LeadsFit t
CrmReaches-LeadsFit = CrmReaches-Kept LeadsFit LeadsFit-Kept
