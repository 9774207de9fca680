-- ===== src/Leads/Lifecycle/Bodies.antt =====
-- Every transaction of leads and assignments keeps every lead's life in order.
use heritage_philippines_v.Prelude.{ℕ, true, some, ◌≡◌, refl, subst, ◌∙◌, inl, inr, is_some}
use heritage_philippines_v.Transaction.Rules.{Ensures, Ensures-pure, bind_gets, then_modify}
use heritage_philippines_v.Crm.Model.{LeadStatus, qualified, converted_to_client, LeadRecord}
use heritage_philippines_v.Crm.Store.{CrmStore}
use heritage_philippines_v.Crm.Writes.{none_of, then_free, then_insert, bind_updated}
use heritage_philippines_v.Leads.Transitions.{status_eq, allowed, get_transition_outcome}
use heritage_philippines_v.Leads.Transitions.Laws.{status_eq→eq, allowed_unconverted}
use heritage_philippines_v.Leads.Conversion.{converted, convert_lead_with_history}
use heritage_philippines_v.Leads.Repository.{
  find_lead, CreateLeadRow, create_lead_with_initial_history, with_status, with_fields,
  UpdateLeadData, update_lead_fields, update_lead_status_with_history,
}
use heritage_philippines_v.Leads.Lifecycle.{Linked, LeadsFit}
use heritage_philippines_v.Leads.Lifecycle.Steps.{LeadsFit-new, LeadsFit-changed, LeadsFit-moved}

Linked_at :
    (s : CrmStore)
    → LeadsFit s
    → (id : ℕ) (l : LeadRecord) → find_lead s.leads id ≡ some l
    → is_some l.client_id ≡ status_eq l.status converted_to_client
Linked_at s fits id l found = subst Linked found (fits.at id).linked

module _ {E : Type 0} (s : CrmStore) (fits : LeadsFit s) where
  pub create_lead_with_initial_history-LeadsFit :
      (now : ℕ) (input : CreateLeadRow)
      → Ensures {E = E} (λ l t. LeadsFit t) (create_lead_with_initial_history now input s)
  unfolding create_lead_with_initial_history
  create_lead_with_initial_history-LeadsFit now input = bind_gets _ _ _ _ (
      then_free _ _ _ _ _ s (λ fresh. bind_gets _ _ _ _ (
        then_insert _ _ _ _ _ _ s
          (λ unseen. Ensures-pure _ _ _ (LeadsFit-new s fits now input (none_of _ fresh))))))

  pub update_lead_fields-LeadsFit :
      (now id : ℕ) (d : UpdateLeadData)
      → Ensures {E = E} (λ l t. LeadsFit t) (update_lead_fields now id d s)
  unfolding update_lead_fields
  update_lead_fields-LeadsFit now id d = bind_gets _ _ _ _ (
      bind_updated _ _ _ _ s (λ l found. then_modify _ _ _ _ (
        Ensures-pure _ _ _
          (LeadsFit-changed s fits id (with_fields now d) (λ k. (refl, refl, refl))))))

  pub update_lead_status_with_history-LeadsFit :
      (now row_id id actor_id : ℕ) (l : LeadRecord) (next : LeadStatus)
      → find_lead s.leads id ≡ some l
      → get_transition_outcome l.status next ≡ allowed
      → Ensures {E = E}
          (λ k t. LeadsFit t)
          (update_lead_status_with_history now row_id id l.status next actor_id s)
  unfolding update_lead_status_with_history
  update_lead_status_with_history-LeadsFit now row_id id actor_id l next found move =
      bind_gets _ _ _ _ (
        bind_updated _ _ _ _ s (λ k same. bind_gets _ _ _ _ (
          then_insert _ _ _ _ _ _ s (λ unseen. Ensures-pure _ _ _ (
            LeadsFit-moved s fits id (with_status now next) row_id actor_id l l.status next found
              (λ k. refl) refl refl (inl move)
              (Linked_at s fits id l found ∙ allowed_unconverted l.status next move))))))

  pub convert_lead_with_history-LeadsFit :
      (now row_id id client_id actor_id : ℕ) (l : LeadRecord)
      → find_lead s.leads id ≡ some l
      → status_eq l.status qualified ≡ true
      → Ensures {E = E}
          (λ k t. LeadsFit t)
          (convert_lead_with_history now row_id id client_id actor_id s)
  unfolding convert_lead_with_history
  convert_lead_with_history-LeadsFit now row_id id client_id actor_id l found was =
      bind_gets _ _ _ _ (
        bind_updated _ _ _ _ s (λ k same. bind_gets _ _ _ _ (
          then_insert _ _ _ _ _ _ s (λ unseen. Ensures-pure _ _ _ (
            LeadsFit-moved s fits id (converted now client_id) row_id actor_id l qualified
              converted_to_client found (λ k. refl) (status_eq→eq _ _ was) refl (inr (refl, refl))
              refl)))))
