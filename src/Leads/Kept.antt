-- ===== src/Leads/Kept.antt =====
-- A property of the store that every write of leads and assignments keeps is kept by every
-- transaction of the two features, and by every call whatever other transactions commit meanwhile.
use heritage_philippines_v.Prelude.{ℕ, some, none, ◌∷◌, ◌≡◌}
use heritage_philippines_v.Transaction.Rules.{Ensures}
use heritage_philippines_v.Crm.Model.{LeadRecord, LeadStatus, qualified, Assignment, AuditLog}
use heritage_philippines_v.Crm.Store.{CrmStore}
use heritage_philippines_v.Assignments.Repository.{create_assignment, end_assignment_by_id}
use heritage_philippines_v.Leads.Transitions.{allowed, status_eq, get_transition_outcome}
use heritage_philippines_v.Leads.Repository.{
  find_lead, CreateLeadRow, UpdateLeadData, create_lead_with_initial_history, update_lead_fields,
  update_lead_status_with_history,
}
use heritage_philippines_v.Leads.Conversion.{create_client_from_lead, convert_lead_with_history}
use heritage_philippines_v.Prelude.{true}
pub mod Checks
pub mod Moving
pub mod Assigning
pub mod Converting
pub mod Calling
pub mod Reaching

-- `P` is kept by each write, made as the services make it.
pub record Kept (P : CrmStore → Type 0) : Type 1 where
  pub audit :
      (entry : AuditLog) (s : CrmStore) → P s → P (record s { audit_log = entry ∷ s.audit_log })
  pub lead_created :
      {E : Type 0} (now : ℕ) (input : CreateLeadRow) (s : CrmStore)
      → P s
      → Ensures {E = E} (λ l t. P t) (create_lead_with_initial_history now input s)
  pub lead_changed :
      {E : Type 0} (now id : ℕ) (d : UpdateLeadData) (s : CrmStore)
      → P s
      → Ensures {E = E} (λ l t. P t) (update_lead_fields now id d s)
  pub lead_moved :
      {E : Type 0} (now row_id id actor_id : ℕ) (l : LeadRecord) (next : LeadStatus) (s : CrmStore)
      → P s
      → find_lead s.leads id ≡ some l
      → get_transition_outcome l.status next ≡ allowed
      → Ensures {E = E}
          (λ k t. P t)
          (update_lead_status_with_history now row_id id l.status next actor_id s)
  pub lead_converted :
      {E : Type 0} (now row_id id client_id actor_id : ℕ) (l : LeadRecord) (s : CrmStore)
      → P s
      → find_lead s.leads id ≡ some l
      → status_eq l.status qualified ≡ true
      → Ensures {E = E} (λ k t. P t) (convert_lead_with_history now row_id id client_id actor_id s)
  pub client_created :
      {E : Type 0} (id : ℕ) (l : LeadRecord) (s : CrmStore)
      → P s
      → Ensures {E = E} (λ c t. P t) (create_client_from_lead id l s)
  pub assignment_created :
      {E : Type 0} (row : Assignment) (s : CrmStore)
      → P s
      → row.ended_at ≡ none
      → Ensures {E = E} (λ a t. P t) (create_assignment row s)
  pub assignment_ended :
      {E : Type 0} (now id : ℕ) (s : CrmStore)
      → P s
      → Ensures {E = E} (λ a t. P t) (end_assignment_by_id now id s)
