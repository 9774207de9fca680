-- ===== src/Leads/Conversion.antt =====
-- apps/web/src/features/leads/repository.ts: what the conversion of a lead reads and writes.
use heritage_philippines_v.Prelude.{
  ℕ, Bool, Option, none, some, List, ◌∷◌, ◌&&◌, ◌==◌, find, is_some,
}
use heritage_philippines_v.Transaction.{pure, gets, ◌>>=◌, ◌>>◌}
use heritage_philippines_v.Payments.Model.{Text}
use heritage_philippines_v.Crm.Model.{
  qualified, converted_to_client, LeadRecord, Client, AuditLog, AuditState,
}
use heritage_philippines_v.Crm.Store.{CrmStore, CrmTx, write_unless, updated_row}
use heritage_philippines_v.Leads.Audit.{lead_audit_entity_type}
use heritage_philippines_v.Leads.Repository.{
  find_lead_by_id, set_lead, history_row, history_id_taken,
}
use text.Mathlib.Text.{◌==◌ as str_eq}

pub record ClientSummary : Type 0 where
  pub id : ℕ
  pub full_name : Text

abbrev pub summary : Client → ClientSummary
summary c = record { id = c.id; full_name = c.full_name }

unfoldable pub find_client : List Client → ℕ → Option Client
find_client clients id = find (λ c. c.id == id) clients

abbrev pub summary_in : Option Client → Option ClientSummary
summary_in none = none
summary_in (some c) = some (summary c)

unfoldable pub find_client_summary_by_id : ℕ → CrmStore → Option ClientSummary
unfolding find_client
find_client_summary_by_id id s = summary_in (find_client s.clients id)

unfoldable pub create_client_from_lead : {E : Type 0} → ℕ → LeadRecord → CrmTx E ClientSummary
unfolding find_client
create_client_from_lead id l = do
  taken ← gets (λ s. is_some (find_client s.clients id))
  write_unless taken "Client" "id" (λ s. record s {
    clients =
        record {
          id = id;
          full_name = l.full_name;
          email = l.email;
          phone = l.phone;
          normalized_email = l.normalized_email;
          normalized_phone = l.normalized_phone;
        }
        ∷ s.clients;
  })
  pure (record { id = id; full_name = l.full_name })

abbrev pub converted : ℕ → ℕ → LeadRecord → LeadRecord
converted now client_id l = record l {
  client_id = some client_id;
  status = converted_to_client;
  updated_at = now;
}

unfoldable pub convert_lead_with_history : {E : Type 0} → ℕ → ℕ → ℕ → ℕ → ℕ → CrmTx E LeadRecord
unfolding find_lead_by_id
convert_lead_with_history now history_id id client_id changed_by_user_id = do
  found ← gets (find_lead_by_id id)
  updated ← updated_row (converted now client_id) found
  seen ← gets (history_id_taken history_id)
  write_unless seen "LeadStatusHistory" "id" (λ s. record s {
    leads = set_lead id (converted now client_id) s.leads;
    history =
        history_row history_id id (some qualified) converted_to_client changed_by_user_id
        ∷ s.history;
  })
  pure updated

abbrev is_conversion_of : ℕ → AuditLog → Bool
is_conversion_of lead_id entry =
    str_eq entry.entity_type lead_audit_entity_type
    && entry.entity_id == lead_id
    && str_eq entry.action "LEAD_CONVERTED_TO_CLIENT"

-- The `afterState` of the newest such row, or null.
abbrev after_state_in : Option AuditLog → Option AuditState
after_state_in none = none
after_state_in (some entry) = entry.after_state

unfoldable pub find_lead_conversion_audit : ℕ → CrmStore → Option AuditState
find_lead_conversion_audit lead_id s = after_state_in (find (is_conversion_of lead_id) s.audit_log)
