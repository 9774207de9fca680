-- ===== src/Leads/Repository.antt =====
-- apps/web/src/features/leads/repository.ts.
use heritage_philippines_v.Prelude.{
  ℕ, Bool, Option, none, some, List, ◌∷◌, ◌==◌, find, any, update_where, is_some,
}
use heritage_philippines_v.Transaction.{pure, gets, modify, ◌>>=◌, ◌>>◌}
use heritage_philippines_v.Payments.Model.{Text}
use heritage_philippines_v.Crm.Model.{LeadStatus, new, LeadRecord, LeadStatusHistory}
use heritage_philippines_v.Crm.Store.{CrmStore, CrmTx, write_unless, updated_row}

pub data LeadActorRole : Type 0 where
  admin_manager travel_consultant : LeadActorRole

pub record LeadActor : Type 0 where
  pub id : ℕ
  pub role : LeadActorRole

unfoldable pub find_lead : List LeadRecord → ℕ → Option LeadRecord
find_lead leads id = find (λ l. l.id == id) leads

unfoldable pub find_lead_by_id : ℕ → CrmStore → Option LeadRecord
unfolding find_lead
find_lead_by_id id s = find_lead s.leads id

pub record CreateLeadRow : Type 0 where
  pub id : ℕ
  pub history_id : ℕ
  pub full_name : Text
  pub email : Option Text
  pub phone : Option Text
  pub normalized_email : Option Text
  pub normalized_phone : Option Text
  pub source : Text
  pub notes : Option Text
  pub changed_by_user_id : ℕ

-- `createdAt` is the database's `now()`, and `updatedAt` the time of the write (`@updatedAt`).
abbrev pub new_lead : ℕ → CreateLeadRow → LeadRecord
new_lead now input = record {
  id = input.id;
  status = new;
  full_name = input.full_name;
  email = input.email;
  phone = input.phone;
  normalized_email = input.normalized_email;
  normalized_phone = input.normalized_phone;
  source = input.source;
  notes = input.notes;
  client_id = none;
  created_at = now;
  updated_at = now;
}

abbrev pub history_row : ℕ → ℕ → Option LeadStatus → LeadStatus → ℕ → LeadStatusHistory
history_row id lead_id previous_status new_status changed_by_user_id = record {
  id = id;
  lead_id = lead_id;
  previous_status = previous_status;
  new_status = new_status;
  changed_by_user_id = changed_by_user_id;
}

abbrev pub history_id_taken : ℕ → CrmStore → Bool
history_id_taken id s = any (λ h. h.id == id) s.history

unfoldable pub create_lead_with_initial_history :
    {E : Type 0} → ℕ → CreateLeadRow → CrmTx E LeadRecord
unfolding find_lead
create_lead_with_initial_history now input = do
  taken ← gets (λ s. is_some (find_lead s.leads input.id))
  write_unless taken "Lead" "id" (λ s. s)
  seen ← gets (history_id_taken input.history_id)
  write_unless seen "LeadStatusHistory" "id" (λ s. record s {
    leads = new_lead now input ∷ s.leads;
    history = history_row input.history_id input.id none new input.changed_by_user_id ∷ s.history;
  })
  pure (new_lead now input)

abbrev pub set_lead : ℕ → (LeadRecord → LeadRecord) → List LeadRecord → List LeadRecord
set_lead id change = update_where (λ l. l.id == id) change

pub record UpdateLeadData : Type 0 where
  pub full_name : Option Text
  pub email : Option (Option Text)
  pub phone : Option (Option Text)
  pub normalized_email : Option (Option Text)
  pub normalized_phone : Option (Option Text)
  pub source : Option Text
  pub notes : Option (Option Text)

-- A field of the data when it is there, and the row's own otherwise.
abbrev pub given {ℓ} : {A : Type ℓ} → Option A → A → A
given none old = old
given (some x) old = x

abbrev pub with_fields : ℕ → UpdateLeadData → LeadRecord → LeadRecord
with_fields now d l = record l {
  updated_at = now;
  full_name = given d.full_name l.full_name;
  email = given d.email l.email;
  phone = given d.phone l.phone;
  normalized_email = given d.normalized_email l.normalized_email;
  normalized_phone = given d.normalized_phone l.normalized_phone;
  source = given d.source l.source;
  notes = given d.notes l.notes;
}

unfoldable pub update_lead_fields : {E : Type 0} → ℕ → ℕ → UpdateLeadData → CrmTx E LeadRecord
unfolding find_lead_by_id
update_lead_fields now id d = do
  found ← gets (find_lead_by_id id)
  updated ← updated_row (with_fields now d) found
  modify (λ s. record s { leads = set_lead id (with_fields now d) s.leads })
  pure updated

abbrev pub with_status : ℕ → LeadStatus → LeadRecord → LeadRecord
with_status now status l = record l { status = status; updated_at = now }

unfoldable pub update_lead_status_with_history :
    {E : Type 0} → ℕ → ℕ → ℕ → LeadStatus → LeadStatus → ℕ → CrmTx E LeadRecord
unfolding find_lead_by_id
update_lead_status_with_history now history_id id previous_status new_status changed_by_user_id = do
  found ← gets (find_lead_by_id id)
  updated ← updated_row (with_status now new_status) found
  seen ← gets (history_id_taken history_id)
  write_unless seen "LeadStatusHistory" "id" (λ s. record s {
    leads = set_lead id (with_status now new_status) s.leads;
    history =
        history_row history_id id (some previous_status) new_status changed_by_user_id ∷ s.history;
  })
  pure updated
