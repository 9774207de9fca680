-- ===== src/Leads/Audit.antt =====
-- apps/web/src/features/leads/audit.ts, and the strict reader of the conversion snapshot in
-- apps/web/src/features/leads/service.ts. The reader of a snapshot takes the keys in any order.
use heritage_philippines_v.Prelude.{
  ℕ, Bool, Option, none, some, List, [], ◌∷◌, ◌&&◌, ◌==◌, length, any, all, find, if◌then◌else◌,
}
use heritage_philippines_v.Payments.Model.{Text}
use heritage_philippines_v.Crm.Model.{
  LeadStatus, converted_to_client, LeadRecord, AuditValue, AuditState, lead_status, identifier,
  flag, words, field_names,
}
use heritage_philippines_v.Crm.Store.{is_present}
use heritage_philippines_v.Leads.Transitions.{status_eq}
use Prim.Native.String.{String}
use text.Mathlib.Text.{◌==◌ as str_eq}

abbrev pub lead_audit_entity_type : String
lead_audit_entity_type = "Lead"

unfoldable pub sanitize_lead_created_snapshot : LeadRecord → AuditState
sanitize_lead_created_snapshot r =
    ("id", identifier r.id)
    ∷ ("status", lead_status r.status)
    ∷ ("source", words r.source)
    ∷ ("hasEmail", flag (is_present r.email))
    ∷ ("hasPhone", flag (is_present r.phone))
    ∷ []

unfoldable pub sanitize_lead_update_snapshot : List String → Bool → Bool → AuditState
sanitize_lead_update_snapshot changed_fields has_email has_phone =
    ("changedFields", field_names changed_fields)
    ∷ ("hasEmail", flag has_email)
    ∷ ("hasPhone", flag has_phone)
    ∷ []

unfoldable pub sanitize_lead_status_snapshot : LeadStatus → Option Text → AuditState
sanitize_lead_status_snapshot status none = ("status", lead_status status) ∷ []
sanitize_lead_status_snapshot status (some []) = ("status", lead_status status) ∷ []
sanitize_lead_status_snapshot status (some (c ∷ t)) =
    ("status", lead_status status) ∷ ("reason", words (c ∷ t)) ∷ []

unfoldable pub sanitize_lead_conversion_snapshot : ℕ → Bool → AuditState
sanitize_lead_conversion_snapshot client_id client_created =
    ("status", lead_status converted_to_client)
    ∷ ("clientId", identifier client_id)
    ∷ ("clientCreated", flag client_created)
    ∷ []

unfoldable pub sanitize_client_created_snapshot : ℕ → Option Text → Option Text → AuditState
sanitize_client_created_snapshot source_lead_id email phone =
    ("sourceLeadId", identifier source_lead_id)
    ∷ ("hasEmail", flag (is_present email))
    ∷ ("hasPhone", flag (is_present phone))
    ∷ []

pub record ConversionAuditState : Type 0 where
  pub client_id : ℕ
  pub client_created : Bool

abbrev conversion_audit_keys : List String
conversion_audit_keys = "status" ∷ "clientId" ∷ "clientCreated" ∷ []

abbrev is_conversion_key : String × AuditValue → Bool
is_conversion_key entry = any (str_eq entry.0) conversion_audit_keys

abbrev value_of : Option (String × AuditValue) → Option AuditValue
value_of none = none
value_of (some entry) = some entry.1

abbrev field : String → AuditState → Option AuditValue
field key state = value_of (find (λ entry. str_eq entry.0 key) state)

abbrev is_converted : Option AuditValue → Bool
is_converted (some (lead_status s)) = status_eq s converted_to_client
is_converted _ = Bool.false

abbrev as_state : Option AuditValue → Option AuditValue → Option ConversionAuditState
as_state (some (identifier id)) (some (flag b)) =
    some (record { client_id = id; client_created = b })
as_state _ _ = none

abbrev state_of : AuditState → Option ConversionAuditState
state_of value =
    if length value == 3 && all is_conversion_key value && is_converted (field "status" value)
    then as_state (field "clientId" value) (field "clientCreated" value)
    else none

unfoldable pub parse_conversion_audit_state : Option AuditState → Option ConversionAuditState
parse_conversion_audit_state none = none
parse_conversion_audit_state (some value) = state_of value
