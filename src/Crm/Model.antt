-- ===== src/Crm/Model.antt =====
-- The tables of apps/web/prisma/schema.prisma that leads and assignments read and write, as
-- leads/repository.ts and assignments/repository.ts select them. Identifiers and instants are only
-- compared, so they are numbers; a text is the list of its code points.
use heritage_philippines_v.Prelude.{ℕ, Bool, Option, List}
use heritage_philippines_v.Payments.Model.{Text, Role}
use Prim.Native.String.{String}

pub data LeadStatus : Type 0 where
  new under_review contacted consultation_scheduled qualified : LeadStatus
  converted_to_client not_proceeding duplicate spam archived : LeadStatus

pub record LeadRecord : Type 0 where
  pub id : ℕ
  pub status : LeadStatus
  pub full_name : Text
  pub email : Option Text
  pub phone : Option Text
  pub normalized_email : Option Text
  pub normalized_phone : Option Text
  pub source : Text
  pub notes : Option Text
  pub client_id : Option ℕ
  pub created_at : ℕ
  pub updated_at : ℕ

pub record LeadStatusHistory : Type 0 where
  pub id : ℕ
  pub lead_id : ℕ
  pub previous_status : Option LeadStatus
  pub new_status : LeadStatus
  pub changed_by_user_id : ℕ

pub record Client : Type 0 where
  pub id : ℕ
  pub full_name : Text
  pub email : Option Text
  pub phone : Option Text
  pub normalized_email : Option Text
  pub normalized_phone : Option Text

pub record Assignment : Type 0 where
  pub id : ℕ
  pub assigned_staff_id : ℕ
  pub assigned_by_user_id : ℕ
  pub role : Role
  pub lead_id : Option ℕ
  pub client_id : Option ℕ
  pub booking_id : Option ℕ
  pub ended_at : Option ℕ
  pub created_at : ℕ
  pub updated_at : ℕ

pub record User : Type 0 where
  pub id : ℕ
  pub name : Text
  pub email : Text
  pub role : Role
  pub is_active : Bool

pub record ClientProfile : Type 0 where
  pub id : ℕ
  pub user_id : ℕ
  pub client_id : ℕ

-- The value of one key of an audit snapshot; a string stands for what it names.
pub data AuditValue : Type 0 where
  absent : AuditValue
  flag : Bool → AuditValue
  identifier : ℕ → AuditValue
  instant : ℕ → AuditValue
  lead_status : LeadStatus → AuditValue
  role_name : Role → AuditValue
  words : Text → AuditValue
  field_names : List String → AuditValue

-- A JSON object: its keys with their values.
abbrev pub AuditState : Type 0
AuditState = List (String × AuditValue)

pub record AuditLog : Type 0 where
  pub actor_id : ℕ
  pub action : String
  pub entity_type : String
  pub entity_id : ℕ
  pub before_state : Option AuditState
  pub after_state : Option AuditState
