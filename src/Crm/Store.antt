-- ===== src/Crm/Store.antt =====
-- The database as leads and assignments see it, what they take from code that is not their own,
-- and the writes that a unique index can refuse.
use heritage_philippines_v.Prelude.{ℕ, Bool, true, false, some, none, Option, List, [], ◌∷◌}
unfoldable pub use heritage_philippines_v.Transaction.{write_unless, updated_row}
use heritage_philippines_v.Transaction.{Tx, modify}
use heritage_philippines_v.Payments.Model.{Text}
use heritage_philippines_v.Crm.Model.{
  LeadRecord, LeadStatusHistory, Client, Assignment, User, ClientProfile, AuditLog,
}

-- One list for each table, the newest row first; of a booking only its id is read.
pub record CrmStore : Type 0 where
  pub leads : List LeadRecord
  pub history : List LeadStatusHistory
  pub clients : List Client
  pub bookings : List ℕ
  pub assignments : List Assignment
  pub users : List User
  pub profiles : List ClientProfile
  pub audit_log : List AuditLog

-- `String.prototype.toLowerCase`, the database's case-insensitive `contains`, the `randomUUID()` of
-- each use in a call, `new Date()`, and the database's order of users by name and id.
pub record Runtime : Type 0 where
  pub to_lower_case : Text → Text
  pub contains : Text → Text → Bool
  pub random_uuid : ℕ → ℕ
  pub now : ℕ
  pub by_name : List User → List User

abbrev pub CrmTx : Type 0 → Type 0 → Type 0
CrmTx E A = Tx CrmStore E A

-- A string that JavaScript takes for true: neither null nor empty.
abbrev pub is_present : Option Text → Bool
is_present none = false
is_present (some []) = false
is_present (some (c ∷ t)) = true

-- `insertAuditLog` of both repositories
unfoldable pub insert_audit_row : {E : Type 0} → AuditLog → CrmTx E (Unit {0})
unfolding modify
insert_audit_row entry = modify (λ s. record s { audit_log = entry ∷ s.audit_log })
