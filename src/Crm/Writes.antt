-- ===== src/Crm/Writes.antt =====
-- What the writes of the shared tables leave in the store when the database accepts them.
use heritage_philippines_v.Prelude.{◌∷◌, ◌≡◌, refl}
use heritage_philippines_v.Transaction.{ok, ◌>>◌}
use heritage_philippines_v.Transaction.Rules.{Ensures, Ensures-ok}
pub use heritage_philippines_v.Transaction.Writes.{
  none_of, require-Ensures, or_throw-Ensures, then_free, then_insert, bind_updated, run_pure,
}
use heritage_philippines_v.Crm.Model.{AuditLog}
use heritage_philippines_v.Crm.Store.{CrmStore, CrmTx, insert_audit_row}

module _ {E : Type 0} where
  module _ {A : Type 0} (Q : A → CrmStore → Type 0) where
    pub then_audit :
        (entry : AuditLog) (m : CrmTx E A) (s : CrmStore)
        → Ensures Q (m (record s { audit_log = entry ∷ s.audit_log }))
        → Ensures Q ((insert_audit_row entry >> m) s)
    unfolding insert_audit_row ◌>>◌
    then_audit entry m s h = h

  pub audit-Ensures :
      (P : CrmStore → Type 0) (entry : AuditLog) (s : CrmStore)
      → P (record s { audit_log = entry ∷ s.audit_log })
      → Ensures {E = E} (λ (u : Unit {0}) t. P t) (insert_audit_row entry s)
  unfolding insert_audit_row
  audit-Ensures P entry s h = Ensures-ok _ tt _ h

module _ {E : Type 0} (s : CrmStore) where
  pub run_audit :
      (entry : AuditLog)
      → insert_audit_row {E = E} entry s ≡ ok (tt, record s { audit_log = entry ∷ s.audit_log })
  unfolding insert_audit_row
  run_audit entry = refl
