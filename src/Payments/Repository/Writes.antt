-- ===== src/Payments/Repository/Writes.antt =====
-- What the writes of the payments repository leave in the store when the database accepts them.
use heritage_philippines_v.Prelude.{Bool, true, false, Option, none, some, ◌∷◌, ◌≡◌, refl, is_some}
use heritage_philippines_v.Transaction.{◌>>◌}
use heritage_philippines_v.Transaction.Rules.{
  Ensures, Ensures-ok, Ensures-err, Ensures-pure, then_same, then-Ensures,
}
use heritage_philippines_v.Payments.Model.{
  Payment, PaymentAllocation, PaymentAllocationReversal, Receipt, PaymentErrorCode,
}
use heritage_philippines_v.Payments.Audit.{AuditEntry}
use heritage_philippines_v.Payments.Store.{Store, PaymentTx, insert_unless}
use heritage_philippines_v.Payments.Repository.Payments.{
  find_payment, find_status_history_by_idempotency_key, CreatePendingPaymentInput, pending_payment,
  initial_history, create_pending_payment, TransitionPaymentStatusInput, transition_history,
  with_status, set_status, transition_payment_status, create_receipt, insert_audit_log,
}
use heritage_philippines_v.Payments.Repository.Refunds.{
  CreateRefundInput, refund_row, link_refund, create_refund,
}
use heritage_philippines_v.Payments.Repository.Allocations.{
  find_allocation, create_allocation_row, is_reversed, create_allocation_reversal,
}
use heritage_philippines_v.Payments.Repository.Plans.{
  CreatePaymentPlanInput, proposed_plan, add_installments, ids_taken,
  create_payment_plan_with_installments,
}
use Prim.Native.String.{String}

pub none_of : {A : Type 0} (o : Option A) → is_some o ≡ false → o ≡ none
none_of none e = refl
none_of (some a) e = cc

pub insert_unless-Ensures :
    (taken : Bool) (model_name column : String) (change : Store → Store) (s : Store)
    → Ensures {E = PaymentErrorCode}
        (λ (a : Unit {0}) t. (t ≡ change s) × (taken ≡ false))
        (insert_unless taken model_name column change s)
unfolding insert_unless
insert_unless-Ensures true model_name column change s = Ensures-err _ _
insert_unless-Ensures false model_name column change s = Ensures-ok _ tt (change s) (refl, refl)

-- A check of a unique index, and the rest of the write.
pub then_free :
    {A : Type 0} (Q : A → Store → Type 0) (taken : Bool) (model_name column : String)
    (m : PaymentTx A) (s : Store)
    → (taken ≡ false → Ensures Q (m s))
    → Ensures Q ((insert_unless taken model_name column (λ t. t) >> m) s)
then_free Q taken model_name column m s h =
    then_same Q (taken ≡ false) _ m s (insert_unless-Ensures taken model_name column (λ t. t) s) h

-- The last index and the write itself.
pub then_insert :
    {A : Type 0} (Q : A → Store → Type 0) (taken : Bool) (model_name column : String)
    (change : Store → Store) (m : PaymentTx A) (s : Store)
    → (taken ≡ false → Ensures Q (m (change s)))
    → Ensures Q ((insert_unless taken model_name column change >> m) s)
then_insert Q taken model_name column change m s h =
    then-Ensures Q (λ t. (t ≡ change s) × (taken ≡ false)) _ m s
      (insert_unless-Ensures taken model_name column change s) (λ t e. rw e.0 (h e.1))

pub then_audit :
    {A : Type 0} (Q : A → Store → Type 0) (entry : AuditEntry) (m : PaymentTx A) (s : Store)
    → Ensures Q (m (record s { audit_log = entry ∷ s.audit_log }))
    → Ensures Q ((insert_audit_log entry >> m) s)
unfolding insert_audit_log ◌>>◌
then_audit Q entry m s h = h

module _ (s : Store) where
  pub create_pending_payment-Ensures :
      (input : CreatePendingPaymentInput)
      → Ensures
          (λ p t.
            (p ≡ pending_payment input)
            × (find_payment s.payments input.id ≡ none)
            × (t ≡ record s {
              payments = pending_payment input ∷ s.payments;
              history = initial_history input ∷ s.history;
            }))
          (create_pending_payment input s)
  unfolding create_pending_payment
  create_pending_payment-Ensures input =
      then_free _ _ _ _ _ s (λ fresh.
        then_insert _ _ _ _ _ _ s (λ new. Ensures-pure _ _ _ (refl, none_of _ fresh, refl)))

  pub transition_payment_status-Ensures :
      (input : TransitionPaymentStatusInput) (p : Payment)
      → find_payment s.payments input.payment_id ≡ some p
      → Ensures
          (λ q t.
            (q ≡ with_status input.new_status p)
            × (is_some (find_status_history_by_idempotency_key input.idempotency_key s.history)
                ≡ false)
            × (t ≡ record s {
              payments = set_status input.payment_id input.new_status s.payments;
              history = transition_history input ∷ s.history;
            }))
          (transition_payment_status input s)
  unfolding transition_payment_status
  transition_payment_status-Ensures input p found =
      rw (found, transition_payment_status)
        (then_insert _ _ _ _ _ _ s (λ new. Ensures-pure _ _ _ (refl, new, refl)))

  pub create_refund-Ensures :
      (input : CreateRefundInput)
      → Ensures
          (λ r t.
            (r ≡ refund_row input)
            × (t ≡ record s {
              refunds = refund_row input ∷ s.refunds;
              refund_allocations = link_refund input input.allocation_id s.refund_allocations;
            }))
          (create_refund input s)
  unfolding create_refund
  create_refund-Ensures input =
      then_free _ _ _ _ _ s
        (λ fresh. then_insert _ _ _ _ _ _ s (λ new. Ensures-pure _ _ _ (refl, refl)))

  pub create_allocation_row-Ensures :
      (row : PaymentAllocation)
      → Ensures
          (λ a t.
            (a ≡ row)
            × (find_allocation s.allocations row.id ≡ none)
            × (t ≡ record s { allocations = row ∷ s.allocations }))
          (create_allocation_row row s)
  unfolding create_allocation_row
  create_allocation_row-Ensures row =
      then_free _ _ _ _ _ s (λ fresh.
        then_insert _ _ _ _ _ _ s (λ new. Ensures-pure _ _ _ (refl, none_of _ fresh, refl)))

  pub create_allocation_reversal-Ensures :
      (row : PaymentAllocationReversal)
      → Ensures
          (λ r t.
            (r ≡ row)
            × (is_reversed s.reversals row.payment_allocation_id ≡ false)
            × (t ≡ record s { reversals = row ∷ s.reversals }))
          (create_allocation_reversal row s)
  unfolding create_allocation_reversal
  create_allocation_reversal-Ensures row = then_free _ _ _ _ _ s (λ fresh.
      then_free _ _ _ _ _ s
        (λ active. then_insert _ _ _ _ _ _ s (λ new. Ensures-pure _ _ _ (refl, active, refl))))

  pub create_payment_plan-Ensures :
      (input : CreatePaymentPlanInput)
      → Ensures
          (λ p t.
            (p ≡ proposed_plan input)
            × (ids_taken input.installments s.installments ≡ false)
            × (t ≡ record s {
              plans = proposed_plan input ∷ s.plans;
              installments = add_installments input.id input.installments s.installments;
            }))
          (create_payment_plan_with_installments input s)
  unfolding create_payment_plan_with_installments
  create_payment_plan-Ensures input = then_free _ _ _ _ _ s (λ fresh.
      then_free _ _ _ _ _ s
        (λ ids. then_insert _ _ _ _ _ _ s (λ new. Ensures-pure _ _ _ (refl, ids, refl))))

  pub create_receipt-Ensures :
      (row : Receipt)
      → Ensures
          (λ r t. (r ≡ row) × (t ≡ record s { receipts = row ∷ s.receipts }))
          (create_receipt row s)
  unfolding create_receipt
  create_receipt-Ensures row = then_free _ _ _ _ _ s (λ fresh.
      then_free _ _ _ _ _ s
        (λ unissued. then_insert _ _ _ _ _ _ s (λ new. Ensures-pure _ _ _ (refl, refl))))
