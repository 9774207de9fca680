-- ===== src/Payments/Repository/Payments.antt =====
-- Payments repository: payments, their status history and their receipts.
use heritage_philippines_v.Prelude.{
  ℕ, Bool, false, Option, none, some, List, ◌∷◌, ◌&&◌, ◌==◌, any, find, update_where, is_some,
}
use heritage_philippines_v.Transaction.{ok, err, unknown, pure, ◌>>◌}
use heritage_philippines_v.Payments.Model.{
  Decimal, Text, Payment, PaymentStatus, PaymentStatusHistory, Receipt,
}
use heritage_philippines_v.Payments.Audit.{AuditEntry}
use heritage_philippines_v.Payments.Store.{Store, PaymentTx, insert_unless}
use heritage_philippines_v.Payments.Repository.Bookings.{PaymentActor, can_see_booking}

unfoldable pub find_payment : List Payment → ℕ → Option Payment
find_payment payments id = find (λ p. p.id == id) payments

unfoldable pub find_payment_for_actor : PaymentActor → ℕ → Store → Option Payment
unfolding can_see_booking
find_payment_for_actor actor id s =
    find (λ p. p.id == id && can_see_booking actor s p.booking_id) s.payments

abbrev pub has_key : ℕ → PaymentStatusHistory → Bool
has_key key row = elim row.idempotency_key [ none ↦ false | some k ↦ k == key ]

-- The row whose unique `idempotencyKey` this is.
unfoldable pub find_status_history_by_idempotency_key :
    ℕ → List PaymentStatusHistory → Option PaymentStatusHistory
find_status_history_by_idempotency_key key = find (has_key key)

pub record CreatePendingPaymentInput : Type 0 where
  pub id : ℕ
  pub history_id : ℕ
  pub booking_id : ℕ
  pub client_id : ℕ
  pub amount : Decimal
  pub changed_by_user_id : ℕ
  pub idempotency_key : ℕ

abbrev pub pending_payment : CreatePendingPaymentInput → Payment
pending_payment input = record {
  id = input.id;
  booking_id = input.booking_id;
  client_id = input.client_id;
  amount = input.amount;
  status = PaymentStatus.pending;
}

abbrev pub initial_history : CreatePendingPaymentInput → PaymentStatusHistory
initial_history input = record {
  id = input.history_id;
  payment_id = input.id;
  previous_status = none;
  new_status = PaymentStatus.pending;
  changed_by_user_id = input.changed_by_user_id;
  reason = none;
  idempotency_key = some input.idempotency_key;
}

unfoldable pub create_pending_payment : CreatePendingPaymentInput → PaymentTx Payment
unfolding insert_unless find_payment find_status_history_by_idempotency_key
create_pending_payment input s =
    (do
      insert_unless (is_some (find_payment s.payments input.id)) "Payment" "id" (λ t. t)
      insert_unless
          (is_some (find_status_history_by_idempotency_key input.idempotency_key s.history))
          "Payment" "idempotencyKey"
          (λ t. record t {
            payments = pending_payment input ∷ t.payments;
            history = initial_history input ∷ t.history;
          })
      pure (pending_payment input))
      s

pub record TransitionPaymentStatusInput : Type 0 where
  pub payment_id : ℕ
  pub history_id : ℕ
  pub previous_status : PaymentStatus
  pub new_status : PaymentStatus
  pub changed_by_user_id : ℕ
  pub reason : Text
  pub idempotency_key : ℕ

abbrev pub transition_history : TransitionPaymentStatusInput → PaymentStatusHistory
transition_history input = record {
  id = input.history_id;
  payment_id = input.payment_id;
  previous_status = some input.previous_status;
  new_status = input.new_status;
  changed_by_user_id = input.changed_by_user_id;
  reason = some input.reason;
  idempotency_key = some input.idempotency_key;
}

abbrev pub with_status : PaymentStatus → Payment → Payment
with_status status p = record p { status = status }

abbrev pub set_status : ℕ → PaymentStatus → List Payment → List Payment
set_status id status = update_where (λ p. p.id == id) (with_status status)

unfoldable pub transition_payment_status : TransitionPaymentStatusInput → PaymentTx Payment
unfolding insert_unless find_payment find_status_history_by_idempotency_key
transition_payment_status input s = elim (find_payment s.payments input.payment_id) [
  | none ↦ err unknown
  | some p ↦
      (do
        insert_unless
            (is_some (find_status_history_by_idempotency_key input.idempotency_key s.history))
            "Payment" "idempotencyKey"
            (λ t. record t {
              payments = set_status input.payment_id input.new_status t.payments;
              history = transition_history input ∷ t.history;
            })
        pure (with_status input.new_status p))
        s
]

unfoldable pub find_receipt_by_payment_id : ℕ → List Receipt → Option Receipt
find_receipt_by_payment_id payment_id = find (λ r. r.payment_id == payment_id)

unfoldable pub create_receipt : Receipt → PaymentTx Receipt
unfolding insert_unless find_receipt_by_payment_id
create_receipt row s =
    (do
      insert_unless (any (λ (r : Receipt). r.id == row.id) s.receipts) "Receipt" "id" (λ t. t)
      insert_unless (is_some (find_receipt_by_payment_id row.payment_id s.receipts)) "Receipt"
          "paymentId" (λ t. t)
      insert_unless (any (λ (r : Receipt). r.receipt_number == row.receipt_number) s.receipts)
          "Receipt" "receiptNumber" (λ t. record t { receipts = row ∷ t.receipts })
      pure row)
      s

unfoldable pub insert_audit_log : AuditEntry → PaymentTx (Unit {0})
insert_audit_log entry s = ok (tt, record s { audit_log = entry ∷ s.audit_log })
