-- ===== src/Payments/Safety/Status.antt =====
-- `confirmPayment` and `reversePayment` keep the ledger.
use heritage_philippines_v.Prelude.{ℕ, true, some, ◌≡◌, subst, not, arith, ==→eq, sym, All-find}
use heritage_philippines_v.Prelude.Int.{◌≤ℤ◌, ltb_ℤ-false}
use heritage_philippines_v.Transaction.Rules.{
  Ensures, Ensures-pure, Ensures-or_else, bind_gets, bind_same, bind-Ensures, then_same,
  then_require,
}
use heritage_philippines_v.Payments.Model.{Decimal, Payment, PaymentStatus}
use heritage_philippines_v.Payments.Calculations.{greater_than}
use heritage_philippines_v.Payments.Store.{Store, World}
use heritage_philippines_v.Payments.Repository.Bookings.{PaymentActor}
use heritage_philippines_v.Payments.Repository.Payments.{
  find_payment, find_payment_for_actor, set_status,
}
use heritage_philippines_v.Payments.Repository.Writes.{
  transition_payment_status-Ensures, then_audit,
}
use heritage_philippines_v.Payments.Service.Reads.{
  find_scoped-Reads, assert_open-Reads, resolve_status_transition-Reads,
}
use heritage_philippines_v.Payments.Service.Replay.{StatusInput, same_status}
use heritage_philippines_v.Payments.Service.Payments.{
  change_status, confirm_new, confirm_payment_tx, reverse_new, reverse_payment_tx,
}
use heritage_philippines_v.Payments.Ledger.Invariant.{LedgerFits}
use heritage_philippines_v.Payments.Ledger.Transitions.{confirm-IsLedger, reverse-IsLedger}

pub same_status-eq : (a b : PaymentStatus) → same_status a b ≡ true → a ≡ b
same_status-eq a b h = grind arith

pub not_greater : (a b : Decimal) → not (greater_than a b) ≡ true → a ≤ℤ b
not_greater a b h = ltb_ℤ-false b a (ground (arith, h))

-- The payment that an actor finds is the row of its id.
pub scoped_row :
    (actor : PaymentActor) (payment_id : ℕ) (s : Store) (p : Payment)
    → LedgerFits s
    → find_payment_for_actor actor payment_id s ≡ some p
    → (find_payment s.payments p.id ≡ some p) × (p.id ≡ payment_id)
unfolding find_payment_for_actor
scoped_row actor payment_id s p ledger e =
    let row = All-find _ _ s.payments p ledger.payment e in
    (row.0.unique, ==→eq p.id payment_id (ground (arith, row.1)))

module _ (w : World) (actor : PaymentActor) (input : StatusInput) where
  change_status-LedgerFits :
      (p : Payment) (status : PaymentStatus) (s : Store)
      → find_payment s.payments p.id ≡ some p
      → LedgerFits (record s { payments = set_status p.id status s.payments })
      → Ensures (λ a t. LedgerFits t) (change_status w actor input p status s)
  unfolding change_status
  change_status-LedgerFits p status s found ledger =
      bind-Ensures _ _ _ _ s (transition_payment_status-Ensures s _ p found) (λ q t e.
        then_audit _ _ _ t
          (Ensures-pure _ _ _ (subst (λ (u : Store). LedgerFits u) (sym e.2) ledger)))

  confirm_new-LedgerFits :
      (s : Store) → LedgerFits s → Ensures (λ a t. LedgerFits t) (confirm_new w actor input s)
  unfolding confirm_new
  confirm_new-LedgerFits s ledger =
      bind_same _ _ _ _ s (find_scoped-Reads actor input.payment_id s) (λ p found.
        let row = scoped_row actor input.payment_id s p ledger found in
        bind_gets _ _ _ s (
          then_same _ _ _ _ s (assert_open-Reads _ s) (λ payable. then_require _ _ _ _ s (λ pending.
            change_status-LedgerFits p PaymentStatus.confirmed s row.0
              (confirm-IsLedger ledger p.id p row.0 (same_status-eq _ _ pending))))))

  -- The body of `confirmPayment` keeps the ledger.
  pub confirm_payment-LedgerFits :
      (s : Store)
      → LedgerFits s
      → Ensures (λ a t. LedgerFits t) (confirm_payment_tx w actor input s)
  unfolding confirm_payment_tx
  confirm_payment-LedgerFits s ledger =
      bind_same _ _ _ _ s (resolve_status_transition-Reads actor s input PaymentStatus.confirmed)
        (λ replay u.
          Ensures-or_else _ replay _ s (λ a e. ledger) (λ e. confirm_new-LedgerFits s ledger))

  reverse_new-LedgerFits :
      (s : Store) → LedgerFits s → Ensures (λ a t. LedgerFits t) (reverse_new w actor input s)
  unfolding reverse_new
  reverse_new-LedgerFits s ledger =
      bind_same _ _ _ _ s (find_scoped-Reads actor input.payment_id s) (λ p found.
        let row = scoped_row actor input.payment_id s p ledger found in
        then_require _ _ _ _ s (λ confirmed. bind_gets _ _ _ s (
          then_require _ _ _ _ s (λ unrefunded.
            change_status-LedgerFits p PaymentStatus.reversed s row.0 (
              reverse-IsLedger ledger p.id p row.0 (same_status-eq _ _ confirmed)
                (not_greater _ _ unrefunded))))))

  -- The body of `reversePayment` keeps the ledger.
  pub reverse_payment-LedgerFits :
      (s : Store)
      → LedgerFits s
      → Ensures (λ a t. LedgerFits t) (reverse_payment_tx w actor input s)
  unfolding reverse_payment_tx
  reverse_payment-LedgerFits s ledger =
      bind_same _ _ _ _ s (resolve_status_transition-Reads actor s input PaymentStatus.reversed)
        (λ replay u.
          Ensures-or_else _ replay _ s (λ a e. ledger) (λ e. reverse_new-LedgerFits s ledger))
