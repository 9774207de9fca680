-- ===== src/Payments/Safety/Allocation.antt =====
-- `createPaymentAllocation` and `reverseAllocation` keep the ledger.
use heritage_philippines_v.Prelude.{
  ℕ, true, false, Option, none, some, ◌≡◌, refl, sym, ap, subst, inl, inr, not, ◌==◌, any, arith,
  Bool-cases, Option-cases, ==→eq, some_eq, none-some, ◌∙◌,
}
use heritage_philippines_v.Prelude.Int.{pos, ◌+ℤ◌, ◌≤ℤ◌, ◌<ℤ◌, int_laws}
use heritage_philippines_v.Transaction.Rules.{
  Ensures, Ensures-pure, Ensures-err, Ensures-or_else, bind_gets, bind_same, bind-Ensures,
  bind_or_throw, then_same, then_require,
}
use heritage_philippines_v.Payments.Model.{
  Decimal, Payment, Installment, PaymentPlan, PaymentRefundAllocation,
}
use heritage_philippines_v.Payments.Calculations.{greater_than, compute_net_contribution}
use heritage_philippines_v.Payments.Repository.Refunds.{sum_refunds_for_payment}
use heritage_philippines_v.Payments.Store.{Store, World, sum_where}
use heritage_philippines_v.Payments.Repository.Bookings.{PaymentActor}
use heritage_philippines_v.Payments.Repository.Payments.{find_payment}
use heritage_philippines_v.Payments.Repository.Plans.{
  find_installment, with_plan, InstallmentForAllocation, find_installment_for_allocation,
}
use heritage_philippines_v.Payments.Repository.Allocations.{
  find_allocation, AllocationForReversal, find_allocation_for_reversal,
  sum_net_active_allocations_for_payment, sum_net_active_allocations_for_installment,
}
use heritage_philippines_v.Payments.Repository.Writes.{
  create_allocation_row-Ensures, create_allocation_reversal-Ensures, then_audit,
}
use heritage_philippines_v.Payments.Service.Reads.{
  Reads, find_scoped-Reads, assert_open-Reads, assert_booking_precision-Reads,
  resolve_allocation-Reads, resolve_reversal-Reads,
}
use heritage_philippines_v.Payments.Service.Replay.{CreateAllocationInput, ReverseAllocationInput}
use heritage_philippines_v.Payments.Service.Allocations.{
  require_stored_refunds_within_amount, allocate_new, create_allocation_tx, reverse_allocation_new,
  reverse_allocation_tx,
}
use heritage_philippines_v.Payments.Ledger.Sums.{
  net_of, linked_refunds, sum_where_none, net_active_total-eq-sum,
}
use heritage_philippines_v.Payments.Ledger.Invariant.{LedgerFits, of_payment, of_installment}
use heritage_philippines_v.Payments.Ledger.Rows.{find-and}
use heritage_philippines_v.Payments.Ledger.SetStatus.{any-false}
use heritage_philippines_v.Payments.Ledger.Allocate.{allocate-IsLedger}
use heritage_philippines_v.Payments.Ledger.Unallocate.{unallocate-IsLedger}
use heritage_philippines_v.Payments.Safety.Status.{scoped_row, not_greater}

stored_refunds-Reads :
    (amount refunded : Decimal) (s : Store)
    → Reads (λ a. Unit {0}) (require_stored_refunds_within_amount amount refunded) s
unfolding require_stored_refunds_within_amount
stored_refunds-Reads amount refunded s = elim (Bool-cases (greater_than refunded amount)) [
  | inl e ↦ rw (e, require_stored_refunds_within_amount) (Ensures-err _ _)
  | inr e ↦ rw (e, require_stored_refunds_within_amount) (Ensures-pure _ _ _ (refl, tt))
]

-- The installment that an allocation reads is a row of the table.
with_plan-row :
    (i : Installment) (o : Option PaymentPlan) (r : InstallmentForAllocation)
    → with_plan i o ≡ some r
    → (i.id ≡ r.id) × (i.amount ≡ r.amount)
with_plan-row i none r e = cc
with_plan-row i (some p) r e =
    let same = some_eq e in
    (
      ap (λ (x : InstallmentForAllocation). x.id) same,
      ap (λ (x : InstallmentForAllocation). x.amount) same,
    )

target_row :
    (id : ℕ) (s : Store) (r : InstallmentForAllocation)
    → find_installment_for_allocation id s ≡ some r
    → (i : Installment) × ((find_installment s.installments id ≡ some i)
        × (i.id ≡ id)
        × (i.id ≡ r.id)
        × (i.amount ≡ r.amount))
unfolding find_installment_for_allocation find_installment
target_row id s r e = elim (Option-cases (find_installment s.installments id)) [
  | inl absent ↦ absurd (none-some (rw (absent, find_installment_for_allocation) at e))
  | inr (i, found) ↦
      let row = with_plan-row i _ r (rw (found, find_installment_for_allocation) at e) in
      let same : (i.id == id) ≡ true =
        find-and (λ (x : Installment). x.id == id) s.installments i found in
      (i, (found, ==→eq i.id id same, row.0, row.1))
]

pub payment_active :
    (id : ℕ) (s : Store)
    → sum_net_active_allocations_for_payment id s
      ≡ sum_where (of_payment s.reversals id) (net_of s.refund_allocations) s.allocations
unfolding sum_net_active_allocations_for_payment
payment_active id s = net_active_total-eq-sum _ _ (pos 0) s.allocations ∙ omega int_laws

pub installment_active :
    (id : ℕ) (s : Store)
    → sum_net_active_allocations_for_installment id s
      ≡ sum_where
          (of_installment s.payments s.reversals id)
          (net_of s.refund_allocations)
          s.allocations
unfolding sum_net_active_allocations_for_installment
installment_active id s = net_active_total-eq-sum _ _ (pos 0) s.allocations ∙ omega int_laws

-- What is left of the payment `p` after its refunds.
abbrev Contribution : Store → Payment → ℕ → Decimal
Contribution s p k = compute_net_contribution (record {
  status = p.status;
  amount = p.amount;
  refunded_total = sum_refunds_for_payment s.refunds k;
})

module _ (s : Store) (amount : Decimal) where
  payment_room :
      (p : Payment) (k : ℕ)
      → p.id ≡ k
      → sum_net_active_allocations_for_payment p.id s +ℤ amount ≤ℤ Contribution s p p.id
      → sum_where (of_payment s.reversals k) (net_of s.refund_allocations) s.allocations +ℤ amount
        ≤ℤ Contribution s p k
  payment_room p k same h =
      subst
        (λ (j : ℕ).
          sum_where (of_payment s.reversals j) (net_of s.refund_allocations) s.allocations +ℤ amount
          ≤ℤ Contribution s p j)
        same (rw (payment_active p.id s) at h)

  installment_room :
      (i : Installment) (r : InstallmentForAllocation) (k : ℕ)
      → i.id ≡ k
      → i.id ≡ r.id
      → i.amount ≡ r.amount
      → sum_net_active_allocations_for_installment r.id s +ℤ amount ≤ℤ r.amount
      → sum_where
            (of_installment s.payments s.reversals k)
            (net_of s.refund_allocations)
            s.allocations
          +ℤ amount
        ≤ℤ i.amount
  installment_room i r k same id_eq amount_eq h =
      subst
        (λ (j : ℕ).
          sum_where (of_installment s.payments s.reversals j) (net_of s.refund_allocations)
              s.allocations
            +ℤ amount
          ≤ℤ i.amount)
        (sym id_eq ∙ same) (rw (amount_eq, sym (installment_active r.id s)) h)

module _ (w : World) (actor : PaymentActor) where
  allocate_new-LedgerFits :
      (input : CreateAllocationInput) (s : Store)
      → pos 0 <ℤ w.to_decimal input.amount
      → LedgerFits s
      → Ensures (λ a t. LedgerFits t) (allocate_new w actor input s)
  unfolding allocate_new
  allocate_new-LedgerFits input s positive ledger =
      let amount = w.to_decimal input.amount in
      bind_same _ _ _ _ s (find_scoped-Reads actor input.payment_id s) (λ p found.
        let row = scoped_row actor input.payment_id s p ledger found in
        let payer : find_payment s.payments input.payment_id ≡ some p =
          subst (λ (k : ℕ). find_payment s.payments k ≡ some p) row.1 row.0 in
        bind_gets _ _ _ s (
          then_same _ _ _ _ s (assert_open-Reads _ s) (λ payable.
            then_same _ _ _ _ s (assert_booking_precision-Reads _ _ s) (λ precise.
              bind_gets _ _ _ s (
                bind_or_throw _ _ _ _ s (λ r read.
                  let target = target_row input.installment_id s r read in
                  let i = target.0 in
                  then_require _ _ _ _ s (λ same_booking. then_require _ _ _ _ s (λ approved.
                    bind_gets _ _ _ s (
                      then_same _ _ _ _ s (stored_refunds-Reads _ _ s) (λ within.
                        bind_gets _ _ _ s (
                          then_require _ _ _ _ s (λ payment_free. bind_gets _ _ _ s (
                            then_require _ _ _ _ s (λ installment_free.
                              bind-Ensures _ _ _ _ s (create_allocation_row-Ensures s _) (λ a t new.
                                then_audit _ _ _ t (
                                  Ensures-pure _ _ _ (
                                    subst (λ (u : Store). LedgerFits u) (sym new.2)
                                      (allocate-IsLedger ledger _ p i new.1 positive payer
                                        target.1.0
                                        (payment_room s amount p input.payment_id row.1
                                          (not_greater _ _ payment_free))
                                        (installment_room s amount i r input.installment_id
                                          target.1.1 target.1.2 target.1.3
                                          (not_greater _ _ installment_free))))))))))))))))))))

  -- The body of `createPaymentAllocation` keeps the ledger.
  pub create_allocation-LedgerFits :
      (input : CreateAllocationInput) (s : Store)
      → pos 0 <ℤ w.to_decimal input.amount
      → LedgerFits s
      → Ensures (λ a t. LedgerFits t) (create_allocation_tx w actor input s)
  unfolding create_allocation_tx
  create_allocation-LedgerFits input s positive ledger =
      bind_same _ _ _ _ s (resolve_allocation-Reads actor s w input) (λ replay u.
        Ensures-or_else _ replay _ s (λ a e. ledger)
          (λ e. allocate_new-LedgerFits input s positive ledger))

  -- An allocation that no refund is linked to.
  reversal_row :
      (id : ℕ) (s : Store) (r : AllocationForReversal)
      → find_allocation_for_reversal id s ≡ some r
      → not r.has_refund_allocation ≡ true
      → linked_refunds s.refund_allocations r.id ≡ pos 0
  unfolding find_allocation_for_reversal
  reversal_row id s r e unlinked = elim (Option-cases (find_allocation s.allocations id)) [
    | inl absent ↦ absurd (none-some (rw (absent, find_allocation_for_reversal) at e))
    | inr (a, found) ↦
        let same = some_eq (rw (found, find_allocation_for_reversal) at e) in
        sum_where_none _ _ s.refund_allocations (
          any-false _ s.refund_allocations (
            subst
              (λ (x : AllocationForReversal).
                x.has_refund_allocation ≡ false
                → any (λ (y : PaymentRefundAllocation). y.payment_allocation_id == x.id)
                    s.refund_allocations
                  ≡ false)
              same (λ h. h) (ground (arith, unlinked))))
  ]

  reverse_new-LedgerFits :
      (input : ReverseAllocationInput) (s : Store)
      → LedgerFits s
      → Ensures (λ a t. LedgerFits t) (reverse_allocation_new w actor input s)
  unfolding reverse_allocation_new
  reverse_new-LedgerFits input s ledger = bind_gets _ _ _ s (
      bind_or_throw _ _ _ _ s (λ r read.
        bind_same _ _ _ _ s (find_scoped-Reads actor r.payment_id s) (λ p found.
          then_require _ _ _ _ s (λ active. then_require _ _ _ _ s (λ unlinked.
            bind-Ensures _ _ _ _ s (create_allocation_reversal-Ensures s _) (λ row t new.
              then_audit _ _ _ t (
                Ensures-pure _ _ _ (
                  subst (λ (u : Store). LedgerFits u) (sym new.2)
                    (unallocate-IsLedger ledger _
                      (reversal_row input.allocation_id s r read unlinked))))))))))

  -- The body of `reverseAllocation` keeps the ledger.
  pub reverse_allocation-LedgerFits :
      (input : ReverseAllocationInput) (s : Store)
      → LedgerFits s
      → Ensures (λ a t. LedgerFits t) (reverse_allocation_tx w actor input s)
  unfolding reverse_allocation_tx
  reverse_allocation-LedgerFits input s ledger =
      bind_same _ _ _ _ s (resolve_reversal-Reads actor s input) (λ replay u.
        Ensures-or_else _ replay _ s (λ a e. ledger) (λ e. reverse_new-LedgerFits input s ledger))
