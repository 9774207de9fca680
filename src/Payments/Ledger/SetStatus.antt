-- ===== src/Payments/Ledger/SetStatus.antt =====
-- A change of a payment's status keeps the ledger, where the new status fits and no payment comes to
-- count that has allocations.
use heritage_philippines_v.Prelude.{
  ℕ, Bool, true, false, some, List, [], ◌∷◌, ◌≡◌, ap, ◌∙◌, inl, inr, ◌==◌, any, All, All-map, arith,
  Bool-cases,
}
use heritage_philippines_v.Prelude.Int.{pos, ◌≤ℤ◌}
use heritage_philippines_v.Payments.Model.{
  Installment, Payment, PaymentStatus, PaymentRefund, PaymentRefundAllocation, PaymentAllocation,
  PaymentAllocationReversal,
}
use heritage_philippines_v.Payments.Store.{sum_where}
use heritage_philippines_v.Payments.Repository.Payments.{find_payment, set_status}
use heritage_philippines_v.Payments.Repository.Refunds.{sum_refunds_for_payment}
use heritage_philippines_v.Payments.Repository.Allocations.{payment_counts}
use heritage_philippines_v.Payments.Ledger.Sums.{net_of}
use heritage_philippines_v.Payments.Ledger.Rows.{
  change_status, changed, find_payment-set_status, is_some-set_status, All-set_status,
}
use heritage_philippines_v.Payments.Ledger.Coverage.{net_nonneg, covered_le}
use heritage_philippines_v.Payments.Ledger.Invariant.{
  IsLedger, PaymentFits, AllocationFits, StatusFits, of_payment, is_allocated,
}

pub any-false :
    {A : Type 0} (p : A → Bool) (xs : List A) → any p xs ≡ false → All (λ x. p x ≡ false) xs
any-false p [] h = tt
any-false p (x ∷ xs) h = elim (Bool-cases (p x)) [
  | inl e ↦ absurd (ground arith)
  | inr e ↦ (e, any-false p xs (ground arith))
]

module _ {payments : List Payment} {refunds : List PaymentRefund}
    {linked : List PaymentRefundAllocation} {allocations : List PaymentAllocation}
    {reversals : List PaymentAllocationReversal} {installments : List Installment}
    (ledger : IsLedger payments refunds linked allocations reversals installments) (id : ℕ)
    (status : PaymentStatus) where
  abbrev after : List Payment
  after = set_status id status payments

  -- An allocation whose payment counts after the change counted before it.
  abbrev pub CountedBefore : PaymentAllocation → Type 0
  CountedBefore a =
      payment_counts after a.payment_id ≡ true → payment_counts payments a.payment_id ≡ true

  -- The new status fits the payment of this id.
  abbrev pub NewStatusFits : Payment → Type 0
  NewStatusFits x =
      (x.id == id) ≡ true
      → StatusFits status x.amount (sum_refunds_for_payment refunds x.id)
          (sum_where (of_payment reversals x.id) (net_of linked) allocations)
          (is_allocated allocations x.id)

  changed_row :
      (x : Payment)
      → PaymentFits payments refunds linked allocations reversals installments x
      → NewStatusFits x
      → PaymentFits after refunds linked allocations reversals installments
          (change_status id status x)
  changed_row x fits new = elim (Bool-cases (x.id == id)) [
    | inl same ↦
        let found : find_payment after x.id ≡ some (change_status id status x) =
          find_payment-set_status id status payments x.id ∙ ap (changed id status) fits.unique in
        rw same (record { unique = rw same at found; positive = fits.positive; status = new same })
    | inr other ↦
        let found : find_payment after x.id ≡ some (change_status id status x) =
          find_payment-set_status id status payments x.id ∙ ap (changed id status) fits.unique in
        rw other
          (record { unique = rw other at found; positive = fits.positive; status = fits.status })
  ]

  pub set_status-IsLedger :
      All CountedBefore allocations
      → ((x : Payment)
          → PaymentFits payments refunds linked allocations reversals installments x
          → NewStatusFits x)
      → IsLedger after refunds linked allocations reversals installments
  set_status-IsLedger counted new = record {
    payment =
        All-set_status (PaymentFits after refunds linked allocations reversals installments) id
          status payments
          (All-map payments (λ x fits. changed_row x fits (new x fits)) ledger.payment);
    refund =
        All-map refunds
          (λ r fits. record {
            positive = fits.positive;
            has_payment = is_some-set_status id status payments r.payment_id fits.has_payment;
          })
          ledger.refund;
    link =
        All-map linked
          (λ r fits. record { positive = fits.positive; has_allocation = fits.has_allocation })
          ledger.link;
    allocation =
        All-map allocations
          (λ a fits. record {
            unique = fits.unique;
            positive = fits.positive;
            within = fits.within;
            reversed_whole = fits.reversed_whole;
            has_payment = is_some-set_status id status payments a.payment_id fits.has_payment;
            has_installment = fits.has_installment;
          })
          ledger.allocation;
    installment =
        All-map installments
          (λ i fits. record {
            unique = fits.unique;
            positive = fits.positive;
            covered = omega (
              arith,
              covered_le payments after linked reversals i.id allocations
                  (both allocations ledger.allocation counted),
              fits.covered,
            );
          })
          ledger.installment;
  }
    where
      both :
          (rows : List PaymentAllocation)
          → All (AllocationFits payments refunds linked allocations reversals installments) rows
          → All CountedBefore rows
          → All (λ a. (pos 0 ≤ℤ net_of linked a) × CountedBefore a) rows
      both [] h k = tt
      both (a ∷ rows) h k = ((net_nonneg a h.0, k.0), both rows h.1 k.1)
