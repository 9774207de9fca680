-- ===== src/Payments/Ledger/Refund.antt =====
-- A refund keeps the ledger, together with the status that it leaves its payment in.
use heritage_philippines_v.Prelude.{
  ℕ, Bool, true, false, some, List, [], ◌∷◌, ◌≡◌, sym, ap, subst, ◌∙◌, inl, inr, ◌==◌, All, All-map,
  is_some, arith, Bool-cases, ==→eq, ==_refl,
}
use heritage_philippines_v.Prelude.Int.{pos, ◌+ℤ◌, ◌-ℤ◌, ◌≤ℤ◌, ◌<ℤ◌, int_laws}
use heritage_philippines_v.Payments.Model.{
  Decimal, Installment, Payment, PaymentStatus, PaymentRefund, PaymentRefundAllocation,
  PaymentAllocation, PaymentAllocationReversal,
}
use heritage_philippines_v.Payments.Store.{sum_where}
use heritage_philippines_v.Payments.Calculations.{counts}
use heritage_philippines_v.Payments.Ledger.Transitions.{found_row, only_row}
use heritage_philippines_v.Payments.Repository.Payments.{find_payment, with_status, set_status}
use heritage_philippines_v.Payments.Repository.Refunds.{sum_refunds_for_payment}
use heritage_philippines_v.Payments.Repository.Allocations.{
  payment_counts, counts_found, is_reversed,
}
use heritage_philippines_v.Payments.Ledger.Sums.{net_of, linked_refunds}
use heritage_philippines_v.Payments.Ledger.Rows.{
  change_status, changed, find_payment-set_status, is_some-set_status, All-set_status,
  payment_counts-set_status_ne,
}
use heritage_philippines_v.Payments.Ledger.Coverage.{covered_le}
use heritage_philippines_v.Payments.Ledger.Invariant.{
  IsLedger, PaymentFits, RefundFits, AllocationFits, StatusFits, of_payment, is_allocated,
}
use heritage_philippines_v.Payments.Ledger.StatusLaws.{StatusFits-le}
use heritage_philippines_v.Payments.Ledger.Link.{Relinked, Relinked-active, Relinked-coverage}

-- The status that a payment ends with, by its refunds.
abbrev pub Final : PaymentStatus → Decimal → Decimal → Type 0
Final PaymentStatus.confirmed amount refunded = refunded <ℤ amount
Final PaymentStatus.refunded amount refunded = refunded ≡ amount
Final PaymentStatus.pending amount refunded = ⊥
Final PaymentStatus.rejected amount refunded = ⊥
Final PaymentStatus.cancelled amount refunded = ⊥
Final PaymentStatus.failed amount refunded = ⊥
Final PaymentStatus.reversed amount refunded = ⊥

Final-StatusFits :
    (status : PaymentStatus) (amount refunded active : Decimal) (allocated : Bool)
    → Final status amount refunded
    → pos 0 ≤ℤ refunded
    → active +ℤ refunded ≤ℤ amount
    → StatusFits status amount refunded active allocated
Final-StatusFits PaymentStatus.confirmed amount refunded active allocated h p room = (p, h, room)
Final-StatusFits PaymentStatus.refunded amount refunded active allocated h p room =
    (h, omega (int_laws, rw h at room))
Final-StatusFits PaymentStatus.pending amount refunded active allocated h p room = absurd h
Final-StatusFits PaymentStatus.rejected amount refunded active allocated h p room = absurd h
Final-StatusFits PaymentStatus.cancelled amount refunded active allocated h p room = absurd h
Final-StatusFits PaymentStatus.failed amount refunded active allocated h p room = absurd h
Final-StatusFits PaymentStatus.reversed amount refunded active allocated h p room = absurd h

zero_add : (d : Decimal) → d ≡ pos 0 +ℤ d
zero_add d = omega int_laws

module _ {payments : List Payment} {refunds : List PaymentRefund}
    {linked linked' : List PaymentRefundAllocation} {allocations : List PaymentAllocation}
    {reversals : List PaymentAllocationReversal} {installments : List Installment}
    (ledger : IsLedger payments refunds linked allocations reversals installments) (p : Payment)
    (r : PaymentRefund) (status : PaymentStatus) {taken : Decimal}
    (found : find_payment payments p.id ≡ some p) (confirmed : p.status ≡ PaymentStatus.confirmed)
    (owner : r.payment_id ≡ p.id) (positive : pos 0 <ℤ r.amount)
    (relinked : Relinked payments linked linked' allocations reversals p.id taken)
    (nonneg : pos 0 ≤ℤ sum_refunds_for_payment refunds p.id)
    (final : Final status p.amount (r.amount +ℤ sum_refunds_for_payment refunds p.id))
    (room : sum_where (of_payment reversals p.id) (net_of linked) allocations -ℤ taken
      ≤ℤ p.amount -ℤ (sum_refunds_for_payment refunds p.id +ℤ r.amount)) where
  abbrev after : List Payment
  after = set_status p.id status payments

  abbrev Fits : Payment → Type 0
  Fits = PaymentFits payments refunds linked allocations reversals installments

  abbrev Fits' : Payment → Type 0
  Fits' = PaymentFits after (r ∷ refunds) linked' allocations reversals installments

  own-Fits : Fits p
  own-Fits = (found_row ledger p.id p found).0

  own_refund : (r.payment_id == p.id) ≡ true
  own_refund = rw owner (==_refl p.id)

  own_row : Fits' (with_status status p)
  unfolding sum_refunds_for_payment
  own_row =
      let row : find_payment after p.id ≡ some (change_status p.id status p) =
        find_payment-set_status p.id status payments p.id ∙ ap (changed p.id status) found in
      record {
        unique = rw (==_refl p.id) at row;
        positive = own-Fits.positive;
        status = rw own_refund (
            Final-StatusFits status p.amount (r.amount +ℤ sum_refunds_for_payment refunds p.id)
              (sum_where (of_payment reversals p.id) (net_of linked') allocations)
              (is_allocated allocations p.id) final (omega (int_laws, nonneg, positive))
              (omega (int_laws, relinked.drop, room)));
      }

  other_row : (x : Payment) → Fits x → (x.id == p.id) ≡ false → Fits' x
  unfolding sum_refunds_for_payment
  other_row x fits other =
      let row : find_payment after x.id ≡ some (change_status p.id status x) =
        find_payment-set_status p.id status payments x.id ∙ ap (changed p.id status) fits.unique in
      let ne : (r.payment_id == x.id) ≡ false = rw owner (ground arith) in
      let refunded = sum_refunds_for_payment refunds x.id in
      record {
        unique = rw other at row;
        positive = fits.positive;
        status = rw ne (
            subst
              (λ (d : Decimal).
                StatusFits x.status x.amount d
                  (sum_where (of_payment reversals x.id) (net_of linked') allocations)
                  (is_allocated allocations x.id))
              (zero_add refunded)
              (StatusFits-le x.status x.amount refunded
                (sum_where (of_payment reversals x.id) (net_of linked) allocations)
                (sum_where (of_payment reversals x.id) (net_of linked') allocations)
                (is_allocated allocations x.id) (Relinked-active relinked x.id) fits.status));
      }

  counted_before : (q : ℕ) → payment_counts after q ≡ true → payment_counts payments q ≡ true
  unfolding payment_counts
  counted_before q e = elim (Bool-cases (q == p.id)) [
    | inl same ↦
        subst (λ (k : ℕ). payment_counts payments k ≡ true) (sym (==→eq q p.id same))
          (ap counts_found found ∙ ap counts confirmed)
    | inr other ↦ sym (payment_counts-set_status_ne p.id status payments q other) ∙ e
  ]

  payment_row : (x : Payment) → Fits x → Fits' (change_status p.id status x)
  payment_row x fits = elim (Bool-cases (x.id == p.id)) [
    | inl same ↦
        let row_eq : p ≡ x = sym (only_row ledger p.id p found x fits same) in
        rw same (subst (λ (y : Payment). Fits' (with_status status y)) row_eq own_row)
    | inr other ↦ rw other (other_row x fits other)
  ]

  refund_row : RefundFits after (r ∷ refunds) linked' allocations reversals installments r
  refund_row = record {
    positive = positive;
    has_payment =
        is_some-set_status p.id status payments r.payment_id (rw owner (ap is_some found));
  }

  zip :
      (rows : List PaymentAllocation)
      → All (AllocationFits payments refunds linked allocations reversals installments) rows
      → All
          (λ (x : PaymentAllocation).
            (linked_refunds linked' x.id ≤ℤ x.amount)
            × (is_reversed reversals x.id ≡ true → linked_refunds linked' x.id ≡ pos 0))
          rows
      → All (AllocationFits after (r ∷ refunds) linked' allocations reversals installments) rows
  zip [] h k = tt
  zip (x ∷ rows) h k = (
    record {
      unique = h.0.unique;
      positive = h.0.positive;
      within = k.0.0;
      reversed_whole = k.0.1;
      has_payment = is_some-set_status p.id status payments x.payment_id h.0.has_payment;
      has_installment = h.0.has_installment;
    },
    zip rows h.1 k.1,
  )

  -- What each allocation still allocates stays at zero or more.
  nets :
      (rows : List PaymentAllocation)
      → All
          (λ (x : PaymentAllocation).
            (linked_refunds linked' x.id ≤ℤ x.amount)
            × (is_reversed reversals x.id ≡ true → linked_refunds linked' x.id ≡ pos 0))
          rows
      → All
          (λ (x : PaymentAllocation).
            (pos 0 ≤ℤ net_of linked' x)
            × (payment_counts after x.payment_id ≡ true
                → payment_counts payments x.payment_id ≡ true))
          rows
  nets rows = All-map rows (λ x k. (omega (int_laws, k.0), counted_before x.payment_id))

  pub refund-IsLedger : IsLedger after (r ∷ refunds) linked' allocations reversals installments
  refund-IsLedger = record {
    payment =
        All-set_status Fits' p.id status payments (All-map payments payment_row ledger.payment);
    refund = (
      refund_row,
      All-map refunds
          (λ x fits. record {
            positive = fits.positive;
            has_payment = is_some-set_status p.id status payments x.payment_id fits.has_payment;
          })
          ledger.refund,
    );
    link = All-map linked' (λ x h. record { positive = h.0; has_allocation = h.1 }) relinked.links;
    allocation = zip allocations ledger.allocation relinked.rows;
    installment =
        All-map installments
          (λ i fits. record {
            unique = fits.unique;
            positive = fits.positive;
            covered = omega (
              arith,
              Relinked-coverage relinked i.id,
              fits.covered,
              covered_le payments after linked' reversals i.id allocations
                  (nets allocations relinked.rows),
            );
          })
          ledger.installment;
  }
