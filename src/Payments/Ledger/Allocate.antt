-- ===== src/Payments/Ledger/Allocate.antt =====
-- A new allocation keeps the ledger, where the payment and the installment have room for it.
use heritage_philippines_v.Prelude.{
  ℕ, Bool, true, false, none, some, List, ◌∷◌, ◌≡◌, sym, ap, subst, ◌∙◌, inl, inr, ◌==◌, All-map,
  is_some, arith, if◌then◌else◌, Bool-cases, ==→eq, ==_refl, some_eq,
}
use heritage_philippines_v.Prelude.Int.{pos, ◌+ℤ◌, ◌≤ℤ◌, ◌<ℤ◌, int_laws}
use heritage_philippines_v.Payments.Model.{
  Decimal, Installment, Payment, PaymentRefund, PaymentRefundAllocation, PaymentAllocation,
  PaymentAllocationReversal,
}
use heritage_philippines_v.Payments.Store.{sum_where}
use heritage_philippines_v.Payments.Calculations.{compute_net_contribution}
use heritage_philippines_v.Payments.Repository.Plans.{find_installment}
use heritage_philippines_v.Payments.Repository.Payments.{find_payment}
use heritage_philippines_v.Payments.Repository.Refunds.{sum_refunds_for_payment}
use heritage_philippines_v.Payments.Repository.Allocations.{find_allocation}
use heritage_philippines_v.Payments.Ledger.Sums.{
  linked_refunds, net_of, sum_where_none, sum_where_nonneg,
}
use heritage_philippines_v.Payments.Ledger.Rows.{absent_ne}
use heritage_philippines_v.Payments.Ledger.Coverage.{net_nonneg}
use heritage_philippines_v.Payments.Ledger.Invariant.{
  IsLedger, PaymentFits, AllocationFits, InstallmentFits, StatusFits, of_payment, of_installment,
  is_allocated,
}
use heritage_philippines_v.Payments.Ledger.StatusLaws.{StatusFits-le, StatusFits-allocate}
use heritage_philippines_v.Payments.Ledger.Transitions.{only_row}

-- One more row adds its value at most, and nothing where it does not pass the test.
pub one_more :
    (b : Bool) (net amount total : Decimal)
    → pos 0 ≤ℤ amount
    → net ≤ℤ amount
    → (if b then net else pos 0) +ℤ total ≤ℤ total +ℤ amount
one_more true net amount total h le = omega int_laws
one_more false net amount total h le = omega int_laws

module _ {payments : List Payment} {refunds : List PaymentRefund}
    {linked : List PaymentRefundAllocation} {allocations : List PaymentAllocation}
    {reversals : List PaymentAllocationReversal} {installments : List Installment}
    (ledger : IsLedger payments refunds linked allocations reversals installments)
    (a : PaymentAllocation) (p : Payment) (i : Installment)
    (fresh : find_allocation allocations a.id ≡ none) (positive : pos 0 <ℤ a.amount)
    (payer : find_payment payments a.payment_id ≡ some p)
    (target : find_installment installments a.installment_id ≡ some i)
    (payment_room : sum_where (of_payment reversals a.payment_id) (net_of linked) allocations
        +ℤ a.amount
      ≤ℤ compute_net_contribution (record {
        status = p.status;
        amount = p.amount;
        refunded_total = sum_refunds_for_payment refunds a.payment_id;
      }))
    (installment_room : sum_where
          (of_installment payments reversals a.installment_id)
          (net_of linked)
          allocations
        +ℤ a.amount
      ≤ℤ i.amount) where
  -- The payment `y` of the id `k` has room for the amount.
  abbrev PaymentRoom : ℕ → Payment → Type 0
  PaymentRoom k y =
      sum_where (of_payment reversals k) (net_of linked) allocations +ℤ a.amount
      ≤ℤ compute_net_contribution (record {
        status = y.status;
        amount = y.amount;
        refunded_total = sum_refunds_for_payment refunds k;
      })

  abbrev InstallmentRoom : ℕ → Installment → Type 0
  InstallmentRoom k y =
      sum_where (of_installment payments reversals k) (net_of linked) allocations +ℤ a.amount
      ≤ℤ y.amount

  other_id : (q : ℕ) → is_some (find_allocation allocations q) ≡ true → (a.id == q) ≡ false
  unfolding find_allocation
  other_id q h = absent_ne (λ (r : PaymentAllocation). r.id) allocations a.id q fresh h

  unlinked : linked_refunds linked a.id ≡ pos 0
  unlinked =
      sum_where_none (λ (r : PaymentRefundAllocation). r.payment_allocation_id == a.id)
        (λ r. r.amount) linked
        (All-map linked
          (λ r fits. ground (arith, other_id r.payment_allocation_id fits.has_allocation))
          ledger.link)

  net_new : net_of linked a ≤ℤ a.amount
  net_new = rw unlinked (omega int_laws)

  active_nonneg :
      (id : ℕ) → pos 0 ≤ℤ sum_where (of_payment reversals id) (net_of linked) allocations
  active_nonneg id =
      sum_where_nonneg (of_payment reversals id) (net_of linked) allocations
        (All-map allocations net_nonneg ledger.allocation)

  AllocationFits-cons :
      (x : PaymentAllocation)
      → AllocationFits payments refunds linked allocations reversals installments x
      → AllocationFits payments refunds linked (a ∷ allocations) reversals installments x
  unfolding find_allocation
  AllocationFits-cons x fits = record {
    unique = rw (other_id x.id (ap is_some fits.unique)) fits.unique;
    positive = fits.positive;
    within = fits.within;
    reversed_whole = fits.reversed_whole;
    has_payment = fits.has_payment;
    has_installment = fits.has_installment;
  }

  new_allocation : AllocationFits payments refunds linked (a ∷ allocations) reversals installments a
  unfolding find_allocation
  new_allocation = record {
    unique = rw (==_refl a.id);
    positive = positive;
    within = rw unlinked (omega arith);
    reversed_whole = λ e. unlinked;
    has_payment = ap is_some payer;
    has_installment = ap is_some target;
  }

  payer_row :
      (x : Payment)
      → PaymentFits payments refunds linked allocations reversals installments x
      → (x.id == a.payment_id) ≡ true
      → PaymentFits payments refunds linked (a ∷ allocations) reversals installments x
  payer_row x fits same = record {
    unique = fits.unique;
    positive = fits.positive;
    status =
        let id_eq : a.payment_id ≡ x.id = sym (==→eq x.id a.payment_id same) in
        let row_eq : p ≡ x = sym (only_row ledger a.payment_id p payer x fits same) in
        let room : PaymentRoom x.id x =
          subst (λ (y : Payment). PaymentRoom x.id y) row_eq
            (subst (λ (k : ℕ). PaymentRoom k p) id_eq payment_room) in
        let allocated : true ≡ is_allocated (a ∷ allocations) x.id = ground arith in
        subst
          (λ (b : Bool).
            StatusFits x.status x.amount (sum_refunds_for_payment refunds x.id)
              (sum_where (of_payment reversals x.id) (net_of linked) (a ∷ allocations)) b)
          allocated
          (StatusFits-allocate x.status x.amount (sum_refunds_for_payment refunds x.id)
            (sum_where (of_payment reversals x.id) (net_of linked) allocations)
            (sum_where (of_payment reversals x.id) (net_of linked) (a ∷ allocations)) a.amount
            (is_allocated allocations x.id) (active_nonneg x.id) positive room
            (one_more (of_payment reversals x.id a) (net_of linked a) a.amount
              (sum_where (of_payment reversals x.id) (net_of linked) allocations) (omega arith)
              net_new)
            fits.status);
  }

  other_row :
      (x : Payment)
      → PaymentFits payments refunds linked allocations reversals installments x
      → (x.id == a.payment_id) ≡ false
      → PaymentFits payments refunds linked (a ∷ allocations) reversals installments x
  other_row x fits other = record {
    unique = fits.unique;
    positive = fits.positive;
    status =
        let ne : (a.payment_id == x.id) ≡ false = ground arith in
        rw ne (
          StatusFits-le x.status x.amount (sum_refunds_for_payment refunds x.id)
            (sum_where (of_payment reversals x.id) (net_of linked) allocations)
            (pos 0 +ℤ sum_where (of_payment reversals x.id) (net_of linked) allocations)
            (is_allocated allocations x.id) (omega int_laws) fits.status);
  }

  covered_row :
      (x : Installment)
      → InstallmentFits payments refunds linked allocations reversals installments x
      → InstallmentFits payments refunds linked (a ∷ allocations) reversals installments x
  covered_row x fits = record {
    unique = fits.unique;
    positive = fits.positive;
    covered = elim (Bool-cases (a.installment_id == x.id)) [
      | inl same ↦
          let id_eq : a.installment_id ≡ x.id = ==→eq a.installment_id x.id same in
          let row_eq : i ≡ x =
            some_eq (sym target ∙ ap (find_installment installments) id_eq ∙ fits.unique) in
          let room : InstallmentRoom x.id x =
            subst (λ (y : Installment). InstallmentRoom x.id y) row_eq
              (subst (λ (k : ℕ). InstallmentRoom k i) id_eq installment_room) in
          omega (
            arith,
            room,
            one_more (of_installment payments reversals x.id a) (net_of linked a) a.amount
                (sum_where (of_installment payments reversals x.id) (net_of linked) allocations)
                (omega arith) net_new,
          )
      | inr other ↦ rw other (omega (int_laws, fits.covered))
    ];
  }

  pub allocate-IsLedger : IsLedger payments refunds linked (a ∷ allocations) reversals installments
  unfolding find_allocation
  allocate-IsLedger = record {
    payment =
        All-map payments
          (λ x fits. elim (Bool-cases (x.id == a.payment_id)) [
            | inl same ↦ payer_row x fits same
            | inr other ↦ other_row x fits other
          ])
          ledger.payment;
    refund =
        All-map refunds
          (λ r fits. record { positive = fits.positive; has_payment = fits.has_payment })
          ledger.refund;
    link =
        All-map linked
          (λ r fits. record {
            positive = fits.positive;
            has_allocation =
                rw (other_id r.payment_allocation_id fits.has_allocation) fits.has_allocation;
          })
          ledger.link;
    allocation = (new_allocation, All-map allocations AllocationFits-cons ledger.allocation);
    installment = All-map installments covered_row ledger.installment;
  }
