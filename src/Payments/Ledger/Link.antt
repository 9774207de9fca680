-- ===== src/Payments/Ledger/Link.antt =====
-- A refund that is linked to an allocation takes its amount from what the allocation still allocates.
use heritage_philippines_v.Prelude.{
  ℕ, Bool, true, false, some, List, ◌∷◌, ◌≡◌, sym, ap, subst, ◌∙◌, inl, inr, ◌==◌, All, All-map,
  All-find, is_some, arith, if◌then◌else◌, Bool-cases, ==→eq, some_eq,
}
use heritage_philippines_v.Prelude.Int.{pos, ◌+ℤ◌, ◌-ℤ◌, ◌≤ℤ◌, ◌<ℤ◌, int_laws}
use heritage_philippines_v.Payments.Model.{
  Decimal, Installment, Payment, PaymentRefund, PaymentRefundAllocation, PaymentAllocation,
  PaymentAllocationReversal,
}
use heritage_philippines_v.Payments.Store.{sum_where}
use heritage_philippines_v.Payments.Repository.Allocations.{find_allocation, is_reversed}
use heritage_philippines_v.Payments.Ledger.Sums.{
  linked_refunds, net_of, sum_where_le, sum_where_drop,
}
use heritage_philippines_v.Payments.Ledger.Invariant.{
  IsLedger, AllocationFits, of_payment, of_installment,
}

term_le : (b : Bool) (f g : Decimal) → f ≤ℤ g → (if b then f else pos 0) ≤ℤ (if b then g else pos 0)
term_le true f g h = h
term_le false f g h = omega arith

-- What must hold of the linked refunds after a refund of the payment `payment_id` that takes
-- `taken` from its net allocations.
pub record Relinked (payments : List Payment) (linked linked' : List PaymentRefundAllocation)
    (allocations : List PaymentAllocation) (reversals : List PaymentAllocationReversal)
    (payment_id : ℕ) (taken : Decimal) : Type 0 where
  pub links :
      All
        (λ (x : PaymentRefundAllocation).
          (pos 0 <ℤ x.amount)
          × (is_some (find_allocation allocations x.payment_allocation_id) ≡ true))
        linked'
  pub rows :
      All
        (λ (x : PaymentAllocation).
          (linked_refunds linked' x.id ≤ℤ x.amount)
          × (is_reversed reversals x.id ≡ true → linked_refunds linked' x.id ≡ pos 0))
        allocations
  pub shrunk : All (λ (x : PaymentAllocation). net_of linked' x ≤ℤ net_of linked x) allocations
  pub drop :
      sum_where (of_payment reversals payment_id) (net_of linked') allocations
      ≤ℤ sum_where (of_payment reversals payment_id) (net_of linked) allocations -ℤ taken

module _ {payments : List Payment} {linked linked' : List PaymentRefundAllocation}
    {allocations : List PaymentAllocation} {reversals : List PaymentAllocationReversal}
    {payment_id : ℕ} {taken : Decimal}
    (l : Relinked payments linked linked' allocations reversals payment_id taken) where
  pub Relinked-active :
      (k : ℕ)
      → sum_where (of_payment reversals k) (net_of linked') allocations
        ≤ℤ sum_where (of_payment reversals k) (net_of linked) allocations
  Relinked-active k =
      sum_where_le (of_payment reversals k) (of_payment reversals k) (net_of linked')
        (net_of linked) allocations
        (All-map allocations
          (λ x h. term_le (of_payment reversals k x) (net_of linked' x) (net_of linked x) h)
          l.shrunk)

  pub Relinked-coverage :
      (k : ℕ)
      → sum_where (of_installment payments reversals k) (net_of linked') allocations
        ≤ℤ sum_where (of_installment payments reversals k) (net_of linked) allocations
  Relinked-coverage k =
      sum_where_le (of_installment payments reversals k) (of_installment payments reversals k)
        (net_of linked') (net_of linked) allocations
        (All-map allocations
          (λ x h.
            term_le (of_installment payments reversals k x) (net_of linked' x) (net_of linked x) h)
          l.shrunk)

module _ {payments : List Payment} {refunds : List PaymentRefund}
    {linked : List PaymentRefundAllocation} {allocations : List PaymentAllocation}
    {reversals : List PaymentAllocationReversal} {installments : List Installment}
    (ledger : IsLedger payments refunds linked allocations reversals installments) where
  -- A refund with no link.
  pub unlinked-Relinked :
      (payment_id : ℕ) → Relinked payments linked linked allocations reversals payment_id (pos 0)
  unlinked-Relinked payment_id = record {
    links = All-map linked (λ x fits. (fits.positive, fits.has_allocation)) ledger.link;
    rows = All-map allocations (λ x fits. (fits.within, fits.reversed_whole)) ledger.allocation;
    shrunk = All-map allocations (λ x fits. omega arith) ledger.allocation;
    drop = omega int_laws;
  }

  module _ (payment_id : ℕ) (link : PaymentRefundAllocation) (a : PaymentAllocation)
      (positive : pos 0 <ℤ link.amount)
      (found : find_allocation allocations link.payment_allocation_id ≡ some a)
      (owner : (a.payment_id == payment_id) ≡ true) (active : is_reversed reversals a.id ≡ false)
      (room : linked_refunds linked a.id +ℤ link.amount ≤ℤ a.amount) where
    abbrev Fits : PaymentAllocation → Type 0
    Fits = AllocationFits payments refunds linked allocations reversals installments

    same_row :
        (x : PaymentAllocation) → Fits x → (link.payment_allocation_id == x.id) ≡ true → x ≡ a
    same_row x fits same = some_eq (
        sym fits.unique
        ∙ ap (find_allocation allocations) (sym (==→eq link.payment_allocation_id x.id same))
        ∙ found)

    net_shrinks : (x : PaymentAllocation) → net_of (link ∷ linked) x ≤ℤ net_of linked x
    net_shrinks x = elim (Bool-cases (link.payment_allocation_id == x.id)) [
      | inl same ↦ rw same (omega int_laws)
      | inr other ↦ rw other (omega int_laws)
    ]

    row_within : (x : PaymentAllocation) → Fits x → linked_refunds (link ∷ linked) x.id ≤ℤ x.amount
    row_within x fits = elim (Bool-cases (link.payment_allocation_id == x.id)) [
      | inl same ↦
          let room_here : linked_refunds linked x.id +ℤ link.amount ≤ℤ x.amount =
            subst (λ (y : PaymentAllocation). linked_refunds linked y.id +ℤ link.amount ≤ℤ y.amount)
              (sym (same_row x fits same)) room in
          rw same (omega (int_laws, room_here))
      | inr other ↦ rw other (omega (int_laws, fits.within))
    ]

    row_whole :
        (x : PaymentAllocation)
        → Fits x
        → is_reversed reversals x.id ≡ true
        → linked_refunds (link ∷ linked) x.id ≡ pos 0
    row_whole x fits e = elim (Bool-cases (link.payment_allocation_id == x.id)) [
      | inl same ↦
          let still_active : is_reversed reversals x.id ≡ false =
            subst (λ (y : PaymentAllocation). is_reversed reversals y.id ≡ false)
              (sym (same_row x fits same)) active in
          cc
      | inr other ↦ rw (other, fits.reversed_whole e) (omega int_laws)
    ]

    id_found : (a.id == link.payment_allocation_id) ≡ true
    unfolding find_allocation
    id_found =
        (All-find (λ (x : PaymentAllocation). Unit {0})
          (λ (x : PaymentAllocation). x.id == link.payment_allocation_id) allocations a
          (All-map allocations (λ x fits. tt) ledger.allocation) found).1

    owner_drop :
        sum_where (of_payment reversals payment_id) (net_of (link ∷ linked)) allocations
        ≤ℤ sum_where (of_payment reversals payment_id) (net_of linked) allocations -ℤ link.amount
    unfolding find_allocation
    owner_drop =
        sum_where_drop (of_payment reversals payment_id) (net_of linked) (net_of (link ∷ linked))
          link.amount link.payment_allocation_id allocations a
          (All-map allocations
            (λ x fits.
              term_le (of_payment reversals payment_id x) (net_of (link ∷ linked) x)
                (net_of linked x) (net_shrinks x))
            ledger.allocation)
          found (rw (owner, active))
          (let e : (link.payment_allocation_id == a.id) ≡ true = ground (arith, id_found) in
            rw e (omega int_laws))

    pub linked-Relinked :
        Relinked payments linked (link ∷ linked) allocations reversals payment_id link.amount
    linked-Relinked = record {
      links = (
        (positive, ap is_some found),
        All-map linked (λ x fits. (fits.positive, fits.has_allocation)) ledger.link,
      );
      rows =
          All-map allocations (λ x fits. (row_within x fits, row_whole x fits)) ledger.allocation;
      shrunk = All-map allocations (λ x fits. net_shrinks x) ledger.allocation;
      drop = owner_drop;
    }
