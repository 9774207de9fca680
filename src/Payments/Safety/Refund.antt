-- ===== src/Payments/Safety/Refund.antt =====
-- `refundPayment` keeps the ledger.
use heritage_philippines_v.Prelude.{
  ℕ, Bool, true, false, Option, none, some, List, [], ◌∷◌, ◌≡◌, refl, sym, ap, subst, inl, inr, not,
  ◌==◌, ◌&&◌, arith, Bool-cases, Option-cases, some_eq, none-some, All, All-map, ◌∙◌, update_where,
}
use heritage_philippines_v.Prelude.Int.{pos, ◌+ℤ◌, ◌-ℤ◌, ◌≤ℤ◌, ◌<ℤ◌, eqb_ℤ, eqb_ℤ-true, int_laws}
use heritage_philippines_v.Transaction.Rules.{
  Ensures, Ensures-pure, Ensures-or_else, bind_gets, bind_same, bind-Ensures, bind_or_throw,
  then_same, then_require,
}
use heritage_philippines_v.Payments.Model.{
  Decimal, Payment, PaymentStatus, PaymentAllocation, PaymentRefund,
}
use heritage_philippines_v.Payments.Calculations.{greater_than}
use heritage_philippines_v.Payments.Store.{Store, World, sum_where}
use heritage_philippines_v.Payments.Repository.Bookings.{PaymentActor}
use heritage_philippines_v.Payments.Repository.Payments.{find_payment, with_status, set_status}
use heritage_philippines_v.Payments.Repository.Refunds.{
  CreateRefundInput, link_refund, refund_row, sum_refunds_for_payment,
}
use heritage_philippines_v.Payments.Repository.Allocations.{
  find_allocation, is_reversed, AllocationForRefund, find_allocation_for_refund,
  refund_allocated_total_of, sum_net_active_allocations_for_payment,
}
use heritage_philippines_v.Payments.Repository.Writes.{
  create_refund-Ensures, transition_payment_status-Ensures, then_audit,
}
use heritage_philippines_v.Payments.Service.Reads.{
  Reads, bare_require, find_scoped-Reads, assert_booking_precision-Reads, resolve_refund-Reads,
}
use heritage_philippines_v.Payments.Service.Replay.{RefundPaymentInput}
use heritage_philippines_v.Payments.Service.Refund.{
  check_refund_allocation, linked_amount, complete_refund, write_refund, refund_new,
  refund_payment_tx,
}
use heritage_philippines_v.Payments.Ledger.Sums.{
  net_of, linked_refunds, refund_allocated_total_of-eq-sum,
}
use heritage_philippines_v.Payments.Ledger.Invariant.{
  IsLedger, LedgerFits, StatusFits, of_payment, is_allocated,
}
use heritage_philippines_v.Payments.Ledger.Transitions.{found_row, only_row}
use heritage_philippines_v.Payments.Ledger.Link.{Relinked, unlinked-Relinked, linked-Relinked}
use heritage_philippines_v.Payments.Ledger.Refund.{Final, refund-IsLedger}
use heritage_philippines_v.Payments.Safety.Status.{scoped_row, not_greater, same_status-eq}
use heritage_philippines_v.Payments.Safety.Allocation.{payment_active}

-- What `refundPayment` checks of the allocation that it is asked to reopen.
abbrev Checked : Store → Payment → Decimal → Option ℕ → Type 0
Checked s p amount none = Unit {0}
Checked s p amount (some id) =
    (a : PaymentAllocation) × ((find_allocation s.allocations id ≡ some a)
      × ((a.payment_id == p.id) ≡ true)
      × (is_reversed s.reversals a.id ≡ false)
      × (linked_refunds s.refund_allocations a.id +ℤ amount ≤ℤ a.amount))

abbrev for_refund : Store → PaymentAllocation → AllocationForRefund
for_refund s a = record {
  id = a.id;
  payment_id = a.payment_id;
  amount = a.amount;
  is_reversed = is_reversed s.reversals a.id;
  refund_allocated_total = refund_allocated_total_of s.refund_allocations a.id;
}

Checked-row :
    (s : Store) (p : Payment) (amount : Decimal) (id : ℕ) (r : AllocationForRefund)
    → find_allocation_for_refund id s ≡ some r
    → r.payment_id == p.id && not r.is_reversed ≡ true
    → not (greater_than (r.refund_allocated_total +ℤ amount) r.amount) ≡ true
    → Checked s p amount (some id)
unfolding find_allocation_for_refund
Checked-row s p amount id r e own room = elim (Option-cases (find_allocation s.allocations id)) [
  | inl absent ↦ absurd (none-some (rw (absent, find_allocation_for_refund) at e))
  | inr (a, found) ↦
      let same : for_refund s a ≡ r = some_eq (rw (found, find_allocation_for_refund) at e) in
      let own' : (a.payment_id == p.id && not (is_reversed s.reversals a.id)) ≡ true =
        subst (λ (x : AllocationForRefund). (x.payment_id == p.id && not x.is_reversed) ≡ true)
          (sym same) own in
      let room' : refund_allocated_total_of s.refund_allocations a.id +ℤ amount ≤ℤ a.amount =
        subst (λ (x : AllocationForRefund). x.refund_allocated_total +ℤ amount ≤ℤ x.amount)
          (sym same) (not_greater _ _ room) in
      (
        a,
        (
          found,
          ground (arith, own'),
          ground (arith, own'),
          rw (refund_allocated_total_of-eq-sum s.refund_allocations a.id) at room',
        ),
      )
]

check_refund-Reads :
    (s : Store) (p : Payment) (amount : Decimal) (allocation_id : Option ℕ)
    → Reads
        (λ a. Checked s p amount allocation_id)
        (check_refund_allocation p amount allocation_id)
        s
unfolding check_refund_allocation
check_refund-Reads s p amount none = Ensures-pure _ _ _ (refl, tt)
check_refund-Reads s p amount (some id) = bind_gets _ _ _ s (
    bind_or_throw _ _ _ _ s (λ r found.
      then_require _ _ _ _ s
        (λ own. bare_require _ _ s (λ room. Checked-row s p amount id r found own room))))

update_where-same :
    {A : Type 0} (test : A → Bool) (f : A → A) (xs : List A)
    → All (λ x. test x ≡ true → f x ≡ x) xs
    → update_where test f xs ≡ xs
update_where-same test f [] h = refl
update_where-same test f (x ∷ xs) h = elim (Bool-cases (test x)) [
  | inl e ↦ rw (e, h.0 e, update_where-same test f xs h.1) refl
  | inr e ↦ rw (e, update_where-same test f xs h.1) refl
]

module _ (s : Store) (ledger : LedgerFits s) (p : Payment) where
  relinked :
      (made : CreateRefundInput) (allocation_id : Option ℕ)
      → pos 0 <ℤ made.amount
      → Checked s p made.amount allocation_id
      → Relinked s.payments s.refund_allocations
          (link_refund made allocation_id s.refund_allocations)
          s.allocations
          s.reversals
          p.id
          (linked_amount made.amount allocation_id)
  relinked made none positive checked = unlinked-Relinked ledger p.id
  relinked made (some id) positive checked =
      linked-Relinked ledger p.id _ checked.0 positive checked.1.0 checked.1.1 checked.1.2
        checked.1.3

  -- A confirmed payment is as it was once it is set to confirmed.
  set_confirmed-same :
      find_payment s.payments p.id ≡ some p
      → p.status ≡ PaymentStatus.confirmed
      → set_status p.id PaymentStatus.confirmed s.payments ≡ s.payments
  set_confirmed-same found confirmed =
      update_where-same (λ (x : Payment). x.id == p.id) (with_status PaymentStatus.confirmed)
        s.payments
        (All-map s.payments
          (λ x fits same.
            let row : x ≡ p = only_row ledger p.id p found x fits same in
            ap (λ (status : PaymentStatus). with_status status x)
              (sym (ap (λ (y : Payment). y.status) row ∙ confirmed)))
          ledger.payment)

pub lt_of : (a b : Decimal) → eqb_ℤ a b ≡ false → a ≤ℤ b → a <ℤ b
unfolding eqb_ℤ
lt_of a b h le = ground arith

plus_comm : (a b : Decimal) → a +ℤ b ≡ b +ℤ a
plus_comm a b = omega int_laws

-- The tables after the refund `made` of `p`, which leaves the payment in `status`.
abbrev Refunded : Store → Payment → CreateRefundInput → PaymentStatus → Type 0
Refunded s p made status =
    IsLedger (set_status p.id status s.payments) (refund_row made ∷ s.refunds)
      (link_refund made made.allocation_id s.refund_allocations) s.allocations s.reversals
      s.installments

module _ (w : World) (actor : PaymentActor) (input : RefundPaymentInput) where
  abbrev made : Payment → CreateRefundInput
  made p = record {
    id = w.random_uuid 0;
    payment_id = p.id;
    amount = w.to_decimal input.amount;
    reason = input.reason;
    performed_by_staff_user_id = actor.id;
    idempotency_key = input.idempotency_key;
    allocation_id = input.allocation_id;
    allocation_refund_id = w.random_uuid 1;
  }

  Refunded-LedgerFits :
      (s : Store) (p : Payment) (status : PaymentStatus)
      → LedgerFits s
      → find_payment s.payments p.id ≡ some p
      → p.status ≡ PaymentStatus.confirmed
      → pos 0 <ℤ w.to_decimal input.amount
      → Checked s p (w.to_decimal input.amount) input.allocation_id
      → Final status p.amount (w.to_decimal input.amount +ℤ sum_refunds_for_payment s.refunds p.id)
      → sum_net_active_allocations_for_payment p.id s
          -ℤ linked_amount (w.to_decimal input.amount) input.allocation_id
        ≤ℤ p.amount -ℤ (sum_refunds_for_payment s.refunds p.id +ℤ w.to_decimal input.amount)
      → Refunded s p (made p) status
  Refunded-LedgerFits s p status ledger found confirmed positive checked final room =
      let fits = (found_row ledger p.id p found).0 in
      let status_fits =
        subst
          (λ (st : PaymentStatus).
            StatusFits st p.amount (sum_refunds_for_payment s.refunds p.id)
              (sum_where (of_payment s.reversals p.id) (net_of s.refund_allocations) s.allocations)
              (is_allocated s.allocations p.id))
          confirmed fits.status in
      refund-IsLedger ledger p (refund_row (made p)) status found confirmed refl positive
        (relinked s ledger p (made p) input.allocation_id positive checked) status_fits.0 final
        (rw (payment_active p.id s) at room)

  complete_refund-LedgerFits :
      (s t : Store) (p : Payment) (refund : PaymentRefund)
      → find_payment t.payments p.id ≡ some p
      → LedgerFits (record t { payments = set_status p.id PaymentStatus.refunded t.payments })
      → Ensures (λ a u. LedgerFits u) (complete_refund w actor input p refund t)
  unfolding complete_refund
  complete_refund-LedgerFits s t p refund found ledger =
      bind-Ensures _ _ _ _ t (transition_payment_status-Ensures t _ p found) (λ q u e.
        then_audit _ _ _ u
          (Ensures-pure _ _ _ (subst (λ (v : Store). LedgerFits v) (sym e.2) ledger)))

  write_refund-LedgerFits :
      (s : Store) (p : Payment)
      → LedgerFits s
      → find_payment s.payments p.id ≡ some p
      → p.status ≡ PaymentStatus.confirmed
      → ((status : PaymentStatus)
          → Final status p.amount
              (w.to_decimal input.amount +ℤ sum_refunds_for_payment s.refunds p.id)
          → Refunded s p (made p) status)
      → sum_refunds_for_payment s.refunds p.id +ℤ w.to_decimal input.amount ≤ℤ p.amount
      → Ensures
          (λ a t. LedgerFits t)
          (write_refund w actor input p (sum_refunds_for_payment s.refunds p.id) s)
  unfolding write_refund
  write_refund-LedgerFits s p ledger found confirmed refunded within =
      let total = sum_refunds_for_payment s.refunds p.id in
      let amount = w.to_decimal input.amount in
      bind-Ensures _ _ _ _ s (create_refund-Ensures s _) (λ r t e.
        then_audit _ _ _ t (elim (Bool-cases (eqb_ℤ (total +ℤ amount) p.amount)) [
          | inl complete ↦ rw complete (
              complete_refund-LedgerFits s _ p r
                (subst (λ (u : Store). find_payment u.payments p.id ≡ some p) (sym e.1) found)
                (subst
                  (λ (u : Store).
                    LedgerFits
                      (record u { payments = set_status p.id PaymentStatus.refunded u.payments }))
                  (sym e.1)
                  (refunded PaymentStatus.refunded
                    (plus_comm amount total ∙ eqb_ℤ-true _ _ complete))))
          | inr partial ↦ rw partial (
              Ensures-pure _ _ _ (
                subst (λ (u : Store). LedgerFits u) (sym e.1)
                  (subst
                    (λ (rows : List Payment).
                      IsLedger rows (refund_row (made p) ∷ s.refunds)
                        (link_refund (made p) input.allocation_id s.refund_allocations)
                        s.allocations s.reversals s.installments)
                    (set_confirmed-same s ledger p found confirmed)
                    (refunded PaymentStatus.confirmed
                      (rw (plus_comm amount total) (lt_of _ _ partial within))))))
        ]))

  refund_new-LedgerFits :
      (s : Store)
      → pos 0 <ℤ w.to_decimal input.amount
      → LedgerFits s
      → Ensures (λ a t. LedgerFits t) (refund_new w actor input s)
  unfolding refund_new
  refund_new-LedgerFits s positive ledger = bind_gets _ _ _ s (
      then_require _ _ _ _ s (λ new_key.
        bind_same _ _ _ _ s (find_scoped-Reads actor input.payment_id s) (λ p found.
          let row = (scoped_row actor input.payment_id s p ledger found).0 in
          then_require _ _ _ _ s (λ status.
            let confirmed = same_status-eq _ _ status in
            then_same _ _ _ _ s (assert_booking_precision-Reads _ _ s) (λ precise.
              bind_gets _ _ _ s (
                then_require _ _ _ _ s (λ within.
                  then_same _ _ _ _ s (check_refund-Reads s p _ input.allocation_id) (λ checked.
                    bind_gets _ _ _ s (
                      then_require _ _ _ _ s (λ room.
                        write_refund-LedgerFits s p ledger row confirmed
                          (λ final_status final.
                            Refunded-LedgerFits s p final_status ledger row confirmed positive
                              checked final (not_greater _ _ room))
                          (not_greater _ _ within)))))))))))

  -- The body of `refundPayment` keeps the ledger.
  pub refund_payment-LedgerFits :
      (s : Store)
      → pos 0 <ℤ w.to_decimal input.amount
      → LedgerFits s
      → Ensures (λ a t. LedgerFits t) (refund_payment_tx w actor input s)
  unfolding refund_payment_tx
  refund_payment-LedgerFits s positive ledger =
      bind_same _ _ _ _ s (resolve_refund-Reads actor s w input) (λ replay u.
        Ensures-or_else _ replay _ s (λ a e. ledger) (λ e. refund_new-LedgerFits s positive ledger))
