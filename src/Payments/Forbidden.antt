-- ===== src/Payments/Forbidden.antt =====
-- Payments that the actor does not see: the operations on a payment, asked of one that does not exist
-- or whose booking the actor is not assigned to.
use heritage_philippines_v.Prelude.{
  ℕ, Option, none, some, false, not, ◌&&◌, List, [], ◌∷◌, All, ◌==◌, ==→eq, find, is_some,
  Bool-cases, inl, inr, arith, ◌≡◌, refl, sym, ap, subst, ◌∙◌,
}
use heritage_philippines_v.Transaction.{err, domain, ok, pure, or_throw}
use heritage_philippines_v.Transaction.Runs.{run_bind, run_fail, run_gets, run_require, run_or_else}
use heritage_philippines_v.Payments.Model.{
  payment_forbidden, PaymentStatus, Payment, StaffAssignment, Role,
}
use heritage_philippines_v.Payments.Store.{Store, World}
use heritage_philippines_v.Payments.Repository.Bookings.{
  PaymentActor, PaymentActorRole, is_booking, is_role, holds_assignment, booking_assignment_filter,
  can_see_booking,
}
use heritage_philippines_v.Payments.Repository.Payments.{
  find_payment_for_actor, find_status_history_by_idempotency_key,
}
use heritage_philippines_v.Payments.Repository.Refunds.{find_refund_by_idempotency_key}
use heritage_philippines_v.Payments.Repository.Allocations.{find_allocation_by_idempotency_key}
use heritage_philippines_v.Payments.Service.Actors.{find_scoped_payment_or_forbidden}
use heritage_philippines_v.Payments.Service.Replay.{
  StatusInput, RefundPaymentInput, CreateAllocationInput, resolve_status_transition_replay,
  resolve_refund_replay, resolve_allocation_replay,
}
use heritage_philippines_v.Payments.Service.Payments.{
  confirm_new, confirm_payment_tx, reverse_new, reverse_payment_tx,
}
use heritage_philippines_v.Payments.Service.Refund.{refund_new, refund_payment_tx}
use heritage_philippines_v.Payments.Service.Allocations.{allocate_new, create_allocation_tx}

-- Whether a row of the assignments gives a finance clerk access to the booking.
access_row :
    (me id : ℕ) (booking_id : Option ℕ) (staff_id : ℕ) (role : Role) (ended_at : Option ℕ)
    → (booking_id ≡ some id → staff_id ≡ me → role ≡ Role.finance_accounting → ended_at ≡ none → ⊥)
    → (is_booking id booking_id
        && staff_id == me
        && is_role PaymentActorRole.finance_accounting role
        && not (is_some ended_at))
      ≡ false
access_row me id none staff_id role ended_at h = refl
access_row me id (some k) staff_id role (some t) h = ground arith
access_row me id (some k) staff_id Role.finance_accounting none h = elim (Bool-cases (k == id)) [
  | inl same ↦ elim (Bool-cases (staff_id == me)) [
    | inl mine ↦ absurd (h (ap some (==→eq k id same)) (==→eq staff_id me mine) refl refl)
    | inr other ↦ rw (same, other) refl
  ]
  | inr other ↦ rw other refl
]
access_row me id (some k) staff_id _ none h = ground arith

abbrev pub finance_clerk : ℕ → PaymentActor
finance_clerk me = record { id = me; role = PaymentActorRole.finance_accounting }

-- The staff member has no active finance assignment to the booking.
abbrev pub IsUnassigned : ℕ → List StaffAssignment → ℕ → Type 0
IsUnassigned me assignments booking_id =
    All
      (λ (a : StaffAssignment).
        a.booking_id ≡ some booking_id
        → a.assigned_staff_id ≡ me
        → a.role ≡ Role.finance_accounting
        → a.ended_at ≡ none
        → ⊥)
      assignments

holds_assignment-IsUnassigned :
    (me : ℕ) (booking_id : ℕ) (assignments : List StaffAssignment)
    → IsUnassigned me assignments booking_id
    → holds_assignment (finance_clerk me) booking_id assignments ≡ false
unfolding holds_assignment
holds_assignment-IsUnassigned me booking_id [] h = refl
holds_assignment-IsUnassigned me booking_id (a ∷ assignments) (row, rows) =
    rw (access_row me booking_id a.booking_id a.assigned_staff_id a.role a.ended_at row)
      (holds_assignment-IsUnassigned me booking_id assignments rows)

can_see_booking-IsUnassigned :
    (me : ℕ) (s : Store) (booking_id : ℕ)
    → IsUnassigned me s.assignments booking_id
    → can_see_booking (finance_clerk me) s booking_id ≡ false
unfolding can_see_booking booking_assignment_filter
can_see_booking-IsUnassigned me s booking_id h =
    rw (holds_assignment-IsUnassigned me booking_id s.assignments h) (ground arith)

find_payment_for_actor-IsUnassigned :
    (me : ℕ) (s : Store) (payment_id : ℕ)
    → All
        (λ (p : Payment). p.id ≡ payment_id → IsUnassigned me s.assignments p.booking_id)
        s.payments
    → find_payment_for_actor (finance_clerk me) payment_id s ≡ none
unfolding find_payment_for_actor
find_payment_for_actor-IsUnassigned me s payment_id h = go s.payments h
  where
    go :
        (payments : List Payment)
        → All
            (λ (p : Payment). p.id ≡ payment_id → IsUnassigned me s.assignments p.booking_id)
            payments
        → find
            (λ p. p.id == payment_id && can_see_booking (finance_clerk me) s p.booking_id)
            payments
          ≡ none
    go [] h = refl
    go (p ∷ payments) (row, rows) = elim (Bool-cases (p.id == payment_id)) [
      | inl same ↦
          rw
            (
              same,
              can_see_booking-IsUnassigned me s p.booking_id (row (==→eq p.id payment_id same)),
            )
            (go payments rows)
      | inr other ↦ rw other (go payments rows)
    ]

module _ (w : World) (actor : PaymentActor) (s : Store) where
  unseen-run :
      (payment_id : ℕ)
      → find_payment_for_actor actor payment_id s ≡ none
      → find_scoped_payment_or_forbidden actor payment_id s ≡ err (domain payment_forbidden)
  unfolding find_scoped_payment_or_forbidden or_throw
  unseen-run payment_id unseen = run_gets _ _ s ∙ rw unseen refl

  replay-run :
      (input : StatusInput) (target : PaymentStatus)
      → find_status_history_by_idempotency_key input.idempotency_key s.history ≡ none
      → resolve_status_transition_replay actor input target s ≡ ok (none, s)
  unfolding resolve_status_transition_replay pure
  replay-run input target new = rw (new, resolve_status_transition_replay) refl

  status_tx-forbidden :
      (input : StatusInput)
      → find_status_history_by_idempotency_key input.idempotency_key s.history ≡ none
      → find_payment_for_actor actor input.payment_id s ≡ none
      → (confirm_payment_tx w actor input s ≡ err (domain payment_forbidden))
        × (reverse_payment_tx w actor input s ≡ err (domain payment_forbidden))
  unfolding confirm_payment_tx reverse_payment_tx confirm_new reverse_new
  status_tx-forbidden input new unseen = (
    run_bind _ _ (replay-run input PaymentStatus.confirmed new)
        ∙ run_or_else _ s refl
        ∙ run_fail _ _ (unseen-run input.payment_id unseen),
    run_bind _ _ (replay-run input PaymentStatus.reversed new)
        ∙ run_or_else _ s refl
        ∙ run_fail _ _ (unseen-run input.payment_id unseen),
  )

  refund_replay-run :
      (input : RefundPaymentInput)
      → find_refund_by_idempotency_key input.idempotency_key s.refunds ≡ none
      → resolve_refund_replay w actor input s ≡ ok (none, s)
  unfolding resolve_refund_replay pure
  refund_replay-run input new = rw (new, resolve_refund_replay) refl

  allocation_replay-run :
      (input : CreateAllocationInput)
      → find_allocation_by_idempotency_key input.idempotency_key s.allocations ≡ none
      → resolve_allocation_replay w actor input s ≡ ok (none, s)
  unfolding resolve_allocation_replay pure
  allocation_replay-run input new = rw (new, resolve_allocation_replay) refl

  refund_tx-forbidden :
      (input : RefundPaymentInput)
      → find_refund_by_idempotency_key input.idempotency_key s.refunds ≡ none
      → find_status_history_by_idempotency_key input.idempotency_key s.history ≡ none
      → find_payment_for_actor actor input.payment_id s ≡ none
      → refund_payment_tx w actor input s ≡ err (domain payment_forbidden)
  unfolding refund_payment_tx refund_new
  refund_tx-forbidden input new new_history unseen =
      run_bind _ _ (refund_replay-run input new)
      ∙ run_or_else _ s refl
      ∙ run_gets _ _ s
      ∙ run_require _ _ s (rw new_history refl)
      ∙ run_fail _ _ (unseen-run input.payment_id unseen)

  allocation_tx-forbidden :
      (input : CreateAllocationInput)
      → find_allocation_by_idempotency_key input.idempotency_key s.allocations ≡ none
      → find_payment_for_actor actor input.payment_id s ≡ none
      → create_allocation_tx w actor input s ≡ err (domain payment_forbidden)
  unfolding create_allocation_tx allocate_new
  allocation_tx-forbidden input new unseen =
      run_bind _ _ (allocation_replay-run input new)
      ∙ run_or_else _ s refl
      ∙ run_fail _ _ (unseen-run input.payment_id unseen)

-- A finance clerk without an active finance assignment to the booking of any payment of the asked id,
-- so also where there is no such payment, gets `PAYMENT_FORBIDDEN` from `confirmPayment`,
-- `reversePayment`, `refundPayment` and `createAllocation`, each with a key that no row it looks up has.
pub payment_calls-forbidden :
    (w : World) (me : ℕ) (s : Store) (change : StatusInput) (refund : RefundPaymentInput)
    (allocation : CreateAllocationInput)
    → refund.payment_id ≡ change.payment_id
    → allocation.payment_id ≡ change.payment_id
    → All
        (λ (p : Payment). p.id ≡ change.payment_id → IsUnassigned me s.assignments p.booking_id)
        s.payments
    → find_status_history_by_idempotency_key change.idempotency_key s.history ≡ none
    → find_refund_by_idempotency_key refund.idempotency_key s.refunds ≡ none
    → find_status_history_by_idempotency_key refund.idempotency_key s.history ≡ none
    → find_allocation_by_idempotency_key allocation.idempotency_key s.allocations ≡ none
    → (confirm_payment_tx w (finance_clerk me) change s ≡ err (domain payment_forbidden))
      × (reverse_payment_tx w (finance_clerk me) change s ≡ err (domain payment_forbidden))
      × (refund_payment_tx w (finance_clerk me) refund s ≡ err (domain payment_forbidden))
      × (create_allocation_tx w (finance_clerk me) allocation s ≡ err (domain payment_forbidden))
payment_calls-forbidden w me s change refund allocation refunds allocates outside new_change
      new_refund new_refund_history new_allocation =
    let unseen : find_payment_for_actor (finance_clerk me) change.payment_id s ≡ none =
      find_payment_for_actor-IsUnassigned me s change.payment_id outside in
    let changes = status_tx-forbidden w (finance_clerk me) s change new_change unseen in
    (
      changes.0,
      changes.1,
      refund_tx-forbidden w (finance_clerk me) s refund new_refund new_refund_history (
          subst (λ (id : ℕ). find_payment_for_actor (finance_clerk me) id s ≡ none) (sym refunds)
            unseen),
      allocation_tx-forbidden w (finance_clerk me) s allocation new_allocation (
          subst (λ (id : ℕ). find_payment_for_actor (finance_clerk me) id s ≡ none) (sym allocates)
            unseen),
    )
