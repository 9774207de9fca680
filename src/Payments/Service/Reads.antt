-- ===== src/Payments/Service/Reads.antt =====
-- The checks and the replays of the payments service change nothing, and what each tells when it
-- returns.
use heritage_philippines_v.Prelude.{
  ℕ, Bool, true, false, Option, none, some, ◌≡◌, refl, not, Option-cases, inl, inr,
}
use heritage_philippines_v.Transaction.{pure, require, or_throw, ◌>>=◌}
use heritage_philippines_v.Transaction.Rules.{
  Ensures, Ensures-ok, Ensures-err, Ensures-pure, bind_gets, bind_or_throw, bind_same, then_require,
}
use heritage_philippines_v.Payments.Model.{
  Text, BookingStatus, Payment, PaymentErrorCode, PaymentStatus,
}
use heritage_philippines_v.Payments.Store.{Store, World, PaymentTx}
use heritage_philippines_v.Payments.Repository.Bookings.{PaymentActor}
use heritage_philippines_v.Payments.Repository.Payments.{
  find_payment_for_actor, find_status_history_by_idempotency_key,
}
use heritage_philippines_v.Payments.Repository.Refunds.{find_refund_by_idempotency_key}
use heritage_philippines_v.Payments.Repository.Allocations.{
  find_allocation_by_idempotency_key, find_allocation_reversal_by_idempotency_key,
}
use heritage_philippines_v.Payments.Service.Actors.{
  is_cancelled, assert_booking_open_for_payment, assert_amount_precision,
  assert_booking_amount_precision, find_scoped_payment_or_forbidden,
}
use heritage_philippines_v.Payments.Service.Replay.{
  RecordPaymentInput, StatusInput, RefundPaymentInput, CreateAllocationInput,
  ReverseAllocationInput, resolve_record_replay, resolve_status_transition_replay,
  resolve_refund_replay, resolve_allocation_replay, resolve_allocation_reversal_replay,
}

-- The body reads only, and returns an answer of which `P` holds.
abbrev pub Reads : {A : Type 0} → (A → Type 0) → PaymentTx A → Store → Type 0
Reads P m s = Ensures (λ a t. (t ≡ s) × P a) (m s)

require-Reads :
    (b : Bool) (e : PaymentErrorCode) (s : Store)
    → Ensures {E = PaymentErrorCode} (λ (a : Unit {0}) t. (t ≡ s) × (b ≡ true)) (require b e s)
unfolding require
require-Reads true e s = Ensures-ok _ tt s (refl, refl)
require-Reads false e s = Ensures-err _ _

-- A last check tells what it checks.
pub bare_require :
    {P : Type 0} (b : Bool) (e : PaymentErrorCode) (s : Store)
    → (b ≡ true → P)
    → Ensures (λ (a : Unit {0}) t. (t ≡ s) × P) (require b e s)
bare_require b e s f = record {
  at = λ a t r. let read = (require-Reads b e s).at a t r in (read.0, f read.1);
}

pub assert_open-Reads :
    (status : Option BookingStatus) (s : Store)
    → Reads (λ a. not (is_cancelled status) ≡ true) (assert_booking_open_for_payment status) s
unfolding assert_booking_open_for_payment
assert_open-Reads status s = require-Reads _ _ s

pub assert_precision-Reads :
    (amount currency_code : Text) (s : Store)
    → Reads (λ a. Unit {0}) (assert_amount_precision amount currency_code) s
unfolding assert_amount_precision
assert_precision-Reads amount currency_code s = record {
  at = λ a t e. (((require-Reads _ _ s).at a t e).0, tt);
}

or_throw-Reads :
    {A : Type 0} (o : Option A) (e : PaymentErrorCode) (s : Store)
    → Reads (λ a. o ≡ some a) (or_throw o e) s
unfolding or_throw
or_throw-Reads none e s = Ensures-err _ _
or_throw-Reads (some a) e s = Ensures-ok _ a s (refl, refl)

pub find_scoped-Reads :
    (actor : PaymentActor) (payment_id : ℕ) (s : Store)
    → Reads
        (λ p. find_payment_for_actor actor payment_id s ≡ some p)
        (find_scoped_payment_or_forbidden actor payment_id)
        s
unfolding find_scoped_payment_or_forbidden
find_scoped-Reads actor payment_id s = bind_gets _ _ _ s (or_throw-Reads _ _ s)

pub assert_booking_precision-Reads :
    (booking_id : ℕ) (amount : Text) (s : Store)
    → Reads (λ a. Unit {0}) (assert_booking_amount_precision booking_id amount) s
unfolding assert_booking_amount_precision
assert_booking_precision-Reads booking_id amount s =
    bind_gets _ _ _ s
      (bind_or_throw _ _ _ _ s (λ currency e. assert_precision-Reads amount currency s))

module _ (actor : PaymentActor) (s : Store) where
  find_scoped-then :
      {A : Type 0} (payment_id : ℕ) (k : Payment → A)
      → Reads
          (λ a. Unit {0})
          (find_scoped_payment_or_forbidden actor payment_id >>= λ p. pure (some (k p)))
          s
  find_scoped-then payment_id k =
      bind_same _ _ _ _ s (find_scoped-Reads actor payment_id s)
        (λ p found. Ensures-pure _ _ _ (refl, tt))

  pub resolve_status_transition-Reads :
      (input : StatusInput) (target_status : PaymentStatus)
      → Reads (λ a. Unit {0}) (resolve_status_transition_replay actor input target_status) s
  unfolding resolve_status_transition_replay
  resolve_status_transition-Reads input target_status =
      elim (Option-cases (find_status_history_by_idempotency_key input.idempotency_key s.history)) [
        | inl e ↦ rw (e, resolve_status_transition_replay) (Ensures-pure _ _ _ (refl, tt))
        | inr (row, e) ↦
            rw (e, resolve_status_transition_replay)
              (then_require _ _ _ _ s (λ same. find_scoped-then row.payment_id (λ p. p)))
      ]

  pub resolve_record-Reads :
      (w : World) (input : RecordPaymentInput)
      → Reads (λ a. Unit {0}) (resolve_record_replay w actor input) s
  unfolding resolve_record_replay
  resolve_record-Reads w input =
      elim (Option-cases (find_status_history_by_idempotency_key input.idempotency_key s.history)) [
        | inl e ↦ rw (e, resolve_record_replay) (Ensures-pure _ _ _ (refl, tt))
        | inr (row, e) ↦
            rw (e, resolve_record_replay)
              (then_require _ _ _ _ s (λ first. bind_gets _ _ _ s (
                bind_or_throw _ _ _ _ s
                  (λ p found. then_require _ _ _ _ s (λ same. Ensures-pure _ _ _ (refl, tt))))))
      ]

  pub resolve_refund-Reads :
      (w : World) (input : RefundPaymentInput)
      → Reads (λ a. Unit {0}) (resolve_refund_replay w actor input) s
  unfolding resolve_refund_replay
  resolve_refund-Reads w input =
      elim (Option-cases (find_refund_by_idempotency_key input.idempotency_key s.refunds)) [
        | inl e ↦ rw (e, resolve_refund_replay) (Ensures-pure _ _ _ (refl, tt))
        | inr (row, e) ↦
            rw (e, resolve_refund_replay)
              (bind_gets _ _ _ s (
                then_require _ _ _ _ s (λ same.
                  find_scoped-then row.payment_id (λ p. record { refund = row; payment = p }))))
      ]

  pub resolve_allocation-Reads :
      (w : World) (input : CreateAllocationInput)
      → Reads (λ a. Unit {0}) (resolve_allocation_replay w actor input) s
  unfolding resolve_allocation_replay
  resolve_allocation-Reads w input =
      elim (Option-cases (find_allocation_by_idempotency_key input.idempotency_key s.allocations)) [
        | inl e ↦ rw (e, resolve_allocation_replay) (Ensures-pure _ _ _ (refl, tt))
        | inr (row, e) ↦
            rw (e, resolve_allocation_replay)
              (then_require _ _ _ _ s (λ same. find_scoped-then row.payment_id (λ p. row)))
      ]

  pub resolve_reversal-Reads :
      (input : ReverseAllocationInput)
      → Reads (λ a. Unit {0}) (resolve_allocation_reversal_replay actor input) s
  unfolding resolve_allocation_reversal_replay
  resolve_reversal-Reads input =
      elim (Option-cases
        (find_allocation_reversal_by_idempotency_key input.idempotency_key s.reversals)) [
          | inl e ↦ rw (e, resolve_allocation_reversal_replay) (Ensures-pure _ _ _ (refl, tt))
          | inr (row, e) ↦
              rw (e, resolve_allocation_reversal_replay)
                (then_require _ _ _ _ s (λ same.
                  bind_gets _ _ _ s (
                    bind_or_throw _ _ _ _ s (λ a found. find_scoped-then a.payment_id (λ p. row)))))
        ]
