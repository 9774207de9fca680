-- ===== src/Payments/Service/Actors.antt =====
-- Payments service: who may call, the checks that several operations share, and the catch blocks.
use heritage_philippines_v.Prelude.{
  ℕ, Bool, true, false, Option, none, some, not, if◌then◌else◌, [], ◌∷◌,
}
use heritage_philippines_v.Transaction.{
  Failure, domain, Result, ok, err, Action, Schedule, gets, require, or_throw, ◌>>=◌, read_now,
  is_residual_database_conflict, is_unique_violation_on,
}
use heritage_philippines_v.Payments.Model.{
  Text, Role, AuthenticatedUser, PaymentErrorCode, role_not_permitted, booking_status_not_permitted,
  payment_conflict, booking_currency_not_set, payment_forbidden, BookingStatus, Payment,
}
use heritage_philippines_v.Payments.Currencies.{has_supported_currency_precision}
use heritage_philippines_v.Payments.Store.{Store, PaymentTx}
use heritage_philippines_v.Payments.Repository.Bookings.{
  PaymentActor, PaymentActorRole, find_booking_currency_code,
}
use heritage_philippines_v.Payments.Repository.Payments.{find_payment_for_actor}

abbrev as_role : ℕ → PaymentActorRole → Option PaymentActor
as_role id role = some (record { id = id; role = role })

unfoldable pub assert_proposer_actor : AuthenticatedUser → Option PaymentActor
assert_proposer_actor actor = elim actor.role [
  | Role.travel_consultant ↦ as_role actor.id PaymentActorRole.travel_consultant
  | _ ↦ none
]

unfoldable pub assert_finance_actor : AuthenticatedUser → Option PaymentActor
assert_finance_actor actor = elim actor.role [
  | Role.finance_accounting ↦ as_role actor.id PaymentActorRole.finance_accounting
  | _ ↦ none
]

unfoldable pub assert_withdrawer_actor : AuthenticatedUser → Option PaymentActor
assert_withdrawer_actor actor = elim actor.role [
  | Role.travel_consultant ↦ as_role actor.id PaymentActorRole.travel_consultant
  | Role.finance_accounting ↦ as_role actor.id PaymentActorRole.finance_accounting
  | _ ↦ none
]

unfoldable pub assert_staff_read_actor : AuthenticatedUser → Option PaymentActor
assert_staff_read_actor actor = elim actor.role [
  | Role.admin_manager ↦ as_role actor.id PaymentActorRole.admin_manager
  | Role.travel_consultant ↦ as_role actor.id PaymentActorRole.travel_consultant
  | Role.finance_accounting ↦ as_role actor.id PaymentActorRole.finance_accounting
  | _ ↦ none
]

unfoldable pub assert_client_actor : AuthenticatedUser → Option ℕ
assert_client_actor actor = elim actor.role [ Role.client ↦ some actor.id | _ ↦ none ]

-- The role check comes before any transaction.
unfoldable pub as_actor :
    {A : Type 0}
    → Option PaymentActor
    → (PaymentActor → Action Store PaymentErrorCode A)
    → Action Store PaymentErrorCode A
as_actor none body s = (err (domain role_not_permitted), s)
as_actor (some actor) body s = body actor s

abbrev pub is_cancelled : Option BookingStatus → Bool
is_cancelled (some BookingStatus.cancelled) = true
is_cancelled _ = false

unfoldable pub assert_booking_open_for_payment : Option BookingStatus → PaymentTx (Unit {0})
unfolding require
assert_booking_open_for_payment status =
    require (not (is_cancelled status)) booking_status_not_permitted

unfoldable pub assert_amount_precision : Text → Text → PaymentTx (Unit {0})
unfolding require
assert_amount_precision amount currency_code =
    require (has_supported_currency_precision amount currency_code) payment_conflict

unfoldable pub assert_booking_amount_precision : ℕ → Text → PaymentTx (Unit {0})
assert_booking_amount_precision booking_id amount = do
  found ← gets (find_booking_currency_code booking_id)
  currency_code ← or_throw found booking_currency_not_set
  assert_amount_precision amount currency_code

unfoldable pub find_scoped_payment_or_forbidden : PaymentActor → ℕ → PaymentTx Payment
find_scoped_payment_or_forbidden actor payment_id = do
  found ← gets (find_payment_for_actor actor payment_id)
  or_throw found payment_forbidden

unfoldable pub is_status_history_key_violation : Failure PaymentErrorCode → Bool
is_status_history_key_violation e = is_unique_violation_on e "Payment" ("idempotencyKey" ∷ [])

-- The end of a catch block: a residual conflict becomes the operation's own error, and any other
-- error, a `PaymentError` among them, is thrown again.
unfoldable pub rethrow_as :
    {A : Type 0} → PaymentErrorCode → Failure PaymentErrorCode → Action Store PaymentErrorCode A
rethrow_as code e s = (err (if is_residual_database_conflict e then domain code else e), s)

abbrev pub answer_replay :
    {A : Type 0}
    → PaymentErrorCode
    → Failure PaymentErrorCode
    → Result PaymentErrorCode (Option A) × Store
    → Result PaymentErrorCode A × Store
answer_replay code e (ok (some a), s) = (ok a, s)
answer_replay code e (ok none, s) = rethrow_as code e s
answer_replay code e (err x, s) = (err x, s)

-- `if (lost) { const replay = await resolve(...); if (replay) return replay; }` before that end.
unfoldable pub replay_or_rethrow :
    {A : Type 0}
    → Bool
    → Schedule Store
    → PaymentTx (Option A)
    → PaymentErrorCode
    → Failure PaymentErrorCode
    → Action Store PaymentErrorCode A
unfolding read_now rethrow_as
replay_or_rethrow true schedule resolve code e s =
    answer_replay code e (read_now schedule resolve s)
replay_or_rethrow false schedule resolve code e s = rethrow_as code e s
