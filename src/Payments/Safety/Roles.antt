-- ===== src/Payments/Safety/Roles.antt =====
-- Which roles may ask for what, told apart from the code, and the calls of every other role.
use heritage_philippines_v.Prelude.{Bool, true, false, Option, none, ◌≡◌, refl, ◌||◌, arith}
use heritage_philippines_v.Transaction.{Action, Schedule}
use heritage_philippines_v.Payments.Model.{Role, AuthenticatedUser, PaymentErrorCode}
use heritage_philippines_v.Payments.Store.{Store, World}
use heritage_philippines_v.Payments.Repository.Bookings.{PaymentActor}
use heritage_philippines_v.Payments.Service.Actors.{
  assert_proposer_actor, assert_finance_actor, assert_withdrawer_actor, as_actor,
}
use heritage_philippines_v.Payments.Service.Financials.{set_booking_financials}
use heritage_philippines_v.Payments.Service.Plans.{
  propose_payment_plan, approve_payment_plan, withdraw_payment_plan,
}
use heritage_philippines_v.Payments.Service.Payments.{
  record_payment, confirm_payment, reverse_payment,
}
use heritage_philippines_v.Payments.Service.Refund.{refund_payment}
use heritage_philippines_v.Payments.Service.Receipt.{issue_receipt}
use heritage_philippines_v.Payments.Service.Allocations.{create_allocation, reverse_allocation}
use heritage_philippines_v.Payments.Safety.Interleaving.{
  Request, set_financials, propose_plan, approve_plan, withdraw_plan, record_a_payment, confirm,
  reverse, refund, allocate, unallocate, receipt, serve,
}

abbrev pub is_consultant : Role → Bool
is_consultant Role.travel_consultant = true
is_consultant _ = false

abbrev pub is_finance : Role → Bool
is_finance Role.finance_accounting = true
is_finance _ = false

-- A plan is proposed by a consultant, withdrawn by a consultant or by finance; the rest is finance's.
abbrev pub permits : Role → Request → Bool
permits role (propose_plan input) = is_consultant role
permits role (withdraw_plan id reason) = is_consultant role || is_finance role
permits role (set_financials input) = is_finance role
permits role (approve_plan id) = is_finance role
permits role (record_a_payment input) = is_finance role
permits role (confirm input) = is_finance role
permits role (reverse input) = is_finance role
permits role (refund input) = is_finance role
permits role (allocate input) = is_finance role
permits role (unallocate input) = is_finance role
permits role (receipt id) = is_finance role

finance_none :
    (actor : AuthenticatedUser) → is_finance actor.role ≡ false → assert_finance_actor actor ≡ none
unfolding assert_finance_actor
finance_none actor h = grind arith

proposer_none :
    (actor : AuthenticatedUser)
    → is_consultant actor.role ≡ false
    → assert_proposer_actor actor ≡ none
unfolding assert_proposer_actor
proposer_none actor h = grind arith

withdrawer_none :
    (actor : AuthenticatedUser)
    → is_consultant actor.role || is_finance actor.role ≡ false
    → assert_withdrawer_actor actor ≡ none
unfolding assert_withdrawer_actor
withdrawer_none actor h = grind arith

as_actor-none :
    {A : Type 0} (o : Option PaymentActor) (body : PaymentActor → Action Store PaymentErrorCode A)
    (s : Store)
    → o ≡ none
    → (as_actor o body s).1 ≡ s
unfolding as_actor
as_actor-none o body s e = rw e refl

-- A call by a role that the table does not permit changes nothing, whatever the schedule of the
-- other transactions: it does not even start a transaction.
pub serve-refused :
    (w : World) (schedule : Schedule Store) (actor : AuthenticatedUser) (request : Request)
    (s : Store)
    → permits actor.role request ≡ false
    → serve w schedule actor request s ≡ s
unfolding serve set_booking_financials propose_payment_plan approve_payment_plan
    withdraw_payment_plan record_payment confirm_payment reverse_payment refund_payment
    create_allocation reverse_allocation issue_receipt
serve-refused w schedule actor (propose_plan input) s h =
    as_actor-none _ _ s (proposer_none actor h)
serve-refused w schedule actor (withdraw_plan id reason) s h =
    as_actor-none _ _ s (withdrawer_none actor h)
serve-refused w schedule actor (set_financials input) s h =
    as_actor-none _ _ s (finance_none actor h)
serve-refused w schedule actor (approve_plan id) s h = as_actor-none _ _ s (finance_none actor h)
serve-refused w schedule actor (record_a_payment input) s h =
    as_actor-none _ _ s (finance_none actor h)
serve-refused w schedule actor (confirm input) s h = as_actor-none _ _ s (finance_none actor h)
serve-refused w schedule actor (reverse input) s h = as_actor-none _ _ s (finance_none actor h)
serve-refused w schedule actor (refund input) s h = as_actor-none _ _ s (finance_none actor h)
serve-refused w schedule actor (allocate input) s h = as_actor-none _ _ s (finance_none actor h)
serve-refused w schedule actor (unallocate input) s h = as_actor-none _ _ s (finance_none actor h)
serve-refused w schedule actor (receipt id) s h = as_actor-none _ _ s (finance_none actor h)
