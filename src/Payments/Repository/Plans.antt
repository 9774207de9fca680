-- ===== src/Payments/Repository/Plans.antt =====
-- Payments repository: payment plans and their installments.
use heritage_philippines_v.Prelude.{
  ℕ, Bool, true, false, Option, none, some, List, [], ◌∷◌, ◌&&◌, ◌||◌, not, ◌==◌, ltb, any, find,
  select, length, update_where, is_some, if◌then◌else◌,
}
use heritage_philippines_v.Transaction.{pure, ◌>>◌}
use heritage_philippines_v.Payments.Model.{
  Decimal, Text, Booking, PaymentPlan, PaymentPlanStatus, Installment, PaymentAllocation,
}
use heritage_philippines_v.Payments.Store.{Store, PaymentTx, sum_where, insert_unless}
use heritage_philippines_v.Payments.Repository.Bookings.{
  PaymentActor, is_withdrawn, can_see_booking, find_booking,
}

unfoldable pub find_plan : List PaymentPlan → ℕ → Option PaymentPlan
find_plan plans id = find (λ p. p.id == id) plans

unfoldable pub find_payment_plan_by_booking_id_for_actor :
    PaymentActor → ℕ → Store → Option PaymentPlan
unfolding can_see_booking
find_payment_plan_by_booking_id_for_actor actor booking_id s =
    find
      (λ p.
        p.booking_id == booking_id
        && not (is_withdrawn p.status)
        && can_see_booking actor s p.booking_id)
      s.plans

abbrev with_booking : PaymentPlan → Option Booking → Option (PaymentPlan × Booking)
with_booking p none = none
with_booking p (some b) = some (p, b)

unfoldable pub find_payment_plan_with_booking_for_actor :
    PaymentActor → ℕ → Store → Option (PaymentPlan × Booking)
unfolding can_see_booking find_booking
find_payment_plan_with_booking_for_actor actor id s =
    elim (find (λ p. p.id == id && can_see_booking actor s p.booking_id) s.plans) [
      | none ↦ none
      | some p ↦ with_booking p (find_booking s.bookings p.booking_id)
    ]

pub record ProposedInstallment : Type 0 where
  pub id : ℕ
  pub sequence_number : ℕ
  pub is_deposit : Bool
  pub amount : Decimal
  pub due_date : ℕ

abbrev pub installment_row : ℕ → ProposedInstallment → Installment
installment_row plan_id i = record {
  id = i.id;
  payment_plan_id = plan_id;
  sequence_number = i.sequence_number;
  is_deposit = i.is_deposit;
  amount = i.amount;
  due_date = i.due_date;
}

-- The rows of the nested create, in front of the rows that are there.
abbrev pub add_installments : ℕ → List ProposedInstallment → List Installment → List Installment
add_installments plan_id [] rows = rows
add_installments plan_id (i ∷ is) rows =
    installment_row plan_id i ∷ add_installments plan_id is rows

-- An installment of the nested create has the id of a row that is there.
abbrev pub ids_taken : List ProposedInstallment → List Installment → Bool
ids_taken [] rows = false
ids_taken (i ∷ is) rows =
    any (λ (r : Installment). r.id == i.id) rows
    || any (λ (j : ProposedInstallment). j.id == i.id) is
    || ids_taken is rows

pub record CreatePaymentPlanInput : Type 0 where
  pub id : ℕ
  pub booking_id : ℕ
  pub client_id : ℕ
  pub proposed_by_staff_user_id : ℕ
  pub installments : List ProposedInstallment

abbrev pub proposed_plan : CreatePaymentPlanInput → PaymentPlan
proposed_plan input = record {
  id = input.id;
  booking_id = input.booking_id;
  client_id = input.client_id;
  proposed_by_staff_user_id = input.proposed_by_staff_user_id;
  approved_by_staff_user_id = none;
  approved_at = none;
  status = PaymentPlanStatus.proposed;
  withdrawn_at = none;
  withdrawn_by_staff_user_id = none;
  withdrawal_reason = none;
}

-- Unique: the ids, and one plan of a booking that is not withdrawn
-- (`payment_plan_active_booking_key`).
unfoldable pub create_payment_plan_with_installments :
    CreatePaymentPlanInput → PaymentTx PaymentPlan
unfolding insert_unless find_plan
create_payment_plan_with_installments input s =
    (do
      insert_unless (is_some (find_plan s.plans input.id)) "PaymentPlan" "id" (λ t. t)
      insert_unless (ids_taken input.installments s.installments) "Installment" "id" (λ t. t)
      insert_unless
          (any (λ p. p.booking_id == input.booking_id && not (is_withdrawn p.status)) s.plans)
          "PaymentPlan" "bookingId"
          (λ t. record t {
            plans = proposed_plan input ∷ t.plans;
            installments = add_installments input.id input.installments t.installments;
          })
      pure (proposed_plan input))
      s

unfoldable pub sum_installment_amounts : List Installment → ℕ → Decimal
sum_installment_amounts rows plan_id =
    sum_where (λ i. i.payment_plan_id == plan_id) (λ i. i.amount) rows

abbrev pub is_proposed : PaymentPlanStatus → Bool
is_proposed PaymentPlanStatus.proposed = true
is_proposed PaymentPlanStatus.approved = false
is_proposed PaymentPlanStatus.withdrawn = false

-- `updateMany` over the row of this id that is still proposed, then the row read again.
unfoldable pub update_proposed_plan :
    ℕ → (PaymentPlan → PaymentPlan) → PaymentTx (Option PaymentPlan)
unfolding find_plan
update_proposed_plan id change s =
    if any (λ p. p.id == id && is_proposed p.status) s.plans
    then (let plans = update_where (λ p. p.id == id && is_proposed p.status) change s.plans in
        pure (find_plan plans id) (record s { plans = plans }))
    else pure none s

abbrev pub approve : ℕ → ℕ → PaymentPlan → PaymentPlan
approve staff_id at p = record p {
  status = PaymentPlanStatus.approved;
  approved_by_staff_user_id = some staff_id;
  approved_at = some at;
}

abbrev pub withdraw : ℕ → ℕ → Text → PaymentPlan → PaymentPlan
withdraw staff_id at reason p = record p {
  status = PaymentPlanStatus.withdrawn;
  withdrawn_at = some at;
  withdrawn_by_staff_user_id = some staff_id;
  withdrawal_reason = some reason;
}

unfoldable pub approve_payment_plan_row : ℕ → ℕ → ℕ → PaymentTx (Option PaymentPlan)
unfolding update_proposed_plan
approve_payment_plan_row id staff_id at = update_proposed_plan id (approve staff_id at)

unfoldable pub withdraw_payment_plan_row : ℕ → ℕ → ℕ → Text → PaymentTx (Option PaymentPlan)
unfolding update_proposed_plan
withdraw_payment_plan_row id staff_id at reason =
    update_proposed_plan id (withdraw staff_id at reason)

-- Rows in the order of their sequence numbers.
abbrev insert_by_sequence : Installment → List Installment → List Installment
insert_by_sequence i [] = i ∷ []
insert_by_sequence i (j ∷ rows) =
    if ltb j.sequence_number i.sequence_number then j ∷ insert_by_sequence i rows else i ∷ j ∷ rows

unfoldable pub sort_by_sequence : List Installment → List Installment
sort_by_sequence [] = []
sort_by_sequence (i ∷ rows) = insert_by_sequence i (sort_by_sequence rows)

unfoldable pub find_installments_for_plan_snapshot : ℕ → Store → List Installment
unfolding sort_by_sequence
find_installments_for_plan_snapshot plan_id s =
    sort_by_sequence (select (λ i. i.payment_plan_id == plan_id) s.installments)

unfoldable pub find_installment : List Installment → ℕ → Option Installment
find_installment rows id = find (λ i. i.id == id) rows

abbrev is_of_plan : ℕ → Option Installment → Bool
is_of_plan plan_id none = false
is_of_plan plan_id (some i) = i.payment_plan_id == plan_id

unfoldable pub count_allocations_for_plan : ℕ → Store → ℕ
unfolding find_installment
count_allocations_for_plan plan_id s = length (
    select
      (λ (a : PaymentAllocation).
        is_of_plan plan_id (find_installment s.installments a.installment_id))
      s.allocations)

pub record InstallmentForAllocation : Type 0 where
  pub id : ℕ
  pub payment_plan_id : ℕ
  pub booking_id : ℕ
  pub amount : Decimal
  pub plan_status : PaymentPlanStatus

abbrev pub with_plan : Installment → Option PaymentPlan → Option InstallmentForAllocation
with_plan i none = none
with_plan i (some p) = some (record {
  id = i.id;
  payment_plan_id = i.payment_plan_id;
  booking_id = p.booking_id;
  amount = i.amount;
  plan_status = p.status;
})

unfoldable pub find_installment_for_allocation : ℕ → Store → Option InstallmentForAllocation
unfolding find_installment find_plan
find_installment_for_allocation id s = elim (find_installment s.installments id) [
  | none ↦ none
  | some i ↦ with_plan i (find_plan s.plans i.payment_plan_id)
]
