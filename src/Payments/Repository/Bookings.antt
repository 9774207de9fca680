-- ===== src/Payments/Repository/Bookings.antt =====
-- Payments repository: bookings, and who may see them.
use heritage_philippines_v.Prelude.{
  ℕ, Bool, true, false, Option, none, some, List, ◌&&◌, ◌||◌, not, ◌==◌, any, find, update_where,
  is_some,
}
use heritage_philippines_v.Transaction.{ok, err, unknown}
use heritage_philippines_v.Payments.Model.{
  Decimal, Text, Role, BookingStatus, Booking, StaffAssignment, PaymentPlan, PaymentPlanStatus,
  Payment,
}
use heritage_philippines_v.Payments.Store.{Store, PaymentTx}

pub data PaymentActorRole : Type 0 where
  admin_manager travel_consultant finance_accounting : PaymentActorRole

pub record PaymentActor : Type 0 where
  pub id : ℕ
  pub role : PaymentActorRole

abbrev pub is_withdrawn : PaymentPlanStatus → Bool
is_withdrawn PaymentPlanStatus.withdrawn = true
is_withdrawn PaymentPlanStatus.proposed = false
is_withdrawn PaymentPlanStatus.approved = false

abbrev pub is_role : PaymentActorRole → Role → Bool
is_role admin_manager Role.admin_manager = true
is_role travel_consultant Role.travel_consultant = true
is_role finance_accounting Role.finance_accounting = true
is_role _ _ = false

abbrev pub is_booking : ℕ → Option ℕ → Bool
is_booking id none = false
is_booking id (some booking_id) = booking_id == id

-- An active assignment of the actor, in the role that it acts in, to the booking.
unfoldable pub holds_assignment : PaymentActor → ℕ → List StaffAssignment → Bool
holds_assignment actor booking_id = any (λ a.
    is_booking booking_id a.booking_id
    && a.assigned_staff_id == actor.id
    && is_role actor.role a.role
    && not (is_some a.ended_at))

unfoldable pub booking_assignment_filter : PaymentActor → List StaffAssignment → ℕ → Bool
unfolding holds_assignment
booking_assignment_filter actor assignments booking_id = elim actor.role [
  | admin_manager ↦ true
  | travel_consultant ↦ holds_assignment actor booking_id assignments
  | finance_accounting ↦ holds_assignment actor booking_id assignments
]

unfoldable pub find_booking : List Booking → ℕ → Option Booking
find_booking bookings id = find (λ b. b.id == id) bookings

-- `booking: { ...bookingAssignmentFilter(actor) }` on a row that refers to the booking.
unfoldable pub can_see_booking : PaymentActor → Store → ℕ → Bool
unfolding booking_assignment_filter find_booking
can_see_booking actor s booking_id =
    is_some (find_booking s.bookings booking_id)
    && booking_assignment_filter actor s.assignments booking_id

unfoldable pub find_booking_financials_for_actor : PaymentActor → ℕ → Store → Option Booking
unfolding booking_assignment_filter
find_booking_financials_for_actor actor booking_id s =
    find (λ b. b.id == booking_id && booking_assignment_filter actor s.assignments b.id) s.bookings

unfoldable pub has_financial_lock : ℕ → Store → Bool
has_financial_lock booking_id s =
    any (λ (p : PaymentPlan). p.booking_id == booking_id && not (is_withdrawn p.status)) s.plans
    || any (λ (p : Payment). p.booking_id == booking_id) s.payments

abbrev pub with_financials : Decimal → Text → Booking → Booking
with_financials total_amount currency_code b = record b {
  total_amount = some total_amount;
  currency_code = some currency_code;
}

-- `update` by a primary key that no row has is an unknown error.
unfoldable pub update_booking_financials : ℕ → Decimal → Text → PaymentTx Booking
unfolding find_booking
update_booking_financials booking_id total_amount currency_code s =
    elim (find_booking s.bookings booking_id) [
      | none ↦ err unknown
      | some b ↦ ok (
        with_financials total_amount currency_code b,
        record s {
          bookings =
              update_where (λ r. r.id == booking_id) (with_financials total_amount currency_code)
                s.bookings;
        },
      )
    ]

unfoldable pub find_booking_status : ℕ → Store → Option BookingStatus
unfolding find_booking
find_booking_status booking_id s = elim (find_booking s.bookings booking_id) [
  | none ↦ none
  | some b ↦ some b.status
]

unfoldable pub find_booking_currency_code : ℕ → Store → Option Text
unfolding find_booking
find_booking_currency_code booking_id s = elim (find_booking s.bookings booking_id) [
  | none ↦ none
  | some b ↦ b.currency_code
]
