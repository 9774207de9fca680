-- ===== src/Bookings/Service/Actors.antt =====
-- What the functions of bookings/service.ts share: the check of the actor, and the booking that a
-- call is about.
use heritage_philippines_v.Prelude.{ℕ, Option, none, some}
use heritage_philippines_v.Transaction.{domain, err, Action, gets, or_throw, ◌>>=◌}
use heritage_philippines_v.Payments.Model.{Role, AuthenticatedUser}
use heritage_philippines_v.Bookings.Model.{
  BookingErrorCode, role_not_permitted, proposal_version_not_found, proposal_version_forbidden,
  booking_not_found, booking_forbidden, BookingRecord, BookingStore,
}
use heritage_philippines_v.Bookings.Repository.{
  BookingActor, BookingActorRole, BookingTx, find_booking_by_id_for_actor,
}

abbrev pub BookingAction : Type 0 → Type 0
BookingAction = Action BookingStore BookingErrorCode

unfoldable pub assert_booking_actor : AuthenticatedUser → Option BookingActor
assert_booking_actor actor = elim actor.role [
  | Role.admin_manager ↦ some (record { id = actor.id; role = BookingActorRole.admin_manager })
  | Role.travel_consultant ↦
      some (record { id = actor.id; role = BookingActorRole.travel_consultant })
  | _ ↦ none
]

abbrev pub permitted_booking :
    {A : Type 0} → Option BookingActor → (BookingActor → BookingAction A) → BookingAction A
permitted_booking none body s = (err (domain role_not_permitted), s)
permitted_booking (some a) body s = body a s

-- `assertBookingActor(actor)`, and the rest of the call.
unfoldable pub as_booking_actor :
    {A : Type 0} → AuthenticatedUser → (BookingActor → BookingAction A) → BookingAction A
unfolding assert_booking_actor
as_booking_actor actor body = permitted_booking (assert_booking_actor actor) body

abbrev pub version_missing : BookingActor → BookingErrorCode
version_missing actor = elim actor.role [
  | BookingActorRole.admin_manager ↦ proposal_version_not_found
  | BookingActorRole.travel_consultant ↦ proposal_version_forbidden
]

abbrev pub booking_missing : BookingActor → BookingErrorCode
booking_missing actor = elim actor.role [
  | BookingActorRole.admin_manager ↦ booking_not_found
  | BookingActorRole.travel_consultant ↦ booking_forbidden
]

unfoldable pub find_booking_or_refuse : BookingActor → ℕ → BookingTx BookingErrorCode BookingRecord
find_booking_or_refuse actor id = do
  found ← gets (find_booking_by_id_for_actor actor id)
  or_throw found (booking_missing actor)
