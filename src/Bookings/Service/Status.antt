-- ===== src/Bookings/Service/Status.antt =====
-- `updateBookingStatus`.
use heritage_philippines_v.Prelude.{ℕ, Option, none, some, if◌then◌else◌}
use heritage_philippines_v.Transaction.{Schedule, pure, require, or_else, ◌>>=◌, ◌>>◌}
use heritage_philippines_v.Payments.Model.{AuthenticatedUser, BookingStatus}
use heritage_philippines_v.Crm.Calls.{run_with_conflict}
use heritage_philippines_v.Bookings.Transitions.{same_booking_status, is_transition_allowed}
use heritage_philippines_v.Bookings.Model.{
  BookingErrorCode, booking_conflict, invalid_status_transition, BookingRecord, BookingStore,
  BookingRuntime, booking_status_changed_action, booking_audit_entity_type,
  sanitize_booking_status_snapshot,
}
use heritage_philippines_v.Bookings.Repository.{
  BookingActor, BookingTx, update_booking_status_with_history, insert_booking_audit,
}
use heritage_philippines_v.Bookings.Service.Actors.{
  BookingAction, as_booking_actor, find_booking_or_refuse,
}

pub record UpdateBookingStatusInput : Type 0 where
  pub expected_status : BookingStatus
  pub new_status : BookingStatus

abbrev pub same_booking : BookingStatus → BookingRecord → Option BookingRecord
same_booking status b = if same_booking_status b.status status then some b else none

unfoldable pub move_booking :
    BookingRuntime
    → BookingActor
    → ℕ
    → UpdateBookingStatusInput
    → BookingRecord
    → BookingTx BookingErrorCode BookingRecord
move_booking w actor id input found = do
  require (same_booking_status found.status input.expected_status) booking_conflict
  require (is_transition_allowed found.status input.new_status) invalid_status_transition
  updated ←
      update_booking_status_with_history w.now (w.random_uuid 0) id found.status input.new_status
        actor.id
  insert_booking_audit (record {
    actor_id = actor.id;
    action = booking_status_changed_action;
    entity_type = booking_audit_entity_type;
    entity_id = id;
    before_state = some (sanitize_booking_status_snapshot found.status);
    after_state = some (sanitize_booking_status_snapshot updated.status);
  })
  pure updated

unfoldable pub update_booking_status_body :
    BookingRuntime
    → BookingActor
    → ℕ
    → UpdateBookingStatusInput
    → BookingTx BookingErrorCode BookingRecord
unfolding find_booking_or_refuse move_booking
update_booking_status_body w actor id input = do
  found ← find_booking_or_refuse actor id
  or_else (same_booking input.new_status found) (move_booking w actor id input found)

unfoldable pub update_booking_status :
    BookingRuntime
    → Schedule BookingStore
    → AuthenticatedUser
    → ℕ
    → UpdateBookingStatusInput
    → BookingAction BookingRecord
unfolding as_booking_actor run_with_conflict
update_booking_status w schedule actor id input =
    as_booking_actor actor
      (λ a. run_with_conflict booking_conflict schedule (update_booking_status_body w a id input))
