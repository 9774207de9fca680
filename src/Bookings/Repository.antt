-- ===== src/Bookings/Repository.antt =====
-- apps/web/src/features/bookings/repository.ts, the staff's side.
use heritage_philippines_v.Prelude.{
  ℕ, Bool, true, false, Option, none, some, List, ◌∷◌, ◌&&◌, ◌==◌, length, find, any, select,
  update_where, is_some,
}
use heritage_philippines_v.Transaction.{
  Tx, pure, gets, modify, ◌>>=◌, ◌>>◌, write_unless, updated_row,
}
use heritage_philippines_v.Payments.Model.{Text, BookingStatus, draft}
use heritage_philippines_v.Payments.Currencies.{text_eq}
use heritage_philippines_v.Assignments.Repository.{fills, of_client}
use heritage_philippines_v.Leads.Reads.{page_of}
use heritage_philippines_v.Bookings.Model.{
  BookingRecord, BookingStatusHistory, ProposalResponseType, accept, ProposalVersion, BookingAudit,
  BookingStore,
}

pub data BookingActorRole : Type 0 where
  admin_manager travel_consultant : BookingActorRole

pub record BookingActor : Type 0 where
  pub id : ℕ
  pub role : BookingActorRole

abbrev pub BookingTx : Type 0 → Type 0 → Type 0
BookingTx E A = Tx BookingStore E A

-- Whether the client passes `clientAssignmentFilter`.
unfoldable pub client_in_scope : BookingActor → BookingStore → ℕ → Bool
client_in_scope actor s client_id = elim actor.role [
  | BookingActorRole.admin_manager ↦ true
  | BookingActorRole.travel_consultant ↦
      any (λ a. fills (of_client client_id) a && a.assigned_staff_id == actor.id) s.assignments
]

unfoldable pub find_booking_by_proposal_version_id_for_actor :
    BookingActor → ℕ → BookingStore → Option BookingRecord
unfolding client_in_scope
find_booking_by_proposal_version_id_for_actor actor proposal_version_id s =
    find (λ b. b.proposal_version_id == proposal_version_id && client_in_scope actor s b.client_id)
      s.bookings

unfoldable pub find_booking_by_id_for_actor : BookingActor → ℕ → BookingStore → Option BookingRecord
unfolding client_in_scope
find_booking_by_id_for_actor actor id s =
    find (λ b. b.id == id && client_in_scope actor s b.client_id) s.bookings

unfoldable pub list_bookings_for_actor :
    (List BookingRecord → List BookingRecord)
    → BookingActor
    → ℕ
    → ℕ
    → BookingStore
    → List BookingRecord × ℕ
unfolding client_in_scope
list_bookings_for_actor by_newest actor skip take s =
    let rows = select (λ b. client_in_scope actor s b.client_id) s.bookings in
    (page_of skip take (by_newest rows), length rows)

pub record ProposalVersionEligibility : Type 0 where
  pub id : ℕ
  pub client_id : ℕ
  pub has_accepted_acceptance : Bool

abbrev pub is_accept : Option ProposalResponseType → Bool
is_accept none = false
is_accept (some accept) = true
is_accept (some ProposalResponseType.decline) = false
is_accept (some ProposalResponseType.request_changes) = false

abbrev pub eligibility : Option ProposalVersion → Option ProposalVersionEligibility
eligibility none = none
eligibility (some v) = some (record {
  id = v.id;
  client_id = v.client_id;
  has_accepted_acceptance = is_accept v.response_type;
})

unfoldable pub find_version : BookingActor → ℕ → BookingStore → Option ProposalVersion
unfolding client_in_scope
find_version actor proposal_version_id s =
    find (λ v. v.id == proposal_version_id && client_in_scope actor s v.client_id) s.versions

unfoldable pub find_eligible_proposal_version_for_actor :
    BookingActor → ℕ → BookingStore → Option ProposalVersionEligibility
unfolding find_version
find_eligible_proposal_version_for_actor actor proposal_version_id s =
    eligibility (find_version actor proposal_version_id s)

pub record CreateBookingRow : Type 0 where
  pub id : ℕ
  pub history_id : ℕ
  pub booking_reference : Text
  pub client_id : ℕ
  pub proposal_version_id : ℕ
  pub changed_by_user_id : ℕ

abbrev pub new_booking : ℕ → CreateBookingRow → BookingRecord
new_booking now input = record {
  id = input.id;
  booking_reference = input.booking_reference;
  client_id = input.client_id;
  proposal_version_id = input.proposal_version_id;
  status = draft;
  tour_package_name = none;
  destination = none;
  travel_start_date = none;
  travel_end_date = none;
  traveler_count = none;
  included_services = none;
  excluded_services = none;
  special_requests = none;
  internal_notes = none;
  client_visible_notes = none;
  created_at = now;
  updated_at = now;
}

abbrev pub booking_history_row :
    ℕ → ℕ → Option BookingStatus → BookingStatus → ℕ → BookingStatusHistory
booking_history_row id booking_id previous_status new_status changed_by_user_id = record {
  id = id;
  booking_id = booking_id;
  previous_status = previous_status;
  new_status = new_status;
  changed_by_user_id = changed_by_user_id;
}

unfoldable pub find_booking : List BookingRecord → ℕ → Option BookingRecord
find_booking bookings id = find (λ b. b.id == id) bookings

abbrev pub version_booked : ℕ → List BookingRecord → Bool
version_booked proposal_version_id bookings =
    any (λ b. b.proposal_version_id == proposal_version_id) bookings

abbrev pub reference_taken : Text → List BookingRecord → Bool
reference_taken reference bookings = any (λ b. text_eq b.booking_reference reference) bookings

abbrev pub history_taken : ℕ → BookingStore → Bool
history_taken id s = any (λ h. h.id == id) s.history

-- The rows are refused by the unique indexes on `id`, `bookingReference` and `proposalVersionId`.
unfoldable pub create_booking_with_initial_history :
    {E : Type 0} → ℕ → CreateBookingRow → BookingTx E BookingRecord
unfolding find_booking
create_booking_with_initial_history now input = do
  known ← gets (λ s. is_some (find_booking s.bookings input.id))
  write_unless known "Booking" "id" (λ s. s)
  taken ← gets (λ s. reference_taken input.booking_reference s.bookings)
  write_unless taken "Booking" "bookingReference" (λ s. s)
  booked ← gets (λ s. version_booked input.proposal_version_id s.bookings)
  write_unless booked "Booking" "proposalVersionId" (λ s. s)
  seen ← gets (history_taken input.history_id)
  write_unless seen "BookingStatusHistory" "id" (λ s. record s {
    bookings = new_booking now input ∷ s.bookings;
    history =
        booking_history_row input.history_id input.id none draft input.changed_by_user_id
        ∷ s.history;
  })
  pure (new_booking now input)

abbrev pub moved_to : ℕ → BookingStatus → BookingRecord → BookingRecord
moved_to now status b = record b { status = status; updated_at = now }

abbrev pub set_booking :
    ℕ → (BookingRecord → BookingRecord) → List BookingRecord → List BookingRecord
set_booking id change = update_where (λ b. b.id == id) change

unfoldable pub update_booking_status_with_history :
    {E : Type 0} → ℕ → ℕ → ℕ → BookingStatus → BookingStatus → ℕ → BookingTx E BookingRecord
unfolding find_booking
update_booking_status_with_history now history_id id previous_status new_status changed_by_user_id =
    do
      found ← gets (λ s. find_booking s.bookings id)
      updated ← updated_row (moved_to now new_status) found
      seen ← gets (history_taken history_id)
      write_unless seen "BookingStatusHistory" "id" (λ s. record s {
        bookings = set_booking id (moved_to now new_status) s.bookings;
        history =
            booking_history_row history_id id (some previous_status) new_status changed_by_user_id
            ∷ s.history;
      })
      pure updated

-- `insertAuditLog`
unfoldable pub insert_booking_audit : {E : Type 0} → BookingAudit → BookingTx E (Unit {0})
unfolding modify
insert_booking_audit entry = modify (λ s. record s { audit_log = entry ∷ s.audit_log })
