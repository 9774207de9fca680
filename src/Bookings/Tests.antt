-- ===== src/Bookings/Tests.antt =====
-- Runs of bookings, on which the theorems on the feature are applied.
use heritage_philippines_v.Prelude.{
  ℕ, zero, suc, List, ◌+◌, ◌*◌, true, false, not, none, some, [], ◌∷◌, ◌≡◌, refl, arith, map, ◌==◌,
  if◌then◌else◌,
}
use heritage_philippines_v.Transaction.{
  Schedule, committed, violated, ok, write_unless, updated_row, with_handler,
  run_serializable_with_retry, ◌>>=◌, ◌>>◌,
}
use heritage_philippines_v.Payments.Model.{
  Role, AuthenticatedUser, draft, pending_confirmation, confirmed, visa_processing,
  ready_for_travel, in_progress, completed, cancelled,
}
use heritage_philippines_v.Bookings.Transitions.{
  Run, start, later, Visits, is_transition_allowed, is_terminal, completed-Visits_ready,
  is_transition_allowed-terminal,
}
use heritage_philippines_v.Bookings.Model.{BookingRecord, BookingStore, BookingRuntime, accept}
use heritage_philippines_v.Bookings.Repository.{
  BookingActor, BookingActorRole, ProposalVersionEligibility, new_booking, moved_to,
  booking_history_row, find_booking, find_booking_by_id_for_actor,
  find_booking_by_proposal_version_id_for_actor, find_eligible_proposal_version_for_actor,
  create_booking_with_initial_history, update_booking_status_with_history, insert_booking_audit,
}
use heritage_philippines_v.Bookings.References.{
  generate_booking_reference, is_valid_client_booking_reference, generate_booking_reference-valid,
}
use heritage_philippines_v.Bookings.Service.Create.{row_of, attempt_create_booking, create_booking}
use heritage_philippines_v.Bookings.Service.Status.{
  UpdateBookingStatusInput, update_booking_status_body, update_booking_status,
}
use heritage_philippines_v.Bookings.Life.{BookingsFit, booking_history}
use heritage_philippines_v.Bookings.Life.Reached.{
  BookingsReach, stay, after_create, after_update, BookingsReach-BookingsFit,
}
use heritage_philippines_v.Bookings.Errors.{IsControlled, booking_calls-IsControlled}
use heritage_philippines_v.Bookings.Replays.{attempt_create_booking-again}
use heritage_philippines_v.Bookings.Moves.{
  booking_status_audit, update_booking_status_body-move_answer, update_booking_status_body-again,
}
use heritage_philippines_v.Crm.Store.{CrmStore}
use heritage_philippines_v.Assignments.Authorization.{can_access_client}
use heritage_philippines_v.Assignments.Repository.{find_client_profile_ownership}
use heritage_philippines_v.Bookings.Pages.{get_client_booking_list_page, page}
use heritage_philippines_v.Bookings.Pages.Slices.{shown_item, get_client_booking_list_page-page_at}

travel : Run visa_processing completed
unfolding is_transition_allowed
travel = later completed (later in_progress (later ready_for_travel start refl) refl) refl

completed-Visits_ready_example : Visits ready_for_travel travel
completed-Visits_ready_example = completed-Visits_ready travel refl

is_transition_allowed-terminal_example :
    (is_transition_allowed cancelled cancelled ≡ not (is_terminal cancelled))
    × (is_terminal cancelled ≡ true → is_transition_allowed cancelled in_progress ≡ false)
    × (is_transition_allowed cancelled cancelled ≡ false)
is_transition_allowed-terminal_example = is_transition_allowed-terminal cancelled in_progress

abbrev runtime_of : ℕ → BookingRuntime
runtime_of n = record {
  random_uuid = λ i. 100 * n + i;
  random_bytes = 0 ∷ 1 ∷ 15 ∷ 16 ∷ 159 ∷ 160 ∷ 171 ∷ 205 ∷ 239 ∷ 255 ∷ [];
  now = 7;
  by_newest = λ bs. bs;
}

-- No other transaction commits meanwhile, and every attempt commits.
abbrev alone : Schedule BookingStore
alone = record { attempt = λ n. record { others = λ s. s; outcome = committed }; settled = λ s. s }

-- Another transaction takes every reference that the calls try.
abbrev unlucky : Schedule BookingStore
unlucky = record {
  attempt = λ n. record {
    others = λ s. s;
    outcome = violated (record { model_name = some "Booking"; fields = "bookingReference" ∷ [] });
  };
  settled = λ s. s;
}

abbrev consultant : AuthenticatedUser
consultant = record { id = 2; role = Role.travel_consultant }

abbrev acting : BookingActor
acting = record { id = 2; role = BookingActorRole.travel_consultant }

-- The consultant is assigned to the client 9, who accepted the version 5.
abbrev before_booking : BookingStore
before_booking = record {
  bookings = [];
  history = [];
  versions = record { id = 5; client_id = 9; response_type = some accept } ∷ [];
  assignments =
      record {
        id = 3;
        assigned_staff_id = 2;
        assigned_by_user_id = 1;
        role = Role.travel_consultant;
        lead_id = none;
        client_id = some 9;
        booking_id = none;
        ended_at = none;
        created_at = 1;
        updated_at = 1;
      }
      ∷ [];
  audit_log = [];
}

before_booking-BookingsFit : BookingsFit before_booking
unfolding find_booking booking_history
before_booking-BookingsFit = record {
  lives = λ id. tt;
  sources = tt;
  single = λ id. omega arith;
  keyed = λ id. omega arith;
}

abbrev eligible_five : ProposalVersionEligibility
eligible_five = record { id = 5; client_id = 9; has_accepted_acceptance = true }

abbrev booked : BookingRecord
booked = new_booking 7 (row_of (runtime_of 1) acting 5 eligible_five)

abbrev after_booking : BookingStore
after_booking = (create_booking runtime_of (λ n. alone) consultant 5 before_booking).1

abbrev to_pending : UpdateBookingStatusInput
to_pending = record { expected_status = draft; new_status = pending_confirmation }

abbrev after_move : BookingStore
after_move = (update_booking_status (runtime_of 2) alone consultant 100 to_pending after_booking).1

booking_calls : BookingsReach before_booking after_move
booking_calls =
    after_update (runtime_of 2) alone consultant 100 to_pending
      (after_create runtime_of (λ n. alone) consultant 5 stay (λ k n u. stay) (λ k u. stay))
      (λ n u. stay) (λ u. stay)

BookingsReach-BookingsFit_example : BookingsFit after_move
BookingsReach-BookingsFit_example =
    BookingsReach-BookingsFit booking_calls before_booking-BookingsFit

after_booking-BookingsFit : BookingsFit after_booking
after_booking-BookingsFit =
    BookingsReach-BookingsFit
      (after_create runtime_of (λ n. alone) consultant 5 stay (λ k n u. stay) (λ k u. stay))
      before_booking-BookingsFit

attempt_create_booking-again_example :
    attempt_create_booking (runtime_of 8) acting 5 after_booking
    ≡ ok (record { booking = booked; created = false }, after_booking)
unfolding attempt_create_booking create_booking find_booking_by_proposal_version_id_for_actor
    find_eligible_proposal_version_for_actor create_booking_with_initial_history
    insert_booking_audit write_unless with_handler run_serializable_with_retry ◌>>=◌ ◌>>◌
attempt_create_booking-again_example =
    attempt_create_booking-again (runtime_of 1) (runtime_of 8) acting 5 before_booking after_booking
      (record { booking = booked; created = true }) refl

update_booking_status_body-move_answer_example :
    update_booking_status_body (runtime_of 2) acting 100 to_pending after_booking
    ≡ ok (
      moved_to 7 pending_confirmation booked,
      record after_booking {
        bookings =
            map
              (λ k. if k.id == 100 then moved_to 7 pending_confirmation k else k)
              after_booking.bookings;
        history =
            booking_history_row 200 100 (some draft) pending_confirmation 2 ∷ after_booking.history;
        audit_log =
            booking_status_audit (runtime_of 2) acting 100 to_pending after_booking booked
            ∷ after_booking.audit_log;
      },
    )
unfolding attempt_create_booking create_booking find_booking_by_proposal_version_id_for_actor
    find_eligible_proposal_version_for_actor create_booking_with_initial_history
    insert_booking_audit write_unless with_handler run_serializable_with_retry ◌>>=◌ ◌>>◌
    find_booking_by_id_for_actor is_transition_allowed
update_booking_status_body-move_answer_example =
    update_booking_status_body-move_answer (runtime_of 2) acting 100 to_pending after_booking booked
      after_booking-BookingsFit refl refl

update_booking_status_body-again_example :
    update_booking_status_body (runtime_of 3) acting 100 to_pending after_move
    ≡ ok (moved_to 7 pending_confirmation booked, after_move)
unfolding attempt_create_booking create_booking find_booking_by_proposal_version_id_for_actor
    find_eligible_proposal_version_for_actor create_booking_with_initial_history
    insert_booking_audit write_unless with_handler run_serializable_with_retry ◌>>=◌ ◌>>◌
    update_booking_status_body update_booking_status find_booking_by_id_for_actor
    is_transition_allowed update_booking_status_with_history updated_row
update_booking_status_body-again_example =
    update_booking_status_body-again (runtime_of 2) (runtime_of 3) acting 100 to_pending to_pending
      after_booking after_move (moved_to 7 pending_confirmation booked) after_booking-BookingsFit
      refl refl

booking_calls-IsControlled_example :
    IsControlled (create_booking runtime_of (λ n. unlucky) consultant 5 before_booking).0
    × IsControlled
        (update_booking_status (runtime_of 0) unlucky consultant 100 to_pending before_booking).0
booking_calls-IsControlled_example =
    booking_calls-IsControlled runtime_of (λ n. unlucky) consultant 5 100 to_pending before_booking

generate_booking_reference-valid_example :
    is_valid_client_booking_reference (generate_booking_reference (runtime_of 1).random_bytes)
    ≡ true
unfolding generate_booking_reference
generate_booking_reference-valid_example =
    generate_booking_reference-valid (runtime_of 1).random_bytes refl (
      omega arith,
      (
        omega arith,
        (
          omega arith,
          (
            omega arith,
            (
              omega arith,
              (omega arith, (omega arith, (omega arith, (omega arith, (omega arith, tt))))),
            ),
          ),
        ),
      ),
    )

abbrev client_user : AuthenticatedUser
client_user = record { id = 30; role = Role.client }

-- The user 30 is the client 9.
abbrev portal : CrmStore
portal = record {
  leads = [];
  history = [];
  clients = [];
  bookings = [];
  assignments = [];
  users = [];
  profiles = record { id = 1; user_id = 30; client_id = 9 } ∷ [];
  audit_log = [];
}

-- Eleven bookings of the client 9 past DRAFT, the newest of them the twelfth.
abbrev numbered : ℕ → List BookingRecord
numbered zero = []
numbered (suc n) =
    record booked { id = suc n; proposal_version_id = suc n; status = confirmed } ∷ numbered n

-- Beside them a draft of the client's and a booking of another client.
abbrev crowded : BookingStore
crowded = record before_booking {
  bookings = booked ∷ record booked { client_id = 4; status = confirmed } ∷ numbered 11;
}

get_client_booking_list_page-page_at_example :
    get_client_booking_list_page (λ bs. bs) portal crowded crowded client_user 9 2
    ≡ ok (page (shown_item (record booked { id = 1; status = confirmed }) ∷ []) 2 false)
unfolding can_access_client find_client_profile_ownership
get_client_booking_list_page-page_at_example =
    get_client_booking_list_page-page_at (λ bs. bs) portal crowded client_user 9 2 (λ bs. refl) refl
      refl (omega arith) (omega arith)
