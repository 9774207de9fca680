-- ===== src/Bookings/Service/Create.antt =====
-- `createBooking`: a booking from an accepted proposal version, with up to three references.
use heritage_philippines_v.Prelude.{
  ℕ, zero, suc, ◌+◌, ◌-◌, Bool, true, false, Option, none, some, [], ◌∷◌, if◌then◌else◌,
}
use heritage_philippines_v.Transaction.{
  Failure, domain, err, Schedule, pure, gets, require, or_throw, or_else, is_unique_violation_on,
  is_residual_database_conflict, run_serializable_with_retry, with_handler, read_now, ◌>>=◌, ◌>>◌,
}
use heritage_philippines_v.Payments.Model.{AuthenticatedUser}
use heritage_philippines_v.Bookings.Model.{
  BookingErrorCode, proposal_version_not_accepted, booking_conflict, BookingRecord, BookingStore,
  BookingRuntime, booking_created_action, booking_audit_entity_type, sanitize_booking_snapshot,
}
use heritage_philippines_v.Bookings.Repository.{
  BookingActor, BookingTx, find_booking_by_proposal_version_id_for_actor,
  ProposalVersionEligibility, find_eligible_proposal_version_for_actor, CreateBookingRow,
  create_booking_with_initial_history, insert_booking_audit,
}
use heritage_philippines_v.Bookings.References.{generate_booking_reference}
use Prim.Native.String.{String}
use heritage_philippines_v.Bookings.Service.Actors.{
  BookingAction, as_booking_actor, version_missing,
}

abbrev pub max_booking_reference_attempts : ℕ
max_booking_reference_attempts = 3

pub record CreateBookingResult : Type 0 where
  pub booking : BookingRecord
  pub created : Bool

abbrev pub already : Option BookingRecord → Option CreateBookingResult
already none = none
already (some b) = some (record { booking = b; created = false })

abbrev pub row_of :
    BookingRuntime → BookingActor → ℕ → ProposalVersionEligibility → CreateBookingRow
row_of w actor proposal_version_id eligible = record {
  id = w.random_uuid 0;
  history_id = w.random_uuid 1;
  booking_reference = generate_booking_reference w.random_bytes;
  client_id = eligible.client_id;
  proposal_version_id = proposal_version_id;
  changed_by_user_id = actor.id;
}

unfoldable pub book :
    BookingRuntime
    → BookingActor
    → ℕ
    → ProposalVersionEligibility
    → BookingTx BookingErrorCode CreateBookingResult
book w actor proposal_version_id eligible = do
  created ← create_booking_with_initial_history w.now (row_of w actor proposal_version_id eligible)
  insert_booking_audit (record {
    actor_id = actor.id;
    action = booking_created_action;
    entity_type = booking_audit_entity_type;
    entity_id = created.id;
    before_state = none;
    after_state = some (sanitize_booking_snapshot created);
  })
  pure (record { booking = created; created = true })

unfoldable pub book_eligible :
    BookingRuntime → BookingActor → ℕ → BookingTx BookingErrorCode CreateBookingResult
unfolding book
book_eligible w actor proposal_version_id = do
  found ← gets (find_eligible_proposal_version_for_actor actor proposal_version_id)
  eligible ← or_throw found (version_missing actor)
  require eligible.has_accepted_acceptance proposal_version_not_accepted
  book w actor proposal_version_id eligible

unfoldable pub attempt_create_booking :
    BookingRuntime → BookingActor → ℕ → BookingTx BookingErrorCode CreateBookingResult
unfolding book_eligible
attempt_create_booking w actor proposal_version_id = do
  existing ← gets (find_booking_by_proposal_version_id_for_actor actor proposal_version_id)
  or_else (already existing) (book_eligible w actor proposal_version_id)

unfoldable pub is_booking_unique_violation_on : Failure BookingErrorCode → String → Bool
unfolding is_unique_violation_on
is_booking_unique_violation_on e field = is_unique_violation_on e "Booking" (field ∷ [])

-- The read after a lost race for the proposal version.
unfoldable pub find_raced : BookingActor → ℕ → BookingTx BookingErrorCode CreateBookingResult
find_raced actor proposal_version_id = do
  raced ← gets (find_booking_by_proposal_version_id_for_actor actor proposal_version_id)
  or_throw (already raced) booking_conflict

-- `continue`, or the end of the loop.
abbrev pub next_reference :
    Option (BookingAction CreateBookingResult) → BookingAction CreateBookingResult
next_reference none s = (err (domain booking_conflict), s)
next_reference (some again) s = again s

abbrev pub on_other : Failure BookingErrorCode → BookingAction CreateBookingResult
on_other e s = (err (if is_residual_database_conflict e then domain booking_conflict else e), s)

-- The catch block of `createBooking`; `again` is the next turn of its loop, if there is one.
unfoldable pub on_create_error :
    Schedule BookingStore
    → BookingActor
    → ℕ
    → Option (BookingAction CreateBookingResult)
    → Failure BookingErrorCode
    → BookingAction CreateBookingResult
unfolding is_booking_unique_violation_on find_raced
on_create_error schedule actor proposal_version_id again e =
    elim (is_booking_unique_violation_on e "bookingReference") [
      | true ↦ next_reference again
      | false ↦ elim (is_booking_unique_violation_on e "proposalVersionId") [
        | true ↦ read_now schedule (find_raced actor proposal_version_id)
        | false ↦ on_other e
      ]
    ]

module _ (runtime : ℕ → BookingRuntime) (schedule : ℕ → Schedule BookingStore)
    (actor : BookingActor) (proposal_version_id : ℕ) where
  abbrev pub try_reference :
      ℕ → Option (BookingAction CreateBookingResult) → BookingAction CreateBookingResult
  try_reference attempt again =
      with_handler
        (run_serializable_with_retry (schedule attempt)
          (attempt_create_booking (runtime attempt) actor proposal_version_id))
        (on_create_error (schedule attempt) actor proposal_version_id again)

  -- `for (let attempt = 1; ...)`; `left` is how many turns may follow this one.
  unfoldable pub create_loop : ℕ → ℕ → BookingAction CreateBookingResult
  unfolding on_create_error
  create_loop zero attempt = try_reference attempt none
  create_loop (suc left) attempt = try_reference attempt (some (create_loop left (attempt + 1)))

-- Each turn of the loop has its own random values and its own transaction.
unfoldable pub create_booking :
    (ℕ → BookingRuntime)
    → (ℕ → Schedule BookingStore)
    → AuthenticatedUser
    → ℕ
    → BookingAction CreateBookingResult
unfolding as_booking_actor create_loop
create_booking runtime schedule actor proposal_version_id =
    as_booking_actor actor (λ a.
      create_loop runtime schedule a proposal_version_id (max_booking_reference_attempts - 1) 1)
