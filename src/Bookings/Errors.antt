-- ===== src/Bookings/Errors.antt =====
-- The errors that leave the calls of bookings: no conflict of the database's among them.
use heritage_philippines_v.Prelude.{
  ℕ, zero, suc, ◌+◌, false, Option, none, some, ◌≡◌, refl, Bool-cases, inl, inr, if◌then◌else◌,
}
use heritage_philippines_v.Transaction.{
  Failure, domain, Result, ok, err, Action, Schedule, with_handler, read_now,
  is_residual_database_conflict,
}
use heritage_philippines_v.Transaction.Core.{◌>>=◌, or_throw}
use heritage_philippines_v.Transaction.Retry.{handle, answer_at}
use heritage_philippines_v.Payments.Model.{AuthenticatedUser}
use heritage_philippines_v.Crm.Calls.{run_with_conflict, rethrow_as_conflict}
use heritage_philippines_v.Bookings.Model.{
  BookingErrorCode, booking_conflict, BookingRecord, BookingStore, BookingRuntime,
}
use heritage_philippines_v.Bookings.Repository.{
  BookingActor, find_booking_by_proposal_version_id_for_actor,
}
use heritage_philippines_v.Bookings.Service.Actors.{
  BookingAction, as_booking_actor, assert_booking_actor, permitted_booking,
}
use heritage_philippines_v.Bookings.Service.Create.{
  CreateBookingResult, already, is_booking_unique_violation_on, find_raced, next_reference,
  on_create_error, create_loop, create_booking,
}
use heritage_philippines_v.Bookings.Service.Status.{UpdateBookingStatusInput, update_booking_status}

-- The result is an answer, or an error that is not a conflict of the database's.
abbrev pub IsControlled : {E A : Type 0} → Result E A → Type 0
IsControlled (ok a) = Unit
IsControlled (err e) = is_residual_database_conflict e ≡ false

module _ {S E A : Type 0} where
  handled-IsControlled :
      (call : Action S E A) (handler : Failure E → Action S E A)
      → ((e : Failure E) (s : S) → IsControlled (handler e s).0)
      → (s : S) → IsControlled (with_handler call handler s).0
  unfolding with_handler
  handled-IsControlled call handler controlled s = go (call s)
    where
      go : (r : Result E A × S) → IsControlled (handle handler r).0
      go (ok a, t) = tt
      go (err e, t) = controlled e t

rethrown :
    {E : Type 0} (code : E) (e : Failure E)
    → is_residual_database_conflict (if is_residual_database_conflict e then domain code else e)
      ≡ false
unfolding is_residual_database_conflict
rethrown code e = elim (Bool-cases (is_residual_database_conflict e)) [
  | inl conflict ↦ rw conflict refl
  | inr other ↦ rw other other
]

permitted-IsControlled :
    {A : Type 0} (a : Option BookingActor) (body : BookingActor → BookingAction A)
    (s : BookingStore)
    → ((a : BookingActor) → IsControlled (body a s).0)
    → IsControlled (permitted_booking a body s).0
unfolding is_residual_database_conflict
permitted-IsControlled none body s h = refl
permitted-IsControlled (some a) body s h = h a

raced-IsControlled :
    (schedule : Schedule BookingStore) (actor : BookingActor) (id : ℕ) (s : BookingStore)
    → IsControlled (read_now schedule (find_raced actor id) s).0
unfolding read_now find_raced is_residual_database_conflict ◌>>=◌ or_throw
raced-IsControlled schedule actor id s =
    go (find_booking_by_proposal_version_id_for_actor actor id (schedule.settled s))
  where
    go :
        (o : Option BookingRecord)
        → IsControlled
            (answer_at
              (schedule.settled s)
              (or_throw {E = BookingErrorCode} (already o) booking_conflict (schedule.settled s))).0
    go none = refl
    go (some b) = tt

create_error-IsControlled :
    (schedule : Schedule BookingStore) (actor : BookingActor) (id : ℕ)
    (again : Option (BookingAction CreateBookingResult)) (e : Failure BookingErrorCode)
    (s : BookingStore)
    → IsControlled (next_reference again s).0
    → IsControlled (on_create_error schedule actor id again e s).0
unfolding on_create_error
create_error-IsControlled schedule actor id again e s h =
    elim (Bool-cases (is_booking_unique_violation_on e "bookingReference")) [
      | inl taken ↦ rw (taken, on_create_error) h
      | inr other ↦ elim (Bool-cases (is_booking_unique_violation_on e "proposalVersionId")) [
        | inl lost ↦ rw (other, lost, on_create_error) (raced-IsControlled schedule actor id s)
        | inr none_of_them ↦ rw (other, none_of_them, on_create_error) (rethrown booking_conflict e)
      ]
    ]

module _ (runtime : ℕ → BookingRuntime) (schedule : ℕ → Schedule BookingStore)
    (actor : BookingActor) (id : ℕ) where
  create_loop-IsControlled :
      (left attempt : ℕ) (s : BookingStore)
      → IsControlled (create_loop runtime schedule actor id left attempt s).0
  unfolding create_loop is_residual_database_conflict
  create_loop-IsControlled zero attempt s =
      handled-IsControlled _ _
        (λ e t. create_error-IsControlled (schedule attempt) actor id none e t refl) s
  create_loop-IsControlled (suc left) attempt s =
      handled-IsControlled _ _
        (λ e t.
          create_error-IsControlled (schedule attempt) actor id (some _) e t
            (create_loop-IsControlled left (attempt + 1) t))
        s

-- Whatever other transactions commit and however the attempts end, `createBooking` and
-- `updateBookingStatus` end with an answer or with an error that is neither a unique violation, nor
-- a write conflict, nor exhausted retries.
pub booking_calls-IsControlled :
    (runtime : ℕ → BookingRuntime) (schedule : ℕ → Schedule BookingStore)
    (actor : AuthenticatedUser) (proposal_version_id id : ℕ) (input : UpdateBookingStatusInput)
    (s : BookingStore)
    → IsControlled (create_booking runtime schedule actor proposal_version_id s).0
      × IsControlled (update_booking_status (runtime 0) (schedule 0) actor id input s).0
unfolding create_booking update_booking_status as_booking_actor run_with_conflict
    rethrow_as_conflict
booking_calls-IsControlled runtime schedule actor proposal_version_id id input s = (
  permitted-IsControlled (assert_booking_actor actor) _ s
      (λ a. create_loop-IsControlled runtime schedule a proposal_version_id 2 1 s),
  permitted-IsControlled (assert_booking_actor actor) _ s
      (λ a. handled-IsControlled _ _ (λ e t. rethrown booking_conflict e) s),
)
