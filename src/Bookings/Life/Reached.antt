-- ===== src/Bookings/Life/Reached.antt =====
-- Calls of bookings, whole and in any interleaving, reach only stores in which every booking's life
-- is in order.
use heritage_philippines_v.Prelude.{ℕ, zero, suc, ◌+◌, Option, none, some, Bool-cases, inl, inr}
use heritage_philippines_v.Transaction.{Failure, Result, ok, err, Tx, Schedule, read_now}
use heritage_philippines_v.Transaction.Retry.{answer_at}
use heritage_philippines_v.Transaction.Laws.{Keeps}
use heritage_philippines_v.Transaction.Safe.{Safe, run-Safe, with_handler-Safe}
use heritage_philippines_v.Payments.Model.{AuthenticatedUser}
use heritage_philippines_v.Crm.Calls.{run_with_conflict, rethrow_as_conflict}
use heritage_philippines_v.Bookings.Model.{BookingErrorCode, BookingStore, BookingRuntime}
use heritage_philippines_v.Bookings.Repository.{BookingActor}
use heritage_philippines_v.Bookings.Service.Actors.{
  BookingAction, as_booking_actor, assert_booking_actor, permitted_booking,
}
use heritage_philippines_v.Bookings.Service.Create.{
  CreateBookingResult, is_booking_unique_violation_on, next_reference, on_create_error,
  try_reference, create_loop, create_booking,
}
use heritage_philippines_v.Bookings.Service.Status.{UpdateBookingStatusInput, update_booking_status}
use heritage_philippines_v.Bookings.Life.{BookingsFit}
use heritage_philippines_v.Bookings.Life.Bodies.{
  attempt_create_booking-BookingsFit, update_booking_status_body-BookingsFit,
}

read_now-Safe :
    {S E A : Type 0} (P : S → Type 0) (schedule : Schedule S) (fn : Tx S E A)
    → Keeps P schedule
    → Safe P (read_now schedule fn)
unfolding read_now
read_now-Safe {S} {E} {A} P schedule fn others s h =
    go (schedule.settled s) (fn (schedule.settled s)) (others.after s h)
  where
    go : (now : S) (r : Result E (A × S)) → P now → P (answer_at now r).1
    go now (ok p) k = k
    go now (err e) k = k

permitted-Safe :
    {A : Type 0} (P : BookingStore → Type 0) (a : Option BookingActor)
    (body : BookingActor → BookingAction A)
    → ((a : BookingActor) → Safe P (body a))
    → Safe P (permitted_booking a body)
permitted-Safe P none body safe s h = h
permitted-Safe P (some a) body safe s h = safe a s h

module _ (schedule : Schedule BookingStore) (others : Keeps BookingsFit schedule)
    (actor : BookingActor) (proposal_version_id : ℕ) where
  next-Safe :
      (again : Option (BookingAction CreateBookingResult))
      → Safe BookingsFit (next_reference again)
      → (e : Failure BookingErrorCode)
      → Safe BookingsFit (on_create_error schedule actor proposal_version_id again e)
  unfolding on_create_error
  next-Safe again safe e s h =
      elim (Bool-cases (is_booking_unique_violation_on e "bookingReference")) [
        | inl taken ↦ rw (taken, on_create_error) (safe s h)
        | inr other ↦ elim (Bool-cases (is_booking_unique_violation_on e "proposalVersionId")) [
          | inl lost ↦
              rw (other, lost, on_create_error) (read_now-Safe BookingsFit schedule _ others s h)
          | inr none_of_them ↦ rw (other, none_of_them, on_create_error) h
        ]
      ]

module _ (runtime : ℕ → BookingRuntime) (schedule : ℕ → Schedule BookingStore)
    (others : (n : ℕ) → Keeps BookingsFit (schedule n)) (actor : BookingActor)
    (proposal_version_id : ℕ) where
  try-Safe :
      (attempt : ℕ) (again : Option (BookingAction CreateBookingResult))
      → Safe BookingsFit (next_reference again)
      → Safe BookingsFit (try_reference runtime schedule actor proposal_version_id attempt again)
  try-Safe attempt again safe =
      with_handler-Safe BookingsFit (schedule attempt) _ _
        (run-Safe BookingsFit (schedule attempt) _ (others attempt) (λ s h.
          attempt_create_booking-BookingsFit (runtime attempt) actor s h proposal_version_id))
        (next-Safe (schedule attempt) (others attempt) actor proposal_version_id again safe)

  create_loop-Safe :
      (left attempt : ℕ)
      → Safe BookingsFit (create_loop runtime schedule actor proposal_version_id left attempt)
  unfolding create_loop
  create_loop-Safe zero attempt = try-Safe attempt none (λ s h. h)
  create_loop-Safe (suc left) attempt =
      try-Safe attempt (some _) (create_loop-Safe left (attempt + 1))

create_booking-Safe :
    (runtime : ℕ → BookingRuntime) (schedule : ℕ → Schedule BookingStore)
    (actor : AuthenticatedUser) (proposal_version_id : ℕ)
    → ((n : ℕ) → Keeps BookingsFit (schedule n))
    → Safe BookingsFit (create_booking runtime schedule actor proposal_version_id)
unfolding create_booking as_booking_actor
create_booking-Safe runtime schedule actor proposal_version_id others =
    permitted-Safe BookingsFit (assert_booking_actor actor) _
      (λ a. create_loop-Safe runtime schedule others a proposal_version_id 2 1)

update_booking_status-Safe :
    (w : BookingRuntime) (schedule : Schedule BookingStore) (actor : AuthenticatedUser) (id : ℕ)
    (input : UpdateBookingStatusInput)
    → Keeps BookingsFit schedule
    → Safe BookingsFit (update_booking_status w schedule actor id input)
unfolding update_booking_status as_booking_actor run_with_conflict rethrow_as_conflict
update_booking_status-Safe w schedule actor id input others =
    permitted-Safe BookingsFit (assert_booking_actor actor) _ (λ a.
      with_handler-Safe BookingsFit schedule _ _
        (run-Safe BookingsFit schedule _ others
          (λ s h. update_booking_status_body-BookingsFit w a s h id input))
        (λ e s h. h))

-- The stores that calls reach from the store `s`. What other transactions commit before an attempt
-- of a call, or before its last read, is itself the work of such calls.
pub data BookingsReach : BookingStore → BookingStore → Type 0 where
  stay : {s : BookingStore} → BookingsReach s s
  after_create :
      {s t : BookingStore} (runtime : ℕ → BookingRuntime) (schedule : ℕ → Schedule BookingStore)
      (actor : AuthenticatedUser) (proposal_version_id : ℕ)
      → BookingsReach s t
      → ((k n : ℕ) (u : BookingStore) → BookingsReach u (((schedule k).attempt n).others u))
      → ((k : ℕ) (u : BookingStore) → BookingsReach u ((schedule k).settled u))
      → BookingsReach s (create_booking runtime schedule actor proposal_version_id t).1
  after_update :
      {s t : BookingStore} (w : BookingRuntime) (schedule : Schedule BookingStore)
      (actor : AuthenticatedUser) (id : ℕ) (input : UpdateBookingStatusInput)
      → BookingsReach s t
      → ((n : ℕ) (u : BookingStore) → BookingsReach u ((schedule.attempt n).others u))
      → ((u : BookingStore) → BookingsReach u (schedule.settled u))
      → BookingsReach s (update_booking_status w schedule actor id input t).1

-- Whatever calls that create bookings and change their statuses reach, in any interleaving and from
-- a store in which it is so: the status history of every booking, from its newest row to its oldest,
-- goes from the status that the booking has back to DRAFT by allowed transitions, and no history row
-- lacks its booking; every booking stems from an accepted proposal version whose client is the
-- booking's; and no two bookings have one id or stem from one proposal version.
pub BookingsReach-BookingsFit :
    {s t : BookingStore} → BookingsReach s t → BookingsFit s → BookingsFit t
BookingsReach-BookingsFit stay h = h
BookingsReach-BookingsFit (after_create {t} runtime schedule actor id before others settled) h =
    create_booking-Safe runtime schedule actor id
      (λ k. record {
        before = λ n u fits. BookingsReach-BookingsFit (others k n u) fits;
        after = λ u fits. BookingsReach-BookingsFit (settled k u) fits;
      })
      t (BookingsReach-BookingsFit before h)
BookingsReach-BookingsFit (after_update {t} w schedule actor id input before others settled) h =
    update_booking_status-Safe w schedule actor id input
      (record {
        before = λ n u fits. BookingsReach-BookingsFit (others n u) fits;
        after = λ u fits. BookingsReach-BookingsFit (settled u) fits;
      })
      t (BookingsReach-BookingsFit before h)
