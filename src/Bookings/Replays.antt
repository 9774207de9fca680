-- ===== src/Bookings/Replays.antt =====
-- Calls of bookings made again: they answer the same booking and change nothing.
use heritage_philippines_v.Prelude.{
  ℕ, true, false, Option, none, some, ◌≡◌, refl, ap, ◌∙◌, subst, ◌==◌, ==_refl,
}
use heritage_philippines_v.Transaction.{ok}
use heritage_philippines_v.Transaction.Rules.{
  Ensures, Ensures-pure, Ensures-or_else, bind_gets, bind_or_throw, bind-Ensures, then_require,
  then_modify,
}
use heritage_philippines_v.Transaction.Runs.{run_gets, run_some}
use heritage_philippines_v.Transaction.Writes.{then_free, then_insert}
use heritage_philippines_v.Bookings.Model.{BookingRecord, BookingStore, BookingRuntime}
use heritage_philippines_v.Bookings.Repository.{
  BookingActor, client_in_scope, find_booking_by_proposal_version_id_for_actor, find_version,
  ProposalVersionEligibility, find_eligible_proposal_version_for_actor,
  create_booking_with_initial_history, insert_booking_audit,
}
use heritage_philippines_v.Bookings.Service.Create.{
  CreateBookingResult, already, book, book_eligible, attempt_create_booking,
}
use heritage_philippines_v.Bookings.Life.Bodies.{find_passes, eligible_version, both}

-- The booking is the one that the actor finds for the proposal version.
record Held (actor : BookingActor) (proposal_version_id : ℕ) (b : BookingRecord) (t : BookingStore)
    : Type 0 where
  found : find_booking_by_proposal_version_id_for_actor actor proposal_version_id t ≡ some b

module _ (actor : BookingActor) (s : BookingStore) where
  eligible_in_scope :
      (proposal_version_id : ℕ) (e : ProposalVersionEligibility)
      → find_eligible_proposal_version_for_actor actor proposal_version_id s ≡ some e
      → client_in_scope actor s e.client_id ≡ true
  unfolding find_eligible_proposal_version_for_actor find_version
  eligible_in_scope proposal_version_id e found =
      let version = eligible_version _ e found in
      let v = version.0 in
      let passes = find_passes _ s.versions v version.1 in
      subst (λ c. client_in_scope actor s c ≡ true) version.2
        (both (v.id == proposal_version_id) (client_in_scope actor s v.client_id) passes).1

module _ (w : BookingRuntime) (actor : BookingActor) (proposal_version_id : ℕ)
    (s : BookingStore) where
  book-Held :
      (e : ProposalVersionEligibility)
      → client_in_scope actor s e.client_id ≡ true
      → Ensures
          (λ r t. Held actor proposal_version_id r.booking t)
          (book w actor proposal_version_id e s)
  unfolding book create_booking_with_initial_history insert_booking_audit
      find_booking_by_proposal_version_id_for_actor client_in_scope
  book-Held e scope =
      bind-Ensures _ (λ b t. Held actor proposal_version_id b t) _ _ s
        (bind_gets _ _ _ _ (
          then_free _ _ _ _ _ s (λ fresh. bind_gets _ _ _ _ (
            then_free _ _ _ _ _ s (λ unused. bind_gets _ _ _ _ (
              then_free _ _ _ _ _ s (λ unbooked. bind_gets _ _ _ _ (
                then_insert _ _ _ _ _ _ s (λ unseen.
                  Ensures-pure _ _ _
                    (record { found = rw (==_refl proposal_version_id, scope) refl }))))))))))
        (λ b t held. then_modify _ _ _ t (Ensures-pure _ _ _ (record { found = held.found })))

  attempt_create_booking-Held :
      Ensures
        (λ r t. Held actor proposal_version_id r.booking t)
        (attempt_create_booking w actor proposal_version_id s)
  unfolding attempt_create_booking book_eligible
  attempt_create_booking-Held = bind_gets _ _ _ _ (
      Ensures-or_else _ _ _ s (λ r e. record { found = already-some _ r e })
        (λ new. bind_gets _ _ _ _ (
          bind_or_throw _ _ _ _ s (λ e found.
            then_require _ _ _ _ s
              (λ accepted. book-Held e (eligible_in_scope actor s proposal_version_id e found))))))
    where
      already-some :
          (o : Option BookingRecord) (r : CreateBookingResult)
          → already o ≡ some r
          → o ≡ some r.booking
      already-some none r e = cc
      already-some (some b) r e = cc

-- A transaction of `createBooking` that answered, run again by the same actor on the store that it
-- left and with any random values, answers the same booking as one that was there, and changes
-- nothing.
pub attempt_create_booking-again :
    (w v : BookingRuntime) (actor : BookingActor) (proposal_version_id : ℕ) (s t : BookingStore)
    (r : CreateBookingResult)
    → attempt_create_booking w actor proposal_version_id s ≡ ok (r, t)
    → attempt_create_booking v actor proposal_version_id t
      ≡ ok (record { booking = r.booking; created = false }, t)
unfolding attempt_create_booking
attempt_create_booking-again w v actor proposal_version_id s t r e =
    let held = (attempt_create_booking-Held w actor proposal_version_id s).at r t e in
    run_gets _ _ t ∙ run_some _ _ t (ap already held.found)
