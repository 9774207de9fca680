-- ===== src/Bookings/Moves.antt =====
-- `updateBookingStatus`: the whole effect of a move, and of the same call made again.
use heritage_philippines_v.Prelude.{
  Bool-cases, inl, inr, ℕ, Bool, true, false, none, some, List, [], ◌∷◌, ◌≡◌, refl, sym, ap, ◌∙◌,
  subst, ◌&&◌, ◌==◌, find, arith, if◌then◌else◌, map, update_where-map,
}
use heritage_philippines_v.Transaction.{ok, err, domain, ◌>>=◌, ◌>>◌, write_unless, updated_row}
use heritage_philippines_v.Transaction.Rules.{
  Ensures, Ensures-pure, Ensures-or_else, bind_gets, bind_same, bind-Ensures, then_require,
  then_modify,
}
use heritage_philippines_v.Transaction.Runs.{
  run_bind, run_then, run_require, run_or_else, run_some, run_refuse,
}
use heritage_philippines_v.Transaction.Writes.{
  or_throw-Ensures, then_insert, bind_updated, run_pure,
}
use heritage_philippines_v.Payments.Model.{BookingStatus}
use heritage_philippines_v.Bookings.Transitions.{same_booking_status, is_transition_allowed}
use heritage_philippines_v.Bookings.Model.{
  BookingErrorCode, booking_conflict, invalid_status_transition, BookingRecord, BookingStore,
  BookingRuntime, BookingAudit, booking_status_changed_action, booking_audit_entity_type,
  sanitize_booking_status_snapshot, BookingSnapshot,
}
use heritage_philippines_v.Bookings.Repository.{
  BookingActor, find_booking, client_in_scope, find_booking_by_id_for_actor, set_booking, moved_to,
  history_taken, booking_history_row, update_booking_status_with_history, insert_booking_audit,
}
use heritage_philippines_v.Bookings.Service.Status.{
  UpdateBookingStatusInput, move_booking, update_booking_status_body,
}
use heritage_philippines_v.Bookings.Service.Actors.{find_booking_or_refuse}
use heritage_philippines_v.Bookings.Life.{BookingsFit}
use heritage_philippines_v.Bookings.Life.Bodies.{find_only, same_booking-some}

status_refl : (status : BookingStatus) → same_booking_status status status ≡ true
status_refl status = grind arith

find_scoped-moved :
    (now : ℕ) (next : BookingStatus) (id : ℕ) (scope : ℕ → Bool) (xs : List BookingRecord)
    (b : BookingRecord)
    → find (λ x. x.id == id && scope x.client_id) xs ≡ some b
    → find (λ x. x.id == id && scope x.client_id) (set_booking id (moved_to now next) xs)
      ≡ some (moved_to now next b)
find_scoped-moved now next id scope [] b e = cc
find_scoped-moved now next id scope (x ∷ xs) b e =
    ground (arith, find_scoped-moved now next id scope xs b)

run_find_booking :
    (actor : BookingActor) (id : ℕ) (s : BookingStore) (b : BookingRecord)
    → find_booking_by_id_for_actor actor id s ≡ some b
    → find_booking_or_refuse actor id s ≡ ok (b, s)
unfolding find_booking_or_refuse ◌>>=◌
run_find_booking actor id s b found = rw found refl

run_update_booking :
    (now row_id id : ℕ) (before next : BookingStatus) (actor_id : ℕ) (s : BookingStore)
    (b : BookingRecord)
    → find_booking s.bookings id ≡ some b
    → history_taken row_id s ≡ false
    → update_booking_status_with_history {E = BookingErrorCode} now row_id id before next actor_id s
      ≡ ok (
        moved_to now next b,
        record s {
          bookings = set_booking id (moved_to now next) s.bookings;
          history = booking_history_row row_id id (some before) next actor_id ∷ s.history;
        },
      )
unfolding update_booking_status_with_history ◌>>=◌ ◌>>◌ write_unless updated_row
run_update_booking now row_id id before next actor_id s b found fresh = rw (found, fresh) refl

module _ (w : BookingRuntime) (actor : BookingActor) (id : ℕ) (input : UpdateBookingStatusInput)
    (s : BookingStore) where
  seen :
      (b : BookingRecord)
      → BookingsFit s
      → find_booking_by_id_for_actor actor id s ≡ some b
      → find_booking s.bookings id ≡ some b
  unfolding find_booking_by_id_for_actor find_booking
  seen b fits found = find_only _ _ s.bookings b (fits.keyed id) found

  abbrev pub booking_status_audit : BookingRecord → BookingAudit
  booking_status_audit b = record {
    actor_id = actor.id;
    action = booking_status_changed_action;
    entity_type = booking_audit_entity_type;
    entity_id = id;
    before_state = some (BookingSnapshot.only_status b.status);
    after_state = some (BookingSnapshot.only_status input.new_status);
  }

  -- The booking with the status asked for, written now.
  abbrev pub moved : BookingRecord → BookingRecord
  moved k = record k { status = input.new_status; updated_at = w.now }

  -- The store with the status and the time of the update of that booking set, and of no other, one
  -- history row from the old status to the new one and one audit row.
  abbrev pub moved_in : BookingRecord → BookingStore
  moved_in b = record s {
    bookings = map (λ k. if k.id == id then moved k else k) s.bookings;
    history =
        record {
          id = w.random_uuid 0;
          booking_id = id;
          previous_status = some b.status;
          new_status = input.new_status;
          changed_by_user_id = actor.id;
        }
        ∷ s.history;
    audit_log = booking_status_audit b ∷ s.audit_log;
  }

  reaches_move :
      (b : BookingRecord)
      → find_booking_by_id_for_actor actor id s ≡ some b
      → same_booking_status b.status input.new_status ≡ false
      → update_booking_status_body w actor id input s ≡ move_booking w actor id input b s
  unfolding update_booking_status_body
  reaches_move b found other =
      run_bind _ _ (run_find_booking actor id s b found)
      ∙ run_or_else _ s (ap (λ c. if c then some b else none) other)

  move_booking-moves :
      (b : BookingRecord)
      → find_booking s.bookings id ≡ some b
      → same_booking_status b.status input.expected_status ≡ true
      → is_transition_allowed b.status input.new_status ≡ true
      → history_taken (w.random_uuid 0) s ≡ false
      → move_booking w actor id input b s ≡ ok (moved b, moved_in b)
  unfolding move_booking insert_booking_audit sanitize_booking_status_snapshot
  move_booking-moves b found expected move fresh =
      run_require _ _ s expected
      ∙ run_require _ _ s move
      ∙ run_bind _ _ (
          run_update_booking w.now (w.random_uuid 0) id b.status input.new_status actor.id s b found
            fresh)
      ∙ run_then _ _ refl
      ∙ run_pure _ (moved b)
      ∙ ap
          (λ bookings. ok (
            moved b,
            record s {
              bookings = bookings;
              history =
                  booking_history_row (w.random_uuid 0) id (some b.status) input.new_status actor.id
                  ∷ s.history;
              audit_log = booking_status_audit b ∷ s.audit_log;
            },
          ))
          (update_where-map (λ k. k.id == id) moved s.bookings)

  move_booking-stale :
      (b : BookingRecord)
      → same_booking_status b.status input.expected_status ≡ false
      → move_booking w actor id input b s ≡ err (domain booking_conflict)
  unfolding move_booking
  move_booking-stale b stale = run_refuse _ _ s stale

  move_booking-barred :
      (b : BookingRecord)
      → same_booking_status b.status input.expected_status ≡ true
      → is_transition_allowed b.status input.new_status ≡ false
      → move_booking w actor id input b s ≡ err (domain invalid_status_transition)
  unfolding move_booking
  move_booking-barred b expected barred = run_require _ _ s expected ∙ run_refuse _ _ s barred

  -- A call that asks for the status that the booking has answers it and changes nothing, whatever
  -- status the caller expects.
  update_booking_status_body-same :
      (b : BookingRecord)
      → find_booking_by_id_for_actor actor id s ≡ some b
      → same_booking_status b.status input.new_status ≡ true
      → update_booking_status_body w actor id input s ≡ ok (b, s)
  unfolding update_booking_status_body
  update_booking_status_body-same b found same =
      run_bind _ _ (run_find_booking actor id s b found)
      ∙ run_some b _ s (ap (λ c. if c then some b else none) same)

  -- Where every booking's life is in order, the actor sees the booking and the call's UUID is new: the
  -- transaction answers the booking and changes nothing where it has the status asked for; it is a
  -- conflict where the booking has not the status that the caller expects, and an invalid transition
  -- where the matrix does not allow the move; otherwise it sets the status and the time of the update of
  -- that booking and of no other, adds one history row from the old status to the new one and one audit
  -- row, and changes nothing else.
  pub update_booking_status_body-move_answer :
      (b : BookingRecord)
      → BookingsFit s
      → find_booking_by_id_for_actor actor id s ≡ some b
      → history_taken (w.random_uuid 0) s ≡ false
      → update_booking_status_body w actor id input s ≡ (
          if same_booking_status b.status input.new_status
          then ok (b, s)
          else (if same_booking_status b.status input.expected_status
              then (if is_transition_allowed b.status input.new_status
                  then ok (moved b, moved_in b)
                  else err (domain invalid_status_transition))
              else err (domain booking_conflict)))
  update_booking_status_body-move_answer b fits found fresh =
      elim (Bool-cases (same_booking_status b.status input.new_status)) [
        | inl same ↦ rw same (update_booking_status_body-same b found same)
        | inr other ↦ elim (Bool-cases (same_booking_status b.status input.expected_status)) [
          | inr stale ↦ rw (other, stale) (reaches_move b found other ∙ move_booking-stale b stale)
          | inl expected ↦ elim (Bool-cases (is_transition_allowed b.status input.new_status)) [
            | inl move ↦
                rw (other, expected, move)
                  (reaches_move b found other
                    ∙ move_booking-moves b (seen b fits found) expected move fresh)
            | inr barred ↦
                rw (other, expected, barred)
                  (reaches_move b found other ∙ move_booking-barred b expected barred)
          ]
        ]
      ]

-- What a call that asks for `status` and answers `b` leaves.
record Moved (actor : BookingActor) (id : ℕ) (status : BookingStatus) (b : BookingRecord)
    (t : BookingStore) : Type 0 where
  found : find_booking_by_id_for_actor actor id t ≡ some b
  same : same_booking_status b.status status ≡ true

module _ (w : BookingRuntime) (actor : BookingActor) (id : ℕ) (input : UpdateBookingStatusInput)
    (s : BookingStore) (fits : BookingsFit s) where
  move_booking-Moved :
      (b : BookingRecord)
      → find_booking_by_id_for_actor actor id s ≡ some b
      → Ensures (Moved actor id input.new_status) (move_booking w actor id input b s)
  unfolding move_booking update_booking_status_with_history insert_booking_audit
      find_booking_by_id_for_actor client_in_scope
  move_booking-Moved b found = then_require _ _ _ _ s (λ expected. then_require _ _ _ _ s (λ move.
      bind-Ensures _ (λ k t. Moved actor id input.new_status k t) _ _ s
        (bind_gets _ _ _ _ (
          bind_updated _ _ _ _ s (λ k same. bind_gets _ _ _ _ (
            then_insert _ _ _ _ _ _ s (λ unseen. Ensures-pure _ _ _ (record {
              found =
                  find_scoped-moved w.now input.new_status id (client_in_scope actor s) s.bookings k
                    (found ∙ sym (seen w actor id input s b fits found) ∙ same);
              same = status_refl input.new_status;
            }))))))
        (λ k t moved.
          then_modify _ _ _ t
            (Ensures-pure _ _ _ (record { found = moved.found; same = moved.same })))))

  update_booking_status_body-Moved :
      Ensures (Moved actor id input.new_status) (update_booking_status_body w actor id input s)
  unfolding update_booking_status_body find_booking_or_refuse
  update_booking_status_body-Moved =
      bind_same _ (λ b. find_booking_by_id_for_actor actor id s ≡ some b) _ _ s
        (bind_gets _ _ _ _ (or_throw-Ensures s _ _))
        (λ b found.
          Ensures-or_else _ _ _ s
            (λ k e.
              let answer = same_booking-some input.new_status b k e in
              record {
                found = found ∙ ap some answer.0;
                same =
                    subst
                      (λ (m : BookingRecord). same_booking_status m.status input.new_status ≡ true)
                      answer.0 answer.1;
              })
            (λ other. move_booking-Moved b found))

-- Where every booking's life is in order, a status update that answered, made again by the same
-- actor with the same new status, answers the same booking and changes nothing, whatever status it
-- expects.
pub update_booking_status_body-again :
    (w v : BookingRuntime) (actor : BookingActor) (id : ℕ) (input again : UpdateBookingStatusInput)
    (s t : BookingStore) (b : BookingRecord)
    → BookingsFit s
    → again.new_status ≡ input.new_status
    → update_booking_status_body w actor id input s ≡ ok (b, t)
    → update_booking_status_body v actor id again t ≡ ok (b, t)
update_booking_status_body-again w v actor id input again s t b fits asks e =
    let moved = (update_booking_status_body-Moved w actor id input s fits).at b t e in
    update_booking_status_body-same v actor id again t b moved.found
      (subst (λ n. same_booking_status b.status n ≡ true) (sym asks) moved.same)
