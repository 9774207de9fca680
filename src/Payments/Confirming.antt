-- ===== src/Payments/Confirming.antt =====
-- `confirmPayment` as a whole: its answer to a new idempotency key on every branch, and to the same
-- request again.
use heritage_philippines_v.Prelude.{
  ℕ, Bool, true, none, some, List, [], ◌∷◌, ◌≡◌, refl, sym, ap, subst, ◌∙◌, ◌==◌, ◌&&◌, arith,
  ==_refl, ==→eq, find, map, not, Bool-cases, inl, inr, if◌then◌else◌, update_where-map,
}
use heritage_philippines_v.Transaction.{Result, ok, err, domain, pure, require, or_throw, ◌>>◌}
use heritage_philippines_v.Transaction.Runs.{
  run_bind, run_gets, run_then, run_require, run_refuse, run_or_else, run_some,
}
use heritage_philippines_v.Payments.Model.{
  Booking, cancelled, Payment, PaymentStatus, PaymentStatusHistory, PaymentErrorCode,
  booking_status_not_permitted, invalid_payment_transition,
}
use heritage_philippines_v.Bookings.Transitions.{same_booking_status}
use heritage_philippines_v.Payments.Audit.{AuditEntry, AuditAction, AuditEntity, AuditSnapshot}
use heritage_philippines_v.Payments.Store.{Store, World, insert_unless}
use heritage_philippines_v.Payments.Repository.Bookings.{
  PaymentActor, find_booking, find_booking_status, can_see_booking,
}
use heritage_philippines_v.Payments.Repository.Payments.{
  find_payment, find_payment_for_actor, find_status_history_by_idempotency_key,
  TransitionPaymentStatusInput, transition_history, with_status, set_status,
  transition_payment_status, insert_audit_log,
}
use heritage_philippines_v.Payments.Service.Actors.{
  is_cancelled, assert_booking_open_for_payment, find_scoped_payment_or_forbidden,
}
use heritage_philippines_v.Payments.Service.Replay.{
  same_status, StatusInput, resolve_status_transition_replay,
}
use heritage_philippines_v.Payments.Service.Payments.{
  change_status, confirm_new, confirm_payment_tx,
}
use heritage_philippines_v.Payments.Ledger.Rows.{changed, find-and}
use heritage_philippines_v.Payments.Recording.{cancelled_lem}

find-set_status :
    (see : ℕ → Bool) (id : ℕ) (status : PaymentStatus) (q : ℕ) (payments : List Payment)
    → find (λ x. x.id == q && see x.booking_id) (set_status id status payments)
      ≡ changed id status (find (λ x. x.id == q && see x.booking_id) payments)
find-set_status see id status q [] = refl
find-set_status see id status q (x ∷ payments) =
    ground (arith, find-set_status see id status q payments)

module _ (w : World) (actor : PaymentActor) (input : StatusInput) (s : Store) (p : Payment) where
  abbrev pub confirmed_payment : Payment
  confirmed_payment = record p { status = PaymentStatus.confirmed }

  -- The history row of the confirmation: its key, its actor, its reason and the status before it.
  abbrev pub confirmed_history : PaymentStatusHistory
  confirmed_history = record {
    id = w.random_uuid 0;
    payment_id = p.id;
    previous_status = some p.status;
    new_status = PaymentStatus.confirmed;
    changed_by_user_id = actor.id;
    reason = some input.reason;
    idempotency_key = some input.idempotency_key;
  }

  abbrev transition : TransitionPaymentStatusInput
  transition = record {
    payment_id = p.id;
    history_id = w.random_uuid 0;
    previous_status = p.status;
    new_status = PaymentStatus.confirmed;
    changed_by_user_id = actor.id;
    reason = input.reason;
    idempotency_key = input.idempotency_key;
  }

  abbrev entry : AuditEntry
  entry = record {
    id = w.random_uuid 1;
    actor_id = actor.id;
    action = AuditAction.payment_status_changed;
    entity_type = AuditEntity.payment;
    entity_id = p.id;
    before_state = some (AuditSnapshot.payment_status p.status);
    after_state = some (AuditSnapshot.payment_status_change PaymentStatus.confirmed input.reason);
  }

  abbrev stored_in : Store
  stored_in = record s {
    payments = set_status p.id PaymentStatus.confirmed s.payments;
    history = transition_history transition ∷ s.history;
    audit_log = entry ∷ s.audit_log;
  }

  -- The store with the payment confirmed and every other payment as it was, the history row and one
  -- audit entry.
  abbrev pub confirmed_in : Store
  confirmed_in = record s {
    payments =
        map
          (λ (q : Payment).
            if q.id == p.id then record q { status = PaymentStatus.confirmed } else q)
          s.payments;
    history = confirmed_history ∷ s.history;
    audit_log = entry ∷ s.audit_log;
  }

  stored-confirmed : stored_in ≡ confirmed_in
  stored-confirmed =
      ap
        (λ (rows : List Payment). record s {
          payments = rows;
          history = confirmed_history ∷ s.history;
          audit_log = entry ∷ s.audit_log;
        })
        (update_where-map (λ (q : Payment). q.id == p.id) (with_status PaymentStatus.confirmed)
          s.payments)

  resolve_new-run :
      find_status_history_by_idempotency_key input.idempotency_key s.history ≡ none
      → resolve_status_transition_replay actor input PaymentStatus.confirmed s ≡ ok (none, s)
  unfolding resolve_status_transition_replay pure
  resolve_new-run new = rw (new, resolve_status_transition_replay) refl

  transition-run :
      find_payment s.payments p.id ≡ some p
      → find_status_history_by_idempotency_key input.idempotency_key s.history ≡ none
      → transition_payment_status transition s
        ≡ ok (
          with_status PaymentStatus.confirmed p,
          record s {
            payments = set_status p.id PaymentStatus.confirmed s.payments;
            history = transition_history transition ∷ s.history;
          },
        )
  unfolding transition_payment_status ◌>>◌ insert_unless
  transition-run found new = rw (found, transition_payment_status, new) refl

  find_scoped-run :
      find_payment_for_actor actor input.payment_id s ≡ some p
      → find_scoped_payment_or_forbidden actor input.payment_id s ≡ ok (p, s)
  unfolding find_scoped_payment_or_forbidden or_throw
  find_scoped-run found = run_gets _ _ s ∙ rw found refl

  -- What the transaction answers for a payment of the given status.
  abbrev pub confirming_answer : PaymentStatus → Result PaymentErrorCode (Payment × Store)
  confirming_answer PaymentStatus.pending = ok (confirmed_payment, confirmed_in)
  confirming_answer _ = err (domain invalid_payment_transition)

  transition_answer :
      (status : PaymentStatus)
      → p.status ≡ status
      → find_payment s.payments p.id ≡ some p
      → find_status_history_by_idempotency_key input.idempotency_key s.history ≡ none
      → (require (same_status p.status PaymentStatus.pending) invalid_payment_transition
            >> change_status w actor input p PaymentStatus.confirmed)
          s
        ≡ confirming_answer status
  unfolding change_status insert_audit_log pure
  transition_answer PaymentStatus.pending is row new =
      run_require _ _ s (rw is refl)
      ∙ run_bind _ _ (transition-run row new)
      ∙ run_then _ _ refl
      ∙ ap (λ t. ok (confirmed_payment, t)) stored-confirmed
  transition_answer PaymentStatus.confirmed is row new = run_refuse _ _ s (rw is refl)
  transition_answer PaymentStatus.rejected is row new = run_refuse _ _ s (rw is refl)
  transition_answer PaymentStatus.cancelled is row new = run_refuse _ _ s (rw is refl)
  transition_answer PaymentStatus.failed is row new = run_refuse _ _ s (rw is refl)
  transition_answer PaymentStatus.refunded is row new = run_refuse _ _ s (rw is refl)
  transition_answer PaymentStatus.reversed is row new = run_refuse _ _ s (rw is refl)

  -- Whether the payment's booking `b` is open, as the transaction reads it.
  closed_lem :
      (b : Booking) {cancels : Bool}
      → find_booking s.bookings p.booking_id ≡ some b
      → same_booking_status b.status cancelled ≡ cancels
      → not (is_cancelled (find_booking_status p.booking_id s)) ≡ not cancels
  unfolding find_booking_status
  closed_lem b booked is = ap not (rw (booked, find_booking_status) (cancelled_lem b.status ∙ is))

  -- For a payment that the actor sees and that is the row of its id, of the booking `b`, and a new key,
  -- `confirmPayment` ends with `BOOKING_STATUS_NOT_PERMITTED` where the booking is cancelled and with
  -- `INVALID_PAYMENT_TRANSITION` where the payment is not pending; a pending payment
  -- it returns confirmed, and the store has that one payment confirmed, the history row from its former
  -- status, with the key, the reason and the actor, and one audit entry.
  pub confirm_payment_tx-confirming_answer :
      (b : Booking)
      → find_payment_for_actor actor input.payment_id s ≡ some p
      → find_payment s.payments p.id ≡ some p
      → find_booking s.bookings p.booking_id ≡ some b
      → find_status_history_by_idempotency_key input.idempotency_key s.history ≡ none
      → confirm_payment_tx w actor input s ≡ (
          if same_booking_status b.status cancelled
          then err (domain booking_status_not_permitted)
          else confirming_answer p.status)
  unfolding confirm_payment_tx confirm_new assert_booking_open_for_payment
  confirm_payment_tx-confirming_answer b found row booked new =
      run_bind _ _ (resolve_new-run new)
      ∙ run_or_else _ s refl
      ∙ run_bind _ _ (find_scoped-run found)
      ∙ run_gets _ _ s
      ∙ (elim (Bool-cases (same_booking_status b.status cancelled)) [
        | inl ended ↦ rw ended (run_refuse _ _ s (closed_lem b booked ended))
        | inr active ↦ rw active (
            run_require _ _ s (closed_lem b booked active)
            ∙ transition_answer p.status refl row new)
      ])

  own_id :
      find_payment_for_actor actor input.payment_id s ≡ some p → (p.id == input.payment_id) ≡ true
  unfolding find_payment_for_actor
  own_id found = ground (arith, find-and _ s.payments p found)

  found_again :
      find_payment_for_actor actor input.payment_id s ≡ some p
      → find_payment_for_actor actor p.id stored_in ≡ some (with_status PaymentStatus.confirmed p)
  unfolding find_payment_for_actor can_see_booking
  found_again found =
      find-set_status (can_see_booking actor s) p.id PaymentStatus.confirmed p.id s.payments
      ∙ ap (changed p.id PaymentStatus.confirmed) (
          subst
            (λ (k : ℕ).
              find (λ x. x.id == k && can_see_booking actor s x.booking_id) s.payments ≡ some p)
            (sym (==→eq p.id input.payment_id (own_id found))) found)
      ∙ rw (==_refl p.id) refl

  key_found :
      find_status_history_by_idempotency_key input.idempotency_key stored_in.history
      ≡ some (transition_history transition)
  unfolding find_status_history_by_idempotency_key
  key_found = rw (==_refl input.idempotency_key) refl

  replay-run :
      find_payment_for_actor actor input.payment_id s ≡ some p
      → resolve_status_transition_replay actor input PaymentStatus.confirmed stored_in
        ≡ ok (some (with_status PaymentStatus.confirmed p), stored_in)
  unfolding resolve_status_transition_replay find_scoped_payment_or_forbidden or_throw pure
  replay-run found =
      rw (key_found, resolve_status_transition_replay)
        (run_require _ _ stored_in (rw (own_id found) refl)
          ∙ run_bind _ _ (run_gets _ _ stored_in ∙ rw (found_again found) refl))

  -- After `confirmPayment` has confirmed the payment, the same request of the same actor changes
  -- nothing and returns the confirmed payment, whatever identifiers it would take.
  pub confirm_payment_tx-again :
      (w' : World)
      → find_payment_for_actor actor input.payment_id s ≡ some p
      → confirm_payment_tx w' actor input confirmed_in ≡ ok (confirmed_payment, confirmed_in)
  unfolding confirm_payment_tx
  confirm_payment_tx-again w' found =
      subst (λ t. confirm_payment_tx w' actor input t ≡ ok (confirmed_payment, t)) stored-confirmed
        (run_bind _ _ (replay-run found) ∙ run_some _ _ stored_in refl)
