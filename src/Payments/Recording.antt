-- ===== src/Payments/Recording.antt =====
-- `recordPayment` as a whole: what it writes for a new idempotency key, and how it answers the same
-- request again.
use heritage_philippines_v.Prelude.{
  ℕ, Bool, true, false, not, Option, none, some, ap, ◌&&◌, List, [], ◌∷◌, ◌≡◌, refl, sym, ◌∙◌, ◌==◌,
  is_some, arith, ==_refl, ==→eq, find, Bool-cases, inl, inr, true-false, if◌then◌else◌,
}
use heritage_philippines_v.Prelude.Int.{eqb_ℤ}
use heritage_philippines_v.Transaction.{Result, ok, err, domain, pure, ◌>>◌}
use heritage_philippines_v.Transaction.Runs.{
  run_bind, run_gets, run_or_throw, run_then, run_require, run_refuse, run_or_else, run_some,
  run_fail, run_missing,
}
use heritage_philippines_v.Payments.Model.{
  Text, Booking, BookingStatus, cancelled, Payment, PaymentStatus, PaymentStatusHistory,
  PaymentErrorCode, idempotency_key_conflict, payment_conflict, booking_status_not_permitted,
  booking_currency_not_set,
}
use heritage_philippines_v.Bookings.Transitions.{same_booking_status}
use heritage_philippines_v.Payments.Audit.{AuditEntry, AuditAction, AuditEntity, AuditSnapshot}
use heritage_philippines_v.Payments.Currencies.{has_supported_currency_precision}
use heritage_philippines_v.Payments.Store.{Store, World, insert_unless}
use heritage_philippines_v.Payments.Repository.Bookings.{
  PaymentActor, find_booking_financials_for_actor, can_see_booking, find_booking,
  booking_assignment_filter,
}
use heritage_philippines_v.Payments.Repository.Payments.{
  find_payment, find_payment_for_actor, find_status_history_by_idempotency_key,
  CreatePendingPaymentInput, pending_payment, initial_history, create_pending_payment,
  insert_audit_log,
}
use heritage_philippines_v.Payments.Service.Actors.{
  is_cancelled, assert_booking_open_for_payment, assert_amount_precision,
}
use heritage_philippines_v.Payments.Service.Replay.{
  RecordPaymentInput, answer_record, resolve_record_replay,
}
use heritage_philippines_v.Payments.Service.Payments.{record_new_payment, record_payment_tx}
use heritage_philippines_v.Payments.Ledger.Rows.{find-and}

find-weaken :
    {A : Type 0} (p q : A → Bool) (xs : List A) (a : A)
    → ((x : A) → p x ≡ true → q x ≡ true)
    → find p xs ≡ some a
    → is_some (find q xs) ≡ true
find-weaken p q [] a h e = cc
find-weaken p q (x ∷ xs) a h e = elim (Bool-cases (q x)) [
  | inl yes_q ↦ rw yes_q refl
  | inr no_q ↦ elim (Bool-cases (p x)) [
    | inl yes_p ↦ absurd (true-false (sym no_q ∙ h x yes_p))
    | inr no_p ↦ rw no_q (find-weaken p q xs a h (rw no_p at e))
  ]
]

pub cancelled_lem :
    (status : BookingStatus) → is_cancelled (some status) ≡ same_booking_status status cancelled
cancelled_lem status = grind arith

module _ (w : World) (actor : PaymentActor) (input : RecordPaymentInput) (s : Store)
    (b : Booking) where
  abbrev pub created : CreatePendingPaymentInput
  created = record {
    id = w.random_uuid 0;
    history_id = w.random_uuid 1;
    booking_id = input.booking_id;
    client_id = b.client_id;
    amount = w.to_decimal input.amount;
    changed_by_user_id = actor.id;
    idempotency_key = input.idempotency_key;
  }

  abbrev entry : AuditEntry
  entry = record {
    id = w.random_uuid 2;
    actor_id = actor.id;
    action = AuditAction.payment_recorded;
    entity_type = AuditEntity.payment;
    entity_id = w.random_uuid 0;
    before_state = none;
    after_state = some (AuditSnapshot.recorded input.booking_id input.amount);
  }

  -- The payment that is recorded, pending, for the booking's client.
  abbrev pub recorded_payment : Payment
  recorded_payment = record {
    id = w.random_uuid 0;
    booking_id = input.booking_id;
    client_id = b.client_id;
    amount = w.to_decimal input.amount;
    status = PaymentStatus.pending;
  }

  -- Its first history row, which carries the key.
  abbrev pub recorded_history : PaymentStatusHistory
  recorded_history = record {
    id = w.random_uuid 1;
    payment_id = w.random_uuid 0;
    previous_status = none;
    new_status = PaymentStatus.pending;
    changed_by_user_id = actor.id;
    reason = none;
    idempotency_key = some input.idempotency_key;
  }

  -- The store with the pending payment, its first history row and one audit entry.
  abbrev pub recorded_in : Store
  recorded_in = record s {
    payments = recorded_payment ∷ s.payments;
    history = recorded_history ∷ s.history;
    audit_log = entry ∷ s.audit_log;
  }

  create-run :
      find_payment s.payments (w.random_uuid 0) ≡ none
      → find_status_history_by_idempotency_key input.idempotency_key s.history ≡ none
      → create_pending_payment created s
        ≡ ok (
          pending_payment created,
          record s {
            payments = pending_payment created ∷ s.payments;
            history = initial_history created ∷ s.history;
          },
        )
  unfolding create_pending_payment ◌>>◌ insert_unless
  create-run fresh new = rw (fresh, new) refl

  resolve_new-run :
      find_status_history_by_idempotency_key input.idempotency_key s.history ≡ none
      → resolve_record_replay w actor input s ≡ ok (none, s)
  unfolding resolve_record_replay pure
  resolve_new-run new = rw (new, resolve_record_replay) refl

  -- What the transaction answers for a booking with the given currency that is not cancelled.
  abbrev pub recording_answer : Option Text → Result PaymentErrorCode (Payment × Store)
  recording_answer none = err (domain booking_currency_not_set)
  recording_answer (some currency) =
      if has_supported_currency_precision input.amount currency
      then ok (recorded_payment, recorded_in)
      else err (domain payment_conflict)

  open_answer :
      (code : Option Text)
      → b.currency_code ≡ code
      → find_status_history_by_idempotency_key input.idempotency_key s.history ≡ none
      → find_payment s.payments (w.random_uuid 0) ≡ none
      → is_cancelled (some b.status) ≡ false
      → record_new_payment w actor input b s ≡ recording_answer code
  unfolding record_new_payment assert_booking_open_for_payment assert_amount_precision
      insert_audit_log pure
  open_answer none coded new fresh payable =
      run_require _ _ s (ap not payable) ∙ run_missing _ _ s coded
  open_answer (some currency) coded new fresh payable =
      run_then _ _ (rw payable refl)
      ∙ run_or_throw currency _ _ s coded
      ∙ (elim (Bool-cases (has_supported_currency_precision input.amount currency)) [
        | inl precise ↦ rw precise (
            run_require payment_conflict _ s refl
            ∙ run_bind _ _ (create-run fresh new)
            ∙ run_then _ _ refl)
        | inr inexact ↦ rw inexact (run_refuse _ _ s refl)
      ])

  -- For a booking that the actor is assigned to, a new key and a new id, `recordPayment` ends with
  -- `BOOKING_STATUS_NOT_PERMITTED` where the booking is cancelled, with `BOOKING_CURRENCY_NOT_SET`
  -- where it has no currency, and with `PAYMENT_CONFLICT` where the amount is not exact in its
  -- currency; otherwise it returns a pending payment of the booking's client over the amount, stored
  -- with its first history row, which carries the key and the actor, and one audit entry.
  pub record_payment_tx-recording_answer :
      find_booking_financials_for_actor actor input.booking_id s ≡ some b
      → find_status_history_by_idempotency_key input.idempotency_key s.history ≡ none
      → find_payment s.payments (w.random_uuid 0) ≡ none
      → record_payment_tx w actor input s ≡ (
          if same_booking_status b.status cancelled
          then err (domain booking_status_not_permitted)
          else recording_answer b.currency_code)
  unfolding record_payment_tx record_new_payment assert_booking_open_for_payment
  record_payment_tx-recording_answer found new fresh =
      run_gets _ _ s
      ∙ run_or_throw b _ _ s found
      ∙ run_bind _ _ (resolve_new-run new)
      ∙ run_or_else _ s refl
      ∙ (elim (Bool-cases (same_booking_status b.status cancelled)) [
        | inl ended ↦ rw ended (run_refuse _ _ s (ap not (cancelled_lem b.status ∙ ended)))
        | inr active ↦
            rw active (open_answer b.currency_code refl new fresh (cancelled_lem b.status ∙ active))
      ])

  unseen :
      (see : ℕ → Bool) (id : ℕ) (payments : List Payment)
      → find_payment payments id ≡ none
      → find (λ x. x.id == id && see x.booking_id) payments ≡ none
  unfolding find_payment
  unseen see id [] h = refl
  unseen see id (p ∷ payments) h = ground (arith, unseen see id payments)

  abbrev pub again : ℕ → Text → RecordPaymentInput
  again booking_id amount = record {
    booking_id = booking_id;
    amount = amount;
    idempotency_key = input.idempotency_key;
  }

  key_found :
      find_status_history_by_idempotency_key input.idempotency_key recorded_in.history
      ≡ some recorded_history
  unfolding find_status_history_by_idempotency_key
  key_found = rw (==_refl input.idempotency_key) refl

  module _ (w' : World) (other : PaymentActor) (booking_id : ℕ) (amount : Text) (c : Booking) where
    -- Whether the second request is for the booking and the amount that are recorded.
    abbrev pub is_same_payment : Bool
    is_same_payment =
        input.booking_id == booking_id && eqb_ℤ (w.to_decimal input.amount) (w'.to_decimal amount)

    -- The actor of the second request sees the booking that it asks for.
    seen :
        find_booking_financials_for_actor other booking_id s ≡ some c
        → can_see_booking other s booking_id ≡ true
    unfolding find_booking_financials_for_actor can_see_booking find_booking
    seen found =
        let row = find-and _ s.bookings c found in
        let same : c.id ≡ booking_id = ==→eq c.id booking_id (ground (arith, row)) in
        let assigned : booking_assignment_filter other s.assignments booking_id ≡ true =
          rw (sym same) (ground (arith, row)) in
        rw
          (
            assigned,
            find-weaken _ (λ (x : Booking). x.id == booking_id) s.bookings c
                (λ x h. ground (arith, h)) found,
          )
          refl

    found_again :
        can_see_booking other s input.booking_id ≡ true
        → find_payment_for_actor other (w.random_uuid 0) recorded_in ≡ some recorded_payment
    unfolding find_payment_for_actor can_see_booking find_booking booking_assignment_filter
    found_again sees = rw (==_refl (w.random_uuid 0), sees) refl

    hidden :
        can_see_booking other s input.booking_id ≡ false
        → find_payment s.payments (w.random_uuid 0) ≡ none
        → find_payment_for_actor other (w.random_uuid 0) recorded_in ≡ none
    unfolding find_payment_for_actor can_see_booking find_booking booking_assignment_filter
    hidden sees fresh =
        rw (==_refl (w.random_uuid 0), sees)
          (unseen (can_see_booking other s) (w.random_uuid 0) s.payments fresh)

    other_booking :
        find_booking_financials_for_actor other booking_id s ≡ some c
        → can_see_booking other s input.booking_id ≡ false
        → is_same_payment ≡ false
    other_booking found sees = elim (Bool-cases (input.booking_id == booking_id)) [
      | inl same ↦ absurd (
          true-false (
            sym sees
            ∙ ap (can_see_booking other s) (==→eq input.booking_id booking_id same)
            ∙ seen found))
      | inr differs ↦ rw differs refl
    ]

    -- The rest of the replay, once the row of the key is found.
    answer-run :
        find_booking_financials_for_actor other booking_id s ≡ some c
        → find_payment s.payments (w.random_uuid 0) ≡ none
        → answer_record w' other (again booking_id amount) recorded_history recorded_in ≡ (
            if is_same_payment
            then ok (some recorded_payment, recorded_in)
            else err (domain idempotency_key_conflict))
    unfolding pure
    answer-run found fresh = elim (Bool-cases (can_see_booking other s input.booking_id)) [
      | inl sees ↦ elim (Bool-cases is_same_payment) [
        | inl same ↦ rw same (
            run_require _ _ recorded_in refl
            ∙ run_gets _ _ recorded_in
            ∙ run_or_throw recorded_payment _ _ recorded_in (found_again sees)
            ∙ run_require _ _ recorded_in same)
        | inr differs ↦ rw differs (
            run_require _ _ recorded_in refl
            ∙ run_gets _ _ recorded_in
            ∙ run_or_throw recorded_payment _ _ recorded_in (found_again sees)
            ∙ run_refuse _ _ recorded_in differs)
      ]
      | inr sees ↦ rw (other_booking found sees) (
          run_require _ _ recorded_in refl
          ∙ run_gets _ _ recorded_in
          ∙ run_missing _ _ recorded_in (hidden sees fresh))
    ]

    replay-run :
        find_booking_financials_for_actor other booking_id s ≡ some c
        → find_payment s.payments (w.random_uuid 0) ≡ none
        → resolve_record_replay w' other (again booking_id amount) recorded_in ≡ (
            if is_same_payment
            then ok (some recorded_payment, recorded_in)
            else err (domain idempotency_key_conflict))
    unfolding resolve_record_replay
    replay-run found fresh = rw (key_found, resolve_record_replay) (answer-run found fresh)

    -- After `recordPayment` has written its payment under a new id, a request with the same key of
    -- any actor, for a booking that this actor sees, changes nothing, whatever identifiers it would
    -- take: for the same booking and the same amount it returns the payment that is there, and
    -- otherwise it is an idempotency-key conflict.
    pub record_payment_tx-again :
        find_booking_financials_for_actor other booking_id s ≡ some c
        → find_payment s.payments (w.random_uuid 0) ≡ none
        → record_payment_tx w' other (again booking_id amount) recorded_in ≡ (
            if is_same_payment
            then ok (recorded_payment, recorded_in)
            else err (domain idempotency_key_conflict))
    unfolding record_payment_tx find_booking_financials_for_actor
    record_payment_tx-again found fresh =
        run_gets _ _ recorded_in
        ∙ run_or_throw c _ _ recorded_in found
        ∙ (elim (Bool-cases is_same_payment) [
          | inl same ↦
              rw same
                (run_bind _ _ (rw same at (replay-run found fresh)) ∙ run_some _ _ recorded_in refl)
          | inr differs ↦ rw differs (run_fail _ _ (rw differs at (replay-run found fresh)))
        ])
