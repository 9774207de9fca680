-- ===== src/Bookings/Life/Bodies.antt =====
-- The transactions of bookings keep every booking's life in order.
use heritage_philippines_v.Prelude.{
  ℕ, Bool, true, false, Option, none, some, List, [], ◌∷◌, ◌≡◌, refl, sym, ap, ◌∙◌, ◌&&◌, ◌==◌,
  find, any, length, select, ◌≤◌, if◌then◌else◌, arith, ==_refl, some_eq, none-some, Bool-cases,
  inl, inr,
}
use heritage_philippines_v.Transaction.{pure, ◌>>◌}
use heritage_philippines_v.Transaction.Rules.{
  Ensures, Ensures-pure, Ensures-or_else, bind_gets, bind_or_throw, bind_same, bind-Ensures,
  then_require, then_modify,
}
use heritage_philippines_v.Transaction.Writes.{
  none_of, or_throw-Ensures, then_free, then_insert, bind_updated,
}
use heritage_philippines_v.Payments.Model.{BookingStatus}
use heritage_philippines_v.Bookings.Transitions.{is_transition_allowed, same_booking_status}
use heritage_philippines_v.Bookings.Model.{
  BookingRecord, ProposalVersion, BookingStore, BookingRuntime, BookingAudit,
}
use heritage_philippines_v.Bookings.Repository.{
  BookingActor, find_booking, client_in_scope, find_booking_by_id_for_actor, find_version,
  is_accept, eligibility, ProposalVersionEligibility, find_eligible_proposal_version_for_actor,
  CreateBookingRow, new_booking, create_booking_with_initial_history,
  update_booking_status_with_history, insert_booking_audit,
}
use heritage_philippines_v.Bookings.Service.Create.{
  row_of, book, book_eligible, attempt_create_booking,
}
use heritage_philippines_v.Bookings.Service.Status.{
  UpdateBookingStatusInput, same_booking, move_booking, update_booking_status_body,
}
use heritage_philippines_v.Bookings.Service.Actors.{find_booking_or_refuse}
use heritage_philippines_v.Bookings.Life.{is_source, Sourced, BookingsFit}
use heritage_philippines_v.Bookings.Life.Rows.{BookingsFit-new, BookingsFit-moved}

module _ {A : Type 0} (p : A → Bool) where
  pub find_passes : (xs : List A) (a : A) → find p xs ≡ some a → p a ≡ true
  find_passes [] a e = cc
  find_passes (x ∷ xs) a e = ground (arith, find_passes xs a)

  pub any-find :
      (q : A → Bool) (xs : List A) (a : A) → find p xs ≡ some a → q a ≡ true → any q xs ≡ true
  any-find q [] a e h = cc
  any-find q (x ∷ xs) a e h = ground (arith, any-find q xs a)

pub both : (a b : Bool) → (a && b) ≡ true → (a ≡ true) × (b ≡ true)
both true true h = (refl, refl)
both true false h = cc
both false b h = cc

-- A version that the service finds eligible, with its client and its acceptance.
pub eligible_version :
    (o : Option ProposalVersion) (e : ProposalVersionEligibility)
    → eligibility o ≡ some e
    → (v : ProposalVersion) × (o ≡ some v)
      × (v.client_id ≡ e.client_id)
      × (is_accept v.response_type ≡ e.has_accepted_acceptance)
eligible_version none e h = cc
eligible_version (some v) e h = (
  v,
  refl,
  ap (λ (x : ProposalVersionEligibility). x.client_id) (some_eq h),
  ap (λ (x : ProposalVersionEligibility). x.has_accepted_acceptance) (some_eq h),
)

module _ (s : BookingStore) where
  eligible-Sourced :
      (now : ℕ) (actor : BookingActor) (input : CreateBookingRow) (e : ProposalVersionEligibility)
      → find_eligible_proposal_version_for_actor actor input.proposal_version_id s ≡ some e
      → e.has_accepted_acceptance ≡ true
      → e.client_id ≡ input.client_id
      → Sourced s.versions (new_booking now input)
  unfolding find_eligible_proposal_version_for_actor find_version
  eligible-Sourced now actor input e found accepted client =
      let version = eligible_version _ e found in
      let v = version.0 in
      let passes = find_passes _ s.versions v version.1 in
      record {
        source = any-find _ (is_source (new_booking now input)) s.versions v version.1 (
            rw
              (
                (both (v.id == input.proposal_version_id) (client_in_scope actor s v.client_id)
                    passes).0,
                version.3 ∙ accepted,
                version.2 ∙ client,
                ==_refl input.client_id,
              )
              refl);
      }

module _ (s : BookingStore) (fits : BookingsFit s) where
  BookingsFit-audit :
      (entry : BookingAudit) → BookingsFit (record s { audit_log = entry ∷ s.audit_log })
  BookingsFit-audit entry = record {
    lives = fits.lives;
    sources = fits.sources;
    single = fits.single;
    keyed = fits.keyed;
  }

module _ {E : Type 0} (s : BookingStore) (fits : BookingsFit s) where
  pub create_booking_row-BookingsFit :
      (now : ℕ) (input : CreateBookingRow)
      → Sourced s.versions (new_booking now input)
      → Ensures {E = E} (λ b t. BookingsFit t) (create_booking_with_initial_history now input s)
  unfolding create_booking_with_initial_history
  create_booking_row-BookingsFit now input source = bind_gets _ _ _ _ (
      then_free _ _ _ _ _ s (λ fresh. bind_gets _ _ _ _ (
        then_free _ _ _ _ _ s (λ unused. bind_gets _ _ _ _ (
          then_free _ _ _ _ _ s (λ unbooked. bind_gets _ _ _ _ (
            then_insert _ _ _ _ _ _ s (λ unseen.
              Ensures-pure _ _ _
                (BookingsFit-new s fits now input (none_of _ fresh) unbooked source)))))))))

  pub update_booking_row-BookingsFit :
      (now history_id id actor_id : ℕ) (b : BookingRecord) (next : BookingStatus)
      → find_booking s.bookings id ≡ some b
      → is_transition_allowed b.status next ≡ true
      → Ensures {E = E}
          (λ k t. BookingsFit t)
          (update_booking_status_with_history now history_id id b.status next actor_id s)
  unfolding update_booking_status_with_history
  update_booking_row-BookingsFit now history_id id actor_id b next found move = bind_gets _ _ _ _ (
      bind_updated _ _ _ _ s (λ k same. bind_gets _ _ _ _ (
        then_insert _ _ _ _ _ _ s (λ unseen.
          Ensures-pure _ _ _
            (BookingsFit-moved s fits now history_id id actor_id b next found move)))))

  pub then_booking_audit :
      {A : Type 0} (entry : BookingAudit) (a : A)
      → Ensures {E = E} (λ b t. BookingsFit t) ((insert_booking_audit entry >> pure a) s)
  unfolding insert_booking_audit
  then_booking_audit entry a =
      then_modify _ _ _ s (Ensures-pure _ a _ (BookingsFit-audit s fits entry))

unselected :
    {A : Type 0} (p q : A → Bool) (xs : List A)
    → length (select p xs) ≡ 0
    → find (λ x. p x && q x) xs ≡ none
unselected p q [] h = refl
unselected p q (x ∷ xs) h = ground (arith, unselected p q xs)

-- With at most one row that passes `p`, a row found by `p` and more is the row found by `p`.
pub find_only :
    {A : Type 0} (p q : A → Bool) (xs : List A) (a : A)
    → length (select p xs) ≤ 1
    → find (λ x. p x && q x) xs ≡ some a
    → find p xs ≡ some a
find_only p q [] a h e = cc
find_only p q (x ∷ xs) a h e = ground (arith, find_only p q xs a, unselected p q xs)

pub same_booking-some :
    (status : BookingStatus) (b k : BookingRecord)
    → same_booking status b ≡ some k
    → (b ≡ k) × (same_booking_status b.status status ≡ true)
same_booking-some status b k e = elim (Bool-cases (same_booking_status b.status status)) [
  | inl same ↦ (some_eq (sym (ap (λ c. if c then some b else none) same) ∙ e), same)
  | inr other ↦ elim (none-some (sym (ap (λ c. if c then some b else none) other) ∙ e)) [ ]
]

module _ (w : BookingRuntime) (actor : BookingActor) (s : BookingStore) (fits : BookingsFit s) where
  book-BookingsFit :
      (proposal_version_id : ℕ) (e : ProposalVersionEligibility)
      → find_eligible_proposal_version_for_actor actor proposal_version_id s ≡ some e
      → e.has_accepted_acceptance ≡ true
      → Ensures (λ r t. BookingsFit t) (book w actor proposal_version_id e s)
  unfolding book
  book-BookingsFit proposal_version_id e found accepted =
      bind-Ensures _ (λ b t. BookingsFit t) _ _ s
        (create_booking_row-BookingsFit s fits w.now (row_of w actor proposal_version_id e) (
          eligible-Sourced s w.now actor (row_of w actor proposal_version_id e) e found accepted
            refl))
        (λ b t kept. then_booking_audit t kept _ _)

  pub attempt_create_booking-BookingsFit :
      (proposal_version_id : ℕ)
      → Ensures (λ r t. BookingsFit t) (attempt_create_booking w actor proposal_version_id s)
  unfolding attempt_create_booking book_eligible
  attempt_create_booking-BookingsFit proposal_version_id = bind_gets _ _ _ _ (
      Ensures-or_else _ _ _ s (λ r e. fits)
        (λ new. bind_gets _ _ _ _ (
          bind_or_throw _ _ _ _ s (λ e found.
            then_require _ _ _ _ s
              (λ accepted. book-BookingsFit proposal_version_id e found accepted)))))

  find_booking-seen :
      (id : ℕ) (b : BookingRecord)
      → find_booking_by_id_for_actor actor id s ≡ some b
      → find_booking s.bookings id ≡ some b
  unfolding find_booking_by_id_for_actor find_booking
  find_booking-seen id b found = find_only _ _ s.bookings b (fits.keyed id) found

  move_booking-BookingsFit :
      (id : ℕ) (input : UpdateBookingStatusInput) (b : BookingRecord)
      → find_booking s.bookings id ≡ some b
      → Ensures (λ r t. BookingsFit t) (move_booking w actor id input b s)
  unfolding move_booking
  move_booking-BookingsFit id input b found = then_require _ _ _ _ s (λ expected.
      then_require _ _ _ _ s (λ move.
        bind-Ensures _ (λ b t. BookingsFit t) _ _ s
          (update_booking_row-BookingsFit s fits w.now _ id actor.id b _ found move)
          (λ k t kept. then_booking_audit t kept _ _)))

  pub update_booking_status_body-BookingsFit :
      (id : ℕ) (input : UpdateBookingStatusInput)
      → Ensures (λ r t. BookingsFit t) (update_booking_status_body w actor id input s)
  unfolding update_booking_status_body find_booking_or_refuse
  update_booking_status_body-BookingsFit id input =
      bind_same _ (λ b. find_booking_by_id_for_actor actor id s ≡ some b) _ _ s
        (bind_gets _ _ _ _ (or_throw-Ensures s _ _))
        (λ b found.
          Ensures-or_else _ _ _ s (λ r e. fits)
            (λ other. move_booking-BookingsFit id input b (find_booking-seen id b found)))
