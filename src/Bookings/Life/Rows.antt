-- ===== src/Bookings/Life/Rows.antt =====
-- A new booking and a moved booking keep every booking's life in order.
use heritage_philippines_v.Prelude.{
  ℕ, Bool, true, false, Option, none, some, List, [], ◌∷◌, ◌≡◌, ◌≤◌, refl, sym, ap, ◌∙◌, subst,
  ◌==◌, ==→eq, All, arith, if◌then◌else◌, Bool-cases, inl, inr, ◌⊎◌,
}
use heritage_philippines_v.Payments.Model.{BookingStatus, draft}
use heritage_philippines_v.Bookings.Transitions.{is_transition_allowed}
use heritage_philippines_v.Bookings.Model.{
  BookingRecord, BookingStatusHistory, ProposalVersion, BookingStore,
}
use heritage_philippines_v.Bookings.Repository.{
  find_booking, set_booking, version_booked, CreateBookingRow, new_booking, booking_history_row,
  moved_to,
}
use heritage_philippines_v.Bookings.Life.{
  booking_history, Trails, booking_status_of, Sourced, stemming, bearing, BookingsFit,
}

abbrev pub moved_if :
    Bool → (BookingRecord → BookingRecord) → Option BookingRecord → Option BookingRecord
moved_if same change none = none
moved_if same change (some b) = if same then some (change b) else some b

pub find_booking-set_booking :
    (now : ℕ) (status : BookingStatus) (id : ℕ) (bookings : List BookingRecord) (q : ℕ)
    → find_booking (set_booking id (moved_to now status) bookings) q
      ≡ moved_if (id == q) (moved_to now status) (find_booking bookings q)
unfolding find_booking
find_booking-set_booking now status id [] q = refl
find_booking-set_booking now status id (b ∷ bookings) q =
    ground (arith, find_booking-set_booking now status id bookings q)

Trails-none : (hs : List BookingStatusHistory) → Trails none hs → hs ≡ []
Trails-none [] h = refl
Trails-none (x ∷ hs) h = elim h [ ]

first_row : CreateBookingRow → BookingStatusHistory
first_row input = booking_history_row input.history_id input.id none draft input.changed_by_user_id

-- One id before and after a booking is created; `same` tells whether it is the new booking's.
Trails-created :
    (same : Bool) (b : BookingRecord) (row : BookingStatusHistory) (old : Option BookingRecord)
    (hs : List BookingStatusHistory)
    → b.status ≡ draft
    → row.new_status ≡ draft
    → row.previous_status ≡ none
    → (same ≡ true → hs ≡ [])
    → Trails (booking_status_of old) hs
    → Trails (booking_status_of (if same then some b else old)) (if same then row ∷ hs else hs)
Trails-created true b row old hs is_draft after before fresh h =
    rw (is_draft, before, fresh refl) (after, refl, tt)
Trails-created false b row old hs is_draft after before fresh h = h

-- One id before and after a booking is moved.
Trails-moved :
    (same : Bool) (change : BookingRecord → BookingRecord) (row : BookingStatusHistory)
    (b : BookingRecord) (old : Option BookingRecord) (hs : List BookingStatusHistory)
    → (same ≡ true → old ≡ some b)
    → row.previous_status ≡ some b.status
    → row.new_status ≡ (change b).status
    → is_transition_allowed b.status (change b).status ≡ true
    → Trails (booking_status_of old) hs
    → Trails (booking_status_of (moved_if same change old)) (if same then row ∷ hs else hs)
Trails-moved true change row b old hs found before after move h =
    rw (found refl) (
      after,
      rw before move,
      rw before (subst (λ o. Trails (booking_status_of o) hs) (found refl) h),
    )
Trails-moved false change row b none hs found before after move h = h
Trails-moved false change row b (some k) hs found before after move h = h

not_booked :
    (id : ℕ) (bookings : List BookingRecord)
    → version_booked id bookings ≡ false
    → stemming id bookings ≡ 0
not_booked id [] h = refl
not_booked id (b ∷ bookings) h = ground (arith, not_booked id bookings)

Sourced-moved :
    (now : ℕ) (status : BookingStatus) (id : ℕ) (versions : List ProposalVersion)
    (bookings : List BookingRecord)
    → All (Sourced versions) bookings
    → All (Sourced versions) (set_booking id (moved_to now status) bookings)
Sourced-moved now status id versions [] h = tt
Sourced-moved now status id versions (b ∷ bookings) h =
    (go (b.id == id), Sourced-moved now status id versions bookings h.1)
  where
    go : (same : Bool) → Sourced versions (if same then moved_to now status b else b)
    go true = record { source = (h.0).source }
    go false = h.0

stemming-moved :
    (now : ℕ) (status : BookingStatus) (id : ℕ) (bookings : List BookingRecord) (version : ℕ)
    → stemming version (set_booking id (moved_to now status) bookings) ≡ stemming version bookings
stemming-moved now status id [] version = refl
stemming-moved now status id (b ∷ bookings) version =
    ground (arith, stemming-moved now status id bookings version)

not_known :
    (id : ℕ) (bookings : List BookingRecord)
    → find_booking bookings id ≡ none
    → bearing id bookings ≡ 0
unfolding find_booking
not_known id [] h = refl
not_known id (b ∷ bookings) h = ground (arith, not_known id bookings)

bearing-moved :
    (now : ℕ) (status : BookingStatus) (id : ℕ) (bookings : List BookingRecord) (q : ℕ)
    → bearing q (set_booking id (moved_to now status) bookings) ≡ bearing q bookings
bearing-moved now status id [] q = refl
bearing-moved now status id (b ∷ bookings) q =
    ground (arith, bearing-moved now status id bookings q)

module _ (s : BookingStore) (fits : BookingsFit s) where
  pub BookingsFit-new :
      (now : ℕ) (input : CreateBookingRow)
      → find_booking s.bookings input.id ≡ none
      → version_booked input.proposal_version_id s.bookings ≡ false
      → Sourced s.versions (new_booking now input)
      → BookingsFit (record s {
        bookings = new_booking now input ∷ s.bookings;
        history =
            booking_history_row input.history_id input.id none draft input.changed_by_user_id
            ∷ s.history;
      })
  unfolding find_booking booking_history
  BookingsFit-new now input fresh unbooked source = record {
    lives = λ q.
        Trails-created (input.id == q) (new_booking now input) _ (find_booking s.bookings q)
          (booking_history s.history q) refl refl refl
          (λ e. Trails-none _ (
            subst (λ o. Trails (booking_status_of o) (booking_history s.history q))
              (ap (find_booking s.bookings) (sym (==→eq _ q e)) ∙ fresh) (fits.lives q)))
          (fits.lives q);
    sources = (source, fits.sources);
    single = λ q. one q (Bool-cases (input.proposal_version_id == q));
    keyed = λ q. key q (Bool-cases (input.id == q));
  }
    where
      key :
          (q : ℕ)
          → ((input.id == q) ≡ true) ⊎ ((input.id == q) ≡ false)
          → bearing q (new_booking now input ∷ s.bookings) ≤ 1
      key q (inl e) =
          let none_yet = subst (λ v. find_booking s.bookings v ≡ none) (==→eq _ q e) fresh in
          rw (e, not_known q s.bookings none_yet) (omega arith)
      key q (inr e) = rw e (fits.keyed q)

      one :
          (q : ℕ)
          → ((input.proposal_version_id == q) ≡ true) ⊎ ((input.proposal_version_id == q) ≡ false)
          → stemming q (new_booking now input ∷ s.bookings) ≤ 1
      one q (inl e) =
          let none_yet = subst (λ v. version_booked v s.bookings ≡ false) (==→eq _ q e) unbooked in
          rw (e, not_booked q s.bookings none_yet) (omega arith)
      one q (inr e) = rw e (fits.single q)

  pub BookingsFit-moved :
      (now history_id id actor_id : ℕ) (b : BookingRecord) (next : BookingStatus)
      → find_booking s.bookings id ≡ some b
      → is_transition_allowed b.status next ≡ true
      → BookingsFit (record s {
        bookings = set_booking id (moved_to now next) s.bookings;
        history = booking_history_row history_id id (some b.status) next actor_id ∷ s.history;
      })
  unfolding booking_history
  BookingsFit-moved now history_id id actor_id b next found move = record {
    lives = λ q. rw (find_booking-set_booking now next id s.bookings q) (
        Trails-moved (id == q) (moved_to now next) _ b (find_booking s.bookings q)
          (booking_history s.history q)
          (λ e. ap (find_booking s.bookings) (sym (==→eq id q e)) ∙ found) refl refl move
          (fits.lives q));
    sources = Sourced-moved now next id s.versions s.bookings fits.sources;
    single = λ q. rw (stemming-moved now next id s.bookings q) (fits.single q);
    keyed = λ q. rw (bearing-moved now next id s.bookings q) (fits.keyed q);
  }
