-- ===== src/Bookings/Life.antt =====
-- The life of a booking: the rows of its status history, read from the newest, lead from the status
-- it has back to DRAFT by allowed transitions; it stems from an accepted proposal version of its
-- client, and no other booking stems from that version.
use heritage_philippines_v.Prelude.{
  ℕ, true, Option, none, some, List, [], ◌∷◌, ◌≡◌, ◌≤◌, ◌==◌, length, select, any, All, Bool, ◌&&◌,
}
use heritage_philippines_v.Payments.Model.{BookingStatus, draft}
use heritage_philippines_v.Bookings.Transitions.{is_transition_allowed}
use heritage_philippines_v.Bookings.Model.{
  BookingRecord, BookingStatusHistory, ProposalVersion, BookingStore,
}
use heritage_philippines_v.Bookings.Repository.{find_booking, is_accept}
pub mod Rows
pub mod Bodies
pub mod Reached

unfoldable pub booking_history : List BookingStatusHistory → ℕ → List BookingStatusHistory
booking_history history id = select (λ h. h.booking_id == id) history

abbrev pub BookingMove : Option BookingStatus → BookingStatus → Type 0
BookingMove none next = next ≡ draft
BookingMove (some current) next = is_transition_allowed current next ≡ true

-- The rows, the newest first, lead to the booking's status, or there are none for no booking.
abbrev pub Trails : Option BookingStatus → List BookingStatusHistory → Type 0
Trails none [] = Unit
Trails none (h ∷ hs) = ⊥
Trails (some status) [] = ⊥
Trails (some status) (h ∷ hs) =
    (h.new_status ≡ status) × BookingMove h.previous_status status × Trails h.previous_status hs

abbrev pub booking_status_of : Option BookingRecord → Option BookingStatus
booking_status_of none = none
booking_status_of (some b) = some b.status

-- The booking's proposal version is accepted and is the booking's client's.
abbrev pub is_source : BookingRecord → ProposalVersion → Bool
is_source b v =
    v.id == b.proposal_version_id && is_accept v.response_type && v.client_id == b.client_id

pub record Sourced (versions : List ProposalVersion) (b : BookingRecord) : Type 0 where
  pub source : any (is_source b) versions ≡ true

abbrev pub stemming : ℕ → List BookingRecord → ℕ
stemming proposal_version_id bookings =
    length (select (λ b. b.proposal_version_id == proposal_version_id) bookings)

abbrev pub bearing : ℕ → List BookingRecord → ℕ
bearing id bookings = length (select (λ b. b.id == id) bookings)

pub record BookingsFit (s : BookingStore) : Type 0 where
  pub lives :
      (id : ℕ)
      → Trails (booking_status_of (find_booking s.bookings id)) (booking_history s.history id)
  pub sources : All (Sourced s.versions) s.bookings
  pub single : (proposal_version_id : ℕ) → stemming proposal_version_id s.bookings ≤ 1
  pub keyed : (id : ℕ) → bearing id s.bookings ≤ 1
