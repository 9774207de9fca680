-- ===== src/Bookings/Transitions.antt =====
-- apps/web/src/features/bookings/transitions.ts: the matrix of the status transitions of a booking.
use heritage_philippines_v.Prelude.{
  Bool, true, false, List, [], ◌∷◌, ◌≡◌, ◌⊎◌, inl, inr, any, not, arith,
}
use heritage_philippines_v.Payments.Model.{
  BookingStatus, draft, pending_confirmation, confirmed, in_preparation, documents_required,
  visa_processing, ready_for_travel, in_progress, completed, cancelled,
}

unfoldable pub transition_matrix : BookingStatus → List BookingStatus
transition_matrix draft = pending_confirmation ∷ cancelled ∷ []
transition_matrix pending_confirmation = confirmed ∷ cancelled ∷ []
transition_matrix confirmed = in_preparation ∷ cancelled ∷ []
transition_matrix in_preparation =
    documents_required ∷ visa_processing ∷ ready_for_travel ∷ cancelled ∷ []
transition_matrix documents_required = visa_processing ∷ ready_for_travel ∷ cancelled ∷ []
transition_matrix visa_processing = documents_required ∷ ready_for_travel ∷ cancelled ∷ []
transition_matrix ready_for_travel = in_progress ∷ cancelled ∷ []
transition_matrix in_progress = completed ∷ cancelled ∷ []
transition_matrix completed = []
transition_matrix cancelled = []

abbrev pub same_booking_status : BookingStatus → BookingStatus → Bool
same_booking_status draft draft = true
same_booking_status pending_confirmation pending_confirmation = true
same_booking_status confirmed confirmed = true
same_booking_status in_preparation in_preparation = true
same_booking_status documents_required documents_required = true
same_booking_status visa_processing visa_processing = true
same_booking_status ready_for_travel ready_for_travel = true
same_booking_status in_progress in_progress = true
same_booking_status completed completed = true
same_booking_status cancelled cancelled = true
same_booking_status _ _ = false

unfoldable pub is_transition_allowed : BookingStatus → BookingStatus → Bool
unfolding transition_matrix
is_transition_allowed current next = any (same_booking_status next) (transition_matrix current)

-- The statuses of a booking whose travel has not been made ready.
abbrev pub is_preparing : BookingStatus → Bool
is_preparing draft = true
is_preparing pending_confirmation = true
is_preparing confirmed = true
is_preparing in_preparation = true
is_preparing documents_required = true
is_preparing visa_processing = true
is_preparing ready_for_travel = false
is_preparing in_progress = false
is_preparing completed = false
is_preparing cancelled = false

-- A run of allowed transitions.
pub data Run : BookingStatus → BookingStatus → Type 0 where
  start : {a : BookingStatus} → Run a a
  later :
      {a b : BookingStatus} (c : BookingStatus)
      → Run a b
      → is_transition_allowed b c ≡ true
      → Run a c

-- The run passes through the status.
abbrev pub Visits : {a b : BookingStatus} → BookingStatus → Run a b → Type 0
Visits {a} status start = status ≡ a
Visits status (later c run allowed) = (status ≡ c) ⊎ Visits status run

step-preparing :
    (b c : BookingStatus)
    → is_transition_allowed b c ≡ true
    → is_preparing b ≡ true
    → (ready_for_travel ≡ c) ⊎ ((is_preparing c ≡ true) ⊎ (cancelled ≡ c))
unfolding is_transition_allowed
step-preparing b c allowed preparing = grind arith

step-cancelled : (b c : BookingStatus) → is_transition_allowed b c ≡ true → cancelled ≡ b → ⊥
unfolding is_transition_allowed
step-cancelled b c allowed e = grind arith

run-preparing :
    {a b : BookingStatus} (run : Run a b)
    → is_preparing a ≡ true
    → Visits ready_for_travel run ⊎ ((is_preparing b ≡ true) ⊎ (cancelled ≡ b))
run-preparing start preparing = inr (inl preparing)
run-preparing (later {b} c run allowed) preparing = elim (run-preparing run preparing) [
  | inl visits ↦ inl (inr visits)
  | inr (inl before) ↦ elim (step-preparing b c allowed before) [
    | inl ready ↦ inl (inl ready)
    | inr rest ↦ inr rest
  ]
  | inr (inr ended) ↦ absurd (step-cancelled b c allowed ended)
]

-- A booking that is still in preparation is completed only through `READY_FOR_TRAVEL`: every run of
-- allowed transitions from such a status to `COMPLETED` passes through it.
pub completed-Visits_ready :
    {a : BookingStatus} (run : Run a completed)
    → is_preparing a ≡ true
    → Visits ready_for_travel run
completed-Visits_ready run preparing = elim (run-preparing run preparing) [
  | inl visits ↦ visits
  | inr (inl before) ↦ cc
  | inr (inr ended) ↦ cc
]

abbrev pub is_terminal : BookingStatus → Bool
is_terminal completed = true
is_terminal cancelled = true
is_terminal draft = false
is_terminal pending_confirmation = false
is_terminal confirmed = false
is_terminal in_preparation = false
is_terminal documents_required = false
is_terminal visa_processing = false
is_terminal ready_for_travel = false
is_terminal in_progress = false

-- Exactly the statuses other than `COMPLETED` and `CANCELLED` may be cancelled, and those two admit no
-- transition; no status admits a transition to itself.
pub is_transition_allowed-terminal :
    (b c : BookingStatus)
    → (is_transition_allowed b cancelled ≡ not (is_terminal b))
      × (is_terminal b ≡ true → is_transition_allowed b c ≡ false)
      × (is_transition_allowed b b ≡ false)
unfolding is_transition_allowed
is_transition_allowed-terminal b c = (cancel b, (λ h. ended b c h), itself b)
  where
    cancel : (d : BookingStatus) → is_transition_allowed d cancelled ≡ not (is_terminal d)
    cancel d = grind arith

    ended : (d e : BookingStatus) → is_terminal d ≡ true → is_transition_allowed d e ≡ false
    ended d e h = grind arith

    itself : (d : BookingStatus) → is_transition_allowed d d ≡ false
    itself d = grind arith
