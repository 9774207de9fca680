-- ===== src/Leads/Transitions/Laws.antt =====
-- What leads/transitions.ts lets a lead do, by the stage of the pipeline that a status stands for.
use heritage_philippines_v.Prelude.{
  ℕ, Bool, true, false, not, List, [], ◌∷◌, ◌≡◌, refl, sym, ap, ◌∙◌, ◌||◌, all, ltb, ◌==◌, ==→eq,
  if◌then◌else◌, arith,
}
use heritage_philippines_v.Crm.Model.{
  LeadStatus, new, under_review, contacted, consultation_scheduled, qualified, converted_to_client,
  not_proceeding, duplicate, spam, archived,
}
use heritage_philippines_v.Leads.Transitions.{
  TransitionOutcome, allowed, rejected, deferred_to_conversion_endpoint, index, status_eq,
  get_transition_outcome, is_reason_required,
}

abbrev statuses : List LeadStatus
statuses =
    new ∷ under_review ∷ contacted ∷ consultation_scheduled ∷ qualified ∷ converted_to_client
    ∷ not_proceeding ∷ duplicate ∷ spam ∷ archived ∷ []

-- A test that all statuses pass, checked on the list of them.
every : (p : LeadStatus → Bool) → all p statuses ≡ true → (a : LeadStatus) → p a ≡ true
every p h new = ground arith
every p h under_review = ground arith
every p h contacted = ground arith
every p h consultation_scheduled = ground arith
every p h qualified = ground arith
every p h converted_to_client = ground arith
every p h not_proceeding = ground arith
every p h duplicate = ground arith
every p h spam = ground arith
every p h archived = ground arith

-- The same for a test of two statuses.
every_pair :
    (p : LeadStatus → LeadStatus → Bool)
    → all (λ a. all (p a) statuses) statuses ≡ true
    → (a b : LeadStatus) → p a b ≡ true
every_pair p h a b = every (p a) (every (λ c. all (p c) statuses) h a) b

bool_eq : (a b : Bool) → (if a then b else not b) ≡ true → a ≡ b
bool_eq true true h = refl
bool_eq false false h = refl
bool_eq true false h = cc
bool_eq false true h = cc

if_so : (a b : Bool) → a ≡ true → (not a || b) ≡ true → b ≡ true
if_so true b h k = k
if_so false b h k = cc

abbrev outcome_eq : TransitionOutcome → TransitionOutcome → Bool
outcome_eq allowed allowed = true
outcome_eq rejected rejected = true
outcome_eq deferred_to_conversion_endpoint deferred_to_conversion_endpoint = true
outcome_eq _ _ = false

outcome_eq→eq : (x y : TransitionOutcome) → outcome_eq x y ≡ true → x ≡ y
outcome_eq→eq allowed allowed h = refl
outcome_eq→eq rejected rejected h = refl
outcome_eq→eq deferred_to_conversion_endpoint deferred_to_conversion_endpoint h = refl
outcome_eq→eq allowed rejected h = cc
outcome_eq→eq allowed deferred_to_conversion_endpoint h = cc
outcome_eq→eq rejected allowed h = cc
outcome_eq→eq rejected deferred_to_conversion_endpoint h = cc
outcome_eq→eq deferred_to_conversion_endpoint allowed h = cc
outcome_eq→eq deferred_to_conversion_endpoint rejected h = cc

-- The pipeline from a new lead to a qualified one, the conversion at its end, the three ways to
-- close a lead, and the archive.
pub data Stage : Type 0 where
  open_at : ℕ → Stage
  done closed stored : Stage

unfoldable pub stage : LeadStatus → Stage
stage new = open_at 0
stage under_review = open_at 1
stage contacted = open_at 2
stage consultation_scheduled = open_at 3
stage qualified = open_at 4
stage converted_to_client = done
stage not_proceeding = closed
stage duplicate = closed
stage spam = closed
stage archived = stored

abbrev reopens_at : ℕ → TransitionOutcome
reopens_at i = if i == 1 then allowed else rejected

-- An open lead moves forward, closes or is archived; the last stage defers to the conversion; a
-- closed or archived lead reopens at UNDER_REVIEW, and a closed one may be archived.
abbrev by_stage : Stage → Stage → TransitionOutcome
by_stage (open_at i) (open_at j) = if ltb i j then allowed else rejected
by_stage (open_at i) done = if i == 4 then deferred_to_conversion_endpoint else rejected
by_stage (open_at i) closed = allowed
by_stage (open_at i) stored = allowed
by_stage done b = rejected
by_stage closed (open_at j) = reopens_at j
by_stage closed stored = allowed
by_stage closed done = rejected
by_stage closed closed = rejected
by_stage stored (open_at j) = reopens_at j
by_stage stored done = rejected
by_stage stored closed = rejected
by_stage stored stored = rejected

unfoldable pub outcome_by_stage : LeadStatus → LeadStatus → TransitionOutcome
unfolding stage
outcome_by_stage current next = by_stage (stage current) (stage next)

-- The transition matrix lets an open lead move to any later stage of the pipeline, be closed or be
-- archived, defers exactly the move from QUALIFIED to CONVERTED_TO_CLIENT, lets a closed lead reopen
-- at UNDER_REVIEW or be archived and an archived lead reopen at UNDER_REVIEW, and rejects every
-- other move, those from CONVERTED_TO_CLIENT among them.
pub get_transition_outcome-stage :
    (current next : LeadStatus)
    → get_transition_outcome current next ≡ outcome_by_stage current next
unfolding get_transition_outcome outcome_by_stage
get_transition_outcome-stage current next = outcome_eq→eq _ _ (
    every_pair (λ a b. outcome_eq (get_transition_outcome a b) (outcome_by_stage a b)) refl current
      next)

abbrev is_dismissed : LeadStatus → Bool
is_dismissed duplicate = true
is_dismissed spam = true
is_dismissed _ = false

abbrev pub asks_reason : Stage → LeadStatus → Bool
asks_reason (open_at i) next = is_dismissed next
asks_reason done next = false
asks_reason closed next = status_eq next under_review
asks_reason stored next = status_eq next under_review

-- A reason is required exactly to dismiss an open lead as a duplicate or as spam and to reopen a
-- closed or archived one, and only for moves that are allowed.
pub is_reason_required-stage :
    (current next : LeadStatus)
    → (is_reason_required current next ≡ asks_reason (stage current) next)
      × (is_reason_required current next ≡ true → get_transition_outcome current next ≡ allowed)
unfolding is_reason_required stage get_transition_outcome
is_reason_required-stage current next = (
  bool_eq _ _ (
      every_pair
        (λ a b.
          let asked = asks_reason (stage a) b in
          if is_reason_required a b then asked else not asked)
        refl current next),
  λ h. outcome_eq→eq _ _ (
      if_so _ _ h (
        every_pair
          (λ a b. not (is_reason_required a b) || outcome_eq (get_transition_outcome a b) allowed)
          refl current next)),
)

abbrev of_index : ℕ → LeadStatus
of_index i =
    if i == 0
    then new
    else if i == 1
    then under_review
    else if i == 2
    then contacted
    else if i == 3
    then consultation_scheduled
    else if i == 4
    then qualified
    else if i == 5
    then converted_to_client
    else if i == 6
    then not_proceeding
    else if i == 7
    then duplicate
    else if i == 8
    then spam
    else archived

of_index-index : (a : LeadStatus) → of_index (index a) ≡ a
of_index-index new = refl
of_index-index under_review = refl
of_index-index contacted = refl
of_index-index consultation_scheduled = refl
of_index-index qualified = refl
of_index-index converted_to_client = refl
of_index-index not_proceeding = refl
of_index-index duplicate = refl
of_index-index spam = refl
of_index-index archived = refl

pub status_eq→eq : (a b : LeadStatus) → status_eq a b ≡ true → a ≡ b
status_eq→eq a b h =
    sym (of_index-index a) ∙ ap of_index (==→eq (index a) (index b) h) ∙ of_index-index b

-- An allowed move neither leaves the converted status nor reaches it.
pub allowed_unconverted :
    (a b : LeadStatus)
    → get_transition_outcome a b ≡ allowed
    → status_eq a converted_to_client ≡ status_eq b converted_to_client
unfolding get_transition_outcome
allowed_unconverted a b h = bool_eq _ _ (
    if_so _ _ (ap (λ o. outcome_eq o allowed) h) (
      every_pair
        (λ a b.
          let after = status_eq b converted_to_client in
          not (outcome_eq (get_transition_outcome a b) allowed)
          || (if status_eq a converted_to_client then after else not after))
        refl a b))
