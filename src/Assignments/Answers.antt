-- ===== src/Assignments/Answers.antt =====
-- `setAssignment`: what its transaction answers, on every branch.
use heritage_philippines_v.Prelude.{
  ℕ, true, false, not, Option, none, some, ◌≡◌, refl, ap, ◌∙◌, ◌&&◌, ◌==◌, is_some, inl, inr,
  if◌then◌else◌, Bool-cases,
}
use heritage_philippines_v.Transaction.{Result, ok, err, domain, or_else, ◌>>=◌, ◌>>◌}
use heritage_philippines_v.Transaction.Runs.{
  run_gets, run_then, run_require, run_or_else, run_refuse, run_some, run_then_fail,
}
use heritage_philippines_v.Payments.Model.{Text, Role}
use heritage_philippines_v.Crm.Model.{Assignment, User}
use heritage_philippines_v.Crm.Store.{CrmStore, Runtime, is_present}
use heritage_philippines_v.Assignments.Model.{
  AssignmentErrorCode, assignee_not_found, assignee_inactive, assignee_ineligible_role,
  reason_required, TargetKind, role_eq,
}
use heritage_philippines_v.Assignments.Repository.{
  has_target, find_assignee_candidate_by_id, id_taken,
}
use heritage_philippines_v.Assignments.Slots.{OneActive}
use heritage_philippines_v.Assignments.Service.{
  not_found_error, assert_eligible, assert_eligible_assignee, find_active_assignment, unchanged,
  assign_anew, set_assignment_body,
}
use heritage_philippines_v.Assignments.Replacing.{
  new_row, assigned_store, Eligible, run_candidate_check, set_assignment_body-replaces,
}

-- Why the candidate may not be assigned, if so: there is none, they are not active, or they are not a
-- travel consultant.
abbrev pub candidate_error : Option User → Option AssignmentErrorCode
candidate_error none = some assignee_not_found
candidate_error (some u) =
    if u.is_active
    then (if role_eq u.role Role.travel_consultant then none else some assignee_ineligible_role)
    else some assignee_inactive

module _ (w : Runtime) (kind : TargetKind) (actor_id target_id staff : ℕ) (reason : Option Text)
    (s : CrmStore) where
  -- What the transaction answers where the staff member is not the assigned one, by what speaks
  -- against them.
  abbrev pub anew_answer :
      Option Assignment
      → Option AssignmentErrorCode
      → Result AssignmentErrorCode (Assignment × CrmStore)
  anew_answer active (some e) = err (domain e)
  anew_answer active none =
      if is_some active && not (is_present reason)
      then err (domain reason_required)
      else ok (
        new_row w kind actor_id target_id staff reason s,
        assigned_store w kind actor_id target_id staff reason s active,
      )

  -- What the transaction answers for a known target, by its active assignment.
  abbrev pub replacing_answer :
      Option User → Option Assignment → Result AssignmentErrorCode (Assignment × CrmStore)
  replacing_answer found none = anew_answer none (candidate_error found)
  replacing_answer found (some a) =
      if a.assigned_staff_id == staff
      then ok (a, s)
      else anew_answer (some a) (candidate_error found)

  reaches_choice :
      (active : Option Assignment)
      → has_target kind target_id s ≡ true
      → find_active_assignment kind target_id s ≡ active
      → set_assignment_body w kind actor_id target_id staff reason s
        ≡ or_else
            (unchanged staff active)
            (assign_anew w kind actor_id target_id staff reason active)
            s
  unfolding set_assignment_body
  reaches_choice active known held =
      run_gets _ _ s
      ∙ run_require _ _ s known
      ∙ run_gets _ _ s
      ∙ ap
          (λ a.
            or_else (unchanged staff a) (assign_anew w kind actor_id target_id staff reason a) s)
          held

  anew_refused :
      (active : Option Assignment) (e : AssignmentErrorCode)
      → assert_eligible_assignee staff s ≡ err (domain e)
      → assign_anew w kind actor_id target_id staff reason active s ≡ err (domain e)
  unfolding assign_anew
  anew_refused active e h = run_then_fail _ _ h

  anew_reasonless :
      (active : Option Assignment)
      → Eligible staff s
      → (is_some active && not (is_present reason)) ≡ true
      → assign_anew w kind actor_id target_id staff reason active s ≡ err (domain reason_required)
  unfolding assign_anew
  anew_reasonless active eligible missing =
      run_then _ _ (run_candidate_check staff s eligible) ∙ run_refuse _ _ s (ap not missing)

  check_missing :
      find_assignee_candidate_by_id staff s ≡ none
      → assert_eligible_assignee staff s ≡ err (domain assignee_not_found)
  unfolding assert_eligible_assignee assert_eligible ◌>>=◌ ◌>>◌
  check_missing looked = rw looked refl

  check_idle :
      (u : User)
      → find_assignee_candidate_by_id staff s ≡ some u
      → u.is_active ≡ false
      → assert_eligible_assignee staff s ≡ err (domain assignee_inactive)
  unfolding assert_eligible_assignee assert_eligible ◌>>=◌ ◌>>◌
  check_idle u looked idle = rw (looked, idle) refl

  check_role :
      (u : User)
      → find_assignee_candidate_by_id staff s ≡ some u
      → u.is_active ≡ true
      → role_eq u.role Role.travel_consultant ≡ false
      → assert_eligible_assignee staff s ≡ err (domain assignee_ineligible_role)
  unfolding assert_eligible_assignee assert_eligible ◌>>=◌ ◌>>◌
  check_role u looked on differs = rw (looked, on, differs) refl

  by_candidate :
      (active : Option Assignment) (found : Option User)
      → OneActive s
      → has_target kind target_id s ≡ true
      → find_active_assignment kind target_id s ≡ active
      → unchanged staff active ≡ none
      → find_assignee_candidate_by_id staff s ≡ found
      → id_taken (w.random_uuid 0) s.assignments ≡ false
      → set_assignment_body w kind actor_id target_id staff reason s
        ≡ anew_answer active (candidate_error found)
  by_candidate active none one known held other looked fresh =
      reaches_choice active known held
      ∙ run_or_else _ s other
      ∙ anew_refused active assignee_not_found (check_missing looked)
  by_candidate active (some u) one known held other looked fresh =
      let reach = reaches_choice active known held ∙ run_or_else _ s other in
      elim (Bool-cases u.is_active) [
        | inr idle ↦ rw idle (reach ∙ anew_refused active _ (check_idle u looked idle))
        | inl on ↦ elim (Bool-cases (role_eq u.role Role.travel_consultant)) [
          | inr differs ↦
              rw (on, differs) (reach ∙ anew_refused active _ (check_role u looked on differs))
          | inl fits ↦
              let eligible : Eligible staff s = record {
                candidate = u;
                found = looked;
                active = on;
                role = fits;
              } in
              elim (Bool-cases (is_some active && not (is_present reason))) [
                | inl missing ↦
                    rw (on, fits, missing) (reach ∙ anew_reasonless active eligible missing)
                | inr given ↦
                    rw (on, fits, given)
                      (set_assignment_body-replaces w kind actor_id target_id staff reason s active
                        one known held other eligible given fresh)
              ]
        ]
      ]

  by_active :
      (active : Option Assignment)
      → OneActive s
      → has_target kind target_id s ≡ true
      → find_active_assignment kind target_id s ≡ active
      → id_taken (w.random_uuid 0) s.assignments ≡ false
      → set_assignment_body w kind actor_id target_id staff reason s
        ≡ replacing_answer (find_assignee_candidate_by_id staff s) active
  by_active none one known held fresh = by_candidate none _ one known held refl refl fresh
  by_active (some a) one known held fresh = elim (Bool-cases (a.assigned_staff_id == staff)) [
    | inl same ↦ rw same (
        reaches_choice (some a) known held
        ∙ run_some a _ s (ap (λ b. if b then some a else none) same))
    | inr other ↦ rw other (
        by_candidate (some a) _ one known held (ap (λ b. if b then some a else none) other) refl
          fresh)
  ]

  unknown_target :
      has_target kind target_id s ≡ false
      → set_assignment_body w kind actor_id target_id staff reason s
        ≡ err (domain (not_found_error kind))
  unfolding set_assignment_body
  unknown_target gone = run_gets _ _ s ∙ run_refuse _ _ s gone

  -- Where each slot has at most one active assignment and the UUID is new, the transaction refuses an
  -- unknown target; it answers the active assignment and changes nothing where that is the staff
  -- member's; it refuses a staff member who does not exist, is not active or is not a travel consultant,
  -- and to replace an active assignment without a reason; and otherwise it ends the active assignment, if
  -- there is one, adds a new one of the staff member to the target, made by the actor, and one audit row,
  -- and changes nothing else.
  pub set_assignment_body-replacing_answer :
      OneActive s
      → id_taken (w.random_uuid 0) s.assignments ≡ false
      → set_assignment_body w kind actor_id target_id staff reason s ≡ (
          if has_target kind target_id s
          then replacing_answer
              (find_assignee_candidate_by_id staff s)
              (find_active_assignment kind target_id s)
          else err (domain (not_found_error kind)))
  set_assignment_body-replacing_answer one fresh = elim (Bool-cases (has_target kind target_id s)) [
    | inl known ↦ rw known (by_active _ one known refl fresh)
    | inr gone ↦ rw gone (unknown_target gone)
  ]
