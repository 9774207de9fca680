-- ===== src/Assignments/Replacing.antt =====
-- Assigning a travel consultant: the whole effect of the transaction that `setAssignment` runs.
use heritage_philippines_v.Prelude.{
  ℕ, true, false, not, Option, none, some, List, ◌∷◌, ◌++◌, ◌≡◌, refl, sym, ap, ◌∙◌, ◌&&◌, ◌==◌,
  find, any, is_some, Option-cases, inl, inr, true-false, subst, map, update_where-map,
  if◌then◌else◌,
}
use heritage_philippines_v.Transaction.{ok, pure, or_else, ◌>>=◌, ◌>>◌}
use heritage_philippines_v.Transaction.Runs.{run_bind, run_gets, run_then, run_require, run_or_else}
use heritage_philippines_v.Payments.Model.{Text, Role}
use heritage_philippines_v.Crm.Model.{Assignment, User, AuditLog}
use heritage_philippines_v.Crm.Store.{CrmStore, Runtime, write_unless, updated_row, is_present}
use heritage_philippines_v.Crm.Writes.{run_audit, run_pure}
use heritage_philippines_v.Assignments.Model.{
  AssignmentErrorCode, TargetKind, lead, client, booking, role_eq,
}
use heritage_philippines_v.Assignments.Audit.{entity_type, sanitize_assignment_snapshot}
use heritage_philippines_v.Assignments.Repository.{
  Slot, of_lead, of_client, of_booking, fills, has_target, find_assignee_candidate_by_id, id_taken,
  create_assignment, ended, end_row, end_assignment_by_id,
}
use heritage_philippines_v.Assignments.Slots.{OneActive}
use heritage_philippines_v.Assignments.Rows.{find-by_id, freed, unheld, id_taken-end_row}
use heritage_philippines_v.Assignments.Service.{
  assert_eligible, assert_eligible_assignee, find_active_assignment, assignment_row,
  replacement_action, snapshot_before, reason_key, unchanged, end_active, assign_anew,
  set_assignment_body,
}

-- The slot that an assignment of the kind holds.
abbrev pub slot_of : TargetKind → ℕ → Slot
slot_of lead id = of_lead id
slot_of client id = of_client id
slot_of booking id = of_booking id Role.travel_consultant

pub find_active-slot :
    (kind : TargetKind) (id : ℕ) (s : CrmStore)
    → find_active_assignment kind id s ≡ find (fills (slot_of kind id)) s.assignments
unfolding find_active_assignment
find_active-slot lead id s = refl
find_active-slot client id s = refl
find_active-slot booking id s = refl

-- The rows once the active one, if any, is ended.
abbrev pub ended_rows : ℕ → Option Assignment → List Assignment → List Assignment
ended_rows now none xs = xs
ended_rows now (some a) xs =
    map (λ b. if b.id == a.id then record b { ended_at = some now; updated_at = now } else b) xs

ended_rows-end_row :
    (now : ℕ) (a : Assignment) (xs : List Assignment)
    → end_row now a.id xs ≡ ended_rows now (some a) xs
ended_rows-end_row now a xs = update_where-map (λ b. b.id == a.id) (ended now) xs

module _ (s : CrmStore) (kind : TargetKind) (id : ℕ) where
  run_end :
      (now row_id : ℕ) (b : Assignment)
      → find (λ a. a.id == row_id) s.assignments ≡ some b
      → end_assignment_by_id {E = AssignmentErrorCode} now row_id s
        ≡ ok (ended now b, record s { assignments = end_row now row_id s.assignments })
  unfolding end_assignment_by_id ◌>>=◌ ◌>>◌ updated_row
  run_end now row_id b found = rw found refl

  run_end_active :
      (now : ℕ) (active : Option Assignment)
      → find_active_assignment kind id s ≡ active
      → end_active now active s
        ≡ ok (tt, record s { assignments = ended_rows now active s.assignments })
  unfolding end_active pure
  run_end_active now none e = refl
  run_end_active now (some a) e =
      let held = sym (find_active-slot kind id s) ∙ e in
      elim (Option-cases (find (λ b. b.id == a.id) s.assignments)) [
        | inl gone ↦
            elim (true-false (sym (ap is_some gone) ∙ find-by_id _ s.assignments a held)) [ ]
        | inr (b, found) ↦
            run_bind _ _ (run_end now a.id b found)
            ∙ ap (λ xs. ok (tt, record s { assignments = xs }))
                (ended_rows-end_row now a s.assignments)
      ]

  freed_rows :
      (now : ℕ) (active : Option Assignment)
      → OneActive s
      → find_active_assignment kind id s ≡ active
      → any (fills (slot_of kind id)) (ended_rows now active s.assignments) ≡ false
  freed_rows now none one e =
      unheld (slot_of kind id) s.assignments (sym (find_active-slot kind id s) ∙ e)
  freed_rows now (some a) one e =
      subst (λ xs. any (fills (slot_of kind id)) xs ≡ false)
        (ended_rows-end_row now a s.assignments)
        (freed _ now s.assignments a (one.at (slot_of kind id))
          (sym (find_active-slot kind id s) ∙ e))

run_create_assignment :
    (s : CrmStore) (now : ℕ) (kind : TargetKind) (target_id id staff by : ℕ)
    → id_taken id s.assignments ≡ false
    → any (fills (slot_of kind target_id)) s.assignments ≡ false
    → create_assignment {E = AssignmentErrorCode} (assignment_row now kind target_id id staff by) s
      ≡ ok (
        assignment_row now kind target_id id staff by,
        record s { assignments = assignment_row now kind target_id id staff by ∷ s.assignments },
      )
unfolding create_assignment ◌>>=◌ ◌>>◌ write_unless
run_create_assignment s now lead target_id id staff by fresh free = rw (fresh, free) refl
run_create_assignment s now client target_id id staff by fresh free = rw (fresh, free) refl
run_create_assignment s now booking target_id id staff by fresh free = rw (fresh, free) refl

-- Who may be assigned: an active travel consultant.
pub record Eligible (staff : ℕ) (s : CrmStore) : Type 0 where
  pub candidate : User
  pub found : find_assignee_candidate_by_id staff s ≡ some candidate
  pub active : candidate.is_active ≡ true
  pub role : role_eq candidate.role Role.travel_consultant ≡ true

pub run_candidate_check :
    (staff : ℕ) (s : CrmStore) → Eligible staff s → assert_eligible_assignee staff s ≡ ok (tt, s)
unfolding assert_eligible_assignee assert_eligible ◌>>=◌ ◌>>◌
run_candidate_check staff s e = rw (e.found, e.active, e.role) refl

-- The audit row of an assignment.
abbrev pub assignment_audit :
    TargetKind → ℕ → ℕ → Option Text → Option Assignment → Assignment → AuditLog
assignment_audit kind actor_id target_id reason active row = record {
  actor_id = actor_id;
  action = replacement_action kind active;
  entity_type = entity_type kind;
  entity_id = target_id;
  before_state = snapshot_before active;
  after_state = some (sanitize_assignment_snapshot row ++ reason_key reason);
}

module _ (w : Runtime) (kind : TargetKind) (actor_id target_id staff : ℕ) (reason : Option Text)
    (s : CrmStore) where
  abbrev pub new_row : Assignment
  new_row = record {
    id = w.random_uuid 0;
    assigned_staff_id = staff;
    assigned_by_user_id = actor_id;
    role = Role.travel_consultant;
    lead_id = elim kind [ lead ↦ some target_id | _ ↦ none ];
    client_id = elim kind [ client ↦ some target_id | _ ↦ none ];
    booking_id = elim kind [ booking ↦ some target_id | _ ↦ none ];
    ended_at = none;
    created_at = w.now;
    updated_at = w.now;
  }

  -- The store after the assignment: the active row is ended, the new one added, and one audit row.
  abbrev pub assigned_store : Option Assignment → CrmStore
  assigned_store active = record s {
    assignments = new_row ∷ ended_rows w.now active s.assignments;
    audit_log = assignment_audit kind actor_id target_id reason active new_row ∷ s.audit_log;
  }

  id_free :
      (active : Option Assignment)
      → id_taken (w.random_uuid 0) s.assignments ≡ false
      → id_taken (w.random_uuid 0) (ended_rows w.now active s.assignments) ≡ false
  id_free none h = h
  id_free (some a) h =
      ap (id_taken (w.random_uuid 0)) (sym (ended_rows-end_row w.now a s.assignments))
      ∙ id_taken-end_row w.now a.id (w.random_uuid 0) s.assignments
      ∙ h

  -- Where each slot has at most one active assignment, the target is known, it is not assigned to
  -- the staff member yet, that member is an active travel consultant, a reason is given if an active
  -- assignment is replaced, and the call's UUID is new: the transaction ends the active assignment,
  -- if there is one, now, adds a new one of the staff member to the target, made by the actor, and
  -- one audit row, and changes nothing else.
  pub set_assignment_body-replaces :
      (active : Option Assignment)
      → OneActive s
      → has_target kind target_id s ≡ true
      → find_active_assignment kind target_id s ≡ active
      → unchanged staff active ≡ none
      → Eligible staff s
      → (is_some active && not (is_present reason)) ≡ false
      → id_taken (w.random_uuid 0) s.assignments ≡ false
      → set_assignment_body w kind actor_id target_id staff reason s
        ≡ ok (new_row, assigned_store active)
  unfolding set_assignment_body
  set_assignment_body-replaces active one known held other eligible given fresh =
      run_gets _ _ s
      ∙ run_require _ _ s known
      ∙ run_gets _ _ s
      ∙ ap
          (λ a.
            or_else (unchanged staff a) (assign_anew w kind actor_id target_id staff reason a) s)
          held
      ∙ run_or_else _ s other
      ∙ run_then _ _ (run_candidate_check staff s eligible)
      ∙ run_require _ _ s (ap not given)
      ∙ run_then _ _ (run_end_active s kind target_id w.now active held)
      ∙ run_bind _ _ (
          run_create_assignment _ w.now kind target_id (w.random_uuid 0) staff actor_id
            (id_free active fresh) (freed_rows s kind target_id w.now active one held))
      ∙ run_then _ _ (run_audit _ (assignment_audit kind actor_id target_id reason active new_row))
      ∙ run_pure _ new_row
