-- ===== src/Assignments/Tests.antt =====
-- Replacing an assignment on a concrete store.
use heritage_philippines_v.Prelude.{true, Option, some, [], ◌∷◌, ◌≡◌, ◌+◌, refl, arith}
use heritage_philippines_v.Transaction.{ok}
use heritage_philippines_v.Payments.Model.{Text, Role}
use heritage_philippines_v.Crm.Model.{Assignment, User}
use heritage_philippines_v.Crm.Store.{CrmStore, Runtime}
use heritage_philippines_v.Assignments.Model.{TargetKind}
use heritage_philippines_v.Assignments.Repository.{
  has_target, find_active, find_active_assignment_for_booking, find_assignee_candidate_by_id,
}
use heritage_philippines_v.Assignments.Service.{
  assignment_row, set_assignment_body, find_active_assignment,
}
use heritage_philippines_v.Assignments.Replacing.{new_row, assigned_store}
use heritage_philippines_v.Assignments.Answers.{set_assignment_body-replacing_answer}

abbrev runtime : Runtime
runtime = record {
  to_lower_case = λ t. t;
  contains = λ t u. true;
  random_uuid = λ n. 100 + n;
  now = 5;
  by_name = λ us. us;
}

abbrev cora : User
cora = record {
  id = 3;
  name = 67 ∷ [];
  email = 99 ∷ [];
  role = Role.travel_consultant;
  is_active = true;
}

-- Booking 8 is assigned to staff member 2.
abbrev held : Assignment
held = assignment_row 1 TargetKind.booking 8 30 2 1

abbrev store : CrmStore
store = record {
  leads = [];
  history = [];
  clients = [];
  bookings = 8 ∷ [];
  assignments = held ∷ [];
  users = cora ∷ [];
  profiles = [];
  audit_log = [];
}

abbrev leaves : Option Text
leaves = some (120 ∷ [])

set_assignment_body-replacing_answer_example :
    set_assignment_body runtime TargetKind.booking 1 8 3 leaves store
    ≡ ok (
      new_row runtime TargetKind.booking 1 8 3 leaves store,
      assigned_store runtime TargetKind.booking 1 8 3 leaves store (some held),
    )
unfolding has_target find_active_assignment find_active_assignment_for_booking find_active
    find_assignee_candidate_by_id
set_assignment_body-replacing_answer_example =
    set_assignment_body-replacing_answer runtime TargetKind.booking 1 8 3 leaves store
      (record { at = λ slot. ground arith }) refl
