-- ===== src/Assignments/Repository.antt =====
-- apps/web/src/features/assignments/repository.ts: the rows that the services read and write. The
-- database keeps one active assignment for each lead, each client, and each booking and role: its
-- partial unique indexes refuse a second one.
use heritage_philippines_v.Prelude.{
  ℕ, Bool, false, not, Option, none, some, List, ◌∷◌, ◌&&◌, ◌==◌, find, any, update_where, is_some,
}
use heritage_philippines_v.Transaction.{pure, gets, modify, ◌>>=◌, ◌>>◌}
use heritage_philippines_v.Payments.Model.{Role}
use heritage_philippines_v.Crm.Model.{Assignment, User, ClientProfile}
use heritage_philippines_v.Crm.Store.{CrmStore, CrmTx, write_unless, updated_row}
use heritage_philippines_v.Assignments.Model.{TargetKind, lead, client, booking, role_eq}

abbrev pub is_id : Option ℕ → ℕ → Bool
is_id none id = false
is_id (some k) id = k == id

-- `endedAt: null`
abbrev pub is_active : Assignment → Bool
is_active a = not (is_some a.ended_at)

-- What an active assignment is unique for, and what the lookups ask for: a target and, for a
-- booking, a role.
pub data Slot : Type 0 where
  of_lead of_client : ℕ → Slot
  of_booking : ℕ → Role → Slot

abbrev pub fills : Slot → Assignment → Bool
fills (of_lead id) a = is_id a.lead_id id && is_active a
fills (of_client id) a = is_id a.client_id id && is_active a
fills (of_booking id role) a = is_id a.booking_id id && role_eq a.role role && is_active a

unfoldable pub find_active : Slot → List Assignment → Option Assignment
find_active slot assignments = find (fills slot) assignments

unfoldable pub find_active_assignment_for_lead : ℕ → CrmStore → Option Assignment
unfolding find_active
find_active_assignment_for_lead lead_id s = find_active (of_lead lead_id) s.assignments

unfoldable pub find_active_assignment_for_client : ℕ → CrmStore → Option Assignment
unfolding find_active
find_active_assignment_for_client client_id s = find_active (of_client client_id) s.assignments

unfoldable pub find_active_assignment_for_booking : ℕ → CrmStore → Option Assignment
unfolding find_active
find_active_assignment_for_booking booking_id s =
    find_active (of_booking booking_id Role.travel_consultant) s.assignments

unfoldable pub find_active_finance_assignment_for_booking : ℕ → CrmStore → Option Assignment
unfolding find_active
find_active_finance_assignment_for_booking booking_id s =
    find_active (of_booking booking_id Role.finance_accounting) s.assignments

abbrev has_lead : ℕ → CrmStore → Bool
has_lead id s = any (λ l. l.id == id) s.leads

abbrev has_client : ℕ → CrmStore → Bool
has_client id s = any (λ c. c.id == id) s.clients

abbrev pub has_booking : ℕ → CrmStore → Bool
has_booking id s = any (λ b. b == id) s.bookings

-- Whether `findTarget` finds a row.
unfoldable pub has_target : TargetKind → ℕ → CrmStore → Bool
has_target lead id s = has_lead id s
has_target client id s = has_client id s
has_target booking id s = has_booking id s

unfoldable pub find_assignee_candidate_by_id : ℕ → CrmStore → Option User
find_assignee_candidate_by_id id s = find (λ u. u.id == id) s.users

unfoldable pub find_client_profile_ownership : ℕ → ℕ → CrmStore → Option ClientProfile
find_client_profile_ownership user_id client_id s =
    find (λ p. p.user_id == user_id && p.client_id == client_id) s.profiles

-- The row's own slots are taken: `ON staff_assignment(...) WHERE "endedAt" IS NULL`.
abbrev pub taken_for : Option ℕ → (ℕ → Slot) → List Assignment → Bool
taken_for none slot assignments = false
taken_for (some id) slot assignments = any (fills (slot id)) assignments

abbrev pub id_taken : ℕ → List Assignment → Bool
id_taken id assignments = any (λ a. a.id == id) assignments

unfoldable pub create_assignment : {E : Type 0} → Assignment → CrmTx E Assignment
create_assignment row = do
  known ← gets (λ s. id_taken row.id s.assignments)
  write_unless known "StaffAssignment" "id" (λ s. s)
  on_lead ← gets (λ s. taken_for row.lead_id of_lead s.assignments)
  write_unless on_lead "StaffAssignment" "leadId" (λ s. s)
  on_client ← gets (λ s. taken_for row.client_id of_client s.assignments)
  write_unless on_client "StaffAssignment" "clientId" (λ s. s)
  on_booking ← gets (λ s. taken_for row.booking_id (λ id. of_booking id row.role) s.assignments)
  write_unless on_booking "StaffAssignment" "bookingId"
      (λ s. record s { assignments = row ∷ s.assignments })
  pure row

abbrev pub ended : ℕ → Assignment → Assignment
ended now a = record a { ended_at = some now; updated_at = now }

abbrev pub end_row : ℕ → ℕ → List Assignment → List Assignment
end_row now id = update_where (λ a. a.id == id) (ended now)

-- `endAssignmentById` and `endRoleAssignmentById`; `now` is `new Date()`.
unfoldable pub end_assignment_by_id : {E : Type 0} → ℕ → ℕ → CrmTx E Assignment
end_assignment_by_id now id = do
  found ← gets (λ s. find (λ a. a.id == id) s.assignments)
  row ← updated_row (ended now) found
  modify (λ s. record s { assignments = end_row now id s.assignments })
  pure row
