-- ===== src/Leads/Reads.antt =====
-- apps/web/src/features/leads/repository.ts: a lead with its assignment, the list of the leads that
-- an actor may see and the list of a lead's status changes.
use heritage_philippines_v.Prelude.{
  ℕ, zero, suc, Bool, true, false, Option, none, some, List, [], ◌∷◌, map, ◌&&◌, ◌||◌, ◌==◌, length,
  find, any, select,
}
use heritage_philippines_v.Payments.Model.{Text}
use heritage_philippines_v.Payments.Currencies.{text_eq}
use heritage_philippines_v.Crm.Model.{LeadStatus, LeadRecord, LeadStatusHistory, Assignment, User}
use heritage_philippines_v.Crm.Store.{CrmStore, Runtime}
use heritage_philippines_v.Leads.Transitions.{status_eq}
use heritage_philippines_v.Assignments.Repository.{fills, of_lead}
use heritage_philippines_v.Leads.Repository.{LeadActorRole, LeadActor, find_lead_by_id}

pub record LeadAssignmentView : Type 0 where
  pub staff_id : ℕ
  pub staff_name : Text

pub record LeadRecordWithAssignment : Type 0 where
  pub lead : LeadRecord
  pub assignment : Option LeadAssignmentView

abbrev name_in : Option User → Text
name_in none = []
name_in (some u) = u.name

abbrev name_of : List User → ℕ → Text
name_of users id = name_in (find (λ u. u.id == id) users)

abbrev assignment_view : List User → Option Assignment → Option LeadAssignmentView
assignment_view users none = none
assignment_view users (some a) =
    some (record { staff_id = a.assigned_staff_id; staff_name = name_of users a.assigned_staff_id })

unfoldable pub to_lead_record_with_assignment : CrmStore → LeadRecord → LeadRecordWithAssignment
to_lead_record_with_assignment s l = record {
  lead = l;
  assignment = assignment_view s.users (find (fills (of_lead l.id)) s.assignments);
}

unfoldable pub find_lead_by_id_for_read : ℕ → CrmStore → Option LeadRecordWithAssignment
unfolding find_lead_by_id to_lead_record_with_assignment
find_lead_by_id_for_read id s = elim (find_lead_by_id id s) [
  | none ↦ none
  | some l ↦ some (to_lead_record_with_assignment s l)
]

abbrev pub in_scope : CrmStore → LeadActor → LeadRecord → Bool
in_scope s actor l = elim actor.role [
  | LeadActorRole.admin_manager ↦ true
  | LeadActorRole.travel_consultant ↦
      any (λ a. fills (of_lead l.id) a && a.assigned_staff_id == actor.id) s.assignments
]

pub record ListLeadsParams : Type 0 where
  pub skip : ℕ
  pub take : ℕ
  pub status : Option LeadStatus
  pub source : Option Text
  pub search : Option Text

abbrev pub has_status : Option LeadStatus → LeadRecord → Bool
has_status none l = true
has_status (some status) l = status_eq l.status status

abbrev pub has_source : Option Text → LeadRecord → Bool
has_source none l = true
has_source (some []) l = true
has_source (some (c ∷ t)) l = text_eq l.source (c ∷ t)

abbrev text_contains : Runtime → Text → Option Text → Bool
text_contains w search none = false
text_contains w search (some t) = w.contains t search

abbrev pub has_search : Runtime → Option Text → LeadRecord → Bool
has_search w none l = true
has_search w (some []) l = true
has_search w (some (c ∷ t)) l =
    w.contains l.full_name (c ∷ t)
    || text_contains w (c ∷ t) l.email
    || text_contains w (c ∷ t) l.phone

abbrev pub drop_rows : {A : Type 0} → ℕ → List A → List A
drop_rows zero xs = xs
drop_rows (suc n) [] = []
drop_rows (suc n) (x ∷ xs) = drop_rows n xs

abbrev pub take_rows : {A : Type 0} → ℕ → List A → List A
take_rows zero xs = []
take_rows (suc n) [] = []
take_rows (suc n) (x ∷ xs) = x ∷ take_rows n xs

abbrev pub page_of : {A : Type 0} → ℕ → ℕ → List A → List A
page_of skip take rows = take_rows take (drop_rows skip rows)

abbrev pub matching_leads : Runtime → LeadActor → ListLeadsParams → CrmStore → List LeadRecord
matching_leads w actor params s =
    select
      (λ l.
        in_scope s actor l
        && has_status params.status l
        && has_source params.source l
        && has_search w params.search l)
      s.leads

unfoldable pub list_leads_for_actor :
    Runtime → LeadActor → ListLeadsParams → CrmStore → List LeadRecordWithAssignment × ℕ
unfolding to_lead_record_with_assignment
list_leads_for_actor w actor params s =
    let rows = matching_leads w actor params s in
    (map (to_lead_record_with_assignment s) (page_of params.skip params.take rows), length rows)

pub record LeadStatusHistoryRow : Type 0 where
  pub id : ℕ
  pub previous_status : Option LeadStatus
  pub new_status : LeadStatus
  pub changed_by_user_id : ℕ
  pub changed_by_name : Option Text

abbrev row_name : Option User → Option Text
row_name none = none
row_name (some u) = some u.name

abbrev to_history_row : List User → LeadStatusHistory → LeadStatusHistoryRow
to_history_row users h = record {
  id = h.id;
  previous_status = h.previous_status;
  new_status = h.new_status;
  changed_by_user_id = h.changed_by_user_id;
  changed_by_name = row_name (find (λ u. u.id == h.changed_by_user_id) users);
}

unfoldable pub history_of : List LeadStatusHistory → ℕ → List LeadStatusHistory
history_of history lead_id = select (λ h. h.lead_id == lead_id) history

unfoldable pub list_lead_status_history : ℕ → ℕ → ℕ → CrmStore → List LeadStatusHistoryRow × ℕ
unfolding history_of
list_lead_status_history lead_id skip take s =
    let rows = history_of s.history lead_id in
    (map (to_history_row s.users) (page_of skip take rows), length rows)
