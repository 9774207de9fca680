-- ===== src/Leads/Kept/Calling.antt =====
-- Every call of leads and assignments, and any interleaving of calls.
use heritage_philippines_v.Prelude.{ℕ, Bool, true, false, refl, Option, none, some, if◌then◌else◌}
use heritage_philippines_v.Transaction.{
  Result, ok, err, Tx, Action, Schedule, Commit, committed, conflicted, violated, broken,
}
use heritage_philippines_v.Transaction.Retry.{settle}
use heritage_philippines_v.Transaction.Rules.{Ensures}
use heritage_philippines_v.Transaction.Laws.{Keeps}
use heritage_philippines_v.Transaction.Safe.{Safe, run-Safe, with_handler-Safe}
use heritage_philippines_v.Payments.Model.{Text, AuthenticatedUser}
use heritage_philippines_v.Payments.Currencies.{trim}
use heritage_philippines_v.Crm.Model.{LeadRecord}
use heritage_philippines_v.Crm.Store.{CrmStore, Runtime}
use heritage_philippines_v.Crm.Calls.{permit, rethrow_as_conflict, run_with_conflict}
use heritage_philippines_v.Assignments.Model.{reason_required, TargetKind}
use heritage_philippines_v.Assignments.Service.{
  is_admin_manager, set_assignment, end_assignment, run_assignment_transaction,
}
use heritage_philippines_v.Assignments.Finance.{
  is_filled, end_booking_finance_assignment_body, set_booking_finance_assignment,
  end_booking_finance_assignment,
}
use heritage_philippines_v.Leads.Repository.{LeadActor, find_lead_by_id}
use heritage_philippines_v.Assignments.Authorization.{can_access_lead}
use heritage_philippines_v.Leads.Service.Actors.{
  LeadErrorCode, lead_conflict, validation_error, client_link_not_available, not_found_or_forbidden,
  LeadTx, LeadAction, assert_lead_actor, permitted, as_lead_actor, run_plain,
}
use heritage_philippines_v.Leads.Service.Duplicates.{DuplicateMatchResult}
use heritage_philippines_v.Leads.Service.Create.{CreateLeadInput, with_duplicates, create_lead}
use heritage_philippines_v.Leads.Service.Update.{
  UpdateLeadInput, updated_with, is_empty, keeps_contact, changed_fields, update_data,
  update_lead_body, write_changes, on_found, update_existing, update_lead,
}
use heritage_philippines_v.Leads.Service.Status.{UpdateLeadStatusInput, update_lead_status}
use heritage_philippines_v.Leads.Service.Convert.{client_allowed, convert_lead_body, convert_lead}
use heritage_philippines_v.Leads.Kept.{Kept}
use heritage_philippines_v.Leads.Kept.Moving.{
  create_lead_body-Kept, update_lead_body-Kept, update_lead_status_body-Kept,
}
use heritage_philippines_v.Leads.Kept.Converting.{convert_lead_body-Kept}
use heritage_philippines_v.Leads.Kept.Assigning.{
  set_assignment_body-Kept, end_assignment_body-Kept, set_booking_finance_assignment_body-Kept,
  end_booking_finance_assignment_body-Kept,
}

-- The calls that change the store.
pub data CrmRequest : Type 0 where
  create : CreateLeadInput → CrmRequest
  update : ℕ → UpdateLeadInput → CrmRequest
  move : ℕ → UpdateLeadStatusInput → CrmRequest
  convert : ℕ → Option ℕ → CrmRequest
  assign : TargetKind → ℕ → ℕ → Option Text → CrmRequest
  unassign : TargetKind → ℕ → Text → CrmRequest
  assign_finance : ℕ → ℕ → Option Text → CrmRequest
  unassign_finance : ℕ → Text → CrmRequest

-- The store that the call of a request leaves.
unfoldable pub serve :
    Runtime → Schedule CrmStore → AuthenticatedUser → CrmRequest → CrmStore → CrmStore
serve w schedule actor (create input) s = (create_lead w schedule actor input s).1
serve w schedule actor (update id input) s = (update_lead w schedule actor id input s).1
serve w schedule actor (move id input) s = (update_lead_status w schedule actor id input s).1
serve w schedule actor (convert id wanted) s = (convert_lead w schedule actor id wanted s).1
serve w schedule actor (assign kind id staff reason) s =
    (set_assignment w schedule kind actor id staff reason s).1
serve w schedule actor (unassign kind id reason) s =
    (end_assignment w schedule kind actor id reason s).1
serve w schedule actor (assign_finance id staff reason) s =
    (set_booking_finance_assignment w schedule actor id staff reason s).1
serve w schedule actor (unassign_finance id reason) s =
    (end_booking_finance_assignment w schedule actor id reason s).1

module _ (P : CrmStore → Type 0) (schedule : Schedule CrmStore) (others : Keeps P schedule) where
  permit-Safe :
      {E A : Type 0} (b : Bool) (code : E) (call : Action CrmStore E A)
      → Safe P call
      → Safe P (permit b code call)
  unfolding permit
  permit-Safe true code call safe = safe
  permit-Safe false code call safe = λ s h. h

  run_with_conflict-Safe :
      {E A : Type 0} (code : E) (fn : Tx CrmStore E A)
      → ((s : CrmStore) → P s → Ensures (λ a t. P t) (fn s))
      → Safe P (run_with_conflict code schedule fn)
  unfolding run_with_conflict rethrow_as_conflict
  run_with_conflict-Safe code fn keeps =
      with_handler-Safe P schedule _ _ (run-Safe P schedule fn others keeps) (λ e s h. h)

  as_lead_actor-Safe :
      {A : Type 0} (actor : AuthenticatedUser) (body : LeadActor → LeadAction A)
      → ((a : LeadActor) → Safe P (body a))
      → Safe P (as_lead_actor actor body)
  unfolding as_lead_actor
  as_lead_actor-Safe actor body safe s h = go (assert_lead_actor actor)
    where
      go : (o : Option LeadActor) → P (permitted o body s).1
      go none = h
      go (some a) = safe a s h

  settle-holds :
      {A : Type 0} (c : Commit) (s : CrmStore) (r : Result LeadErrorCode (A × CrmStore))
      → P s
      → Ensures (λ a t. P t) r
      → P (settle c s r).1
  settle-holds committed s (ok (a, t)) h after = after.at a t refl
  settle-holds conflicted s (ok (a, t)) h after = h
  settle-holds broken s (ok (a, t)) h after = h
  settle-holds (violated v) s (ok (a, t)) h after = h
  settle-holds committed s (err e) h after = h
  settle-holds conflicted s (err e) h after = h
  settle-holds broken s (err e) h after = h
  settle-holds (violated v) s (err e) h after = h

  run_plain-Safe :
      {A : Type 0} (fn : LeadTx A)
      → ((s : CrmStore) → P s → Ensures (λ a t. P t) (fn s))
      → Safe P (run_plain schedule fn)
  unfolding run_plain
  run_plain-Safe fn keeps s h =
      let start = others.before 1 s h in
      settle-holds (schedule.attempt 1).outcome _ (fn ((schedule.attempt 1).others s)) start
        (keeps _ start)

  with_duplicates-holds :
      (d : DuplicateMatchResult) (r : Result LeadErrorCode LeadRecord × CrmStore)
      → P r.1
      → P (with_duplicates d r).1
  with_duplicates-holds d (ok l, s) h = h
  with_duplicates-holds d (err e, s) h = h

  updated_with-holds :
      (d : Option DuplicateMatchResult) (r : Result LeadErrorCode LeadRecord × CrmStore)
      → P r.1
      → P (updated_with d r).1
  updated_with-holds d (ok l, s) h = h
  updated_with-holds d (err e, s) h = h

  if-holds :
      {E A : Type 0} (b : Bool) (r q : Result E A × CrmStore)
      → P r.1
      → P q.1
      → P (if b then r else q).1
  if-holds true r q h k = h
  if-holds false r q h k = k

  on_found-Safe :
      {A : Type 0} (a : LeadActor) (body : LeadRecord → LeadAction A) (found : Option LeadRecord)
      → ((l : LeadRecord) → Safe P (body l))
      → Safe P (on_found a body found)
  on_found-Safe a body none safe s h = h
  on_found-Safe a body (some l) safe s h = safe l s h

  module _ (kept : Kept P) (w : Runtime) (actor : AuthenticatedUser) where
    create_lead-Safe : (input : CreateLeadInput) → Safe P (create_lead w schedule actor input)
    unfolding create_lead
    create_lead-Safe input = as_lead_actor-Safe actor _ (λ a s h.
        with_duplicates-holds _ _ (run_plain-Safe _ (create_lead_body-Kept P kept w a input) s h))

    write_changes-Safe :
        (a : LeadActor) (id : ℕ) (input : UpdateLeadInput) (l : LeadRecord)
        → Safe P (write_changes w schedule actor a id input l)
    unfolding write_changes
    write_changes-Safe a id input l s h =
        if-holds (is_empty (changed_fields (update_data w input l))) _ _ h (
          updated_with-holds _ _ (
            run_with_conflict-Safe lead_conflict (update_lead_body w a id input l)
              (update_lead_body-Kept P kept w a id input l) s h))

    update_existing-Safe :
        (a : LeadActor) (id : ℕ) (input : UpdateLeadInput) (l : LeadRecord)
        → Safe P (update_existing w schedule actor a id input l)
    unfolding update_existing
    update_existing-Safe a id input l =
        permit-Safe _ _
          (permit (keeps_contact input l) validation_error
            (write_changes w schedule actor a id input l))
          (permit-Safe _ _ (write_changes w schedule actor a id input l)
            (write_changes-Safe a id input l))

    update_lead-Safe :
        (id : ℕ) (input : UpdateLeadInput) → Safe P (update_lead w schedule actor id input)
    unfolding update_lead update_existing
    update_lead-Safe id input = as_lead_actor-Safe actor _ (λ a s h.
        permit-Safe (can_access_lead actor id s) (not_found_or_forbidden a)
          (λ t. on_found a (update_existing w schedule actor a id input) (find_lead_by_id id t) t)
          (λ t k. on_found-Safe a _ (find_lead_by_id id t) (update_existing-Safe a id input) t k) s
          h)

    update_lead_status-Safe :
        (id : ℕ) (input : UpdateLeadStatusInput)
        → Safe P (update_lead_status w schedule actor id input)
    unfolding update_lead_status
    update_lead_status-Safe id input = as_lead_actor-Safe actor _ (λ a s h.
        permit-Safe _ _ _
          (run_with_conflict-Safe _ _ (update_lead_status_body-Kept P kept w a id input)) s h)

    convert_lead-Safe :
        (id : ℕ) (wanted : Option ℕ) → Safe P (convert_lead w schedule actor id wanted)
    unfolding convert_lead
    convert_lead-Safe id wanted = as_lead_actor-Safe actor _ (λ a s h.
        let call = run_with_conflict lead_conflict schedule (convert_lead_body w a id wanted) in
        let linked = client_allowed actor wanted s in
        permit-Safe (can_access_lead actor id s) (not_found_or_forbidden a)
          (permit linked client_link_not_available call)
          (permit-Safe linked client_link_not_available call
            (run_with_conflict-Safe lead_conflict _ (convert_lead_body-Kept P kept w a id wanted)))
          s h)

    pub serve-Safe :
        (request : CrmRequest) (s : CrmStore) → P s → P (serve w schedule actor request s)
    unfolding serve set_assignment end_assignment set_booking_finance_assignment
        end_booking_finance_assignment run_assignment_transaction
    serve-Safe (create input) = create_lead-Safe input
    serve-Safe (update id input) = update_lead-Safe id input
    serve-Safe (move id input) = update_lead_status-Safe id input
    serve-Safe (convert id wanted) = convert_lead-Safe id wanted
    serve-Safe (assign kind id staff reason) = permit-Safe _ _ _ (
        run_with_conflict-Safe _ _
          (set_assignment_body-Kept P kept w kind actor.id id staff reason))
    serve-Safe (unassign kind id reason) =
        permit-Safe _ _ _
          (run_with_conflict-Safe _ _ (end_assignment_body-Kept P kept w kind actor.id id reason))
    serve-Safe (assign_finance id staff reason) = permit-Safe _ _ _ (
        run_with_conflict-Safe _ _
          (set_booking_finance_assignment_body-Kept P kept w actor.id id staff reason))
    serve-Safe (unassign_finance id reason) =
        let call =
          run_assignment_transaction schedule
            (end_booking_finance_assignment_body w actor.id id (trim reason)) in
        permit-Safe (is_admin_manager actor) _
          (permit (is_filled (trim reason)) reason_required call)
          (permit-Safe (is_filled (trim reason)) reason_required call (
            run_with_conflict-Safe _ _
              (end_booking_finance_assignment_body-Kept P kept w actor.id id (trim reason))))
