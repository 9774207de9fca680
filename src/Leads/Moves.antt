-- ===== src/Leads/Moves.antt =====
-- `updateLeadStatus`: the whole effect of a move, and of the same call made again.
use heritage_philippines_v.Prelude.{
  Bool-cases, inl, inr, some_eq, none-some, ℕ, Bool, true, false, not, Option, none, some, List,
  ◌∷◌, ◌≡◌, refl, sym, ap, ◌∙◌, ◌&&◌, ◌==◌, subst, ==_refl, map, update_where-map, if◌then◌else◌,
}
use heritage_philippines_v.Transaction.{Result, ok, err, domain, ◌>>=◌, ◌>>◌, throw, throw_failure}
use heritage_philippines_v.Transaction.Rules.{
  Ensures, Ensures-pure, Ensures-or_else, bind_gets, bind_same, bind-Ensures, then_same,
  then_require,
}
use heritage_philippines_v.Transaction.Runs.{
  run_bind, run_then, run_require, run_or_else, run_some, run_refuse, run_then_fail,
}
use heritage_philippines_v.Crm.Model.{LeadStatus, LeadRecord, AuditLog}
use heritage_philippines_v.Crm.Store.{CrmStore, Runtime, is_present, write_unless, updated_row}
use heritage_philippines_v.Crm.Writes.{then_insert, then_audit, bind_updated, run_audit, run_pure}
use heritage_philippines_v.Assignments.Repository.{find_active_assignment_for_lead}
use heritage_philippines_v.Leads.Transitions.{
  TransitionOutcome, allowed, deferred_to_conversion_endpoint, rejected, status_eq, index,
  get_transition_outcome, is_reason_required,
}
use heritage_philippines_v.Leads.Audit.{lead_audit_entity_type, sanitize_lead_status_snapshot}
use heritage_philippines_v.Leads.Repository.{
  LeadActor, find_lead, find_lead_by_id, set_lead, with_status, history_row, history_id_taken,
  update_lead_status_with_history,
}
use heritage_philippines_v.Leads.Lifecycle.Rows.{changed_if, find_lead-set_lead}
use heritage_philippines_v.Leads.Service.Actors.{
  LeadErrorCode, lead_conflict, conversion_endpoint_required, invalid_status_transition,
  reason_required, not_found_or_forbidden, still_assigned, recheck_assignment, find_lead_or_refuse,
}
use heritage_philippines_v.Leads.Service.Status.{
  UpdateLeadStatusInput, same_status, check_outcome, move_lead, update_lead_status_body,
}
use heritage_philippines_v.Leads.Kept.Checks.{
  recheck_assignment-Ensures, find_lead_or_refuse-Ensures, check_outcome-Ensures,
}

run_recheck :
    (actor : LeadActor) (id : ℕ) (s : CrmStore)
    → still_assigned actor (find_active_assignment_for_lead id s) ≡ true
    → recheck_assignment actor id s ≡ ok (tt, s)
unfolding recheck_assignment ◌>>=◌
run_recheck actor id s h = rw h refl

run_recheck_refused :
    (actor : LeadActor) (id : ℕ) (s : CrmStore)
    → still_assigned actor (find_active_assignment_for_lead id s) ≡ false
    → recheck_assignment actor id s ≡ err (domain (not_found_or_forbidden actor))
unfolding recheck_assignment ◌>>=◌
run_recheck_refused actor id s h = rw h refl

run_find_lead :
    (actor : LeadActor) (id : ℕ) (s : CrmStore) (l : LeadRecord)
    → find_lead s.leads id ≡ some l
    → find_lead_or_refuse actor id s ≡ ok (l, s)
unfolding find_lead_or_refuse find_lead_by_id ◌>>=◌
run_find_lead actor id s l found = rw found refl

run_update_status :
    (now row_id id : ℕ) (before next : LeadStatus) (actor_id : ℕ) (s : CrmStore) (l : LeadRecord)
    → find_lead s.leads id ≡ some l
    → history_id_taken row_id s ≡ false
    → update_lead_status_with_history {E = LeadErrorCode} now row_id id before next actor_id s
      ≡ ok (
        with_status now next l,
        record s {
          leads = set_lead id (with_status now next) s.leads;
          history = history_row row_id id (some before) next actor_id ∷ s.history;
        },
      )
unfolding update_lead_status_with_history find_lead_by_id ◌>>=◌ ◌>>◌ write_unless updated_row
run_update_status now row_id id before next actor_id s l found fresh = rw (found, fresh) refl

abbrev same_reads_as : Bool → LeadRecord → Option LeadRecord
same_reads_as true l = some l
same_reads_as false l = none

same_status_by :
    (status : LeadStatus) (l : LeadRecord) (b : Bool)
    → status_eq l.status status ≡ b
    → same_status status l ≡ same_reads_as b l
same_status_by status l true e = rw e refl
same_status_by status l false e = rw e refl

same_status-some :
    (status : LeadStatus) (l k : LeadRecord)
    → same_status status l ≡ some k
    → (l ≡ k) × (status_eq l.status status ≡ true)
same_status-some status l k e = elim (Bool-cases (status_eq l.status status)) [
  | inl same ↦ (some_eq (sym (same_status_by status l true same) ∙ e), same)
  | inr other ↦ elim (none-some (sym (same_status_by status l false other) ∙ e)) [ ]
]

module _ (w : Runtime) (actor : LeadActor) (id : ℕ) (input : UpdateLeadStatusInput) (s : CrmStore)
    (l : LeadRecord) where
  abbrev pub status_audit : AuditLog
  status_audit = record {
    actor_id = actor.id;
    action = "LEAD_STATUS_CHANGED";
    entity_type = lead_audit_entity_type;
    entity_id = id;
    before_state = some (sanitize_lead_status_snapshot l.status none);
    after_state = some (sanitize_lead_status_snapshot input.new_status input.reason);
  }

  -- The lead with the status asked for, written now.
  abbrev pub moved : LeadRecord → LeadRecord
  moved k = record k { status = input.new_status; updated_at = w.now }

  -- The store with the status and the time of the update of that lead set, and of no other, one history
  -- row from the old status to the new one and one audit row.
  abbrev pub moved_in : CrmStore
  moved_in = record s {
    leads = map (λ k. if k.id == id then moved k else k) s.leads;
    history =
        record {
          id = w.random_uuid 0;
          lead_id = id;
          previous_status = some l.status;
          new_status = input.new_status;
          changed_by_user_id = actor.id;
        }
        ∷ s.history;
    audit_log = status_audit ∷ s.audit_log;
  }

  -- What a call with the expected status answers, by the move's outcome in the matrix.
  abbrev pub move_answer : TransitionOutcome → Result LeadErrorCode (LeadRecord × CrmStore)
  move_answer deferred_to_conversion_endpoint = err (domain conversion_endpoint_required)
  move_answer rejected = err (domain invalid_status_transition)
  move_answer allowed =
      if is_reason_required l.status input.new_status && not (is_present input.reason)
      then err (domain reason_required)
      else ok (moved l, moved_in)

  reaches_move :
      still_assigned actor (find_active_assignment_for_lead id s) ≡ true
      → find_lead s.leads id ≡ some l
      → status_eq l.status input.new_status ≡ false
      → update_lead_status_body w actor id input s ≡ move_lead w actor id input l s
  unfolding update_lead_status_body
  reaches_move assigned found other =
      run_then _ _ (run_recheck actor id s assigned)
      ∙ run_bind _ _ (run_find_lead actor id s l found)
      ∙ run_or_else _ s (same_status_by input.new_status l false other)

  move_lead-moves :
      find_lead s.leads id ≡ some l
      → status_eq l.status input.expected_status ≡ true
      → get_transition_outcome l.status input.new_status ≡ allowed
      → (is_reason_required l.status input.new_status && not (is_present input.reason)) ≡ false
      → history_id_taken (w.random_uuid 0) s ≡ false
      → move_lead w actor id input l s ≡ ok (moved l, moved_in)
  unfolding move_lead check_outcome
  move_lead-moves found expected move given fresh =
      run_require _ _ s expected
      ∙ run_then _ _ (ap (λ o. check_outcome o s) move ∙ run_pure s tt)
      ∙ run_require _ _ s (ap not given)
      ∙ run_bind _ _ (
          run_update_status w.now (w.random_uuid 0) id l.status input.new_status actor.id s l found
            fresh)
      ∙ run_then _ _ (run_audit _ status_audit)
      ∙ run_pure _ (moved l)
      ∙ ap
          (λ leads. ok (
            moved l,
            record s {
              leads = leads;
              history =
                  history_row (w.random_uuid 0) id (some l.status) input.new_status actor.id
                  ∷ s.history;
              audit_log = status_audit ∷ s.audit_log;
            },
          ))
          (update_where-map (λ k. k.id == id) moved s.leads)

  move_lead-reasonless :
      status_eq l.status input.expected_status ≡ true
      → get_transition_outcome l.status input.new_status ≡ allowed
      → (is_reason_required l.status input.new_status && not (is_present input.reason)) ≡ true
      → move_lead w actor id input l s ≡ err (domain reason_required)
  unfolding move_lead check_outcome
  move_lead-reasonless expected move missing =
      run_require _ _ s expected
      ∙ run_then _ _ (ap (λ o. check_outcome o s) move ∙ run_pure s tt)
      ∙ run_refuse _ _ s (ap not missing)

  move_lead-stale :
      status_eq l.status input.expected_status ≡ false
      → move_lead w actor id input l s ≡ err (domain lead_conflict)
  unfolding move_lead
  move_lead-stale stale = run_refuse _ _ s stale

  move_lead-move_answer :
      (outcome : TransitionOutcome)
      → get_transition_outcome l.status input.new_status ≡ outcome
      → find_lead s.leads id ≡ some l
      → status_eq l.status input.expected_status ≡ true
      → history_id_taken (w.random_uuid 0) s ≡ false
      → move_lead w actor id input l s ≡ move_answer outcome
  unfolding move_lead check_outcome throw throw_failure
  move_lead-move_answer deferred_to_conversion_endpoint is found expected fresh =
      run_require _ _ s expected ∙ run_then_fail _ _ (ap (λ o. check_outcome o s) is)
  move_lead-move_answer rejected is found expected fresh =
      run_require _ _ s expected ∙ run_then_fail _ _ (ap (λ o. check_outcome o s) is)
  move_lead-move_answer allowed is found expected fresh =
      go (is_reason_required l.status input.new_status && not (is_present input.reason)) refl
    where
      go :
          (missing : Bool)
          → (is_reason_required l.status input.new_status && not (is_present input.reason))
            ≡ missing
          → move_lead w actor id input l s
            ≡ (if missing then err (domain reason_required) else ok (moved l, moved_in))
      go true e = move_lead-reasonless expected is e
      go false e = move_lead-moves found expected is e fresh

  -- A call that asks for the status that the lead has answers the lead and changes nothing, whatever
  -- status the caller expects.
  update_lead_status_body-same :
      still_assigned actor (find_active_assignment_for_lead id s) ≡ true
      → find_lead s.leads id ≡ some l
      → status_eq l.status input.new_status ≡ true
      → update_lead_status_body w actor id input s ≡ ok (l, s)
  unfolding update_lead_status_body
  update_lead_status_body-same assigned found same =
      run_then _ _ (run_recheck actor id s assigned)
      ∙ run_bind _ _ (run_find_lead actor id s l found)
      ∙ run_some l _ s (same_status_by input.new_status l true same)

  update_lead_status_body-refused :
      still_assigned actor (find_active_assignment_for_lead id s) ≡ false
      → update_lead_status_body w actor id input s ≡ err (domain (not_found_or_forbidden actor))
  unfolding update_lead_status_body
  update_lead_status_body-refused h = run_then_fail _ _ (run_recheck_refused actor id s h)

  -- For a lead of the store and a new UUID, the transaction refuses a consultant who is no longer
  -- assigned; it answers the lead and changes nothing where the lead has the status asked for; it is a
  -- conflict where the lead has not the status that the caller expects; a move that the matrix defers or
  -- rejects, and a move without the reason that it needs, end with their errors; and otherwise it sets
  -- the status and the time of the update of that lead and of no other, adds one history row from the old
  -- status to the new one and one audit row, and changes nothing else.
  pub update_lead_status_body-move_answer :
      find_lead s.leads id ≡ some l
      → history_id_taken (w.random_uuid 0) s ≡ false
      → update_lead_status_body w actor id input s ≡ (
          if still_assigned actor (find_active_assignment_for_lead id s)
          then (if status_eq l.status input.new_status
              then ok (l, s)
              else (if status_eq l.status input.expected_status
                  then move_answer (get_transition_outcome l.status input.new_status)
                  else err (domain lead_conflict)))
          else err (domain (not_found_or_forbidden actor)))
  update_lead_status_body-move_answer found fresh =
      elim (Bool-cases (still_assigned actor (find_active_assignment_for_lead id s))) [
        | inr gone ↦ rw gone (update_lead_status_body-refused gone)
        | inl assigned ↦ elim (Bool-cases (status_eq l.status input.new_status)) [
          | inl same ↦ rw (assigned, same) (update_lead_status_body-same assigned found same)
          | inr other ↦ elim (Bool-cases (status_eq l.status input.expected_status)) [
            | inl expected ↦
                rw (assigned, other, expected)
                  (reaches_move assigned found other
                    ∙ move_lead-move_answer _ refl found expected fresh)
            | inr stale ↦
                rw (assigned, other, stale)
                  (reaches_move assigned found other ∙ move_lead-stale stale)
          ]
        ]
      ]

-- What a call that asks for `status` and answers `l` leaves.
record Answered (actor : LeadActor) (id : ℕ) (status : LeadStatus) (l : LeadRecord) (t : CrmStore)
    : Type 0 where
  assigned : still_assigned actor (find_active_assignment_for_lead id t) ≡ true
  found : find_lead t.leads id ≡ some l
  same : status_eq l.status status ≡ true

find_lead-moved :
    (now id : ℕ) (next : LeadStatus) (leads : List LeadRecord) (l : LeadRecord)
    → find_lead leads id ≡ some l
    → find_lead (set_lead id (with_status now next) leads) id ≡ some (with_status now next l)
find_lead-moved now id next leads l found =
    find_lead-set_lead (with_status now next) (λ k. refl) id leads id
    ∙ ap (changed_if (id == id) (with_status now next)) found
    ∙ ap (λ b. changed_if b (with_status now next) (some l)) (==_refl id)

module _ (w : Runtime) (actor : LeadActor) (id : ℕ) (input : UpdateLeadStatusInput)
    (s : CrmStore) where
  move_lead-Answered :
      (l : LeadRecord)
      → still_assigned actor (find_active_assignment_for_lead id s) ≡ true
      → find_lead s.leads id ≡ some l
      → Ensures (Answered actor id input.new_status) (move_lead w actor id input l s)
  unfolding move_lead update_lead_status_with_history find_lead_by_id
      find_active_assignment_for_lead
  move_lead-Answered l assigned found = then_require _ _ _ _ s (λ expected.
      then_same _ _ _ _ s (check_outcome-Ensures s _) (λ move. then_require _ _ _ _ s (λ given.
        bind-Ensures _
          (λ k t.
            (find_lead t.leads id ≡ some k)
            × (t.assignments ≡ s.assignments)
            × (status_eq k.status input.new_status ≡ true))
          _ _ s
          (bind_gets _ _ _ _ (
            rw found (
              bind_updated _ _ _ _ s (λ k same. bind_gets _ _ _ _ (
                then_insert _ _ _ _ _ _ s (λ fresh. Ensures-pure _ _ _ (
                  find_lead-moved w.now id input.new_status s.leads k (found ∙ same),
                  refl,
                  ==_refl (index input.new_status),
                )))))))
          (λ k t after. then_audit _ _ _ t (
            Ensures-pure _ _ _
              (record { assigned = rw after.1 assigned; found = after.0; same = after.2 }))))))

  update_lead_status_body-Answered :
      Ensures (Answered actor id input.new_status) (update_lead_status_body w actor id input s)
  unfolding update_lead_status_body
  update_lead_status_body-Answered =
      then_same _ _ _ _ s (recheck_assignment-Ensures s actor id) (λ assigned.
        bind_same _ _ _ _ s (find_lead_or_refuse-Ensures s actor id) (λ l found.
          Ensures-or_else _ _ _ s
            (λ k same.
              let answer = same_status-some input.new_status l k same in
              record {
                assigned = assigned;
                found = found ∙ ap some answer.0;
                same =
                    subst (λ (m : LeadRecord). status_eq m.status input.new_status ≡ true) answer.0
                      answer.1;
              })
            (λ other. move_lead-Answered l assigned found)))

-- A call that moved a lead, made again by the same actor with the same new status, answers the same
-- lead and changes nothing, whatever status it expects and whatever reason it gives.
pub update_lead_status_body-again :
    (w v : Runtime) (actor : LeadActor) (id : ℕ) (input again : UpdateLeadStatusInput)
    (s t : CrmStore) (l : LeadRecord)
    → again.new_status ≡ input.new_status
    → update_lead_status_body w actor id input s ≡ ok (l, t)
    → update_lead_status_body v actor id again t ≡ ok (l, t)
update_lead_status_body-again w v actor id input again s t l asks e =
    let answered = (update_lead_status_body-Answered w actor id input s).at l t e in
    update_lead_status_body-same v actor id again t l answered.assigned answered.found
      (subst (λ n. status_eq l.status n ≡ true) (sym asks) answered.same)
