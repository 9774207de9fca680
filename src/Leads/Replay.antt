-- ===== src/Leads/Replay.antt =====
-- `convertLead`: a conversion that is asked for again gives the same answer and changes nothing.
use heritage_philippines_v.Prelude.{
  ℕ, Bool, true, false, Option, none, some, List, [], ◌∷◌, ◌≡◌, refl, sym, ap, ◌∙◌, ◌==◌, find, map,
  select, is_some, subst, ==_refl, Option-cases, inl, inr, true-false, arith,
}
use heritage_philippines_v.Transaction.{ok}
use heritage_philippines_v.Transaction.Rules.{
  Ensures, Ensures-pure, Ensures-map, bind_gets, bind_or_throw, bind-Ensures, then-Ensures,
  then_require,
}
use heritage_philippines_v.Transaction.Runs.{run_gets, run_or_throw, run_require}
use heritage_philippines_v.Crm.Model.{LeadRecord, Client, Assignment}
use heritage_philippines_v.Crm.Store.{CrmStore, Runtime}
use heritage_philippines_v.Crm.Writes.{
  then_insert, then_audit, audit-Ensures, bind_updated, run_pure,
}
use heritage_philippines_v.Assignments.Writes.{create_assignment-Ensures}
use heritage_philippines_v.Leads.Audit.{
  sanitize_lead_conversion_snapshot, parse_conversion_audit_state,
}
use heritage_philippines_v.Leads.Repository.{LeadActor, find_lead, find_lead_by_id}
use heritage_philippines_v.Leads.Lifecycle.Rows.{changed_if, find_lead-set_lead}
use heritage_philippines_v.Leads.Matches.{
  ContactParams, DuplicateMatchRow, client_match_row, find_duplicate_client_matches,
}
use heritage_philippines_v.Leads.Conversion.{
  ClientSummary, find_client, create_client_from_lead, converted, convert_lead_with_history,
  find_lead_conversion_audit, find_client_summary_by_id, summary_in,
}
use heritage_philippines_v.Leads.Service.Convert.{
  ConvertLeadResult, params_of, chosen, choose_client, inherited, inherit_assignment, created_audit,
  audit_client_created, links_to, replay_conversion, convert_anew,
}

-- What the replay of a conversion reads.
record Recorded (id : ℕ) (r : ConvertLeadResult) (t : CrmStore) : Type 0 where
  found : find_lead t.leads id ≡ some r.lead
  linked : r.lead.client_id ≡ some r.client.id
  audit :
      find_lead_conversion_audit id t
      ≡ some (sanitize_lead_conversion_snapshot r.client.id r.client_created)
  client : is_some (find_client t.clients r.client.id) ≡ true

matched_client :
    (params : ContactParams) (q : Client → Bool) (k : ℕ) (cs : List Client) (m : DuplicateMatchRow)
    → find (λ n. n.id == k) (map (client_match_row params) (select q cs)) ≡ some m
    → is_some (find_client cs m.id) ≡ true
unfolding find_client
matched_client params q k [] m e = cc
matched_client params q k (c ∷ cs) m e =
    ground (arith, matched_client params q k cs m, ==_refl m.id)

abbrev Frame : CrmStore → CrmStore → Type 0
Frame s t = (t.leads ≡ s.leads) × (t.clients ≡ s.clients)

module _ (s : CrmStore) where
  chosen-Client :
      (w : Runtime) (l : LeadRecord) (wanted : Option ℕ)
      → Ensures
          (λ c t. (t.leads ≡ s.leads) × (is_some (find_client t.clients c.0.id) ≡ true))
          (chosen w l wanted (find_duplicate_client_matches (params_of l) s) s)
  unfolding create_client_from_lead find_client find_duplicate_client_matches
  chosen-Client w l none = then_require _ _ _ _ s (λ unmatched.
      bind-Ensures _ (λ c t. (t.leads ≡ s.leads) × (is_some (find_client t.clients c.id) ≡ true)) _
        _ s
        (bind_gets _ _ _ _ (
          then_insert _ _ _ _ _ _ s
            (λ fresh. Ensures-pure _ _ _ (refl, rw (==_refl (w.random_uuid 0)) refl))))
        (λ c t after. Ensures-pure _ _ _ after))
  chosen-Client w l (some k) =
      bind_or_throw _ _ _ _ s
        (λ m found. Ensures-pure _ _ _ (refl, matched_client (params_of l) _ k s.clients m found))

  inherited-Frame :
      (w : Runtime) (actor : LeadActor) (client : ClientSummary) (created : Bool)
      (active : Option Assignment)
      → Ensures (λ u t. Frame s t) (inherited w actor (client, created) active s)
  inherited-Frame w actor client false active = Ensures-pure _ _ _ (refl, refl)
  inherited-Frame w actor client true none = Ensures-pure _ _ _ (refl, refl)
  inherited-Frame w actor client true (some a) =
      bind-Ensures _ (λ b t. Frame s t) _ _ s
        (Ensures-map _ _
          (λ b t e. (ap (λ (u : CrmStore). u.leads) e.2, ap (λ (u : CrmStore). u.clients) e.2))
          (create_assignment-Ensures s _))
        (λ b t after. audit-Ensures (Frame s) _ t after)

  created_audit-Frame :
      (actor : LeadActor) (id : ℕ) (l : LeadRecord) (client : ClientSummary) (created : Bool)
      → Ensures (λ u t. Frame s t) (created_audit actor id l (client, created) s)
  created_audit-Frame actor id l client false = Ensures-pure _ _ _ (refl, refl)
  created_audit-Frame actor id l client true = audit-Ensures (Frame s) _ s (refl, refl)

  convert_with_history-Converted :
      {E : Type 0} (now row_id id client_id actor_id : ℕ)
      → Ensures {E = E}
          (λ k t.
            (find_lead t.leads id ≡ some k)
            × (t.clients ≡ s.clients)
            × (k.client_id ≡ some client_id))
          (convert_lead_with_history now row_id id client_id actor_id s)
  unfolding convert_lead_with_history find_lead_by_id
  convert_with_history-Converted now row_id id client_id actor_id = bind_gets _ _ _ _ (
      bind_updated _ _ _ _ s (λ k found. bind_gets _ _ _ _ (
        then_insert _ _ _ _ _ _ s (λ fresh. Ensures-pure _ _ _ (
          find_lead-set_lead (converted now client_id) (λ l. refl) id s.leads id
              ∙ ap (changed_if (id == id) (converted now client_id)) found
              ∙ ap (λ b. changed_if b (converted now client_id) (some k)) (==_refl id),
          refl,
          refl,
        )))))

-- A conversion that is done now leaves its record.
convert_anew-Recorded :
    (w : Runtime) (actor : LeadActor) (id : ℕ) (wanted : Option ℕ) (l : LeadRecord)
    (active : Option Assignment) (s : CrmStore)
    → Ensures (Recorded id) (convert_anew w actor id wanted l active s)
unfolding convert_anew choose_client inherit_assignment audit_client_created
    find_lead_conversion_audit
convert_anew-Recorded w actor id wanted l active s = then_require _ _ _ _ s (λ was.
    bind_gets _ _ _ _ (
      bind-Ensures _ _ _ _ s (chosen-Client s w l wanted) (λ c t one.
        then-Ensures _ (Frame t) _ _ t (inherited-Frame t w actor c.0 c.1 active) (λ u two.
          bind-Ensures _ _ _ _ u (convert_with_history-Converted u _ _ id c.0.id actor.id)
            (λ k v three.
              then-Ensures _ (Frame v) _ _ v (created_audit-Frame v actor id l c.0 c.1) (λ x four.
                then_audit _ _ _ x (
                  Ensures-pure _ _ _ (record {
                    found = ap (λ ls. find_lead ls id) four.0 ∙ three.0;
                    linked = three.2;
                    audit = rw (==_refl id) refl;
                    client =
                        subst (λ cs. is_some (find_client cs c.0.id) ≡ true)
                          (sym (four.1 ∙ three.1 ∙ two.1)) one.1;
                  }))))))))

-- The answer of a repeated call.
abbrev pub answer_of : ConvertLeadResult → ClientSummary → ConvertLeadResult
answer_of r client = record { lead = r.lead; client = client; client_created = r.client_created }

-- After a conversion has answered, the same conversion asked for again finds the converted lead and
-- answers it, the client's id and whether the client was created as the first call did, and changes
-- nothing; it may name no client or the one that the lead got.
pub convert_anew-replayed :
    (w : Runtime) (actor : LeadActor) (id : ℕ) (wanted again : Option ℕ) (l : LeadRecord)
    (active : Option Assignment) (s t : CrmStore) (r : ConvertLeadResult)
    → convert_anew w actor id wanted l active s ≡ ok (r, t)
    → links_to again r.client.id ≡ true
    → (find_lead t.leads id ≡ some r.lead)
      × ((c : Client) × (find_client t.clients r.client.id ≡ some c)
          × (replay_conversion id again r.lead t
              ≡ ok (answer_of r (record { id = c.id; full_name = c.full_name }), t)))
unfolding replay_conversion find_client_summary_by_id parse_conversion_audit_state
    sanitize_lead_conversion_snapshot
convert_anew-replayed w actor id wanted again l active s t r e links =
    let done = (convert_anew-Recorded w actor id wanted l active s).at r t e in
    (
      done.found,
      elim (Option-cases (find_client t.clients r.client.id)) [
        | inl gone ↦ elim (true-false (sym (ap is_some gone) ∙ done.client)) [ ]
        | inr (c, here) ↦ (
          c,
          here,
          run_or_throw r.client.id _ _ t done.linked
              ∙ run_require _ _ t links
              ∙ run_gets _ _ t
              ∙ run_or_throw (record { client_id = r.client.id; client_created = r.client_created })
                  _ _ t (ap parse_conversion_audit_state done.audit)
              ∙ run_require _ _ t (==_refl r.client.id)
              ∙ run_gets _ _ t
              ∙ run_or_throw (record { id = c.id; full_name = c.full_name }) _ _ t
                  (ap summary_in here)
              ∙ run_pure t _,
        )
      ],
    )
