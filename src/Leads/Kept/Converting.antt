-- ===== src/Leads/Kept/Converting.antt =====
-- The body that converts a lead keeps what each write keeps.
use heritage_philippines_v.Prelude.{
  ℕ, Bool, true, false, Option, none, some, List, ◌≡◌, refl, ap, ◌∙◌, subst, sym,
}
use heritage_philippines_v.Transaction.Rules.{
  Ensures, Ensures-pure, Ensures-map, bind_gets, Ensures-both, Ensures-if, bind_or_throw, bind_same,
  bind-Ensures, then_same, then-Ensures, then_require,
}
use heritage_philippines_v.Crm.Model.{LeadRecord, Assignment, converted_to_client}
use heritage_philippines_v.Crm.Store.{CrmStore, Runtime}
use heritage_philippines_v.Crm.Writes.{require-Ensures, then_audit, audit-Ensures, then_insert}
use heritage_philippines_v.Assignments.Repository.{
  create_assignment, find_active_assignment_for_lead,
}
use heritage_philippines_v.Assignments.Writes.{create_assignment-Ensures}
use heritage_philippines_v.Leads.Transitions.{status_eq}
use heritage_philippines_v.Leads.Repository.{LeadActor, find_lead}
use heritage_philippines_v.Leads.Matches.{DuplicateMatchRow}
use heritage_philippines_v.Leads.Conversion.{ClientSummary, create_client_from_lead}
use heritage_philippines_v.Leads.Service.Convert.{
  recheck_client, replay_conversion, chosen, choose_client, inherited, inherit_assignment,
  created_audit, audit_client_created, convert_anew, convert_lead_body,
}
use heritage_philippines_v.Leads.Kept.{Kept}
use heritage_philippines_v.Leads.Kept.Checks.{find_lead_or_refuse-Ensures}

module _ (s : CrmStore) where
  recheck_client-Ensures :
      (actor : LeadActor) (wanted : Option ℕ)
      → Ensures (λ (u : Unit {0}) t. (t ≡ s) × Unit {0}) (recheck_client actor wanted s)
  unfolding recheck_client
  recheck_client-Ensures actor none = Ensures-pure _ _ _ (refl, tt)
  recheck_client-Ensures actor (some id) =
      bind_gets _ _ _ _ (Ensures-map _ _ (λ u t e. (e.0, tt)) (require-Ensures s _ _))

  -- An answer given again leaves the store as it was.
  pub replay_conversion-Ensures :
      (id : ℕ) (wanted : Option ℕ) (l : LeadRecord)
      → Ensures (λ a t. t ≡ s) (replay_conversion id wanted l s)
  unfolding replay_conversion
  replay_conversion-Ensures id wanted l = bind_or_throw _ _ _ _ s (λ client_id linked.
      then_require _ _ _ _ s (λ links. bind_gets _ _ _ _ (
        bind_or_throw _ _ _ _ s (λ state parsed. then_require _ _ _ _ s (λ same.
          bind_gets _ _ _ _ (bind_or_throw _ _ _ _ s (λ c found. Ensures-pure _ _ _ refl)))))))

  create_client-leads :
      {E : Type 0} (id : ℕ) (l : LeadRecord)
      → Ensures {E = E} (λ c t. t.leads ≡ s.leads) (create_client_from_lead id l s)
  unfolding create_client_from_lead
  create_client-leads id l =
      bind_gets _ _ _ _ (then_insert _ _ _ _ _ _ s (λ fresh. Ensures-pure _ _ _ refl))

  create_assignment-leads :
      {E : Type 0} (row : Assignment)
      → Ensures {E = E} (λ a t. t.leads ≡ s.leads) (create_assignment row s)
  create_assignment-leads row =
      Ensures-map _ _ (λ a t e. ap (λ (u : CrmStore). u.leads) e.2)
        (create_assignment-Ensures s row)

module _ (P : CrmStore → Type 0) (kept : Kept P) where
  -- What the parts before the conversion of the lead leave: `P`, and the leads of `s`.
  abbrev Same : CrmStore → CrmStore → Type 0
  Same s t = P t × (t.leads ≡ s.leads)

  chosen-Kept :
      (w : Runtime) (l : LeadRecord) (wanted : Option ℕ) (matches : List DuplicateMatchRow)
      (s : CrmStore)
      → P s
      → Ensures (λ c t. Same s t) (chosen w l wanted matches s)
  chosen-Kept w l none matches s h = then_require _ _ _ _ s (λ unmatched.
      bind-Ensures _ _ _ _ s
        (Ensures-both (kept.client_created _ l s h) (create_client-leads s _ l))
        (λ c t after. Ensures-pure _ _ _ after))
  chosen-Kept w l (some id) matches s h =
      bind_or_throw _ _ _ _ s (λ m found. Ensures-pure _ _ _ (h, refl))

  inherited-Kept :
      (w : Runtime) (actor : LeadActor) (client : ClientSummary) (created : Bool)
      (active : Option Assignment) (s : CrmStore)
      → P s
      → Ensures (λ (u : Unit {0}) t. Same s t) (inherited w actor (client, created) active s)
  inherited-Kept w actor client false active s h = Ensures-pure _ _ _ (h, refl)
  inherited-Kept w actor client true none s h = Ensures-pure _ _ _ (h, refl)
  inherited-Kept w actor client true (some a) s h =
      bind-Ensures _ _ _ _ s
        (Ensures-both (kept.assignment_created _ s h refl) (create_assignment-leads s _))
        (λ b t after. audit-Ensures (Same s) _ t (kept.audit _ t after.0, after.1))

  created_audit-Kept :
      (actor : LeadActor) (id : ℕ) (l : LeadRecord) (client : ClientSummary) (created : Bool)
      (s : CrmStore)
      → P s
      → Ensures (λ (u : Unit {0}) t. P t) (created_audit actor id l (client, created) s)
  created_audit-Kept actor id l client false s h = Ensures-pure _ _ _ h
  created_audit-Kept actor id l client true s h = audit-Ensures P _ s (kept.audit _ s h)

  convert_anew-Kept :
      (w : Runtime) (actor : LeadActor) (id : ℕ) (wanted : Option ℕ) (l : LeadRecord)
      (active : Option Assignment) (s : CrmStore)
      → P s
      → find_lead s.leads id ≡ some l
      → Ensures (λ a t. P t) (convert_anew w actor id wanted l active s)
  unfolding convert_anew choose_client inherit_assignment audit_client_created
  convert_anew-Kept w actor id wanted l active s h found = then_require _ _ _ _ s (λ was.
      bind_gets _ _ _ _ (
        bind-Ensures _ _ _ _ s (chosen-Kept w l wanted _ s h) (λ c t one.
          then-Ensures _ (Same t) _ _ t (inherited-Kept w actor c.0 c.1 active t one.0) (λ u two.
            bind-Ensures _ _ _ _ u
              (kept.lead_converted _ _ id _ actor.id l u two.0
                (ap (λ leads. find_lead leads id) (two.1 ∙ one.1) ∙ found) was)
              (λ k v three.
                then-Ensures _ P _ _ v (created_audit-Kept actor id l c.0 c.1 v three)
                  (λ x four. then_audit _ _ _ x (Ensures-pure _ _ _ (kept.audit _ x four))))))))

  pub convert_lead_body-Kept :
      (w : Runtime) (actor : LeadActor) (id : ℕ) (wanted : Option ℕ) (s : CrmStore)
      → P s
      → Ensures (λ a t. P t) (convert_lead_body w actor id wanted s)
  unfolding convert_lead_body
  convert_lead_body-Kept w actor id wanted s h =
      bind_same _ _ _ _ s (find_lead_or_refuse-Ensures s actor id) (λ l found. bind_gets _ _ _ _ (
        then_require _ _ _ _ s (λ assigned.
          then_same _ _ _ _ s (recheck_client-Ensures s actor wanted) (λ u.
            Ensures-if _ (status_eq l.status converted_to_client) (replay_conversion id wanted l)
              (convert_anew w actor id wanted l (find_active_assignment_for_lead id s)) s
              (Ensures-map _ _ (λ a t same. subst P (sym same) h)
                (replay_conversion-Ensures s id wanted l))
              (convert_anew-Kept w actor id wanted l _ s h found)))))
