-- ===== src/Leads/Kept/Moving.antt =====
-- The bodies that create, change and move a lead keep what each write keeps.
use heritage_philippines_v.Prelude.{ℕ, refl}
use heritage_philippines_v.Transaction.Rules.{
  Ensures, Ensures-pure, Ensures-or_else, bind_same, bind-Ensures, then_same, then-Ensures,
  then_require,
}
use heritage_philippines_v.Crm.Model.{LeadRecord}
use heritage_philippines_v.Crm.Store.{CrmStore, Runtime}
use heritage_philippines_v.Leads.Repository.{LeadActor, LeadActorRole}
use heritage_philippines_v.Leads.Service.Create.{
  CreateLeadInput, assign_as, create_lead_body, assign_to_creator,
}
use heritage_philippines_v.Leads.Service.Update.{UpdateLeadInput, update_lead_body}
use heritage_philippines_v.Leads.Service.Status.{UpdateLeadStatusInput, update_lead_status_body}
use heritage_philippines_v.Crm.Writes.{then_audit, audit-Ensures}
use heritage_philippines_v.Leads.Kept.{Kept}
use heritage_philippines_v.Leads.Kept.Checks.{
  recheck_assignment-Ensures, find_lead_or_refuse-Ensures, check_outcome-Ensures,
}

module _ (P : CrmStore → Type 0) (kept : Kept P) where
  assign_as-Kept :
      (role : LeadActorRole) (w : Runtime) (actor_id lead_id : ℕ) (s : CrmStore)
      → P s
      → Ensures (λ (u : Unit {0}) t. P t) (assign_as role w actor_id lead_id s)
  assign_as-Kept LeadActorRole.admin_manager w actor_id lead_id s h = Ensures-pure _ _ _ h
  assign_as-Kept LeadActorRole.travel_consultant w actor_id lead_id s h =
      bind-Ensures _ _ _ _ s (kept.assignment_created _ s h refl)
        (λ a t after. audit-Ensures P _ t (kept.audit _ t after))

  pub create_lead_body-Kept :
      (w : Runtime) (actor : LeadActor) (input : CreateLeadInput) (s : CrmStore)
      → P s
      → Ensures (λ l t. P t) (create_lead_body w actor input s)
  unfolding create_lead_body assign_to_creator
  create_lead_body-Kept w actor input s h =
      bind-Ensures _ _ _ _ s (kept.lead_created _ _ s h) (λ l t after. then_audit _ _ _ t (
        then-Ensures _ P _ _ _ (assign_as-Kept actor.role w actor.id l.id _ (kept.audit _ t after))
          (λ u end. Ensures-pure _ _ _ end)))

  pub update_lead_body-Kept :
      (w : Runtime) (actor : LeadActor) (id : ℕ) (input : UpdateLeadInput) (l : LeadRecord)
      (s : CrmStore)
      → P s
      → Ensures (λ k t. P t) (update_lead_body w actor id input l s)
  unfolding update_lead_body
  update_lead_body-Kept w actor id input l s h =
      then_same _ _ _ _ s (recheck_assignment-Ensures s actor id) (λ u.
        bind-Ensures _ _ _ _ s (kept.lead_changed _ id _ s h)
          (λ k t after. then_audit _ _ _ t (Ensures-pure _ _ _ (kept.audit _ t after))))

  pub update_lead_status_body-Kept :
      (w : Runtime) (actor : LeadActor) (id : ℕ) (input : UpdateLeadStatusInput) (s : CrmStore)
      → P s
      → Ensures (λ l t. P t) (update_lead_status_body w actor id input s)
  unfolding update_lead_status_body
  update_lead_status_body-Kept w actor id input s h =
      then_same _ _ _ _ s (recheck_assignment-Ensures s actor id) (λ u.
        bind_same _ _ _ _ s (find_lead_or_refuse-Ensures s actor id) (λ l found.
          Ensures-or_else _ _ _ s (λ k same. h)
            (λ moves. then_require _ _ _ _ s (λ expected.
              then_same _ _ _ _ s (check_outcome-Ensures s _) (λ move.
                then_require _ _ _ _ s (λ given.
                  bind-Ensures _ _ _ _ s (kept.lead_moved _ _ id _ l _ s h found move) (λ k t after.
                    then_audit _ _ _ t (Ensures-pure _ _ _ (kept.audit _ t after)))))))))
