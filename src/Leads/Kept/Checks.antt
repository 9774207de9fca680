-- ===== src/Leads/Kept/Checks.antt =====
-- The checks that the transaction bodies make leave the store as it was.
use heritage_philippines_v.Prelude.{ℕ, true, Option, none, some, [], ◌∷◌, ◌≡◌, refl}
use heritage_philippines_v.Transaction.Rules.{
  Ensures, Ensures-pure, Ensures-throw, Ensures-map, bind_gets, bind_or_throw, then_require,
}
use heritage_philippines_v.Payments.Model.{Text, Role}
use heritage_philippines_v.Crm.Store.{CrmStore}
use heritage_philippines_v.Crm.Writes.{require-Ensures, or_throw-Ensures}
use heritage_philippines_v.Assignments.Repository.{find_active_assignment_for_lead}
use heritage_philippines_v.Assignments.Service.{assert_eligible}
use heritage_philippines_v.Assignments.Finance.{or_reason_required, require_reason}
use heritage_philippines_v.Leads.Transitions.{allowed, TransitionOutcome}
use heritage_philippines_v.Leads.Repository.{LeadActor, find_lead, find_lead_by_id}
use heritage_philippines_v.Leads.Service.Actors.{
  still_assigned, recheck_assignment, find_lead_or_refuse,
}
use heritage_philippines_v.Leads.Service.Status.{check_outcome}

module _ (s : CrmStore) where
  pub recheck_assignment-Ensures :
      (actor : LeadActor) (id : ℕ)
      → Ensures
          (λ (u : Unit {0}) t.
            (t ≡ s) × (still_assigned actor (find_active_assignment_for_lead id s) ≡ true))
          (recheck_assignment actor id s)
  unfolding recheck_assignment
  recheck_assignment-Ensures actor id = bind_gets _ _ _ _ (require-Ensures s _ _)

  pub find_lead_or_refuse-Ensures :
      (actor : LeadActor) (id : ℕ)
      → Ensures (λ l t. (t ≡ s) × (find_lead s.leads id ≡ some l)) (find_lead_or_refuse actor id s)
  unfolding find_lead_or_refuse find_lead_by_id
  find_lead_or_refuse-Ensures actor id = bind_gets _ _ _ _ (or_throw-Ensures s _ _)

  pub check_outcome-Ensures :
      (o : TransitionOutcome)
      → Ensures (λ (u : Unit {0}) t. (t ≡ s) × (o ≡ allowed)) (check_outcome o s)
  unfolding check_outcome
  check_outcome-Ensures allowed = Ensures-pure _ _ _ (refl, refl)
  check_outcome-Ensures TransitionOutcome.rejected = Ensures-throw _ _ _
  check_outcome-Ensures TransitionOutcome.deferred_to_conversion_endpoint = Ensures-throw _ _ _

  pub assert_eligible-Ensures :
      (role : Role) (staff : ℕ)
      → Ensures (λ (u : Unit {0}) t. (t ≡ s) × Unit {0}) (assert_eligible role staff s)
  unfolding assert_eligible
  assert_eligible-Ensures role staff = bind_gets _ _ _ _ (
      bind_or_throw _ _ _ _ _ (λ c found.
        then_require _ _ _ _ _
          (λ active. Ensures-map _ _ (λ u t e. (e.0, tt)) (require-Ensures s _ _))))

or_reason_required-Ensures :
    (t : Text) (s : CrmStore) → Ensures (λ r u. (u ≡ s) × Unit {0}) (or_reason_required t s)
or_reason_required-Ensures [] s = Ensures-throw _ _ _
or_reason_required-Ensures (c ∷ t) s = Ensures-pure _ _ _ (refl, tt)

pub require_reason-Ensures :
    (reason : Option Text) (s : CrmStore)
    → Ensures (λ r u. (u ≡ s) × Unit {0}) (require_reason reason s)
unfolding require_reason
require_reason-Ensures none s = Ensures-throw _ _ _
require_reason-Ensures (some t) s = or_reason_required-Ensures _ s
