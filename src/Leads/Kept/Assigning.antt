-- ===== src/Leads/Kept/Assigning.antt =====
-- The bodies that assign staff and end assignments keep what each write keeps.
use heritage_philippines_v.Prelude.{ℕ, Option, none, some, ◌≡◌, refl}
use heritage_philippines_v.Transaction.Rules.{
  Ensures, Ensures-pure, Ensures-or_else, bind_gets, bind_same, bind-Ensures, then_same,
  then-Ensures, then_require,
}
use heritage_philippines_v.Payments.Model.{Text, Role}
use heritage_philippines_v.Crm.Model.{Assignment}
use heritage_philippines_v.Crm.Store.{CrmStore, Runtime}
use heritage_philippines_v.Assignments.Model.{TargetKind}
use heritage_philippines_v.Assignments.Service.{
  assert_eligible_assignee, end_active, set_assignment_body, end_given, end_assignment_body,
}
use heritage_philippines_v.Assignments.Finance.{
  assert_eligible_finance_assignee, replacement_reason, set_booking_finance_assignment_body,
  end_finance_given, end_booking_finance_assignment_body,
}
use heritage_philippines_v.Crm.Writes.{then_audit}
use heritage_philippines_v.Leads.Kept.{Kept}
use heritage_philippines_v.Leads.Kept.Checks.{assert_eligible-Ensures, require_reason-Ensures}

module _ (P : CrmStore → Type 0) (kept : Kept P) where
  end_active-Kept :
      (now : ℕ) (active : Option Assignment) (s : CrmStore)
      → P s
      → Ensures (λ (u : Unit {0}) t. P t) (end_active now active s)
  unfolding end_active
  end_active-Kept now none s h = Ensures-pure _ _ _ h
  end_active-Kept now (some a) s h =
      bind-Ensures _ _ _ _ s (kept.assignment_ended now a.id s h)
        (λ b t after. Ensures-pure _ _ _ after)

  pub set_assignment_body-Kept :
      (w : Runtime) (kind : TargetKind) (actor_id target_id staff : ℕ) (reason : Option Text)
      (s : CrmStore)
      → P s
      → Ensures (λ a t. P t) (set_assignment_body w kind actor_id target_id staff reason s)
  unfolding set_assignment_body assert_eligible_assignee
  set_assignment_body-Kept w kind actor_id target_id staff reason s h = bind_gets _ _ _ _ (
      then_require _ _ _ _ s (λ known. bind_gets _ _ _ _ (
        Ensures-or_else _ _ _ s (λ a same. h)
          (λ other.
            then_same _ _ _ _ s (assert_eligible-Ensures s Role.travel_consultant staff) (λ u.
              then_require _ _ _ _ s (λ given.
                then-Ensures _ P _ _ s (end_active-Kept _ _ s h) (λ t free.
                  bind-Ensures _ _ _ _ t (kept.assignment_created _ t free refl) (λ a u after.
                    then_audit _ _ _ u (Ensures-pure _ _ _ (kept.audit _ u after))))))))))

  end_given-Kept :
      (w : Runtime) (kind : TargetKind) (actor_id target_id : ℕ) (reason : Text)
      (active : Option Assignment) (s : CrmStore)
      → P s
      → Ensures (λ a t. P t) (end_given w kind actor_id target_id reason active s)
  unfolding end_given
  end_given-Kept w kind actor_id target_id reason none s h = Ensures-pure _ _ _ h
  end_given-Kept w kind actor_id target_id reason (some a) s h =
      bind-Ensures _ _ _ _ s (kept.assignment_ended _ a.id s h)
        (λ b t after. then_audit _ _ _ t (Ensures-pure _ _ _ (kept.audit _ t after)))

  pub end_assignment_body-Kept :
      (w : Runtime) (kind : TargetKind) (actor_id target_id : ℕ) (reason : Text) (s : CrmStore)
      → P s
      → Ensures (λ a t. P t) (end_assignment_body w kind actor_id target_id reason s)
  unfolding end_assignment_body
  end_assignment_body-Kept w kind actor_id target_id reason s h = bind_gets _ _ _ _ (
      then_require _ _ _ _ s
        (λ known. bind_gets _ _ _ _ (end_given-Kept w kind actor_id target_id reason _ s h)))

  replacement_reason-Ensures :
      (reason : Option Text) (active : Option Assignment) (s : CrmStore)
      → Ensures (λ r t. (t ≡ s) × Unit {0}) (replacement_reason reason active s)
  unfolding replacement_reason
  replacement_reason-Ensures reason none s = Ensures-pure _ _ _ (refl, tt)
  replacement_reason-Ensures reason (some a) s =
      bind_same _ _ _ _ s (require_reason-Ensures reason s) (λ r u. Ensures-pure _ _ _ (refl, tt))

  pub set_booking_finance_assignment_body-Kept :
      (w : Runtime) (actor_id booking_id staff : ℕ) (reason : Option Text) (s : CrmStore)
      → P s
      → Ensures
          (λ a t. P t)
          (set_booking_finance_assignment_body w actor_id booking_id staff reason s)
  unfolding set_booking_finance_assignment_body assert_eligible_finance_assignee
  set_booking_finance_assignment_body-Kept w actor_id booking_id staff reason s h =
      bind_gets _ _ _ _ (
        then_require _ _ _ _ s (λ known. bind_gets _ _ _ _ (
          Ensures-or_else _ _ _ s (λ a same. h)
            (λ other.
              then_same _ _ _ _ s (assert_eligible-Ensures s Role.finance_accounting staff) (λ u.
                bind_same _ _ _ _ s (replacement_reason-Ensures reason _ s) (λ r v.
                  then-Ensures _ P _ _ s (end_active-Kept _ _ s h) (λ t free.
                    bind-Ensures _ _ _ _ t (kept.assignment_created _ t free refl) (λ a u after.
                      then_audit _ _ _ u (Ensures-pure _ _ _ (kept.audit _ u after))))))))))

  end_finance_given-Kept :
      (w : Runtime) (actor_id booking_id : ℕ) (reason : Text) (active : Option Assignment)
      (s : CrmStore)
      → P s
      → Ensures (λ a t. P t) (end_finance_given w actor_id booking_id reason active s)
  unfolding end_finance_given
  end_finance_given-Kept w actor_id booking_id reason none s h = Ensures-pure _ _ _ h
  end_finance_given-Kept w actor_id booking_id reason (some a) s h =
      bind-Ensures _ _ _ _ s (kept.assignment_ended _ a.id s h)
        (λ b t after. then_audit _ _ _ t (Ensures-pure _ _ _ (kept.audit _ t after)))

  pub end_booking_finance_assignment_body-Kept :
      (w : Runtime) (actor_id booking_id : ℕ) (reason : Text) (s : CrmStore)
      → P s
      → Ensures (λ a t. P t) (end_booking_finance_assignment_body w actor_id booking_id reason s)
  unfolding end_booking_finance_assignment_body
  end_booking_finance_assignment_body-Kept w actor_id booking_id reason s h = bind_gets _ _ _ _ (
      then_require _ _ _ _ s
        (λ known. bind_gets _ _ _ _ (end_finance_given-Kept w actor_id booking_id reason _ s h)))
