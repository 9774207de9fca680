-- ===== src/Leads/Scope.antt =====
-- What an actor may see: the list of leads and the check of one lead agree, and a duplicate is shown
-- exactly when its record may be seen.
use heritage_philippines_v.Prelude.{
  ℕ, Bool, true, false, not, Option, some, List, [], ◌∷◌, ◌≡◌, refl, ap, ◌∙◌, ◌&&◌, ◌||◌, map, any,
  subst, ◌++◌, Bool-cases, inl, inr, select, some_eq, none-some, arith,
}
use heritage_philippines_v.Payments.Model.{Role, AuthenticatedUser}
use heritage_philippines_v.Crm.Model.{LeadRecord}
use heritage_philippines_v.Crm.Store.{CrmStore, Runtime, is_present}
use heritage_philippines_v.Assignments.Repository.{
  of_lead, find_active, find_active_assignment_for_lead,
}
use heritage_philippines_v.Assignments.Slots.{OneActive}
use heritage_philippines_v.Assignments.Rows.{any-holder}
use heritage_philippines_v.Assignments.Authorization.{
  is_assigned_to, can_access_lead, can_access_client,
}
use heritage_philippines_v.Leads.Repository.{LeadActor}
use heritage_philippines_v.Leads.Reads.{
  ListLeadsParams, in_scope, has_status, has_source, has_search, matching_leads,
}
use heritage_philippines_v.Leads.Service.Actors.{assert_lead_actor}
use heritage_philippines_v.Leads.Matches.{
  ContactParams, LeadDuplicateMatchRow, DuplicateMatchRow, find_duplicate_lead_matches,
  find_duplicate_client_matches,
}
use heritage_philippines_v.Leads.Service.Duplicates.{
  DuplicateMatchResult, lead_match, client_match, collect, find_duplicate_matches,
}

select-ext :
    {A : Type 0} (p q : A → Bool) (xs : List A) → ((a : A) → p a ≡ q a) → select p xs ≡ select q xs
select-ext p q [] e = refl
select-ext p q (x ∷ xs) e = ground (arith, e x, select-ext p q xs e)

-- The lead passes the filters of the query.
abbrev pub passes : Runtime → ListLeadsParams → LeadRecord → Bool
passes w params l =
    has_status params.status l && has_source params.source l && has_search w params.search l

module _ (s : CrmStore) (one : OneActive s) where
  scope_by :
      (role : Role) (id : ℕ) (a : LeadActor) (l : LeadRecord)
      → assert_lead_actor (record { id = id; role = role }) ≡ some a
      → in_scope s a l ≡ can_access_lead (record { id = id; role = role }) l.id s
  unfolding assert_lead_actor can_access_lead find_active_assignment_for_lead find_active
  scope_by Role.admin_manager id a l e =
      subst (λ (b : LeadActor). in_scope s b l ≡ true) (some_eq e) refl
  scope_by Role.travel_consultant id a l e =
      subst
        (λ (b : LeadActor).
          in_scope s b l ≡ is_assigned_to id (find_active_assignment_for_lead l.id s))
        (some_eq e) (any-holder (of_lead l.id) id s.assignments (one.at (of_lead l.id)))
  scope_by Role.system_administrator id a l e = elim (none-some e) [ ]
  scope_by Role.finance_accounting id a l e = elim (none-some e) [ ]
  scope_by Role.visa_documentation id a l e = elim (none-some e) [ ]
  scope_by Role.client id a l e = elim (none-some e) [ ]

and_assoc : (a b c d : Bool) → (a && b && c && d) ≡ (a && (b && c && d))
and_assoc true b c d = refl
and_assoc false b c d = refl

-- Where each lead has at most one active assignment: the rows that the list of leads counts and
-- pages are exactly the leads that pass the query's filters and that `canAccessLead` lets the actor
-- see, in the order of the table.
pub matching_leads-can_access_lead :
    (w : Runtime) (actor : AuthenticatedUser) (a : LeadActor) (params : ListLeadsParams)
    (s : CrmStore)
    → OneActive s
    → assert_lead_actor actor ≡ some a
    → matching_leads w a params s
      ≡ select (λ l. can_access_lead actor l.id s && passes w params l) s.leads
matching_leads-can_access_lead w actor a params s one e = select-ext _ _ s.leads (λ l.
    and_assoc (in_scope s a l) (has_status params.status l) (has_source params.source l)
      (has_search w params.search l)
    ∙ ap (λ b. b && passes w params l) (scope_by s one actor.role actor.id a l e))

collect-select :
    {A B : Type 0} (allowed : A → Bool) (shape : A → B) (xs : List A)
    → collect allowed shape xs ≡ (map shape (select allowed xs), any (λ x. not (allowed x)) xs)
collect-select allowed shape [] = refl
collect-select allowed shape (x ∷ xs) = ground (arith, collect-select allowed shape xs)

select-none : {A : Type 0} (p : A → Bool) (xs : List A) → ((a : A) → p a ≡ false) → select p xs ≡ []
select-none p [] e = refl
select-none p (x ∷ xs) e = ground (arith, e x, select-none p xs e)

module _ (actor : AuthenticatedUser) (params : ContactParams) (exclude : Option ℕ)
    (s : CrmStore) where
  abbrev pub sees_lead : LeadDuplicateMatchRow → Bool
  sees_lead m = can_access_lead actor m.id s

  abbrev pub sees_client : DuplicateMatchRow → Bool
  sees_client m = can_access_client actor m.id s

  -- The matches that the actor may see, and whether there are others.
  abbrev pub visible_matches : DuplicateMatchResult
  visible_matches =
      let leads = find_duplicate_lead_matches params exclude s in
      let clients = find_duplicate_client_matches params s in
      record {
        duplicate_matches =
            map lead_match (select sees_lead leads)
            ++ map client_match (select sees_client clients);
        restricted_match_detected =
            any (λ m. not (sees_lead m)) leads || any (λ m. not (sees_client m)) clients;
      }

  module _ (e : is_present params.normalized_email ≡ false)
      (f : is_present params.normalized_phone ≡ false) where
    no_leads : find_duplicate_lead_matches params exclude s ≡ []
    unfolding find_duplicate_lead_matches
    no_leads = ap (map _) (select-none _ s.leads (λ l. rw (e, f) refl))

    no_clients : find_duplicate_client_matches params s ≡ []
    unfolding find_duplicate_client_matches
    no_clients = ap (map _) (select-none _ s.clients (λ c. rw (e, f) refl))

  both_absent : (a b : Bool) → (not a && not b) ≡ true → (a ≡ false) × (b ≡ false)
  both_absent false false h = (refl, refl)
  both_absent true b h = cc
  both_absent false true h = cc

  -- The duplicates that a call lists are, in order, the matching leads that `canAccessLead` lets the
  -- actor see and the matching clients that `canAccessClient` lets them see; the flag is raised
  -- exactly when some match may not be seen.
  pub find_duplicate_matches-visible :
      find_duplicate_matches actor params exclude s ≡ visible_matches
  unfolding find_duplicate_matches
  find_duplicate_matches-visible =
      elim (Bool-cases
        (not (is_present params.normalized_email) && not (is_present params.normalized_phone))) [
          | inl absent ↦
              let h = both_absent _ _ absent in
              rw (absent, no_leads h.0 h.1, no_clients h.0 h.1) refl
          | inr searched ↦
              rw
                (
                  searched,
                  collect-select sees_lead lead_match
                      (find_duplicate_lead_matches params exclude s),
                  collect-select sees_client client_match (find_duplicate_client_matches params s),
                )
                refl
        ]
