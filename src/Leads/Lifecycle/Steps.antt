-- ===== src/Leads/Lifecycle/Steps.antt =====
-- A new lead, a changed lead and a moved lead keep every lead's life in order.
use heritage_philippines_v.Prelude.{
  ℕ, Bool, true, false, Option, none, some, List, [], ◌∷◌, ◌≡◌, refl, ◌==◌, sym, ==→eq, ap, subst,
  if◌then◌else◌, ◌∙◌,
}
use heritage_philippines_v.Crm.Model.{LeadStatus, new, LeadRecord, LeadStatusHistory}
use heritage_philippines_v.Crm.Store.{CrmStore}
use heritage_philippines_v.Leads.Repository.{
  find_lead, set_lead, CreateLeadRow, new_lead, history_row,
}
use heritage_philippines_v.Leads.Reads.{history_of}
use heritage_philippines_v.Leads.Lifecycle.{Move, Follows, Lived, Linked, LeadsFit, status_of}
use heritage_philippines_v.Leads.Lifecycle.Rows.{changed_if, find_lead-set_lead}

abbrev pub Same : CrmStore → CrmStore → Type 0
Same s t = (t.leads ≡ s.leads) × (t.history ≡ s.history)

pub LeadsFit-Same : (s t : CrmStore) → Same s t → LeadsFit s → LeadsFit t
LeadsFit-Same s t e h = record { at = λ id. rw (e.0, e.1) (h.at id) }

pub Lived-none : (hs : List LeadStatusHistory) → Lived none hs → hs ≡ []
Lived-none [] h = refl
Lived-none (x ∷ hs) h = elim h.follows [ ]

abbrev first_row : CreateLeadRow → LeadStatusHistory
first_row input = history_row input.history_id input.id none new input.changed_by_user_id

-- One id before and after a lead is created; `same` tells whether it is the new lead's.
Lived-created :
    (same : Bool) (now : ℕ) (input : CreateLeadRow) (old : Option LeadRecord)
    (hs : List LeadStatusHistory)
    → (same ≡ true → hs ≡ [])
    → Lived old hs
    → Lived
        (if same then some (new_lead now input) else old)
        (if same then first_row input ∷ hs else hs)
Lived-created true now input old hs fresh h = record {
  follows = (refl, refl, rw (fresh refl) tt);
  linked = refl;
}
Lived-created false now input old hs fresh h = h

-- One id before and after a lead is moved to the status `next`.
Lived-moved :
    (same : Bool) (change : LeadRecord → LeadRecord) (row : LeadStatusHistory) (l : LeadRecord)
    (old : Option LeadRecord) (hs : List LeadStatusHistory)
    → (same ≡ true → old ≡ some l)
    → row.previous_status ≡ some l.status
    → row.new_status ≡ (change l).status
    → Move (some l.status) (change l).status
    → Linked (some (change l))
    → Lived old hs
    → Lived (changed_if same change old) (if same then row ∷ hs else hs)
Lived-moved true change row l old hs found before after move linked h = rw (found refl) (record {
  follows = (
    after,
    rw before move,
    rw before (subst (λ o. Follows (status_of o) hs) (found refl) h.follows),
  );
  linked = linked;
})
Lived-moved false change row l none hs found before after move linked h = h
Lived-moved false change row l (some k) hs found before after move linked h = h

-- A change that leaves the status and the client as they are.
abbrev pub Plain : (LeadRecord → LeadRecord) → Type 0
Plain change =
    (l : LeadRecord)
    → ((change l).id ≡ l.id) × ((change l).status ≡ l.status) × ((change l).client_id ≡ l.client_id)

Lived-changed :
    (same : Bool) (change : LeadRecord → LeadRecord) (old : Option LeadRecord)
    (hs : List LeadStatusHistory)
    → Plain change
    → Lived old hs
    → Lived (changed_if same change old) hs
Lived-changed same change none hs plain h = h
Lived-changed false change (some l) hs plain h = h
Lived-changed true change (some l) hs plain h = record {
  follows = rw ((plain l).1) h.follows;
  linked = rw ((plain l).1, (plain l).2) h.linked;
}

module _ (s : CrmStore) (fits : LeadsFit s) where
  pub LeadsFit-new :
      (now : ℕ) (input : CreateLeadRow)
      → find_lead s.leads input.id ≡ none
      → LeadsFit
          (record s { leads = new_lead now input ∷ s.leads; history = first_row input ∷ s.history })
  unfolding find_lead history_of
  LeadsFit-new now input fresh = record {
    at = λ q.
        Lived-created (input.id == q) now input (find_lead s.leads q) (history_of s.history q)
          (λ e. Lived-none _ (
            subst (λ o. Lived o (history_of s.history q))
              (ap (find_lead s.leads) (sym (==→eq _ q e)) ∙ fresh) (fits.at q)))
          (fits.at q);
  }

  pub LeadsFit-changed :
      (id : ℕ) (change : LeadRecord → LeadRecord)
      → Plain change
      → LeadsFit (record s { leads = set_lead id change s.leads })
  LeadsFit-changed id change plain = record {
    at = λ q.
        rw (find_lead-set_lead change (λ l. (plain l).0) id s.leads q)
          (Lived-changed (id == q) change _ _ plain (fits.at q));
  }

  -- A lead that moves, with the row of the move.
  pub LeadsFit-moved :
      (id : ℕ) (change : LeadRecord → LeadRecord) (row_id actor_id : ℕ) (l : LeadRecord)
      (before next : LeadStatus)
      → find_lead s.leads id ≡ some l
      → ((k : LeadRecord) → (change k).id ≡ k.id)
      → l.status ≡ before
      → (change l).status ≡ next
      → Move (some before) next
      → Linked (some (change l))
      → LeadsFit (record s {
        leads = set_lead id change s.leads;
        history = history_row row_id id (some before) next actor_id ∷ s.history;
      })
  unfolding history_of
  LeadsFit-moved id change row_id actor_id l before next found same_id was becomes move linked =
      record {
        at = λ q. rw (find_lead-set_lead change same_id id s.leads q) (
            Lived-moved (id == q) change (history_row row_id id (some before) next actor_id) l _ _
              (λ e. ap (find_lead s.leads) (sym (==→eq id q e)) ∙ found) (ap some (sym was))
              (sym becomes)
              (subst (λ n. Move (some l.status) n) (sym becomes)
                (subst (λ b. Move (some b) next) (sym was) move))
              linked (fits.at q));
      }
