-- ===== src/Leads/Lifecycle/Rows.antt =====
-- Leads and their history rows by id, after a lead is added or changed.
use heritage_philippines_v.Prelude.{
  ℕ, Bool, Option, none, some, List, [], ◌∷◌, ◌≡◌, refl, ◌==◌, arith, if◌then◌else◌,
}
use heritage_philippines_v.Crm.Model.{LeadRecord}
use heritage_philippines_v.Leads.Repository.{find_lead, set_lead}

abbrev pub changed_if : Bool → (LeadRecord → LeadRecord) → Option LeadRecord → Option LeadRecord
changed_if same change none = none
changed_if same change (some l) = if same then some (change l) else some l

module _ (change : LeadRecord → LeadRecord) (same_id : (l : LeadRecord) → (change l).id ≡ l.id)
    (id : ℕ) where
  pub find_lead-set_lead :
      (leads : List LeadRecord) (q : ℕ)
      → find_lead (set_lead id change leads) q ≡ changed_if (id == q) change (find_lead leads q)
  unfolding find_lead
  find_lead-set_lead [] q = refl
  find_lead-set_lead (l ∷ leads) q = ground (arith, same_id l, find_lead-set_lead leads q)
