-- ===== src/Assignments/Writes.antt =====
-- What the writes of assignments/repository.ts leave in the store when the database accepts them.
use heritage_philippines_v.Prelude.{ℕ, false, some, ◌∷◌, ◌≡◌, refl, ◌==◌, find}
use heritage_philippines_v.Transaction.Rules.{Ensures, Ensures-pure, bind_gets, then_modify}
use heritage_philippines_v.Crm.Model.{Assignment}
use heritage_philippines_v.Crm.Store.{CrmStore}
use heritage_philippines_v.Crm.Writes.{then_free, then_insert, bind_updated}
use heritage_philippines_v.Assignments.Repository.{
  of_lead, of_client, of_booking, taken_for, id_taken, create_assignment, ended, end_row,
  end_assignment_by_id,
}

pub record Free (s : CrmStore) (row : Assignment) : Type 0 where
  pub id : id_taken row.id s.assignments ≡ false
  pub lead : taken_for row.lead_id of_lead s.assignments ≡ false
  pub client : taken_for row.client_id of_client s.assignments ≡ false
  pub booking : taken_for row.booking_id (λ id. of_booking id row.role) s.assignments ≡ false

module _ {E : Type 0} (s : CrmStore) where
  pub create_assignment-Ensures :
      (row : Assignment)
      → Ensures {E = E}
          (λ a t. (a ≡ row) × Free s row × (t ≡ record s { assignments = row ∷ s.assignments }))
          (create_assignment row s)
  unfolding create_assignment
  create_assignment-Ensures row = bind_gets _ _ _ _ (
      then_free _ _ _ _ _ s (λ known. bind_gets _ _ _ _ (
        then_free _ _ _ _ _ s (λ on_lead. bind_gets _ _ _ _ (
          then_free _ _ _ _ _ s (λ on_client. bind_gets _ _ _ _ (
            then_insert _ _ _ _ _ _ s (λ on_booking. Ensures-pure _ _ _ (
              refl,
              record { id = known; lead = on_lead; client = on_client; booking = on_booking },
              refl,
            )))))))))

  pub end_assignment_by_id-Ensures :
      (now id : ℕ)
      → Ensures {E = E}
          (λ a t.
            ((b : Assignment) × (find (λ a. a.id == id) s.assignments ≡ some b) × (a ≡ ended now b))
            × (t ≡ record s { assignments = end_row now id s.assignments }))
          (end_assignment_by_id now id s)
  unfolding end_assignment_by_id
  end_assignment_by_id-Ensures now id = bind_gets _ _ _ _ (
      bind_updated _ _ _ _ s
        (λ b found. then_modify _ _ _ _ (Ensures-pure _ _ _ ((b, found, refl), refl))))
