-- ===== src/Assignments/Slots.antt =====
-- At most one active assignment holds a slot: a lead, a client, or a booking in one role.
use heritage_philippines_v.Prelude.{
  ℕ, Bool, true, false, Option, none, some, List, [], ◌∷◌, ◌≡◌, ◌≤◌, refl, sym, ap, subst, ◌&&◌,
  length, any, select, arith, Bool-cases, inl, inr, ==→eq,
}
use heritage_philippines_v.Transaction.Rules.{Ensures, Ensures-map}
use heritage_philippines_v.Crm.Model.{Assignment}
use heritage_philippines_v.Crm.Store.{CrmStore}
use heritage_philippines_v.Assignments.Model.Roles.{role_eq→eq}
use heritage_philippines_v.Assignments.Repository.{
  Slot, of_lead, of_client, of_booking, fills, is_id, taken_for, ended, end_row, create_assignment,
  end_assignment_by_id,
}
use heritage_philippines_v.Assignments.Writes.{
  Free, create_assignment-Ensures, end_assignment_by_id-Ensures,
}

abbrev pub holders : Slot → List Assignment → ℕ
holders slot assignments = length (select (fills slot) assignments)

pub record OneActive (s : CrmStore) : Type 0 where
  pub at : (slot : Slot) → holders slot s.assignments ≤ 1

select-any : {A : Type 0} (p : A → Bool) (xs : List A) → any p xs ≡ false → length (select p xs) ≡ 0
select-any p [] h = refl
select-any p (x ∷ xs) h = ground (arith, select-any p xs)

pub ended_holds : (slot : Slot) (now : ℕ) (a : Assignment) → fills slot (ended now a) ≡ false
ended_holds (of_lead id) now a = ground arith
ended_holds (of_client id) now a = ground arith
ended_holds (of_booking id role) now a = ground arith

-- Ending rows never adds a holder: an ended row holds nothing.
holders-end_row :
    (slot : Slot) (now id : ℕ) (xs : List Assignment)
    → holders slot (end_row now id xs) ≤ holders slot xs
holders-end_row slot now id [] = omega arith
holders-end_row slot now id (a ∷ xs) =
    ground (arith, holders-end_row slot now id xs, ended_holds slot now a)

and_both : (a b : Bool) → (a && b) ≡ true → (a ≡ true) × (b ≡ true)
and_both true true h = (refl, refl)
and_both true false h = cc
and_both false b h = cc

is_id→some : (o : Option ℕ) (id : ℕ) → is_id o id ≡ true → o ≡ some id
is_id→some none id h = cc
is_id→some (some k) id h = ap some (==→eq k id h)

-- A slot that a free row fills has no holder.
Free-holders :
    (slot : Slot) (s : CrmStore) (row : Assignment)
    → Free s row
    → fills slot row ≡ true
    → holders slot s.assignments ≡ 0
Free-holders (of_lead id) s row free h =
    let e = is_id→some row.lead_id id (and_both _ _ h).0 in
    select-any _ s.assignments (subst (λ o. taken_for o of_lead s.assignments ≡ false) e free.lead)
Free-holders (of_client id) s row free h =
    let e = is_id→some row.client_id id (and_both _ _ h).0 in
    select-any _ s.assignments
      (subst (λ o. taken_for o of_client s.assignments ≡ false) e free.client)
Free-holders (of_booking id role) s row free h =
    let e = is_id→some row.booking_id id (and_both _ _ (and_both _ _ h).0).0 in
    let r = role_eq→eq row.role role (and_both _ _ (and_both _ _ h).0).1 in
    select-any _ s.assignments (
      subst (λ k. any (fills (of_booking id k)) s.assignments ≡ false) r
        (subst (λ o. taken_for o (λ i. of_booking i row.role) s.assignments ≡ false) e
          free.booking))

module _ (s : CrmStore) (one : OneActive s) where
  row_at : (slot : Slot) (row : Assignment) → Free s row → holders slot (row ∷ s.assignments) ≤ 1
  row_at slot row free = elim (Bool-cases (fills slot row)) [
    | inl holds ↦ ground (arith, Free-holders slot s row free holds)
    | inr not ↦ ground (arith, one.at slot)
  ]

  pub create_assignment-OneActive :
      {E : Type 0} (row : Assignment)
      → Ensures {E = E} (λ a t. OneActive t) (create_assignment row s)
  create_assignment-OneActive row =
      Ensures-map _ _
        (λ a t e. subst OneActive (sym e.2) (record { at = λ slot. row_at slot row e.1 }))
        (create_assignment-Ensures s row)

  pub end_assignment_by_id-OneActive :
      {E : Type 0} (now id : ℕ)
      → Ensures {E = E} (λ a t. OneActive t) (end_assignment_by_id now id s)
  end_assignment_by_id-OneActive now id =
      Ensures-map _ _
        (λ a t e. subst OneActive (sym e.1) (record {
          at = λ slot. omega (arith, one.at slot, holders-end_row slot now id s.assignments);
        }))
        (end_assignment_by_id-Ensures s now id)
