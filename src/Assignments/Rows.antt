-- ===== src/Assignments/Rows.antt =====
-- The rows of assignments by slot: the one that holds a slot, and the rows after it is ended.
use heritage_philippines_v.Prelude.{
  ℕ, Bool, true, false, none, some, List, [], ◌∷◌, ◌≡◌, ◌≤◌, refl, ◌&&◌, ◌==◌, find, any, is_some,
  arith, ==_refl,
}
use heritage_philippines_v.Crm.Model.{Assignment}
use heritage_philippines_v.Assignments.Repository.{Slot, fills, end_row}
use heritage_philippines_v.Assignments.Authorization.{is_assigned_to}
use heritage_philippines_v.Assignments.Slots.{holders, ended_holds}

pub find-by_id :
    (p : Assignment → Bool) (xs : List Assignment) (a : Assignment)
    → find p xs ≡ some a
    → is_some (find (λ b. b.id == a.id) xs) ≡ true
find-by_id p [] a e = cc
find-by_id p (x ∷ xs) a e = ground (arith, find-by_id p xs a, ==_refl a.id)

-- Ending rows gives a slot that nothing held no holder.
none_ended :
    (slot : Slot) (now id : ℕ) (xs : List Assignment)
    → holders slot xs ≡ 0
    → any (fills slot) (end_row now id xs) ≡ false
none_ended slot now id [] h = refl
none_ended slot now id (x ∷ xs) h =
    ground (arith, none_ended slot now id xs, ended_holds slot now x)

-- Once the one row that holds a slot is ended, nothing holds it.
pub freed :
    (slot : Slot) (now : ℕ) (xs : List Assignment) (a : Assignment)
    → holders slot xs ≤ 1
    → find (fills slot) xs ≡ some a
    → any (fills slot) (end_row now a.id xs) ≡ false
freed slot now [] a one e = cc
freed slot now (x ∷ xs) a one e =
    ground (
      arith,
      freed slot now xs a,
      none_ended slot now a.id xs,
      ended_holds slot now x,
      ==_refl a.id,
    )

pub unheld :
    (slot : Slot) (xs : List Assignment) → find (fills slot) xs ≡ none → any (fills slot) xs ≡ false
unheld slot [] e = refl
unheld slot (x ∷ xs) e = ground (arith, unheld slot xs)

pub id_taken-end_row :
    (now id k : ℕ) (xs : List Assignment)
    → any (λ a. a.id == k) (end_row now id xs) ≡ any (λ a. a.id == k) xs
id_taken-end_row now id k [] = refl
id_taken-end_row now id k (x ∷ xs) = ground (arith, id_taken-end_row now id k xs)

unheld-any :
    (slot : Slot) (staff : ℕ) (xs : List Assignment)
    → holders slot xs ≡ 0
    → any (λ a. fills slot a && a.assigned_staff_id == staff) xs ≡ false
unheld-any slot staff [] h = refl
unheld-any slot staff (x ∷ xs) h = ground (arith, unheld-any slot staff xs)

-- Whether an active row of a slot is assigned to someone: the first such row tells, when there is
-- at most one.
pub any-holder :
    (slot : Slot) (staff : ℕ) (xs : List Assignment)
    → holders slot xs ≤ 1
    → any (λ a. fills slot a && a.assigned_staff_id == staff) xs
      ≡ is_assigned_to staff (find (fills slot) xs)
any-holder slot staff [] one = refl
any-holder slot staff (x ∷ xs) one =
    ground (arith, any-holder slot staff xs, unheld-any slot staff xs)
