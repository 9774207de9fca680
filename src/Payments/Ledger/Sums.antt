-- ===== src/Payments/Ledger/Sums.antt =====
-- Conditional sums of amounts, and the folds of the repository as such sums.
use heritage_philippines_v.Prelude.{
  ℕ, Bool, true, false, some, List, [], ◌∷◌, ◌≡◌, refl, ap, ◌∙◌, inl, inr, ◌==◌, find, select, All,
  arith, if◌then◌else◌, Bool-cases,
}
use heritage_philippines_v.Prelude.Int.{pos, ◌+ℤ◌, ◌-ℤ◌, ◌≤ℤ◌, int_laws}
use heritage_philippines_v.Payments.Model.{Decimal, PaymentRefundAllocation, PaymentAllocation}
use heritage_philippines_v.Payments.Store.{sum_where}
use heritage_philippines_v.Payments.Repository.Allocations.{
  minus_each, plus_each, refund_allocations_of, net_active_total, refund_allocated_total_of,
}

-- What a row adds to a conditional sum.
abbrev pub term {ℓ} : {A : Type ℓ} → (A → Bool) → (A → Decimal) → A → Decimal
term p f x = if p x then f x else pos 0

pub sum_where_le {ℓ} :
    {A : Type ℓ} (p q : A → Bool) (f g : A → Decimal) (xs : List A)
    → All (λ x. term p f x ≤ℤ term q g x) xs
    → sum_where p f xs ≤ℤ sum_where q g xs
sum_where_le p q f g [] h = omega arith
sum_where_le p q f g (x ∷ xs) h = omega (int_laws, sum_where_le p q f g xs h.1, h.0)

pub sum_where_nonneg {ℓ} :
    {A : Type ℓ} (p : A → Bool) (f : A → Decimal) (xs : List A)
    → All (λ x. pos 0 ≤ℤ f x) xs
    → pos 0 ≤ℤ sum_where p f xs
sum_where_nonneg p f [] h = omega arith
sum_where_nonneg p f (x ∷ xs) h = elim (Bool-cases (p x)) [
  | inl e ↦ rw e (omega (int_laws, sum_where_nonneg p f xs h.1, h.0))
  | inr e ↦ rw e (omega (int_laws, sum_where_nonneg p f xs h.1))
]

pub sum_where_none {ℓ} :
    {A : Type ℓ} (p : A → Bool) (f : A → Decimal) (xs : List A)
    → All (λ x. p x ≡ false) xs
    → sum_where p f xs ≡ pos 0
sum_where_none p f [] h = refl
sum_where_none p f (x ∷ xs) h = rw (h.0, sum_where_none p f xs h.1) (omega int_laws)

-- Where one row that the sum counts gives up `d` and no row gains, the sum loses `d` at least.
pub sum_where_drop :
    (p : PaymentAllocation → Bool) (f g : PaymentAllocation → Decimal) (d : Decimal) (id : ℕ)
    (xs : List PaymentAllocation) (a : PaymentAllocation)
    → All (λ x. term p g x ≤ℤ term p f x) xs
    → find (λ x. x.id == id) xs ≡ some a
    → p a ≡ true
    → g a ≤ℤ f a -ℤ d
    → sum_where p g xs ≤ℤ sum_where p f xs -ℤ d
sum_where_drop p f g d id [] a h e t l = cc
sum_where_drop p f g d id (x ∷ xs) a h e t l = elim (Bool-cases (x.id == id)) [
  | inl same ↦
      let x_eq : x ≡ a = ground arith in
      rw (x_eq, t) (omega (int_laws, sum_where_le p p g f xs h.1, l))
  | inr other ↦
      let rest : find (λ y. y.id == id) xs ≡ some a = ground arith in
      omega (int_laws, sum_where_drop p f g d id xs a h.1 rest t l, h.0)
]

-- The refunds that are linked to an allocation, and what it still allocates.
abbrev pub linked_refunds : List PaymentRefundAllocation → ℕ → Decimal
linked_refunds rows id =
    sum_where (λ (r : PaymentRefundAllocation). r.payment_allocation_id == id) (λ r. r.amount) rows

abbrev pub net_of : List PaymentRefundAllocation → PaymentAllocation → Decimal
net_of rows a = a.amount -ℤ linked_refunds rows a.id

minus_each-select :
    (p : PaymentRefundAllocation → Bool) (net : Decimal) (rows : List PaymentRefundAllocation)
    → minus_each net (select p rows) ≡ net -ℤ sum_where p (λ r. r.amount) rows
minus_each-select p net [] = omega int_laws
minus_each-select p net (r ∷ rows) = elim (Bool-cases (p r)) [
  | inl e ↦ rw e (minus_each-select p (net -ℤ r.amount) rows ∙ omega int_laws)
  | inr e ↦ rw e (minus_each-select p net rows ∙ omega int_laws)
]

plus_each-select :
    (p : PaymentRefundAllocation → Bool) (net : Decimal) (rows : List PaymentRefundAllocation)
    → plus_each net (select p rows) ≡ net +ℤ sum_where p (λ r. r.amount) rows
plus_each-select p net [] = omega int_laws
plus_each-select p net (r ∷ rows) = elim (Bool-cases (p r)) [
  | inl e ↦ rw e (plus_each-select p (net +ℤ r.amount) rows ∙ omega int_laws)
  | inr e ↦ rw e (plus_each-select p net rows ∙ omega int_laws)
]

-- The total of an allocation's linked refunds is their sum.
pub refund_allocated_total_of-eq-sum :
    (rows : List PaymentRefundAllocation) (id : ℕ)
    → refund_allocated_total_of rows id ≡ linked_refunds rows id
unfolding refund_allocated_total_of
refund_allocated_total_of-eq-sum rows id = plus_each-select _ (pos 0) rows ∙ omega int_laws

minus_each-net_of :
    (refunded : List PaymentRefundAllocation) (total : Decimal) (a : PaymentAllocation)
    → minus_each (total +ℤ a.amount) (refund_allocations_of refunded a.id)
      ≡ total +ℤ net_of refunded a
unfolding refund_allocations_of
minus_each-net_of refunded total a =
    minus_each-select _ (total +ℤ a.amount) refunded ∙ omega int_laws

-- The nested fold over the selected allocations is the sum of what each still allocates.
pub net_active_total-eq-sum :
    (refunded : List PaymentRefundAllocation) (p : PaymentAllocation → Bool) (total : Decimal)
    (xs : List PaymentAllocation)
    → net_active_total refunded total (select p xs) ≡ total +ℤ sum_where p (net_of refunded) xs
unfolding net_active_total
net_active_total-eq-sum refunded p total [] = omega int_laws
net_active_total-eq-sum refunded p total (x ∷ xs) = elim (Bool-cases (p x)) [
  | inl e ↦ rw e (
      ap (λ (d : Decimal). net_active_total refunded d (select p xs))
        (minus_each-net_of refunded total x)
      ∙ net_active_total-eq-sum refunded p (total +ℤ net_of refunded x) xs
      ∙ omega int_laws)
  | inr e ↦ rw e (net_active_total-eq-sum refunded p total xs ∙ omega int_laws)
]
