-- ===== src/Payments/Ledger/Rows.antt =====
-- Rows found by their id, and the list of payments after one changes its status.
use heritage_philippines_v.Prelude.{
  ℕ, Bool, true, false, Option, none, some, List, [], ◌∷◌, ◌≡◌, refl, sym, ap, ◌∙◌, inl, inr, ◌==◌,
  find, All, is_some, arith, if◌then◌else◌, Bool-cases, ==→eq,
}
use heritage_philippines_v.Payments.Model.{Payment, PaymentStatus}
use heritage_philippines_v.Payments.Calculations.{counts}
use heritage_philippines_v.Payments.Repository.Payments.{find_payment, with_status, set_status}
use heritage_philippines_v.Payments.Repository.Allocations.{payment_counts, counts_found}

module _ {A : Type 0} (id_of : A → ℕ) (xs : List A) where
  abbrev by_id : ℕ → Option A
  by_id k = find (λ r. id_of r == k) xs

  -- An id that no row has differs from one that some row has.
  pub absent_ne : (k q : ℕ) → by_id k ≡ none → is_some (by_id q) ≡ true → (k == q) ≡ false
  absent_ne k q absent present = elim (Bool-cases (k == q)) [
    | inl same ↦
        let e : is_some (by_id k) ≡ true = rw (==→eq k q same) present in cc (ap is_some absent)
    | inr other ↦ other
  ]

  pub present : {a : A} (q : ℕ) → by_id q ≡ some a → is_some (by_id q) ≡ true
  present q e = ap is_some e

-- The row that a test on the id and another test finds is the row of that id.
pub find-and {ℓ} :
    {A : Type ℓ} (p : A → Bool) (xs : List A) (a : A) → find p xs ≡ some a → p a ≡ true
find-and p [] a e = cc
find-and p (x ∷ xs) a e = ground (arith, find-and p xs a)

abbrev pub change_status : ℕ → PaymentStatus → Payment → Payment
change_status id status p = if p.id == id then with_status status p else p

abbrev pub changed : ℕ → PaymentStatus → Option Payment → Option Payment
changed id status none = none
changed id status (some p) = some (change_status id status p)

pub find_payment-set_status :
    (id : ℕ) (status : PaymentStatus) (payments : List Payment) (q : ℕ)
    → find_payment (set_status id status payments) q ≡ changed id status (find_payment payments q)
unfolding find_payment
find_payment-set_status id status [] q = refl
find_payment-set_status id status (p ∷ payments) q =
    ground (arith, find_payment-set_status id status payments q)

pub is_some-set_status :
    (id : ℕ) (status : PaymentStatus) (payments : List Payment) (q : ℕ)
    → is_some (find_payment payments q) ≡ true
    → is_some (find_payment (set_status id status payments) q) ≡ true
is_some-set_status id status payments q h = rw find_payment-set_status (ground arith)

pub All-set_status {ℓ} :
    (P : Payment → Type ℓ) (id : ℕ) (status : PaymentStatus) (payments : List Payment)
    → All (λ p. P (change_status id status p)) payments
    → All P (set_status id status payments)
All-set_status P id status [] h = tt
All-set_status P id status (p ∷ payments) h = (h.0, All-set_status P id status payments h.1)

-- A payment of another id counts as before.
pub payment_counts-set_status_ne :
    (id : ℕ) (status : PaymentStatus) (payments : List Payment) (q : ℕ)
    → (q == id) ≡ false
    → payment_counts (set_status id status payments) q ≡ payment_counts payments q
unfolding payment_counts find_payment
payment_counts-set_status_ne id status payments q ne =
    ap counts_found (find_payment-set_status id status payments q)
    ∙ go (find_payment payments q) refl
  where
    go :
        (o : Option Payment)
        → find_payment payments q ≡ o
        → counts_found (changed id status o) ≡ counts_found o
    go none e = refl
    go (some p) e =
        let found : (p.id == q) ≡ true = find-and (λ (r : Payment). r.id == q) payments p e in
        ground arith

-- A status that does not count makes no payment count.
pub payment_counts-set_status_le :
    (id : ℕ) (status : PaymentStatus) (payments : List Payment) (q : ℕ)
    → counts status ≡ false
    → payment_counts (set_status id status payments) q ≡ true
    → payment_counts payments q ≡ true
unfolding payment_counts
payment_counts-set_status_le id status payments q h e =
    go (find_payment payments q)
      (sym (ap counts_found (find_payment-set_status id status payments q)) ∙ e)
  where
    go : (o : Option Payment) → counts_found (changed id status o) ≡ true → counts_found o ≡ true
    go none l = l
    go (some p) l = ground arith
