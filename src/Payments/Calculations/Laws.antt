-- ===== src/Payments/Calculations/Laws.antt =====
-- What the balances of a booking mean: the laws of the formulas of
-- apps/web/src/features/payments/calculations.ts.
use heritage_philippines_v.Prelude.{
  ℕ, true, Option, none, some, List, [], ◌∷◌, ◌≡◌, refl, sym, inl, inr, ◌⊎◌, ◌&&◌, ◌==◌, ◌≤◌, ltb,
  arith, Bool-cases, if◌then◌else◌, All, ◌∙◌, Option-cases, none-some, some_eq, true-false, ap,
  subst, false,
}
use heritage_philippines_v.Prelude.Int.{
  pos, ◌+ℤ◌, ◌-ℤ◌, ◌≤ℤ◌, ◌<ℤ◌, is_negative, is_negative-true, is_negative-false, ltb_ℤ-true,
  ltb_ℤ-false, int_laws, ltb_ℤ,
}
use heritage_philippines_v.Payments.Model.{Decimal}
use heritage_philippines_v.Payments.Calculations.{
  clamp_negative, greater_than, compute_remaining_balance, compute_overpayment,
  InstallmentForNextDue, earlier, next_due_from, compute_next_payment_due, due_amount_from,
  compute_next_payment_due_amount,
}

pub clamp_negative-cases :
    (d : Decimal)
    → ((d <ℤ pos 0) × (clamp_negative d ≡ pos 0)) ⊎ ((pos 0 ≤ℤ d) × (clamp_negative d ≡ d))
clamp_negative-cases d = elim (Bool-cases (is_negative d)) [
  | inl e ↦ inl (is_negative-true d e, rw e refl)
  | inr e ↦ inr (is_negative-false d e, rw e refl)
]

-- Of the remaining balance and the overpayment of a booking neither is negative, one is zero, and
-- their difference is the total less what is paid.
pub remaining-overpayment :
    (total paid : Decimal)
    → (pos 0 ≤ℤ compute_remaining_balance total paid)
      × (pos 0 ≤ℤ compute_overpayment total paid)
      × ((compute_remaining_balance total paid ≡ pos 0) ⊎ (compute_overpayment total paid ≡ pos 0))
      × (compute_remaining_balance total paid -ℤ compute_overpayment total paid ≡ total -ℤ paid)
unfolding compute_remaining_balance compute_overpayment
remaining-overpayment total paid = elim (clamp_negative-cases (total -ℤ paid)) [
  | inl (less, e) ↦ elim (clamp_negative-cases (paid -ℤ total)) [
    | inl (more, f) ↦ absurd (omega (int_laws, less, more))
    | inr (more, f) ↦ rw (e, f) (omega arith, omega (int_laws, more), inl refl, omega int_laws)
  ]
  | inr (less, e) ↦ elim (clamp_negative-cases (paid -ℤ total)) [
    | inl (more, f) ↦ rw (e, f) (omega (int_laws, less), omega arith, inr refl, omega int_laws)
    | inr (more, f) ↦
        rw (e, f) (less, more, inr (omega (int_laws, less, more)), omega (int_laws, less, more))
  ]
]

-- The first date, if any, is no later than the second.
abbrev pub NoLater : Option ℕ → Option ℕ → Type 0
NoLater d none = Unit {0}
NoLater none (some e) = ⊥
NoLater (some d) (some e) = d ≤ e

NoLater-trans : (a b c : Option ℕ) → NoLater a b → NoLater b c → NoLater a c
NoLater-trans a b none h k = tt
NoLater-trans a none (some c) h k = absurd k
NoLater-trans none (some b) (some c) h k = absurd h
NoLater-trans (some a) (some b) (some c) h k = omega (arith, h, k)

NoLater-refl : (a : Option ℕ) → NoLater a a
NoLater-refl none = tt
NoLater-refl (some a) = omega arith

-- An outstanding installment falls due on the date.
abbrev pub FallsOn : ℕ → List InstallmentForNextDue → Type 0
FallsOn date [] = ⊥
FallsOn date (i ∷ rest) =
    ((pos 0 <ℤ i.outstanding_amount) × (i.due_date ≡ date)) ⊎ FallsOn date rest

-- One turn of the loop.
abbrev pick : Option ℕ → InstallmentForNextDue → Option ℕ
pick earliest i =
    if greater_than i.outstanding_amount (pos 0) && earlier i.due_date earliest
    then some i.due_date
    else earliest

earlier-cases :
    (date : ℕ) (e : Option ℕ)
    → ((earlier date e ≡ true) × NoLater (some date) e)
      ⊎ ((earlier date e ≡ false) × NoLater e (some date))
earlier-cases date none = inl (refl, tt)
earlier-cases date (some d) = elim (Bool-cases (ltb date d)) [
  | inl e ↦ inl (e, ground (arith, e))
  | inr e ↦ inr (e, ground (arith, e))
]

pick-earlier :
    (e : Option ℕ) (i : InstallmentForNextDue)
    → NoLater (pick e i) e × (pos 0 <ℤ i.outstanding_amount → NoLater (pick e i) (some i.due_date))
pick-earlier e i = elim (Bool-cases (greater_than i.outstanding_amount (pos 0))) [
  | inl out ↦ elim (earlier-cases i.due_date e) [
    | inl (first, le) ↦ rw (out, first) (le, λ h. omega arith)
    | inr (later, le) ↦ rw (out, later) (NoLater-refl e, λ h. le)
  ]
  | inr settled ↦
      rw settled (NoLater-refl e, λ h. absurd (omega (arith, h, ltb_ℤ-false _ _ settled)))
]

pick-FallsOn :
    (e : Option ℕ) (i : InstallmentForNextDue) (date : ℕ)
    → pick e i ≡ some date
    → (e ≡ some date) ⊎ ((pos 0 <ℤ i.outstanding_amount) × (i.due_date ≡ date))
pick-FallsOn e i date h = elim (Bool-cases (greater_than i.outstanding_amount (pos 0))) [
  | inl out ↦ elim (Bool-cases (earlier i.due_date e)) [
    | inl first ↦ inr (ltb_ℤ-true _ _ out, some_eq (rw (out, first) at h))
    | inr later ↦ inl (rw (out, later) at h)
  ]
  | inr settled ↦ inl (rw settled at h)
]

next_due_from-NoLater :
    (e : Option ℕ) (is : List InstallmentForNextDue)
    → NoLater (next_due_from e is) e
      × All (λ i. pos 0 <ℤ i.outstanding_amount → NoLater (next_due_from e is) (some i.due_date)) is
unfolding next_due_from
next_due_from-NoLater e [] = (NoLater-refl e, tt)
next_due_from-NoLater e (i ∷ is) =
    let rest = next_due_from-NoLater (pick e i) is in
    (
      NoLater-trans _ _ _ rest.0 (pick-earlier e i).0,
      (λ h. NoLater-trans _ _ (some i.due_date) rest.0 ((pick-earlier e i).1 h), rest.1),
    )

next_due_from-FallsOn :
    (e : Option ℕ) (is : List InstallmentForNextDue) (date : ℕ)
    → next_due_from e is ≡ some date
    → (e ≡ some date) ⊎ FallsOn date is
unfolding next_due_from
next_due_from-FallsOn e [] date h = inl h
next_due_from-FallsOn e (i ∷ is) date h = elim (next_due_from-FallsOn (pick e i) is date h) [
  | inl picked ↦ elim (pick-FallsOn e i date picked) [ inl old ↦ inl old | inr new ↦ inr (inl new) ]
  | inr later ↦ inr (inr later)
]

-- The next payment due is the earliest due date of the installments that are outstanding: none is
-- due before it, one is due on it, and where there is no such date nothing is outstanding.
pub next_payment_due-earliest :
    (is : List InstallmentForNextDue)
    → All
        (λ i.
          pos 0 <ℤ i.outstanding_amount → NoLater (compute_next_payment_due is) (some i.due_date))
        is
      × ((date : ℕ) → compute_next_payment_due is ≡ some date → FallsOn date is)
unfolding compute_next_payment_due
next_payment_due-earliest is = (
  (next_due_from-NoLater none is).1,
  λ date h. elim (next_due_from-FallsOn none is date h) [
    | inl e ↦ absurd (none-some e)
    | inr on ↦ on
  ],
)

abbrev count_due : ℕ → Decimal → InstallmentForNextDue → Decimal
count_due date total i =
    if i.due_date == date && greater_than i.outstanding_amount (pos 0)
    then total +ℤ i.outstanding_amount
    else total

count_due-grows :
    (date : ℕ) (total : Decimal) (i : InstallmentForNextDue)
    → (total ≤ℤ count_due date total i)
      × ((pos 0 <ℤ i.outstanding_amount) × (i.due_date ≡ date) → total <ℤ count_due date total i)
count_due-grows date total i = elim (Bool-cases (greater_than i.outstanding_amount (pos 0))) [
  | inl out ↦
      let more : total <ℤ total +ℤ i.outstanding_amount = omega (int_laws, ltb_ℤ-true _ _ out) in
      elim (Bool-cases (i.due_date == date)) [
        | inl on ↦ rw (on, out) (omega (arith, more), λ h. more)
        | inr off ↦ rw off (omega arith, λ h. absurd (true-false (sym off ∙ ground (arith, h.1))))
      ]
  | inr settled ↦ elim (Bool-cases (i.due_date == date)) [
    | inl on ↦
        rw (on, settled) (omega arith, λ h. absurd (omega (arith, h.0, ltb_ℤ-false _ _ settled)))
    | inr off ↦ rw off (omega arith, λ h. absurd (omega (arith, h.0, ltb_ℤ-false _ _ settled)))
  ]
]

due_amount_from-grows :
    (date : ℕ) (total : Decimal) (is : List InstallmentForNextDue)
    → (total ≤ℤ due_amount_from date total is)
      × (FallsOn date is → total <ℤ due_amount_from date total is)
unfolding due_amount_from
due_amount_from-grows date total [] = (omega arith, λ h. absurd h)
due_amount_from-grows date total (i ∷ is) =
    let step = count_due-grows date total i in
    let rest = due_amount_from-grows date (count_due date total i) is in
    (
      omega (arith, step.0, rest.0),
      λ h. elim h [
        | inl new ↦ omega (arith, step.1 new, rest.0)
        | inr later ↦ omega (arith, step.0, rest.1 later)
      ],
    )

-- What the outstanding installments that fall due on the date come to.
abbrev pub sum_due : ℕ → List InstallmentForNextDue → Decimal
sum_due date [] = pos 0
sum_due date (i ∷ is) =
    let rest = sum_due date is in
    if i.due_date == date && ltb_ℤ (pos 0) i.outstanding_amount
    then i.outstanding_amount +ℤ rest
    else rest

due_amount_from-sum_due :
    (date : ℕ) (total : Decimal) (is : List InstallmentForNextDue)
    → due_amount_from date total is ≡ total +ℤ sum_due date is
unfolding due_amount_from
due_amount_from-sum_due date total [] = omega int_laws
due_amount_from-sum_due date total (i ∷ is) =
    elim (Bool-cases (i.due_date == date && ltb_ℤ (pos 0) i.outstanding_amount)) [
      | inl due ↦
          rw due (due_amount_from-sum_due date (total +ℤ i.outstanding_amount) is ∙ omega int_laws)
      | inr not_due ↦ rw not_due (due_amount_from-sum_due date total is)
    ]

-- There is an amount due next exactly where there is a date, and it is what the outstanding
-- installments that fall due on that date come to, which is positive.
pub next_payment_due_amount-sum_due :
    (is : List InstallmentForNextDue)
    → ((compute_next_payment_due is ≡ none) × (compute_next_payment_due_amount is ≡ none))
      ⊎ ((date : ℕ) × ((compute_next_payment_due is ≡ some date)
            × (compute_next_payment_due_amount is ≡ some (sum_due date is))
            × (pos 0 <ℤ sum_due date is)))
unfolding compute_next_payment_due_amount
next_payment_due_amount-sum_due is = elim (Option-cases (compute_next_payment_due is)) [
  | inl e ↦ inl (e, rw e refl)
  | inr (date, e) ↦
      let total = due_amount_from-sum_due date (pos 0) is in
      let grows =
        (due_amount_from-grows date (pos 0) is).1 ((next_payment_due-earliest is).1 date e) in
      let same : due_amount_from date (pos 0) is ≡ sum_due date is = total ∙ omega int_laws in
      inr (date, (e, rw e (ap some same), subst (λ d. pos 0 <ℤ d) same grows))
]
