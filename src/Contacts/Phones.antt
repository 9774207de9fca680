-- ===== src/Contacts/Phones.antt =====
-- The forms of one phone number, and normalizing twice.
use heritage_philippines_v.Prelude.{
  Bool, true, false, [], ◌∷◌, ◌≡◌, refl, sym, ap, ◌∙◌, all, if◌then◌else◌, arith, inl, inr, ◌⊎◌,
  subst,
}
use heritage_philippines_v.Payments.Model.{Text}
use heritage_philippines_v.Contacts.{
  is_digit, digits_only, starts_with_2, slice_1, without_international_prefix, with_country_code,
  is_domestic_with_leading_zero, is_mobile_without_leading_zero, normalize_digits, normalize_phone,
}

digits_only-digits : (t : Text) → all is_digit t ≡ true → digits_only t ≡ t
digits_only-digits [] h = refl
digits_only-digits (c ∷ t) h = ground (arith, digits_only-digits t)

all-digits_only : (t : Text) → all is_digit (digits_only t) ≡ true
all-digits_only [] = refl
all-digits_only (c ∷ t) = ground (arith, all-digits_only t)

mobile_as_it_is :
    (t : Text)
    → is_mobile_without_leading_zero t ≡ true
    → normalize_digits (without_international_prefix t) ≡ with_country_code t
mobile_as_it_is [] h = cc
mobile_as_it_is (c ∷ []) h = ground arith
mobile_as_it_is (c ∷ d ∷ t) h = ground arith

mobile_with_zero :
    (t : Text)
    → is_mobile_without_leading_zero t ≡ true
    → normalize_digits (without_international_prefix (b'0' ∷ t)) ≡ with_country_code t
mobile_with_zero [] h = cc
mobile_with_zero (c ∷ t) h = ground arith

-- A mobile number of ten digits from 9 on has the same normal form, its digits after 63, whether it
-- is written with the country code, with the country code after 00, with a leading 0, or as it is.
pub normalize_phone-forms :
    (t : Text)
    → all is_digit t ≡ true
    → is_mobile_without_leading_zero t ≡ true
    → (normalize_phone (with_country_code t) ≡ with_country_code t)
      × (normalize_phone (b'0' ∷ b'0' ∷ with_country_code t) ≡ with_country_code t)
      × (normalize_phone (b'0' ∷ t) ≡ with_country_code t)
      × (normalize_phone t ≡ with_country_code t)
unfolding normalize_phone
normalize_phone-forms t digits mobile = (
  ap with_country_code same,
  ap with_country_code same,
  ap (λ d. normalize_digits (without_international_prefix (b'0' ∷ d))) same
      ∙ mobile_with_zero t mobile,
  ap (λ d. normalize_digits (without_international_prefix d)) same ∙ mobile_as_it_is t mobile,
)
  where
    same : digits_only t ≡ t
    same = digits_only-digits t digits

-- Only the digits count: punctuation, spaces and a plus sign make no difference.
pub normalize_phone-digits : (t : Text) → normalize_phone (digits_only t) ≡ normalize_phone t
unfolding normalize_phone
normalize_phone-digits t =
    ap (λ d. normalize_digits (without_international_prefix d))
      (digits_only-digits (digits_only t) (all-digits_only t))

unprefixed : (d : Text) → starts_with_2 b'0' b'0' d ≡ false → without_international_prefix d ≡ d
unprefixed d h = rw h refl

-- The branches of `normalize_digits`, on their tests.
abbrev branches : Bool → Bool → Bool → Text → Text
branches true b c d = d
branches false true c d = with_country_code (slice_1 d)
branches false false true d = with_country_code d
branches false false false d = d

digits-branches :
    (a b c : Bool) (d : Text) → all is_digit d ≡ true → all is_digit (branches a b c d) ≡ true
digits-branches true b c d h = h
digits-branches false true c [] h = refl
digits-branches false true c (x ∷ d) h = ground arith
digits-branches false false true d h = h
digits-branches false false false d h = h

abbrev Settled : Text → Text → Type 0
Settled d t = (t ≡ d) ⊎ ((u : Text) × (t ≡ with_country_code u))

Settled-branches : (a b c : Bool) (d : Text) → Settled d (branches a b c d)
Settled-branches true b c d = inl refl
Settled-branches false true c d = inr (slice_1 d, refl)
Settled-branches false false true d = inr (d, refl)
Settled-branches false false false d = inl refl

normalize_digits-branches :
    (d : Text)
    → normalize_digits d
      ≡ branches
          (starts_with_2 b'6' b'3' d)
          (is_domestic_with_leading_zero d)
          (is_mobile_without_leading_zero d)
          d
normalize_digits-branches d =
    go (starts_with_2 b'6' b'3' d) (is_domestic_with_leading_zero d)
      (is_mobile_without_leading_zero d)
  where
    go :
        (a b c : Bool)
        → (if a
            then d
            else if b
            then with_country_code (slice_1 d)
            else if c
            then with_country_code d
            else d)
          ≡ branches a b c d
    go true b c = refl
    go false true c = refl
    go false false true = refl
    go false false false = refl

normalize_digits-again :
    (d : Text)
    → starts_with_2 b'0' b'0' d ≡ false
    → normalize_digits (without_international_prefix (normalize_digits d)) ≡ normalize_digits d
normalize_digits-again d h =
    elim (subst (Settled d) (sym (normalize_digits-branches d)) (
      Settled-branches (starts_with_2 b'6' b'3' d) (is_domestic_with_leading_zero d)
        (is_mobile_without_leading_zero d) d)) [
          | inl e ↦
              ap (λ t. normalize_digits (without_international_prefix t)) e
              ∙ ap normalize_digits (unprefixed d h)
          | inr (u, e) ↦ ap (λ t. normalize_digits (without_international_prefix t)) e ∙ sym e
        ]

digits-unprefixed :
    (d : Text) → all is_digit d ≡ true → all is_digit (without_international_prefix d) ≡ true
digits-unprefixed [] h = refl
digits-unprefixed (a ∷ []) h = h
digits-unprefixed (a ∷ b ∷ d) h = ground arith

-- Normalizing a normalized phone number changes nothing, where the digits do not start with 00 again
-- behind an international prefix 00.
pub normalize_phone-again :
    (phone : Text)
    → starts_with_2 b'0' b'0' (without_international_prefix (digits_only phone)) ≡ false
    → normalize_phone (normalize_phone phone) ≡ normalize_phone phone
unfolding normalize_phone
normalize_phone-again phone h =
    let d = without_international_prefix (digits_only phone) in
    let digits =
      subst (λ t. all is_digit t ≡ true) (sym (normalize_digits-branches d))
        (digits-branches _ _ _ d (digits-unprefixed (digits_only phone) (all-digits_only phone))) in
    ap (λ t. normalize_digits (without_international_prefix t))
      (digits_only-digits (normalize_digits d) digits)
    ∙ normalize_digits-again d h
