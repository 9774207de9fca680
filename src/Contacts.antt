-- ===== src/Contacts.antt =====
-- apps/web/src/lib/contact-normalization.ts: the forms in which emails and phone numbers are
-- compared.
pub mod Phones
mod Tests
use heritage_philippines_v.Prelude.{
  ℕ, Bool, false, [], ◌∷◌, ◌&&◌, ◌||◌, ◌==◌, leb, length, select, if◌then◌else◌,
}
use heritage_philippines_v.Payments.Model.{Text}
use heritage_philippines_v.Payments.Currencies.{trim}

-- `to_lower_case` is `String.prototype.toLowerCase`.
unfoldable pub normalize_email : (Text → Text) → Text → Text
unfolding trim
normalize_email to_lower_case email = to_lower_case (trim email)

-- `\d`
abbrev pub is_digit : ℕ → Bool
is_digit c = leb b'0' c && leb c b'9'

-- `phone.replace(/\D/g, '')`
abbrev pub digits_only : Text → Text
digits_only phone = select is_digit phone

abbrev pub starts_with_2 : ℕ → ℕ → Text → Bool
starts_with_2 a b [] = false
starts_with_2 a b (c ∷ []) = false
starts_with_2 a b (c ∷ d ∷ t) = c == a && d == b

abbrev pub starts_with_1 : ℕ → Text → Bool
starts_with_1 a [] = false
starts_with_1 a (c ∷ t) = c == a

abbrev pub slice_1 : Text → Text
slice_1 [] = []
slice_1 (c ∷ t) = t

abbrev pub without_international_prefix : Text → Text
without_international_prefix digits =
    if starts_with_2 b'0' b'0' digits then slice_1 (slice_1 digits) else digits

abbrev pub with_country_code : Text → Text
with_country_code t = b'6' ∷ b'3' ∷ t

abbrev pub is_domestic_with_leading_zero : Text → Bool
is_domestic_with_leading_zero t = (length t == 10 || length t == 11) && starts_with_1 b'0' t

abbrev pub is_mobile_without_leading_zero : Text → Bool
is_mobile_without_leading_zero t = length t == 10 && starts_with_1 b'9' t

-- The branches on the digits without the international prefix.
abbrev pub normalize_digits : Text → Text
normalize_digits t =
    if starts_with_2 b'6' b'3' t
    then t
    else if is_domestic_with_leading_zero t
    then with_country_code (slice_1 t)
    else if is_mobile_without_leading_zero t
    then with_country_code t
    else t

unfoldable pub normalize_phone : Text → Text
normalize_phone phone = normalize_digits (without_international_prefix (digits_only phone))
