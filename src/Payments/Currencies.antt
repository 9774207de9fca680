-- ===== src/Payments/Currencies.antt =====
-- apps/web/src/features/payments/currencies.ts, over texts as lists of code points.
use heritage_philippines_v.Prelude.{
  ℕ, zero, suc, Bool, true, false, Option, none, some, List, [], ◌∷◌, ◌&&◌, ◌||◌, ◌==◌, leb, length,
  all, find, if◌then◌else◌,
}
use heritage_philippines_v.Payments.Model.{Text}

abbrev pub text_eq : Text → Text → Bool
text_eq [] [] = true
text_eq [] (d ∷ t) = false
text_eq (c ∷ s) [] = false
text_eq (c ∷ s) (d ∷ t) = c == d && text_eq s t

pub record SupportedCurrency : Type 0 where
  pub code : Text
  pub minor_units : ℕ

-- "PHP"
abbrev pub php : Text
php = 80 ∷ 72 ∷ 80 ∷ []

-- "currencies-v1"
abbrev pub currency_list_version : Text
currency_list_version = 99 ∷ 117 ∷ 114 ∷ 114 ∷ 101 ∷ 110 ∷ 99 ∷ 105 ∷ 101 ∷ 115 ∷ 45 ∷ 118 ∷ 49 ∷ []

abbrev pub supported_currencies : List SupportedCurrency
supported_currencies = record { code = php; minor_units = 2 } ∷ []

-- The text up to the first point: `split('.')[0]`.
abbrev pub before_point : Text → Text
before_point [] = []
before_point (c ∷ s) = let rest = before_point s in if c == b'.' then [] else c ∷ rest

-- `split('.')[1]`, which is undefined for a text with no point.
abbrev pub fraction_of : Text → Option Text
fraction_of [] = none
fraction_of (c ∷ s) = let rest = fraction_of s in if c == b'.' then some (before_point s) else rest

abbrev pub slice_from : ℕ → Text → Text
slice_from zero s = s
slice_from (suc n) [] = []
slice_from (suc n) (c ∷ s) = slice_from n s

abbrev has_precision : SupportedCurrency → Option Text → Bool
has_precision currency none = false
has_precision currency (some fractional) =
    length fractional == 2 && all (λ c. c == b'0') (slice_from currency.minor_units fractional)

abbrev checks_precision : Text → Option SupportedCurrency → Bool
checks_precision amount none = false
checks_precision amount (some currency) = has_precision currency (fraction_of amount)

unfoldable pub has_supported_currency_precision : Text → Text → Bool
has_supported_currency_precision amount currency_code =
    checks_precision amount (find (λ c. text_eq c.code currency_code) supported_currencies)

-- White space and line ends, as `String.prototype.trim` removes them.
abbrev pub is_space : ℕ → Bool
is_space c =
    (leb 9 c && leb c 13)
    || c == 32
    || c == 160
    || c == 5760
    || (leb 8192 c && leb c 8202)
    || c == 8232
    || c == 8233
    || c == 8239
    || c == 8287
    || c == 12288
    || c == 65279

abbrev pub trim_start : Text → Text
trim_start [] = []
trim_start (c ∷ s) = let rest = trim_start s in if is_space c then rest else c ∷ s

abbrev add_unless_blank : ℕ → Text → Text
add_unless_blank c [] = if is_space c then [] else c ∷ []
add_unless_blank c (d ∷ s) = c ∷ d ∷ s

abbrev pub trim_end : Text → Text
trim_end [] = []
trim_end (c ∷ s) = add_unless_blank c (trim_end s)

unfoldable pub trim : Text → Text
trim s = trim_end (trim_start s)
