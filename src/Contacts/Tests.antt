-- ===== src/Contacts/Tests.antt =====
-- The laws of contact-normalization.ts on concrete phone numbers.
use heritage_philippines_v.Prelude.{[], ◌∷◌, ◌≡◌, refl}
use heritage_philippines_v.Payments.Model.{Text}
use heritage_philippines_v.Contacts.{normalize_phone, with_country_code}
use heritage_philippines_v.Contacts.Phones.{normalize_phone-forms, normalize_phone-again}

-- 9171234567
abbrev mobile : Text
mobile = 57 ∷ 49 ∷ 55 ∷ 49 ∷ 50 ∷ 51 ∷ 52 ∷ 53 ∷ 54 ∷ 55 ∷ []

-- 0917-123 4567
abbrev written : Text
written = 48 ∷ 57 ∷ 49 ∷ 55 ∷ 45 ∷ 49 ∷ 50 ∷ 51 ∷ 32 ∷ 52 ∷ 53 ∷ 54 ∷ 55 ∷ []

normalize_phone-forms_example :
    (normalize_phone (with_country_code mobile) ≡ with_country_code mobile)
    × (normalize_phone (b'0' ∷ b'0' ∷ with_country_code mobile) ≡ with_country_code mobile)
    × (normalize_phone (b'0' ∷ mobile) ≡ with_country_code mobile)
    × (normalize_phone mobile ≡ with_country_code mobile)
normalize_phone-forms_example = normalize_phone-forms mobile refl refl

normalize_phone-again_example : normalize_phone (normalize_phone written) ≡ normalize_phone written
normalize_phone-again_example = normalize_phone-again written refl
