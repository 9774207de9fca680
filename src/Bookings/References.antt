-- ===== src/Bookings/References.antt =====
-- The booking reference: `generateBookingReference` of bookings/service.ts, and the pattern that
-- bookings/schemas.ts asks of one, /^HPB-[0-9A-F]{20}$/.
use heritage_philippines_v.Prelude.{
  ℕ, Bool, true, false, List, [], ◌∷◌, ◌++◌, ◌&&◌, ◌||◌, ◌+◌, ◌*◌, ◌<◌, ◌≡◌, refl, ltb, leb, ◌==◌,
  length, all, All, arith, if◌then◌else◌,
}
use heritage_philippines_v.Payments.Model.{Text}
use Prim.Native.Nat.{◌/◌, ◌%◌}

-- "HPB-"
abbrev pub booking_reference_prefix : Text
booking_reference_prefix = 72 ∷ 80 ∷ 66 ∷ 45 ∷ []

-- The upper-case hexadecimal digit of a number below 16.
abbrev pub hex_digit : ℕ → ℕ
hex_digit n = if ltb n 10 then 48 + n else 55 + n

-- `toString('hex').toUpperCase()`
abbrev pub hex_text : List ℕ → Text
hex_text [] = []
hex_text (b ∷ bytes) = hex_digit (b / 16) ∷ hex_digit (b % 16) ∷ hex_text bytes

unfoldable pub generate_booking_reference : List ℕ → Text
generate_booking_reference bytes = booking_reference_prefix ++ hex_text bytes

abbrev pub is_hex : ℕ → Bool
is_hex c = (leb 48 c && leb c 57) || (leb 65 c && leb c 70)

-- What follows the prefix has to match.
abbrev pub matches_after : Text → (Text → Bool) → Text → Bool
matches_after [] rest t = rest t
matches_after (p ∷ prefix) rest [] = false
matches_after (p ∷ prefix) rest (c ∷ t) = c == p && matches_after prefix rest t

unfoldable pub is_valid_client_booking_reference : Text → Bool
is_valid_client_booking_reference value =
    matches_after booking_reference_prefix (λ t. length t == 20 && all is_hex t) value

hex_digit-is_hex : (n : ℕ) → n < 16 → is_hex (hex_digit n) ≡ true
hex_digit-is_hex n h = ground arith

high : (b : ℕ) → b < 256 → b / 16 < 16
high b h = omega arith

low : (b : ℕ) → b % 16 < 16
low b = omega arith

hex_text-is_hex : (bytes : List ℕ) → All (λ b. b < 256) bytes → all is_hex (hex_text bytes) ≡ true
hex_text-is_hex [] h = refl
hex_text-is_hex (b ∷ bytes) h =
    rw
      (
        hex_digit-is_hex (b / 16) (high b h.0),
        hex_digit-is_hex (b % 16) (low b),
        hex_text-is_hex bytes h.1,
      )
      refl

length-hex_text : (bytes : List ℕ) → length (hex_text bytes) ≡ 2 * length bytes
length-hex_text [] = refl
length-hex_text (b ∷ bytes) = omega (arith, length-hex_text bytes)

-- From ten random bytes the service generates a reference that its own pattern for the references of
-- clients accepts.
pub generate_booking_reference-valid :
    (bytes : List ℕ)
    → length bytes ≡ 10
    → All (λ b. b < 256) bytes
    → is_valid_client_booking_reference (generate_booking_reference bytes) ≡ true
unfolding generate_booking_reference is_valid_client_booking_reference
generate_booking_reference-valid bytes ten small =
    rw (length-hex_text bytes, ten, hex_text-is_hex bytes small) refl
