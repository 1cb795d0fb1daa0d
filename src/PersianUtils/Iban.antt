-- ===== src/PersianUtils/Iban.antt =====
-- packages/persian-utils/src/iban.ts
pub mod Checksum
use saziqo_platform.Prelude.{
  ℕ, suc, ◌+◌, ◌-◌, ◌*◌, ◌/◌, ◌%◌, ◌^◌, ◌<◌, ◌≤◌, ◌≡◌, refl, ◌≢◌, Bool, true, false, not, ◌&&◌,
  List, [], ◌∷◌, ◌++◌, map, arith, leb, ◌==◌, if◌then◌else◌, Text, codes, starts_with, length, take,
  All,
}
use saziqo_platform.PersianUtils.Chars.{is_digit, all_digits, digit_value, trim, upper, drop}

-- `/^0+$/` on a text that is not empty.
unfoldable pub all_zero : Text → Bool
all_zero [] = true
all_zero (c ∷ s) = c == b'0' && all_zero s

-- A letter becomes its number, two digits; a digit stays.
abbrev pub expand : ℕ → Text
expand c =
    if leb 65 c && leb c 90 then (b'0' + (c - 55) / 10) ∷ (b'0' + (c - 55) % 10) ∷ [] else c ∷ []

unfoldable pub numeric : Text → Text
numeric [] = []
numeric (c ∷ s) = expand c ++ numeric s

abbrev pub next_remainder : ℕ → ℕ → ℕ
next_remainder remainder ch = (remainder * 10 + digit_value ch) % 97

-- The loop of `bigMod97`.
unfoldable pub mod97_from : ℕ → Text → ℕ
mod97_from remainder [] = remainder
mod97_from remainder (ch ∷ s) = mod97_from (next_remainder remainder ch) s

unfoldable pub big_mod97 : Text → ℕ
unfolding mod97_from
big_mod97 s = mod97_from 0 s

abbrev pub rearranged : Text → Text
rearranged normalized = drop 4 normalized ++ take 4 normalized

-- The tests on the normalized text.
unfoldable pub is_iban : Text → Bool
unfolding starts_with all_digits all_zero numeric big_mod97
is_iban normalized =
    let digits = drop 2 normalized in
    (length normalized == 26)
    && (starts_with (codes "IR") normalized
        && (all_digits digits
            && (not (all_zero digits) && (big_mod97 (numeric (rearranged normalized)) == 1))))

unfoldable pub is_valid_iranian_iban : Text → Bool
unfolding trim is_iban
is_valid_iranian_iban input = is_iban (map upper (trim input))

valid_run : is_valid_iranian_iban (codes " ir380570028780010872190001 ") ≡ true
unfolding is_valid_iranian_iban
valid_run = refl
