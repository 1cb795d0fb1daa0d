-- ===== src/PersianUtils/NationalId.antt =====
-- packages/persian-utils/src/national-id.ts
pub mod Places
use saziqo_platform.Prelude.{
  ℕ, zero, suc, ◌+◌, ◌-◌, ◌*◌, ◌%◌, ◌≡◌, ◌↔◌, subst, sym, refl, Bool, true, false, not, ◌&&◌, [],
  ◌∷◌, ◌++◌, arith, ltb, ◌==◌, if◌then◌else◌, Text, codes, length, length-append,
}
use saziqo_platform.PersianUtils.Chars.{is_digit, all_digits, digit_value, drop, all_digits-append}

-- `/^(\d)\1{9}$/`: every digit is the first.
unfoldable pub all_same : ℕ → Text → Bool
all_same d [] = true
all_same d (c ∷ s) = c == d && all_same d s

abbrev pub repeated : Text → Bool
repeated [] = false
repeated (c ∷ s) = all_same c s

-- The loop over the first nine digits: the weight falls from ten.
unfoldable pub weighted : ℕ → ℕ → Text → ℕ
weighted zero weight s = 0
weighted (suc n) weight [] = 0
weighted (suc n) weight (c ∷ s) = digit_value c * weight + weighted n (weight - 1) s

abbrev pub check_digit : ℕ → ℕ
check_digit remainder = if ltb remainder 2 then remainder else 11 - remainder

abbrev pub last_value : Text → ℕ
last_value [] = 0
last_value (c ∷ _) = digit_value c

unfoldable pub is_valid_iranian_national_id : Text → Bool
unfolding all_digits all_same weighted
is_valid_iranian_national_id value =
    (length value == 10)
    && (all_digits value
        && (not (repeated value)
            && (last_value (drop 9 value) == check_digit (weighted 9 10 value % 11))))

valid_run : is_valid_iranian_national_id (codes "0013542419") ≡ true
unfolding is_valid_iranian_national_id
valid_run = refl
