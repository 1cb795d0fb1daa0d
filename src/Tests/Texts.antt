-- ===== src/Tests/Texts.antt =====
-- The theorems on packages/persian-utils/src at concrete inputs.
use saziqo_platform.Prelude.{◌≡◌, ◌↔◌, refl, ◌%◌, true, false, some, [], arith, codes}
use saziqo_platform.PersianUtils.Iban.{is_iban, big_mod97}
use saziqo_platform.PersianUtils.Iban.Checksum.{value_from, big_mod97-value, is_iban-one_digit}
use saziqo_platform.PersianUtils.NationalId.{is_valid_iranian_national_id}
use saziqo_platform.PersianUtils.NationalId.Places.{IsNationalId, valid_iff}
use saziqo_platform.PersianUtils.Phone.{normalize_iranian_phone}
use saziqo_platform.PersianUtils.Numerals.{
  to_latin_digits, to_persian_digits, to_latin-to_persian_id,
}

valid : is_iban (codes "IR380570028780010872190001") ≡ true
unfolding is_iban
valid = refl

is_iban-one_digit_example : is_iban (codes "IR380570028780010872190002") ≡ false
is_iban-one_digit_example =
    is_iban-one_digit (codes "IR38057002878001087219000") [] b'1' b'2' (omega arith) refl refl
      (λ e. omega arith) valid

big_mod97-value_example : big_mod97 (codes "3801") ≡ value_from 0 (codes "3801") % 97
big_mod97-value_example = big_mod97-value (codes "3801")

valid_iff_example :
    (is_valid_iranian_national_id (codes "0013542419") ≡ true) ↔ IsNationalId (codes "0013542419")
valid_iff_example = valid_iff (codes "0013542419")

run : normalize_iranian_phone (codes "0912 345-6789") ≡ some (codes "+989123456789")
unfolding normalize_iranian_phone
run = refl

to_latin-to_persian_id_example : to_latin_digits (to_persian_digits (codes "ab12")) ≡ codes "ab12"
to_latin-to_persian_id_example = to_latin-to_persian_id (codes "ab12") (ground arith)
