-- ===== src/PersianUtils/Numerals.antt =====
-- packages/persian-utils/src/numerals.ts
use saziqo_platform.Prelude.{
  ℕ, ◌+◌, ◌-◌, ◌≡◌, ◌∙◌, refl, Bool, false, ◌&&◌, [], ◌∷◌, map, arith, leb, if◌then◌else◌, Text,
  codes, All,
}
use saziqo_platform.PersianUtils.Chars.{is_digit, digit_value}

-- `PERSIAN_DIGITS` are the code units from 1776, `ARABIC_DIGITS` those from 1632.
abbrev pub is_persian : ℕ → Bool
is_persian c = leb 1776 c && leb c 1785

abbrev pub is_arabic : ℕ → Bool
is_arabic c = leb 1632 c && leb c 1641

abbrev pub latin_of_persian : ℕ → ℕ
latin_of_persian c = if is_persian c then b'0' + (c - 1776) else c

abbrev pub latin_of_arabic : ℕ → ℕ
latin_of_arabic c = if is_arabic c then b'0' + (c - 1632) else c

-- `toLatinDigits`
unfoldable pub to_latin_digits : Text → Text
to_latin_digits input = map latin_of_arabic (map latin_of_persian input)

abbrev pub persian_of_latin : ℕ → ℕ
persian_of_latin c = if is_digit c then 1776 + digit_value c else c

-- `toPersianDigits`
unfoldable pub to_persian_digits : Text → Text
to_persian_digits input = map persian_of_latin input

latin_run : to_latin_digits (codes "۰۹۱۲۳۴۵۶۷۸۹") ≡ codes "09123456789"
unfolding to_latin_digits
latin_run = refl

-- Turning digits Persian first changes nothing about their Latin form.
pub to_latin-to_persian : (s : Text) → to_latin_digits (to_persian_digits s) ≡ to_latin_digits s
unfolding to_latin_digits to_persian_digits
to_latin-to_persian [] = refl
to_latin-to_persian (c ∷ s) = ground (arith, to_latin-to_persian s)

unchanged :
    (s : Text) → All (λ c. (is_persian c ≡ false) × (is_arabic c ≡ false)) s → to_latin_digits s ≡ s
unfolding to_latin_digits
unchanged [] h = refl
unchanged (c ∷ s) h = ground (arith, unchanged s h.1)

-- A text without Persian or Arabic digits that is written with Persian digits is read back as it
-- was.
pub to_latin-to_persian_id :
    (s : Text)
    → All (λ c. (is_persian c ≡ false) × (is_arabic c ≡ false)) s
    → to_latin_digits (to_persian_digits s) ≡ s
to_latin-to_persian_id s h = to_latin-to_persian s ∙ unchanged s h
