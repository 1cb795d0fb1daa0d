-- ===== src/PersianUtils/Phone/Formats.antt =====
-- packages/persian-utils/src/phone.ts: every accepted format has one normal form.
use saziqo_platform.Prelude.{
  ◌≡◌, true, Option, none, some, [], ◌∷◌, ◌++◌, arith, Text, codes, filter, not,
}
use saziqo_platform.PersianUtils.Phone.{
  is_separator, cleaned, local_part, is_normalized, checked, normalize_iranian_phone,
}

checked_sound : (o : Option Text) (t : Text) → checked o ≡ some t → is_normalized t ≡ true
checked_sound none t e = cc
checked_sound (some local) t e = ground arith

-- Whatever is accepted comes out as +98, a 9 and nine digits.
pub normalize-is_normalized :
    (raw t : Text) → normalize_iranian_phone raw ≡ some t → is_normalized t ≡ true
unfolding normalize_iranian_phone
normalize-is_normalized raw t e = checked_sound (local_part (cleaned raw)) t e

-- The five spellings of one number: the country prefix, in three ways, a trunk zero, or nothing.
pub data Spelling : Type 0 where
  international dialled country trunk bare : Spelling

abbrev pub prefix : Spelling → Text
prefix Spelling.international = codes "+98"
prefix Spelling.dialled = codes "0098"
prefix Spelling.country = codes "98"
prefix Spelling.trunk = codes "0"
prefix Spelling.bare = []

abbrev pub spelled : Spelling → Text → Text
spelled how digits = prefix how ++ b'9' ∷ digits

abbrev plain : Text → Text
plain = filter (λ c. not (is_separator c))
