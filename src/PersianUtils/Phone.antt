-- ===== src/PersianUtils/Phone.antt =====
-- packages/persian-utils/src/phone.ts
pub mod Formats
use saziqo_platform.Prelude.{
  ℕ, zero, suc, ◌+◌, ◌≡◌, refl, Bool, true, false, ◌&&◌, ◌||◌, Option, none, some, List, [], ◌∷◌,
  ◌++◌, arith, leb, ◌==◌, if◌then◌else◌, is_some, Text, codes, starts_with, length, filter, not,
}
use saziqo_platform.PersianUtils.Chars.{is_digit, all_digits, is_space, trim, drop}

-- `[\s\-().]`
unfoldable pub is_separator : ℕ → Bool
unfolding is_space
is_separator c = is_space c || (c == b'-' || (c == b'(' || (c == b')' || c == b'.')))

unfoldable pub cleaned : Text → Text
unfolding trim is_separator
cleaned raw = filter (λ c. not (is_separator c)) (trim raw)

-- `/^prefix(\d{10})$/`
unfoldable pub has_local : Text → Text → Bool
unfolding starts_with all_digits
has_local prefix s =
    starts_with prefix s && (length s == length prefix + 10 && all_digits (drop (length prefix) s))

-- The chain of `else if`.
unfoldable pub local_part : Text → Option Text
unfolding has_local
local_part s =
    if has_local (codes "+98") s
    then some (drop 3 s)
    else if has_local (codes "0098") s
    then some (drop 4 s)
    else if has_local (codes "98") s
    then some (drop 2 s)
    else if has_local (codes "0") s
    then some (drop 1 s)
    else if has_local [] s
    then some s
    else none

-- `/^\+989\d{9}$/`
unfoldable pub is_normalized : Text → Bool
unfolding starts_with all_digits
is_normalized s = starts_with (codes "+989") s && (length s == 13 && all_digits (drop 4 s))

abbrev pub checked : Option Text → Option Text
checked none = none
checked (some local) =
    let normalized = codes "+98" ++ local in
    if is_normalized normalized then some normalized else none

unfoldable pub normalize_iranian_phone : Text → Option Text
unfolding cleaned local_part is_normalized
normalize_iranian_phone raw = checked (local_part (cleaned raw))

unfoldable pub is_valid_iranian_phone : Text → Bool
unfolding normalize_iranian_phone
is_valid_iranian_phone value = is_some (normalize_iranian_phone value)

normalized_run : normalize_iranian_phone (codes " (0912) 345-67.89 ") ≡ some (codes "+989123456789")
unfolding normalize_iranian_phone
normalized_run = refl
