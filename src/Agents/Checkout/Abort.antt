-- ===== src/Agents/Checkout/Abort.antt =====
-- `isSerializationFailure` of apps/api/src/modules/agents/services/checkout.service.ts: what an aborted
-- transaction throws, and whether it is tried again.
use saziqo_platform.Prelude.{
  ℕ, Bool, true, false, not, ◌&&◌, ◌||◌, Option, none, some, [], ◌∷◌, leb, ◌==◌, Text, codes,
  text_eq, starts_with,
}

-- What is caught: whether it is a `PrismaClientKnownRequestError`, its code, the code of its `meta`, and
-- its message.
pub record DbError : Type 0 where
  pub is_known_request_error : Bool
  pub code : Text
  pub meta_code : Option Text
  pub message : Text

-- `\w`
abbrev pub is_word : ℕ → Bool
is_word c =
    (leb b'0' c && leb c b'9')
    || (leb b'A' c && leb c b'Z')
    || (leb b'a' c && leb c b'z')
    || c == b'_'

-- The text is over, or goes on with what is no part of a word.
abbrev pub at_boundary : Text → Bool
at_boundary [] = true
at_boundary (c ∷ _) = not (is_word c)

-- The text starts with the word, and the word ends there: `word\b`.
abbrev pub starts_with_word : Text → Text → Bool
starts_with_word [] s = at_boundary s
starts_with_word (_ ∷ _) [] = false
starts_with_word (a ∷ w) (c ∷ s) = a == c && starts_with_word w s

-- `/\bword\b/`, behind a character that is part of a word or not.
abbrev pub has_word : Bool → Text → Text → Bool
has_word inside w [] = false
has_word inside w (c ∷ s) = (not inside && starts_with_word w (c ∷ s)) || has_word (is_word c) w s

-- `/part/`
abbrev pub has_part : Text → Text → Bool
has_part p [] = false
has_part p (c ∷ s) = starts_with p (c ∷ s) || has_part p s

abbrev pub is_conflict_code : Option Text → Bool
is_conflict_code none = false
is_conflict_code (some c) = text_eq c (codes "40001") || text_eq c (codes "40P01")

-- `isSerializationFailure`
unfoldable pub is_serialization_failure : DbError → Bool
is_serialization_failure e =
    e.is_known_request_error
    && (text_eq e.code (codes "P2034")
        || is_conflict_code e.meta_code
        || (has_word false (codes "40001") e.message
            || has_word false (codes "40P01") e.message
            || has_part (codes "could not serialize access") e.message))
