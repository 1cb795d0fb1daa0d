-- ===== src/PersianUtils/Iban/Checksum.antt =====
-- The mod-97 check of packages/persian-utils/src/iban.ts: the digit loop is the remainder of the
-- number, and one wrong digit is always noticed.
use saziqo_platform.Prelude.{
  ℕ, ◌+◌, ◌*◌, ◌%◌, ◌<◌, ◌≤◌, ◌≡◌, refl, ◌≢◌, sym, ap, ◌∙◌, true, false, [], ◌∷◌, ◌++◌, arith, Text,
  length, take, Bool-cases, inl, inr,
}
use mathlib.Core.List.{append_assoc}
use saziqo_platform.PersianUtils.Chars.{is_digit, digit_value, drop}
use saziqo_platform.PersianUtils.Iban.{
  expand, numeric, next_remainder, mod97_from, big_mod97, rearranged, is_iban,
}

-- The number that a text of digits denotes, after the number `n`.
pub value_from : ℕ → Text → ℕ
value_from n [] = n
value_from n (c ∷ s) = value_from (n * 10 + digit_value c) s

mod97_from-value : (s : Text) (n r : ℕ) → r ≡ n % 97 → mod97_from r s ≡ value_from n s % 97
unfolding mod97_from value_from
mod97_from-value [] n r e = e
mod97_from-value (c ∷ s) n r e =
    mod97_from-value s (n * 10 + digit_value c) (next_remainder r c) (omega arith)

-- The digit loop computes the remainder of the whole number.
pub big_mod97-value : (s : Text) → big_mod97 s ≡ value_from 0 s % 97
unfolding big_mod97
big_mod97-value s = mod97_from-value s 0 0 refl

step_injective : (r q c : ℕ) → r < 97 → q < 97 → next_remainder r c ≡ next_remainder q c → r ≡ q
step_injective r q c h k e = omega arith

mod97_from-injective :
    (s : Text) (r q : ℕ) → r < 97 → q < 97 → mod97_from r s ≡ mod97_from q s → r ≡ q
unfolding mod97_from
mod97_from-injective [] r q h k e = e
mod97_from-injective (c ∷ s) r q h k e =
    step_injective r q c h k (
      mod97_from-injective s (next_remainder r c) (next_remainder q c) (omega arith) (omega arith)
        e)

mod97_from-append : (s t : Text) (r : ℕ) → mod97_from r (s ++ t) ≡ mod97_from (mod97_from r s) t
unfolding mod97_from
mod97_from-append [] t r = refl
mod97_from-append (c ∷ s) t r = mod97_from-append s t (next_remainder r c)

mod97_from-lt : (s : Text) (r : ℕ) → r < 97 → mod97_from r s < 97
unfolding mod97_from
mod97_from-lt [] r h = h
mod97_from-lt (c ∷ s) r h = mod97_from-lt s (next_remainder r c) (omega arith)

digits_differ :
    (r a b : ℕ)
    → r < 97
    → is_digit a ≡ true
    → is_digit b ≡ true
    → next_remainder r a ≡ next_remainder r b
    → a ≡ b
digits_differ r a b h da db e = ground arith

-- Two texts that differ in one digit have different remainders.
one_digit :
    (p q : Text) (a b : ℕ)
    → is_digit a ≡ true
    → is_digit b ≡ true
    → big_mod97 (p ++ a ∷ q) ≡ big_mod97 (p ++ b ∷ q)
    → a ≡ b
unfolding big_mod97
one_digit p q a b da db e =
    let r = mod97_from 0 p in
    let below = mod97_from-lt p 0 (omega arith) in
    digits_differ r a b below da db (
      mod97_from-injective q (next_remainder r a) (next_remainder r b) (omega arith) (omega arith)
        (sym (mod97_from-append p (a ∷ q) 0) ∙ e ∙ mod97_from-append p (b ∷ q) 0))

numeric-append : (s t : Text) → numeric (s ++ t) ≡ numeric s ++ numeric t
unfolding numeric
numeric-append [] t = refl
numeric-append (c ∷ s) t =
    ap (◌++◌ (expand c)) (numeric-append s t)
    ∙ sym (append_assoc (expand c) (numeric s) (numeric t))

expand_digit : (c : ℕ) → is_digit c ≡ true → expand c ≡ c ∷ []
expand_digit c h = ground arith

numeric_digit :
    (p q : Text) (c : ℕ) → is_digit c ≡ true → numeric (p ++ c ∷ q) ≡ numeric p ++ c ∷ numeric q
unfolding numeric
numeric_digit p q c h = rw (numeric-append p (c ∷ q), expand_digit c h)

-- Where a digit behind the country code comes to stand.
rearranged_digit :
    (pre post : Text)
    → 2 ≤ length pre
    → (p : Text) × (q : Text) × ((c : ℕ) → rearranged (pre ++ c ∷ post) ≡ p ++ c ∷ q)
rearranged_digit [] post h = absurd (omega arith)
rearranged_digit (x ∷ []) post h = absurd (omega arith)
rearranged_digit (x ∷ y ∷ []) post h = (
  drop 1 post ++ x ∷ y ∷ [],
  take 1 post,
  λ c. sym (append_assoc (drop 1 post) (x ∷ y ∷ []) (c ∷ take 1 post)),
)
rearranged_digit (x ∷ y ∷ z ∷ []) post h =
    (post ++ x ∷ y ∷ z ∷ [], [], λ c. sym (append_assoc post (x ∷ y ∷ z ∷ []) (c ∷ [])))
rearranged_digit (x ∷ y ∷ z ∷ w ∷ pre) post h =
    (pre, post ++ x ∷ y ∷ z ∷ w ∷ [], λ c. append_assoc pre (c ∷ post) (x ∷ y ∷ z ∷ w ∷ []))

remainder_one : (t : Text) → is_iban t ≡ true → big_mod97 (numeric (rearranged t)) ≡ 1
unfolding is_iban
remainder_one t h = ground arith

-- If a digit behind the two letters of a valid IBAN is replaced by another digit, the result is
-- not valid.
pub is_iban-one_digit :
    (pre post : Text) (a b : ℕ)
    → 2 ≤ length pre
    → is_digit a ≡ true
    → is_digit b ≡ true
    → a ≢ b
    → is_iban (pre ++ a ∷ post) ≡ true
    → is_iban (pre ++ b ∷ post) ≡ false
is_iban-one_digit pre post a b h da db ne valid = elim (Bool-cases (is_iban (pre ++ b ∷ post))) [
  | inr no_longer ↦ no_longer
  | inl too ↦
      let (p, q, moved) = rearranged_digit pre post h in
      let shape =
        λ (c : ℕ) (dc : is_digit c ≡ true). ap numeric (moved c) ∙ numeric_digit p q c dc in
      absurd (
        ne (
          one_digit (numeric p) (numeric q) a b da db (
            ap big_mod97 (sym (shape a da))
            ∙ remainder_one (pre ++ a ∷ post) valid
            ∙ sym (remainder_one (pre ++ b ∷ post) too)
            ∙ ap big_mod97 (shape b db))))
]
