-- ===== src/PersianUtils/NationalId/Places.antt =====
-- What isValidIranianNationalId of packages/persian-utils/src/national-id.ts accepts.
use saziqo_platform.Prelude.{
  ℕ, zero, suc, ◌+◌, ◌-◌, ◌*◌, ◌%◌, ◌≤◌, ◌≡◌, ◌≢◌, ◌↔◌, ◌⊎◌, inl, inr, subst, refl, ap, ◌∙◌, Bool,
  true, false, not, ◌&&◌, [], ◌∷◌, arith, ◌==◌, ==→eq, Text, length, Bool-cases,
}
use saziqo_platform.PersianUtils.Chars.{all_digits, digit_value, drop}
use saziqo_platform.PersianUtils.NationalId.{
  all_same, repeated, weighted, check_digit, last_value, is_valid_iranian_national_id,
}

-- Each digit times its place, counted from the right: the last one counts once.
abbrev pub place_sum : Text → ℕ
place_sum [] = 0
place_sum (c ∷ s) = digit_value c * suc (length s) + place_sum s

abbrev pub repeat : ℕ → ℕ → Text
repeat zero c = []
repeat (suc n) c = c ∷ repeat n c

-- Ten digits, not one digit ten times, whose sum by places is a multiple of 11, or two more where the
-- last digit is 1.
abbrev pub IsNationalId : Text → Type 0
IsNationalId value =
    (length value ≡ 10)
    × (all_digits value ≡ true)
    × ((c : ℕ) → value ≢ repeat 10 c)
    × ((place_sum value % 11 ≡ 0) ⊎ ((place_sum value % 11 ≡ 2) × (last_value (drop 9 value) ≡ 1)))

-- The code's loop and the last place are the sum by places.
weighted-place_sum :
    (n w : ℕ) (s : Text)
    → w ≡ suc n
    → length s ≡ suc n
    → weighted n w s + place_sum (drop n s) ≡ place_sum s
unfolding weighted
weighted-place_sum zero w s g e = omega arith
weighted-place_sum (suc n) w [] g e = absurd (omega arith)
weighted-place_sum (suc n) w (c ∷ s) g e =
    let wide : w ≡ suc (length s) = omega arith in
    omega (
      arith,
      ap (λ x. digit_value c * x) wide,
      weighted-place_sum n (w - 1) s (omega arith) (omega arith),
    )

last_place :
    (n : ℕ) (s : Text)
    → length s ≡ suc n
    → all_digits s ≡ true
    → (place_sum (drop n s) ≡ last_value (drop n s)) × (last_value (drop n s) ≤ 9)
unfolding all_digits
last_place zero [] e d = absurd (omega arith)
last_place zero (c ∷ []) e d = (omega arith, ground (arith, d))
last_place zero (c ∷ x ∷ s) e d = absurd (omega arith)
last_place (suc n) [] e d = absurd (omega arith)
last_place (suc n) (c ∷ s) e d = last_place n s (omega arith) (ground (arith, d))

all_same-repeat : (n c : ℕ) → all_same c (repeat n c) ≡ true
unfolding all_same
all_same-repeat zero c = refl
all_same-repeat (suc n) c = ground (arith, all_same-repeat n c)

all_same_repeats : (c : ℕ) (s : Text) → all_same c s ≡ true → s ≡ repeat (length s) c
unfolding all_same
all_same_repeats c [] e = refl
all_same_repeats c (x ∷ s) e = elim (Bool-cases (x == c)) [
  | inl same ↦ rw (==→eq x c same) (ap (◌∷◌ c) (all_same_repeats c s (ground (arith, same, e))))
  | inr other ↦ absurd (ground (arith, other, e))
]

unrepeated : (s : Text) → length s ≡ 10 → (repeated s ≡ false) ↔ ((c : ℕ) → s ≢ repeat 10 c)
unrepeated [] e = absurd (omega arith)
unrepeated (x ∷ s) e = (
  λ different c same. absurd (ground (arith, different, all_same-repeat 9 c, ap repeated same)),
  λ never. elim (Bool-cases (all_same x s)) [
    | inr different ↦ different
    | inl same ↦
        let nine : length s ≡ 9 = omega (arith, e) in
        absurd (never x (ap (◌∷◌ x) (all_same_repeats x s same ∙ ap (λ n. repeat n x) nine)))
  ],
)

-- The check digit by cases, and by the whole sum.
check_digit_iff :
    (w k : ℕ)
    → k ≤ 9
    → ((k == check_digit (w % 11)) ≡ true) ↔ (((w + k) % 11 ≡ 0) ⊎ (((w + k) % 11 ≡ 2) × (k ≡ 1)))
check_digit_iff w k le = (
  λ e. elim (Bool-cases (w % 11 == 1)) [
    | inl one ↦ inr (ground (arith, e, one))
    | inr other ↦ inl (ground (arith, e, other))
  ],
  λ h. elim h [ inl zero_ ↦ ground (arith, zero_, le) | inr (two, one) ↦ ground (arith, two, one) ],
)

-- With ten digits, the loop and the last digit make the sum by places.
checked_iff :
    (value : Text)
    → length value ≡ 10
    → all_digits value ≡ true
    → let k = last_value (drop 9 value) in
      ((k == check_digit (weighted 9 10 value % 11)) ≡ true)
      ↔ ((place_sum value % 11 ≡ 0) ⊎ ((place_sum value % 11 ≡ 2) × (k ≡ 1)))
checked_iff value ten digits =
    let k = last_value (drop 9 value) in
    let (last, le) = last_place 9 value ten digits in
    subst
      (λ n.
        ((k == check_digit (weighted 9 10 value % 11)) ≡ true)
        ↔ ((n % 11 ≡ 0) ⊎ ((n % 11 ≡ 2) × (k ≡ 1))))
      (omega (arith, last, weighted-place_sum 9 10 value refl ten))
      (check_digit_iff (weighted 9 10 value) k le)

all_hold :
    (a b c d : Bool)
    → ((a && (b && (not c && d))) ≡ true) ↔ ((a ≡ true) × (b ≡ true) × (c ≡ false) × (d ≡ true))
all_hold a b c d = (
  λ e. (ground (arith, e), ground (arith, e), ground (arith, e), ground (arith, e)),
  λ (p, q, r, t). ground (arith, p, q, r, t),
)

-- A text is valid exactly if it is ten digits, not one digit ten times, and the sum of its digits times
-- their places, counted from the right, leaves 0 when divided by 11, or leaves 2 where the last digit
-- is 1.
pub valid_iff : (value : Text) → (is_valid_iranian_national_id value ≡ true) ↔ IsNationalId value
unfolding is_valid_iranian_national_id
valid_iff value =
    let parts =
      all_hold (length value == 10) (all_digits value) (repeated value)
        (last_value (drop 9 value) == check_digit (weighted 9 10 value % 11)) in
    (
      λ e.
          let (ten, digits, mixed, sum) = parts.0 e in
          let long = ==→eq (length value) 10 ten in
          (long, digits, (unrepeated value long).0 mixed, (checked_iff value long digits).0 sum),
      λ (long, digits, mixed, sum). parts.1 (
        ap (λ n. n == 10) long,
        digits,
        (unrepeated value long).1 mixed,
        (checked_iff value long digits).1 sum,
      ),
    )
