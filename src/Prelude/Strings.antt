-- ===== src/Prelude/Strings.antt =====
-- Texts as lists of code units, their equality, and decimal printing (`toString` of an id).
use Prim.Native.Char.{code}
use Prim.Native.String.{String}
use Prim.Native.Nat.{ℕ, zero, suc, ◌+◌, ◌/◌, ◌%◌, ◌<◌}
use mathlib.Core.Path.{◌≡◌, refl, sym, ap, ◌∙◌, subst}
use mathlib.Core.Logic.{◌↔◌, ◌≢◌}
use mathlib.Core.Bool.{Bool, true, false, ◌&&◌}
use mathlib.Core.List.{List, [], ◌∷◌, ◌++◌, reverse, reverse-reverse}
use native.Mathlib.Omega.{arith}
use saziqo_platform.Prelude.Tests.{ltb, ◌==◌, if◌then◌else◌}

abbrev pub Text : Type 0
Text = List ℕ

abbrev pub codes : String → Text
codes String.[] = []
codes (String.◌∷◌ c s) = code c ∷ codes s

-- `a === b` on texts.
unfoldable pub text_eq : Text → Text → Bool
text_eq [] [] = true
text_eq [] (_ ∷ _) = false
text_eq (_ ∷ _) [] = false
text_eq (a ∷ s) (b ∷ t) = a == b && text_eq s t

pub text_eq_sound : (s t : Text) → text_eq s t ≡ true → s ≡ t
unfolding text_eq
text_eq_sound [] [] h = refl
text_eq_sound [] (_ ∷ _) h = cc
text_eq_sound (_ ∷ _) [] h = cc
text_eq_sound (a ∷ s) (b ∷ t) h = ground (arith, text_eq_sound s t)

pub text_eq_refl : (s : Text) → text_eq s s ≡ true
unfolding text_eq
text_eq_refl [] = refl
text_eq_refl (a ∷ s) = ground (arith, text_eq_refl s)

pub text_eq_iff : (s t : Text) → (text_eq s t ≡ true) ↔ (s ≡ t)
text_eq_iff s t = (text_eq_sound s t, λ e. subst (λ u. text_eq s u ≡ true) e (text_eq_refl s))

-- `s.startsWith(prefix)`.
unfoldable pub starts_with : Text → Text → Bool
starts_with [] s = true
starts_with (_ ∷ _) [] = false
starts_with (a ∷ p) (b ∷ s) = a == b && starts_with p s

-- The decimal digits of `n`, last digit first; `fuel` bounds their number.
digits_rev : ℕ → ℕ → Text
digits_rev zero n = []
digits_rev (suc f) n =
    let more = (b'0' + n % 10) ∷ digits_rev f (n / 10) in if ltb n 10 then (b'0' + n) ∷ [] else more

-- `toString` of a non-negative integer. A number has fewer digits than its successor counts.
unfoldable pub to_string : ℕ → Text
unfolding digits_rev
to_string n = reverse (digits_rev (suc n) n)

digits_rev-ne-nil : (f n : ℕ) → n < f → digits_rev f n ≢ []
unfolding digits_rev
digits_rev-ne-nil zero n h = absurd (omega arith)
digits_rev-ne-nil (suc f) n h = ground arith

digits_rev_injective : (f g n m : ℕ) → n < f → m < g → digits_rev f n ≡ digits_rev g m → n ≡ m
unfolding digits_rev
digits_rev_injective zero g n m h k e = absurd (omega arith)
digits_rev_injective (suc f) zero n m h k e = absurd (omega arith)
digits_rev_injective (suc f) (suc g) n m h k e = ground (
  arith,
  digits_rev_injective f g (n / 10) (m / 10),
  digits_rev-ne-nil f (n / 10),
  digits_rev-ne-nil g (m / 10),
)

-- Different ids are printed differently.
pub to_string_injective : (n m : ℕ) → to_string n ≡ to_string m → n ≡ m
unfolding to_string
to_string_injective n m e = digits_rev_injective (suc n) (suc m) n m (omega arith) (omega arith) (
    sym (reverse-reverse (digits_rev (suc n) n))
    ∙ ap reverse e
    ∙ reverse-reverse (digits_rev (suc m) m))

pub append_cancel : (p s t : Text) → p ++ s ≡ p ++ t → s ≡ t
append_cancel [] s t e = e
append_cancel (a ∷ p) s t e = append_cancel p s t (cc)
