-- ===== src/Page/Cut.antt =====
-- Cutting a list of rows with falling keys at the last key of a page, as the cursors of the listing
-- services do (apps/api/src/core/ledger/ledger.service.ts and its neighbours).
use native.Mathlib.Numerals.{add-one}
use saziqo_platform.Prelude.{
  ℕ, zero, suc, ◌≤◌, ◌<◌, ◌≡◌, refl, ◌≢◌, sym, ap, ◌∙◌, Bool, true, false, ◌&&◌, Option, none, some,
  List, [], ◌∷◌, ◌++◌, arith, ltb, length, take, get_last?, filter, All, All-filter, inl, inr,
  Option-cases, subst, All-take, capped_take,
}
use saziqo_platform.Table.{HasId, id_of, Descending}
use saziqo_platform.Page.{below, last_id, find_page}

pub second_true : (a b : Bool) → (a && b) ≡ true → b ≡ true
second_true a b h = ground arith

module _ {R : Type 0} ⦃h : HasId R⦄ where
  -- The rows that the cursor still admits.
  abbrev pub remaining : (R → Bool) → Option ℕ → List R → List R
  remaining where_clause cursor rows = filter (λ r. where_clause r && below cursor r) rows

  pub Descending-filter : (p : R → Bool) (rs : List R) → Descending rs → Descending (filter p rs)
  Descending-filter p [] d = tt
  Descending-filter p (r ∷ rs) d =
      ground (arith, Descending-filter p rs d.1, All-filter (λ x. id_of x < id_of r) p rs d.0)

  pub All-kept :
      (c : ℕ) (rs : List R) → All (λ x. id_of x < c) rs → filter (λ r. below (some c) r) rs ≡ rs
  All-kept c [] a = refl
  All-kept c (r ∷ rs) a = ground (arith, All-kept c rs a.1)

  pub last-none : (xs : List R) → get_last? xs ≡ none → xs ≡ []
  last-none [] e = refl
  last-none (x ∷ []) e = cc
  last-none (x ∷ y ∷ xs) e = cc (last-none (y ∷ xs) e)

  pub last_cons :
      (x : R) (xs : List R) (r : R) → get_last? xs ≡ some r → get_last? (x ∷ xs) ≡ some r
  last_cons x [] r e = cc
  last_cons x (y ∷ xs) r e = e

  pub last_All : (P : R → Type 0) (xs : List R) (r : R) → All P xs → get_last? xs ≡ some r → P r
  last_All P [] r a e = absurd (cc)
  last_All P (x ∷ []) r a e = subst P (cc) a.0
  last_All P (x ∷ y ∷ xs) r a e = last_All P (y ∷ xs) r a.1 e

  -- On falling keys, cutting at the last key of the first rows leaves the rest.
  pub last_cut :
      (n : ℕ) (rs : List R) (r : R)
      → Descending rs
      → get_last? (take n rs) ≡ some r
      → take n rs ++ filter (λ x. below (some (id_of r)) x) rs ≡ rs
  last_cut zero rs r d e = cc
  last_cut (suc n) [] r d e = cc
  last_cut (suc n) (x ∷ rs) r d e = elim (Option-cases (get_last? (take n rs))) [
    | inl none_left ↦
        let only : take n rs ≡ [] = last-none (take n rs) none_left in
        let same : some x ≡ some r = rw only at e in
        ground (arith, only, same, All-kept (id_of x) rs d.0)
    | inr (r', e') ↦
        let same : some r' ≡ some r = sym (last_cons x (take n rs) r' e') ∙ e in
        let lower : id_of r' < id_of x =
          last_All (λ z. id_of z < id_of x) (take n rs) r' (All-take _ n rs d.0) e' in
        ground (arith, same, lower, last_cut n rs r d.1 (e' ∙ same))
  ]

  pub kept_pass : (p : R → Bool) (xs : List R) → All (λ x. p x ≡ true) (filter p xs)
  kept_pass p [] = tt
  kept_pass p (x ∷ xs) = ground (arith, kept_pass p xs)

  -- A lower cursor narrows what is left.
  pub narrow :
      (p : R → Bool) (cursor : Option ℕ) (c : ℕ) (rs : List R)
      → ((x : R) → ltb (id_of x) c ≡ true → below cursor x ≡ true)
      → filter (λ x. below (some c) x) (remaining p cursor rs) ≡ remaining p (some c) rs
  narrow p cursor c [] lower = refl
  narrow p cursor c (r ∷ rs) lower = ground (arith, lower r, narrow p cursor c rs lower)

  pub below_trans :
      (cursor : Option ℕ) (r x : R)
      → below cursor r ≡ true
      → ltb (id_of x) (id_of r) ≡ true
      → below cursor x ≡ true
  below_trans none r x h k = refl
  below_trans (some c) r x h k = ground arith

  pub take_all : (n : ℕ) (xs : List R) → length (take (suc n) xs) ≤ n → take n xs ≡ xs
  take_all zero [] h = refl
  take_all zero (x ∷ xs) h = absurd (omega arith)
  take_all (suc n) [] h = refl
  take_all (suc n) (x ∷ xs) h = ap (◌∷◌ x) (take_all n xs (omega arith))

  pub last_some :
      (n : ℕ) (xs : List R)
      → 0 < n
      → n < length (take (suc n) xs)
      → (r : R) × (get_last? (take n xs) ≡ some r)
  last_some n xs pos_n more = elim (Option-cases (get_last? (take n xs))) [
    | inl e ↦ absurd (nonempty n xs pos_n more (last-none (take n xs) e))
    | inr found ↦ found
  ]
    where
      nonempty : (m : ℕ) (ys : List R) → 0 < m → m < length (take (suc m) ys) → take m ys ≢ []
      nonempty zero ys p q = absurd (omega arith)
      nonempty (suc m) [] p q = absurd (omega arith)
      nonempty (suc m) (y ∷ ys) p q = λ e. cc

  pub find_page-items :
      (p : R → Bool) (cursor : Option ℕ) (limit : ℕ) (rows : List R)
      → (find_page p cursor limit rows).items ≡ take limit (remaining p cursor rows)
  unfolding find_page
  find_page-items p cursor limit rows = rw add-one (capped_take limit (remaining p cursor rows))

  pub find_page-last :
      (p : R → Bool) (cursor : Option ℕ) (limit : ℕ) (rows : List R)
      → let matched = remaining p cursor rows in
        (find_page p cursor limit rows).next_cursor
        ≡ last_id (ltb limit (length (take (suc limit) matched))) (get_last? (take limit matched))
  unfolding find_page
  find_page-last p cursor limit rows =
      let matched = remaining p cursor rows in
      rw add-one (
        ap (λ items. last_id (ltb limit (length (take (suc limit) matched))) (get_last? items))
          (capped_take limit matched))

  pub last_id-false : (o : Option R) → last_id false o ≡ none
  last_id-false none = refl
  last_id-false (some r) = refl

  pub no_next :
      (p : R → Bool) (cursor : Option ℕ) (limit : ℕ) (rows : List R)
      → ltb limit (length (take (suc limit) (remaining p cursor rows))) ≡ false
      → (find_page p cursor limit rows).next_cursor ≡ none
  no_next p cursor limit rows last =
      rw (find_page-last p cursor limit rows, last)
        (last_id-false (get_last? (take limit (remaining p cursor rows))))
