-- ===== src/Page/Walk.antt =====
-- A client that follows `nextCursor` from page to page: what it has seen in the end.
use mathlib.Core.List.{append-nil}
use saziqo_platform.Prelude.{
  ℕ, zero, suc, ◌<◌, ◌≡◌, refl, ap, ◌∙◌, Bool, true, ◌&&◌, Option, none, some, List, [], ◌∷◌, ◌++◌,
  arith, ltb, length, take, filter, All-map, inl, inr, Bool-cases, ltb→lt, length-append, All-take,
  length-filter-le,
}
use saziqo_platform.Table.{HasId, id_of, Descending}
use saziqo_platform.Page.{below, find_page}
use saziqo_platform.Page.Cut.{
  second_true, remaining, Descending-filter, last_All, last_cut, kept_pass, narrow, below_trans,
  take_all, last_some, find_page-items, find_page-last, no_next,
}

module _ {R : Type 0} ⦃h : HasId R⦄ where
  abbrev follow : (Option ℕ → List R) → Option ℕ → List R
  follow more none = []
  follow more (some c) = more (some c)

  -- Ask for a page, and go on at its next cursor while there is one.
  pub walk : (fuel : ℕ) → (R → Bool) → ℕ → List R → Option ℕ → List R
  walk zero where_clause limit rows cursor = []
  walk (suc fuel) where_clause limit rows cursor =
      let page = find_page where_clause cursor limit rows in
      page.items ++ follow (walk fuel where_clause limit rows) page.next_cursor

  -- What one step of the walk does when there is more.
  step_more :
      (p : R → Bool) (cursor : Option ℕ) (limit : ℕ) (rows : List R)
      → 0 < limit
      → Descending rows
      → ltb limit (length (take (suc limit) (remaining p cursor rows))) ≡ true
      → (r : R) × ((find_page p cursor limit rows).next_cursor ≡ some (id_of r))
        × (take limit (remaining p cursor rows) ++ remaining p (some (id_of r)) rows
            ≡ remaining p cursor rows)
  step_more p cursor limit rows pos_limit d more =
      let matched = remaining p cursor rows in
      let (r, e) = last_some limit matched pos_limit (ltb→lt _ _ more) in
      let passes : below cursor r ≡ true =
        last_All (λ x. below cursor x ≡ true) (take limit matched) r
          (All-take _ limit matched (
            All-map (λ x. second_true (p x) (below cursor x)) matched
              (kept_pass (λ x. p x && below cursor x) rows)))
          e in
      let narrowed = narrow p cursor (id_of r) rows (λ x. below_trans cursor r x passes) in
      (
        r,
        rw (find_page-last p cursor limit rows, more, e),
        rw (← narrowed) (last_cut limit matched r (Descending-filter _ rows d) e),
      )

  take_pos :
      (n : ℕ) (xs ys : List R)
      → 0 < n
      → n < length (take (suc n) xs)
      → take n xs ++ ys ≡ xs
      → length ys < length xs
  take_pos zero xs ys p m e = absurd (omega arith)
  take_pos (suc n) [] ys p m e = absurd (omega arith)
  take_pos (suc n) (x ∷ xs) ys p m e = omega (arith, ap length e, length-append (take n xs) ys)

  -- With fuel for the rows that are left, the pages together are the matching rows in their order,
  -- each once.
  pub walk-remaining :
      (fuel : ℕ) (p : R → Bool) (limit : ℕ) (rows : List R) (cursor : Option ℕ)
      → 0 < limit
      → Descending rows
      → length (remaining p cursor rows) < fuel
      → walk fuel p limit rows cursor ≡ remaining p cursor rows
  unfolding walk
  walk-remaining zero p limit rows cursor pos_limit d enough = absurd (omega arith)
  walk-remaining (suc fuel) p limit rows cursor pos_limit d enough =
      elim (Bool-cases (ltb limit (length (take (suc limit) (remaining p cursor rows))))) [
        | inl more ↦
            let (r, next, cut) = step_more p cursor limit rows pos_limit d more in
            let fewer =
              take_pos limit (remaining p cursor rows) (remaining p (some (id_of r)) rows) pos_limit
                (ltb→lt _ _ more) cut in
            rw (find_page-items p cursor limit rows, next)
              (rw
                (walk-remaining fuel p limit rows (some (id_of r)) pos_limit d
                  (omega (arith, fewer)))
                cut)
        | inr last ↦
            rw (find_page-items p cursor limit rows, no_next p cursor limit rows last)
              (append-nil (take limit (remaining p cursor rows))
                ∙ take_all limit (remaining p cursor rows) (ground arith))
      ]

  remaining-none : (p : R → Bool) (rows : List R) → remaining p none rows ≡ filter p rows
  remaining-none p [] = refl
  remaining-none p (r ∷ rows) = ground (arith, remaining-none p rows)

  -- With falling keys and pages of at least one row, a client that starts with no cursor and goes
  -- on while there is a next one sees every matching row once, newest first.
  pub walk-filter :
      (p : R → Bool) (limit : ℕ) (rows : List R)
      → 0 < limit
      → Descending rows
      → walk (suc (length rows)) p limit rows none ≡ filter p rows
  walk-filter p limit rows pos_limit d =
      walk-remaining (suc (length rows)) p limit rows none pos_limit d
        (omega (arith, length-filter-le (λ r. p r && true) rows))
      ∙ remaining-none p rows
