-- ===== src/Agents/Search/Found.antt =====
-- What the pages of `searchPublished` in apps/api/src/modules/agents/services/listings.service.ts hold.
use saziqo_platform.Prelude.{
  ℕ, zero, suc, ◌+◌, ◌-◌, ◌≤◌, ◌≡◌, ◌≢◌, refl, sym, ap, ◌∙◌, subst, false, some, List, [], ◌∷◌,
  ◌++◌, ◌==◌, ltb, arith, Text, any, length, take, All, inl, inr, Bool-cases, Option-cases,
}
use saziqo_platform.Table.{find_unique, find_unique_id}
use saziqo_platform.Agents.{Market, Listing, listing_key}
use saziqo_platform.Agents.Search.{
  drop, Matches, append_unseen, fts_rows, ordered_ids, hydrate, search_page, search_published,
  sanitize_search_query, fts_fallback_threshold,
}

-- No id twice.
abbrev pub Distinct : List ℕ → Type 0
Distinct [] = Unit
Distinct (i ∷ ids) = (any (λ j. i == j) ids ≡ false) × Distinct ids

abbrev pub DistinctIds : List Listing → Type 0
DistinctIds [] = Unit
DistinctIds (l ∷ ls) = All (λ m. l.id ≢ m.id) ls × DistinctIds ls

absent-append :
    (j i : ℕ) (ids : List ℕ)
    → any (λ k. j == k) ids ≡ false
    → (j == i) ≡ false
    → any (λ k. j == k) (ids ++ (i ∷ [])) ≡ false
absent-append j i [] h e = ground (arith, e)
absent-append j i (k ∷ ids) h e = ground (arith, absent-append j i ids, h, e)

Distinct-append :
    (i : ℕ) (ids : List ℕ)
    → Distinct ids
    → any (λ k. i == k) ids ≡ false
    → Distinct (ids ++ (i ∷ []))
Distinct-append i [] d h = (refl, tt)
Distinct-append i (j ∷ ids) d h =
    (absent-append j i ids d.0 (ground (arith, h)), Distinct-append i ids d.1 (ground (arith, h)))

append_unseen-Distinct : (rows ids : List ℕ) → Distinct ids → Distinct (append_unseen ids rows)
unfolding append_unseen
append_unseen-Distinct [] ids d = d
append_unseen-Distinct (i ∷ rows) ids d = elim (Bool-cases (any (λ j. i == j) ids)) [
  | inl seen ↦ rw seen (append_unseen-Distinct rows ids d)
  | inr new ↦ rw new (append_unseen-Distinct rows (ids ++ (i ∷ [])) (Distinct-append i ids d new))
]

absent-take :
    (n i : ℕ) (ids : List ℕ)
    → any (λ j. i == j) ids ≡ false
    → any (λ j. i == j) (take n ids) ≡ false
absent-take zero i ids h = refl
absent-take (suc n) i [] h = refl
absent-take (suc n) i (j ∷ ids) h = ground (arith, absent-take n i ids, h)

Distinct-take : (n : ℕ) (ids : List ℕ) → Distinct ids → Distinct (take n ids)
Distinct-take zero ids d = tt
Distinct-take (suc n) [] d = tt
Distinct-take (suc n) (i ∷ ids) d = (absent-take n i ids d.0, Distinct-take n ids d.1)

Distinct-drop : (n : ℕ) (ids : List ℕ) → Distinct ids → Distinct (drop n ids)
Distinct-drop zero ids d = d
Distinct-drop (suc n) [] d = tt
Distinct-drop (suc n) (i ∷ ids) d = Distinct-drop n ids d.1

hydrate_absent :
    (i : ℕ) (rows : List Listing) (ids : List ℕ)
    → any (λ j. i == j) ids ≡ false
    → All (λ m. i ≢ m.id) (hydrate rows ids)
unfolding hydrate
hydrate_absent i rows [] h = tt
hydrate_absent i rows (j ∷ ids) h = elim (Option-cases (find_unique j rows)) [
  | inl gone ↦ ground (arith, gone, hydrate_absent i rows ids, h)
  | inr (l, found) ↦
      ground (arith, found, hydrate_absent i rows ids, h, find_unique_id j l rows found)
]

hydrate-DistinctIds :
    (rows : List Listing) (ids : List ℕ) → Distinct ids → DistinctIds (hydrate rows ids)
unfolding hydrate
hydrate-DistinctIds rows [] d = tt
hydrate-DistinctIds rows (j ∷ ids) d = elim (Option-cases (find_unique j rows)) [
  | inl gone ↦ ground (arith, gone, hydrate-DistinctIds rows ids d.1)
  | inr (l, found) ↦ ground (
    arith,
    found,
    hydrate-DistinctIds rows ids d.1,
    subst (λ k. All (λ m. k ≢ m.id) (hydrate rows ids)) (sym (find_unique_id j l rows found))
        (hydrate_absent j rows ids d.0),
  )
]

length-hydrate : (rows : List Listing) (ids : List ℕ) → length (hydrate rows ids) ≤ length ids
unfolding hydrate
length-hydrate rows [] = omega arith
length-hydrate rows (j ∷ ids) = elim (Option-cases (find_unique j rows)) [
  | inl gone ↦ ground (arith, gone, length-hydrate rows ids)
  | inr (l, found) ↦ ground (arith, found, length-hydrate rows ids)
]

length-take : (n : ℕ) (ids : List ℕ) → length (take n ids) ≤ n
length-take zero ids = omega arith
length-take (suc n) [] = omega arith
length-take (suc n) (i ∷ ids) = omega (arith, length-take n ids)

-- A page is what fits of the ids.
page_lem :
    (s : Market) (offset limit : ℕ) (ids : List ℕ)
    → Distinct ids
    → DistinctIds (search_page s offset limit ids).items
      × (length (search_page s offset limit ids).items ≤ limit)
page_lem s offset limit ids d = elim (Bool-cases (ltb limit (length ids))) [
  | inl more ↦ rw more (
    hydrate-DistinctIds s.listings.rows (take limit ids) (Distinct-take limit ids d),
    omega (arith, length-hydrate s.listings.rows (take limit ids), length-take limit ids),
  )
  | inr all_ ↦ rw all_ (
    hydrate-DistinctIds s.listings.rows ids d,
    ground (arith, all_, length-hydrate s.listings.rows ids),
  )
]

ordered_ids-Distinct :
    (m : Matches) (q : Text) (limit : ℕ) (ids : List ℕ)
    → Distinct ids
    → Distinct (ordered_ids m q limit ids)
unfolding ordered_ids
ordered_ids-Distinct m q limit ids d = elim (Bool-cases (ltb (length ids) fts_fallback_threshold)) [
  | inl few ↦ rw few (append_unseen-Distinct (take (limit + 1 - length ids) (m.ilike q)) ids d)
  | inr enough ↦ rw enough d
]

-- Where the text search gives no row twice, a page of the search shows no listing twice, though the
-- fallback may find it again, and no more listings than the limit.
pub search_published-DistinctIds :
    (m : Matches) (s : Market) (q : Text) (offset limit : ℕ)
    → ((sanitized : Text) → Distinct (m.fts sanitized))
    → let r = search_published m s q offset limit in DistinctIds r.items × (length r.items ≤ limit)
unfolding search_published
search_published-DistinctIds m s q offset limit distinct =
    let sanitized = sanitize_search_query q in
    page_lem s offset limit (ordered_ids m sanitized limit (fts_rows m sanitized offset limit)) (
      ordered_ids-Distinct m sanitized limit (fts_rows m sanitized offset limit) (
        Distinct-take (limit + 1) (drop offset (m.fts sanitized))
          (Distinct-drop offset (m.fts sanitized) (distinct sanitized))))

nothing-drop : (n : ℕ) → drop n [] ≡ []
nothing-drop zero = refl
nothing-drop (suc n) = refl

take_none : (n : ℕ) (ids : List ℕ) → ids ≡ [] → take n ids ≡ []
take_none zero ids e = refl
take_none (suc n) ids e = rw e refl

no_rows :
    (m : Matches) (q : Text) (offset limit : ℕ) → m.fts q ≡ [] → fts_rows m q offset limit ≡ []
no_rows m q offset limit e =
    take_none (limit + 1) (drop offset (m.fts q)) (ap (drop offset) e ∙ nothing-drop offset)

-- Where the text search finds nothing, so that only the fallback finds listings, the page at every
-- offset is the page at the offset zero: with more matches than the limit, who follows the next offset
-- is shown the first page for ever, and is told each time that there is more.
pub search_repeats :
    (m : Matches) (s : Market) (q : Text) (offset limit : ℕ)
    → m.fts (sanitize_search_query q) ≡ []
    → let r = search_published m s q offset limit in
      let first = search_published m s q 0 limit in
      (r.items ≡ first.items)
      × (r.has_more ≡ first.has_more)
      × (first.next_offset ≡ some limit → r.next_offset ≡ some (offset + limit))
unfolding search_published
search_repeats m s q offset limit none_ =
    let sanitized = sanitize_search_query q in
    rw (no_rows m sanitized offset limit none_, no_rows m sanitized 0 limit none_)
      (refl, refl, λ e. ground (arith, e))
