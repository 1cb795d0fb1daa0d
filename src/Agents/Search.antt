-- ===== src/Agents/Search.antt =====
-- `searchPublished` and `sanitizeSearchQuery` of apps/api/src/modules/agents/services/listings.service.ts.
-- What Postgres' text search and its ILIKE find, in their order and with the filters applied, are
-- parameters; LIMIT and OFFSET are applied here.
pub mod Found
use saziqo_platform.Prelude.{
  ℕ, zero, suc, ◌+◌, ◌-◌, Bool, true, false, not, ◌&&◌, Option, none, some, List, [], ◌∷◌, ◌++◌,
  ◌==◌, ltb, if◌then◌else◌, Text, filter, any, length, take, map, reverse,
}
use saziqo_platform.Table.{find_unique}
use saziqo_platform.PersianUtils.Chars.{is_space, trim}
use saziqo_platform.Agents.{Market, Listing, listing_key}

abbrev pub drop : ℕ → List ℕ → List ℕ
drop zero xs = xs
drop (suc n) [] = []
drop (suc n) (_ ∷ xs) = drop n xs

-- `FTS_FALLBACK_THRESHOLD`
abbrev pub fts_fallback_threshold : ℕ
fts_fallback_threshold = 10

-- `q.replace(/\s+/g, ' ')`: whether the character before was white space.
abbrev pub collapse : Bool → Text → Text
collapse after [] = []
collapse after (c ∷ q) =
    let space = is_space c in
    let rest = collapse space q in if space then (if after then rest else 32 ∷ rest) else c ∷ rest

-- `sanitizeSearchQuery`
unfoldable pub sanitize_search_query : Text → Text
sanitize_search_query q = take 200 (trim (collapse false (filter (λ c. not (c == 0)) q)))

-- The rows that the two queries match, best first.
pub record Matches : Type 0 where
  pub fts : Text → List ℕ
  pub ilike : Text → List ℕ

-- `SearchResult`
pub record SearchResult : Type 0 where
  pub items : List Listing
  pub next_offset : Option ℕ
  pub has_more : Bool

-- The loop that appends what has not been seen.
unfoldable pub append_unseen : List ℕ → List ℕ → List ℕ
append_unseen ids [] = ids
append_unseen ids (i ∷ rows) =
    append_unseen (if any (λ j. i == j) ids then ids else ids ++ (i ∷ [])) rows

-- The first pass: LIMIT and OFFSET.
abbrev pub fts_rows : Matches → Text → ℕ → ℕ → List ℕ
fts_rows m q offset limit = take (limit + 1) (drop offset (m.fts q))

-- The second pass, where the first found few.
unfoldable pub ordered_ids : Matches → Text → ℕ → List ℕ → List ℕ
ordered_ids m q limit ids =
    if ltb (length ids) fts_fallback_threshold
    then append_unseen ids (take (limit + 1 - length ids) (m.ilike q))
    else ids

-- The rows of these ids, in this order.
unfoldable pub hydrate : List Listing → List ℕ → List Listing
hydrate rows [] = []
hydrate rows (i ∷ ids) =
    let rest = hydrate rows ids in elim (find_unique i rows) [ none ↦ rest | some l ↦ l ∷ rest ]

abbrev pub search_page : Market → ℕ → ℕ → List ℕ → SearchResult
search_page s offset limit ids =
    let has_more = ltb limit (length ids) in
    let page = if has_more then take limit ids else ids in
    record {
      items = hydrate s.listings.rows page;
      next_offset = if has_more then some (offset + limit) else none;
      has_more = has_more && not (length page == 0);
    }

-- `searchPublished`
unfoldable pub search_published : Matches → Market → Text → ℕ → ℕ → SearchResult
unfolding ordered_ids
search_published m s q offset limit =
    let sanitized = sanitize_search_query q in
    search_page s offset limit (ordered_ids m sanitized limit (fts_rows m sanitized offset limit))
