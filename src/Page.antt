-- ===== src/Page.antt =====
-- Cursor pagination, as every listing service writes it: `findMany({ where, orderBy: { id:
-- 'desc' }, take: limit + 1 })`, then the surplus row is cut off and the last id kept is the
-- next cursor (findEntriesForWallet in apps/api/src/core/ledger/ledger.service.ts, findForUser
-- and findForAdmin in the payouts and payments services).
pub mod Cut
pub mod Walk
use saziqo_platform.Prelude.{
  ℕ, ◌+◌, Bool, true, ◌&&◌, Option, none, some, List, ltb, if◌then◌else◌, length, take, get_last?,
  filter,
}
use saziqo_platform.Table.{HasId, id_of}

pub record Page (R : Type 0) : Type 0 where
  pub items : List R
  pub next_cursor : Option ℕ
  pub has_more : Bool

module _ {R : Type 0} ⦃h : HasId R⦄ where
  -- `id: { lt: cursor }`, if there is a cursor.
  abbrev pub below : Option ℕ → R → Bool
  below none r = true
  below (some c) r = ltb (id_of r) c

  -- `orderBy: { id: 'desc' }` is the order in which a table keeps its rows.
  abbrev pub find_many : (R → Bool) → Option ℕ → ℕ → List R → List R
  find_many where_clause cursor n rows =
      take n (filter (λ r. where_clause r && below cursor r) rows)

  -- `hasMore && last ? last.id : null`
  abbrev pub last_id : Bool → Option R → Option ℕ
  last_id more none = none
  last_id more (some r) = if more then some (id_of r) else none

  -- From the rows that `take: limit + 1` gave.
  unfoldable pub paginate : ℕ → List R → Page R
  paginate limit rows =
      let has_more = ltb limit (length rows) in
      let items = if has_more then take limit rows else rows in
      record {
        items = items;
        next_cursor = last_id has_more (get_last? items);
        has_more = has_more;
      }

  unfoldable pub find_page : (R → Bool) → Option ℕ → ℕ → List R → Page R
  unfolding paginate
  find_page where_clause cursor limit rows =
      paginate limit (find_many where_clause cursor (limit + 1) rows)
