-- ===== src/Agents/Cart.antt =====
-- apps/api/src/modules/agents/services/cart.service.ts.
use saziqo_platform.Prelude.{
  ℕ, suc, Bool, true, false, not, ◌&&◌, Option, none, some, List, [], ◌∷◌, ◌++◌, ◌==◌,
  if◌then◌else◌, codes, filter, any,
}
use saziqo_platform.Action.{
  Action, Result, ok, err, Thrown, http, plain, ErrorCode, bad_request, not_found_status,
  conflict_status, pure, or_throw, throw_if, gets, modify, ◌>>=◌, ◌>>◌,
}
use saziqo_platform.Table.{find_first, insert}
use saziqo_platform.Agents.{
  Market, Listing, CartItem, PricingType, is_published, is_live, is_owned, is_pack_of,
}

-- `AddItemInput`
pub record AddItemInput : Type 0 where
  pub listing_id : ℕ
  pub run_pack_id : Option ℕ

-- `MergeFailure`
pub record MergeFailure : Type 0 where
  pub listing_id : ℕ
  pub run_pack_id : Option ℕ
  pub reason : ErrorCode

-- `MergeResult`
pub record MergeResult : Type 0 where
  pub merged : ℕ
  pub failed : List MergeFailure

-- `runPackId` of a filter: null matches null.
abbrev pub same_pack : Option ℕ → Option ℕ → Bool
same_pack none none = true
same_pack (some a) (some b) = a == b
same_pack _ _ = false

-- `{ userId, listingId, runPackId }`
abbrev pub is_line : ℕ → ℕ → Option ℕ → CartItem → Bool
is_line user_id listing_id pack c =
    user_id == c.user_id && listing_id == c.listing_id && same_pack pack c.run_pack_id

abbrev pub invalid_run_pack : Thrown
invalid_run_pack = http ErrorCode.invalid_run_pack bad_request

-- The pack of a PER_RUN line.
unfoldable pub required_pack : ℕ → Option ℕ → Action Market (Option ℕ)
required_pack listing_id none s = (err invalid_run_pack, s)
required_pack listing_id (some i) s = elim (find_first (is_pack_of i listing_id) s.run_packs.rows) [
  | none ↦ (err invalid_run_pack, s)
  | some pack ↦ (ok (some pack.id), s)
]

-- A FREE or ONE_TIME listing is bought once.
unfoldable pub unless_owned : ℕ → ℕ → Action Market (Option ℕ)
unless_owned user_id listing_id s =
    elim (find_first (is_owned user_id listing_id) s.purchases.rows) [
      | none ↦ (ok none, s)
      | some _ ↦ (err (http ErrorCode.already_owned conflict_status), s)
    ]

abbrev pub line_pack : ℕ → Listing → Option ℕ → PricingType → Action Market (Option ℕ)
line_pack user_id l pack PricingType.per_run = required_pack l.id pack
line_pack user_id l pack PricingType.one_time = unless_owned user_id l.id
line_pack user_id l pack PricingType.free = unless_owned user_id l.id

-- What `addItem` checks before it looks at the cart; it gives the `runPackId` of the line.
unfoldable pub check_item : ℕ → AddItemInput → Action Market (Option ℕ)
unfolding required_pack unless_owned
check_item user_id input = do
  row ← gets (λ s. find_first (is_live input.listing_id) s.listings.rows)
  l ← or_throw row (http ErrorCode.listing_not_found not_found_status)
  throw_if (not (is_published l.status)) (http ErrorCode.listing_not_purchasable conflict_status)
  throw_if (l.maker_user_id == user_id) (http ErrorCode.cannot_buy_own_listing conflict_status)
  line_pack user_id l input.run_pack_id l.pricing_type

abbrev pub new_line : ℕ → ℕ → Option ℕ → ℕ → CartItem
new_line user_id listing_id pack i = record {
  id = i;
  user_id = user_id;
  listing_id = listing_id;
  run_pack_id = pack;
}

-- `@@unique([userId, listingId, runPackId])`: in Postgres a null is distinct from every null.
abbrev pub violates_unique : ℕ → ℕ → Option ℕ → CartItem → Bool
violates_unique user_id listing_id none c = false
violates_unique user_id listing_id (some i) c = is_line user_id listing_id (some i) c

abbrev pub reread : Option CartItem → Action Market CartItem
reread none s = (err (plain (codes "P2002")), s)
reread (some c) s = (ok c, s)

-- The `create`, and what is done where the constraint refuses it.
unfoldable pub create_line : ℕ → ℕ → Option ℕ → Action Market CartItem
create_line user_id listing_id pack s =
    if any (violates_unique user_id listing_id pack) s.cart_items.rows
    then reread (find_first (is_line user_id listing_id pack) s.cart_items.rows) s
    else (
      ok (new_line user_id listing_id pack s.cart_items.next),
      record s { cart_items = insert (new_line user_id listing_id pack) s.cart_items },
    )

abbrev pub unless_there : ℕ → ℕ → Option ℕ → Option CartItem → Action Market CartItem
unless_there user_id listing_id pack (some c) = pure c
unless_there user_id listing_id pack none = create_line user_id listing_id pack

-- The line is looked up before it is created.
unfoldable pub find_or_create_line : ℕ → ℕ → Option ℕ → Action Market CartItem
find_or_create_line user_id listing_id pack s =
    unless_there user_id listing_id pack
      (find_first (is_line user_id listing_id pack) s.cart_items.rows) s

-- `addItem`
unfoldable pub add_item : ℕ → AddItemInput → Action Market CartItem
unfolding check_item
add_item user_id input = do
  pack ← check_item user_id input
  find_or_create_line user_id input.listing_id pack

-- `deleteMany({ where })`
abbrev pub delete_lines : (CartItem → Bool) → Market → Market
delete_lines p s = record s {
  cart_items = record {
    rows = filter (λ c. not (p c)) s.cart_items.rows;
    next = s.cart_items.next;
  };
}

abbrev pub is_line_id : ℕ → ℕ → CartItem → Bool
is_line_id user_id i c = i == c.id && user_id == c.user_id

-- `removeItem`
unfoldable pub remove_item : ℕ → ℕ → Action Market (Unit {0})
remove_item user_id i s =
    if any (is_line_id user_id i) s.cart_items.rows
    then (ok tt, delete_lines (is_line_id user_id i) s)
    else (err (http ErrorCode.not_found not_found_status), s)

abbrev pub is_line_of : ℕ → CartItem → Bool
is_line_of user_id c = user_id == c.user_id

-- `clearForUser`
unfoldable pub clear_for_user : ℕ → Action Market (Unit {0})
clear_for_user user_id = modify (delete_lines (is_line_of user_id))

-- `extractErrorCode`
abbrev pub extract_error_code : Thrown → ErrorCode
extract_error_code (http code _) = code
extract_error_code (plain _) = ErrorCode.internal_error

abbrev pub counted : AddItemInput → Result CartItem → MergeResult → MergeResult
counted input (ok _) m = record m { merged = suc m.merged }
counted input (err e) m = record m {
  failed =
      m.failed
      ++ (record {
        listing_id = input.listing_id;
        run_pack_id = input.run_pack_id;
        reason = extract_error_code e;
      }
          ∷ []);
}

-- The loop of `mergeGuestCart`.
unfoldable pub merge_items : ℕ → List AddItemInput → MergeResult → Action Market MergeResult
merge_items user_id [] m s = (ok m, s)
merge_items user_id (input ∷ inputs) m s =
    let (r, t) = add_item user_id input s in merge_items user_id inputs (counted input r m) t

-- `mergeGuestCart`
unfoldable pub merge_guest_cart : ℕ → List AddItemInput → Action Market MergeResult
merge_guest_cart user_id inputs = merge_items user_id inputs (record { merged = 0; failed = [] })
