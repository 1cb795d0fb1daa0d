-- ===== src/Agents/Checkout/Validated.antt =====
-- The validation loop of apps/api/src/modules/agents/services/checkout.service.ts gives lines that can be sold.
use saziqo_platform.Prelude.{
  ℕ, ◌≡◌, refl, sym, ap, subst, true, false, Option, none, some, List, [], ◌∷◌, arith, is_some, All,
  int_laws, get_or, if◌then◌else◌,
}
use saziqo_platform.Action.{ErrorCode}
use saziqo_platform.Table.{find_unique, find_first}
use saziqo_platform.Agents.{
  Market, Listing, RunPack, CartItem, PricingType, listing_key, is_live, is_owned, is_pack_of,
  is_published,
}
use saziqo_platform.Agents.Checkout.{
  BuiltLine, CheckoutValidationFailure, Checked, passes, fails, add_checked, check_line,
  check_lines, check_listing, check_priced, check_unowned, check_pack, check_found_pack, built_line,
  granted_pack,
}
use saziqo_platform.Agents.Steps.{IsSellable, is_there, runs_of}

-- A live row is there, and the look-up by id finds one.
pub live_there :
    (i : ℕ) (rows : List Listing) (l : Listing)
    → find_first (is_live i) rows ≡ some l
    → (l.id ≡ i) × (is_some (find_unique i rows) ≡ true)
live_there i [] l e = cc
live_there i (x ∷ rows) l e = ground (arith, live_there i rows l)

built_line-IsSellable :
    (s : Market) (percent : ℕ) (item : CartItem) (l : Listing) (pack : Option RunPack)
    (amount runs : ℕ)
    → is_there l.id s ≡ true
    → runs_of (granted_pack l.pricing_type pack) ≡ runs
    → IsSellable s (built_line percent item l pack amount runs)
built_line-IsSellable s percent item l pack amount runs there same = (there, same, grind int_laws)

abbrev Passing : (BuiltLine → Type 0) → Checked → Type 0
Passing P (passes line) = P line
Passing P (fails _) = Unit

check_found_pack-IsSellable :
    (s : Market) (percent : ℕ) (item : CartItem) (l : Listing) (o : Option RunPack)
    → is_there l.id s ≡ true
    → l.pricing_type ≡ PricingType.per_run
    → Passing (IsSellable s) (check_found_pack percent item l o)
check_found_pack-IsSellable s percent item l none there kind = tt
check_found_pack-IsSellable s percent item l (some p) there kind =
    built_line-IsSellable s percent item l (some p) p.price_toman p.runs there
      (ap (λ k. runs_of (granted_pack k (some p))) kind)

check_pack-IsSellable :
    (s : Market) (percent : ℕ) (item : CartItem) (l : Listing) (o : Option ℕ)
    → is_there l.id s ≡ true
    → l.pricing_type ≡ PricingType.per_run
    → Passing (IsSellable s) (check_pack s percent item l o)
check_pack-IsSellable s percent item l none there kind = tt
check_pack-IsSellable s percent item l (some i) there kind =
    check_found_pack-IsSellable s percent item l (find_first (is_pack_of i l.id) s.run_packs.rows)
      there kind

no_pack : (k : PricingType) → runs_of (granted_pack k none) ≡ 0
no_pack PricingType.free = refl
no_pack PricingType.one_time = refl
no_pack PricingType.per_run = refl

check_unowned-IsSellable :
    (s : Market) (user_id percent : ℕ) (item : CartItem) (l : Listing) (amount : ℕ)
    → is_there l.id s ≡ true
    → Passing (IsSellable s) (check_unowned s user_id percent item l amount)
check_unowned-IsSellable s user_id percent item l amount there =
    elim (is_some (find_first (is_owned user_id l.id) s.purchases.rows))
      as (λ b. Passing (IsSellable s) (
        if b
        then fails ErrorCode.already_owned
        else passes (built_line percent item l none amount 0))) [
          | true ↦ tt
          | false ↦
              built_line-IsSellable s percent item l none amount 0 there (no_pack l.pricing_type)
        ]

check_priced-IsSellable :
    (s : Market) (user_id percent : ℕ) (item : CartItem) (l : Listing) (k : PricingType)
    → is_there l.id s ≡ true
    → l.pricing_type ≡ k
    → Passing (IsSellable s) (check_priced s user_id percent item l k)
check_priced-IsSellable s user_id percent item l PricingType.per_run there kind =
    check_pack-IsSellable s percent item l item.run_pack_id there kind
check_priced-IsSellable s user_id percent item l PricingType.one_time there kind =
    check_unowned-IsSellable s user_id percent item l (get_or l.one_time_price_toman 0) there
check_priced-IsSellable s user_id percent item l PricingType.free there kind =
    check_unowned-IsSellable s user_id percent item l 0 there

check_listing-IsSellable :
    (s : Market) (user_id percent : ℕ) (item : CartItem) (o : Option Listing)
    → ((l : Listing) → o ≡ some l → is_there l.id s ≡ true)
    → Passing (IsSellable s) (check_listing s user_id percent item o)
check_listing-IsSellable s user_id percent item none there = tt
check_listing-IsSellable s user_id percent item (some l) there =
    elim (is_published l.status)
      as (λ b. Passing (IsSellable s) (
        if b
        then check_priced s user_id percent item l l.pricing_type
        else fails ErrorCode.listing_not_purchasable)) [
          | false ↦ tt
          | true ↦
              check_priced-IsSellable s user_id percent item l l.pricing_type (there l refl) refl
        ]

check_line-IsSellable :
    (s : Market) (user_id percent : ℕ) (item : CartItem)
    → Passing (IsSellable s) (check_line s user_id percent item)
unfolding check_line
check_line-IsSellable s user_id percent item =
    check_listing-IsSellable s user_id percent item
      (find_first (is_live item.listing_id) s.listings.rows)
      (λ l e.
        let (same, there) = live_there item.listing_id s.listings.rows l e in
        subst (λ i. is_there i s ≡ true) (sym same) there)

add_checked-IsSellable :
    (s : Market) (item : CartItem) (c : Checked)
    (r : List BuiltLine × List CheckoutValidationFailure)
    → Passing (IsSellable s) c
    → All (IsSellable s) r.0
    → All (IsSellable s) (add_checked item c r).0
add_checked-IsSellable s item (passes line) r h rest = (h, rest)
add_checked-IsSellable s item (fails _) r h rest = rest

pub check_lines-IsSellable :
    (s : Market) (user_id percent : ℕ) (items : List CartItem)
    → All (IsSellable s) (check_lines s user_id percent items).0
unfolding check_lines
check_lines-IsSellable s user_id percent [] = tt
check_lines-IsSellable s user_id percent (item ∷ items) =
    add_checked-IsSellable s item (check_line s user_id percent item)
      (check_lines s user_id percent items) (check_line-IsSellable s user_id percent item)
      (check_lines-IsSellable s user_id percent items)
