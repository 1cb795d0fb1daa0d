-- ===== src/Agents/Checkout/Quoted.antt =====
-- What the validation loop of apps/api/src/modules/agents/services/checkout.service.ts charges for a line.
use saziqo_platform.Prelude.{
  ℕ, ◌*◌, ◌/◌, ◌≡◌, refl, sym, subst, true, false, Option, none, some, List, [], ◌∷◌, is_some,
  get_or, if◌then◌else◌,
}
use saziqo_platform.Action.{ErrorCode}
use saziqo_platform.Table.{find_first}
use saziqo_platform.Agents.{
  Market, Listing, RunPack, CartItem, PricingType, is_live, is_owned, is_pack_of, is_published,
}
use saziqo_platform.Agents.Checkout.{
  BuiltLine, CheckoutValidationFailure, Checked, passes, fails, add_checked, check_line,
  check_lines, check_listing, check_priced, check_unowned, check_pack, check_found_pack, built_line,
}
use saziqo_platform.Agents.Checkout.Validated.{live_there}

abbrev pub pack_id_of : Option RunPack → Option ℕ
pack_id_of none = none
pack_id_of (some p) = some p.id

-- What a line of the cart costs this user, the runs and the pack that it brings: the price and the runs
-- of the line's pack, if that is on sale; or the listing's price, or nothing, if the user does not own
-- it.
abbrev pub Charge : Market → ℕ → CartItem → Listing → ℕ → ℕ → Option ℕ → PricingType → Type 0
Charge s user_id item l amount runs pack_id PricingType.per_run =
    (i : ℕ) × (p : RunPack) × (item.run_pack_id ≡ some i)
    × (find_first (is_pack_of i l.id) s.run_packs.rows ≡ some p)
    × (amount ≡ p.price_toman)
    × (runs ≡ p.runs)
    × (pack_id ≡ some p.id)
Charge s user_id item l amount runs pack_id PricingType.one_time =
    (find_first (is_owned user_id l.id) s.purchases.rows ≡ none)
    × (amount ≡ get_or l.one_time_price_toman 0)
    × (runs ≡ 0)
    × (pack_id ≡ none)
Charge s user_id item l amount runs pack_id PricingType.free =
    (find_first (is_owned user_id l.id) s.purchases.rows ≡ none)
    × (amount ≡ 0)
    × (runs ≡ 0)
    × (pack_id ≡ none)

-- What is built for a line of the cart is for its listing, which is published, at its charge, with the
-- commission at this rate.
abbrev pub IsQuoted : Market → ℕ → ℕ → CartItem → BuiltLine → Type 0
IsQuoted s user_id percent item line =
    (find_first (is_live item.listing_id) s.listings.rows ≡ some line.listing)
    × (line.listing.id ≡ item.listing_id)
    × (is_published line.listing.status ≡ true)
    × Charge s user_id item line.listing line.amount_toman line.runs_granted (pack_id_of line.pack)
        line.listing.pricing_type
    × (line.commission_toman ≡ line.amount_toman * percent / 100)

-- The lists are as long as each other, and the relation holds of their items in order.
abbrev pub Matched : {A B : Type 0} → (A → B → Type 0) → List A → List B → Type 0
Matched R [] [] = Unit
Matched R [] (y ∷ ys) = ⊥
Matched R (x ∷ xs) [] = ⊥
Matched R (x ∷ xs) (y ∷ ys) = R x y × Matched R xs ys

abbrev Passing : (BuiltLine → Type 0) → Checked → Type 0
Passing P (passes line) = P line
Passing P (fails _) = Unit

module _ (s : Market) (user_id percent : ℕ) (item : CartItem) (l : Listing)
    (live : find_first (is_live item.listing_id) s.listings.rows ≡ some l)
    (own : l.id ≡ item.listing_id) (shown : is_published l.status ≡ true) where
  found_pack-IsQuoted :
      (i : ℕ) (o : Option RunPack)
      → item.run_pack_id ≡ some i
      → find_first (is_pack_of i l.id) s.run_packs.rows ≡ o
      → l.pricing_type ≡ PricingType.per_run
      → Passing (IsQuoted s user_id percent item) (check_found_pack percent item l o)
  found_pack-IsQuoted i none chosen e kind = tt
  found_pack-IsQuoted i (some p) chosen e kind = (
    live,
    own,
    shown,
    subst (Charge s user_id item l p.price_toman p.runs (some p.id)) (sym kind)
        (i, p, chosen, e, refl, refl, refl),
    refl,
  )

  pack-IsQuoted :
      (o : Option ℕ)
      → item.run_pack_id ≡ o
      → l.pricing_type ≡ PricingType.per_run
      → Passing (IsQuoted s user_id percent item) (check_pack s percent item l o)
  pack-IsQuoted none chosen kind = tt
  pack-IsQuoted (some i) chosen kind =
      found_pack-IsQuoted i (find_first (is_pack_of i l.id) s.run_packs.rows) chosen refl kind

  unowned-IsQuoted :
      (amount : ℕ)
      → (find_first (is_owned user_id l.id) s.purchases.rows ≡ none
          → Charge s user_id item l amount 0 none l.pricing_type)
      → Passing (IsQuoted s user_id percent item) (check_unowned s user_id percent item l amount)
  unowned-IsQuoted amount charge =
      elim (find_first (is_owned user_id l.id) s.purchases.rows)
          as (λ o.
            find_first (is_owned user_id l.id) s.purchases.rows ≡ o
            → Passing (IsQuoted s user_id percent item) (
                if is_some o
                then fails ErrorCode.already_owned
                else passes (built_line percent item l none amount 0))) [
                  | none ↦ λ e. (live, own, shown, charge e, refl)
                  | some p ↦ λ e. tt
                ]
        refl

  priced-IsQuoted :
      (k : PricingType)
      → l.pricing_type ≡ k
      → Passing (IsQuoted s user_id percent item) (check_priced s user_id percent item l k)
  priced-IsQuoted PricingType.per_run kind = pack-IsQuoted item.run_pack_id refl kind
  priced-IsQuoted PricingType.one_time kind =
      unowned-IsQuoted (get_or l.one_time_price_toman 0) (λ e.
        subst (Charge s user_id item l (get_or l.one_time_price_toman 0) 0 none) (sym kind)
          (e, refl, refl, refl))
  priced-IsQuoted PricingType.free kind =
      unowned-IsQuoted 0
        (λ e. subst (Charge s user_id item l 0 0 none) (sym kind) (e, refl, refl, refl))

listing-IsQuoted :
    (s : Market) (user_id percent : ℕ) (item : CartItem) (o : Option Listing)
    → find_first (is_live item.listing_id) s.listings.rows ≡ o
    → Passing (IsQuoted s user_id percent item) (check_listing s user_id percent item o)
listing-IsQuoted s user_id percent item none live = tt
listing-IsQuoted s user_id percent item (some l) live =
    let (own, _) = live_there item.listing_id s.listings.rows l live in
    elim (is_published l.status)
        as (λ b.
          is_published l.status ≡ b
          → Passing (IsQuoted s user_id percent item) (
              if b
              then check_priced s user_id percent item l l.pricing_type
              else fails ErrorCode.listing_not_purchasable)) [
                | false ↦ λ e. tt
                | true ↦
                    λ e. priced-IsQuoted s user_id percent item l live own e l.pricing_type refl
              ]
      refl

line-IsQuoted :
    (s : Market) (user_id percent : ℕ) (item : CartItem)
    → Passing (IsQuoted s user_id percent item) (check_line s user_id percent item)
unfolding check_line
line-IsQuoted s user_id percent item =
    listing-IsQuoted s user_id percent item (find_first (is_live item.listing_id) s.listings.rows)
      refl

add_checked-Matched :
    (R : CartItem → BuiltLine → Type 0) (item : CartItem) (items : List CartItem) (c : Checked)
    (r : List BuiltLine × List CheckoutValidationFailure)
    → Passing (R item) c
    → (add_checked item c r).1 ≡ []
    → (r.1 ≡ [] → Matched R items r.0)
    → Matched R (item ∷ items) (add_checked item c r).0
add_checked-Matched R item items (passes line) r h clean rest = (h, rest clean)
add_checked-Matched R item items (fails _) r h clean rest = cc

-- If no line fails, each line of the cart has its built line.
pub check_lines-IsQuoted :
    (s : Market) (user_id percent : ℕ) (items : List CartItem)
    → (check_lines s user_id percent items).1 ≡ []
    → Matched (IsQuoted s user_id percent) items (check_lines s user_id percent items).0
unfolding check_lines
check_lines-IsQuoted s user_id percent [] clean = tt
check_lines-IsQuoted s user_id percent (item ∷ items) clean =
    add_checked-Matched (IsQuoted s user_id percent) item items (check_line s user_id percent item)
      (check_lines s user_id percent items) (line-IsQuoted s user_id percent item) clean
      (check_lines-IsQuoted s user_id percent items)
