-- ===== src/Agents/Carts.antt =====
-- The cart of apps/api/src/modules/agents/services/cart.service.ts: its calls leave the other tables alone.
use saziqo_platform.Prelude.{
  ℕ, ◌≡◌, refl, subst, Option, none, some, List, [], ◌∷◌, inl, inr, ◌==◌, arith, Option-cases,
  Bool-cases, any,
}
use saziqo_platform.Action.{Result, ok, err}
use saziqo_platform.Table.{find_first}
use saziqo_platform.Agents.{
  Market, Listing, CartItem, PricingType, is_live, is_owned, is_pack_of, is_published,
}
use saziqo_platform.Agents.Cart.{
  AddItemInput, MergeResult, is_line, required_pack, unless_owned, line_pack, check_item,
  violates_unique, create_line, find_or_create_line, add_item, remove_item, is_line_id, counted,
  merge_items,
}
use saziqo_platform.Agents.Steps.{Same, Step, Steps, single, joined, done}

required_pack_state : (i : ℕ) (o : Option ℕ) (s : Market) → (required_pack i o s).1 ≡ s
unfolding required_pack
required_pack_state i none s = refl
required_pack_state i (some p) s =
    elim (Option-cases (find_first (is_pack_of p i) s.run_packs.rows)) [
      | inl e ↦ ground (arith, e)
      | inr (x, e) ↦ ground (arith, e)
    ]

unless_owned_state : (user_id i : ℕ) (s : Market) → (unless_owned user_id i s).1 ≡ s
unfolding unless_owned
unless_owned_state user_id i s =
    elim (Option-cases (find_first (is_owned user_id i) s.purchases.rows)) [
      | inl e ↦ ground (arith, e)
      | inr (x, e) ↦ ground (arith, e)
    ]

line_pack_state :
    (user_id : ℕ) (l : Listing) (o : Option ℕ) (k : PricingType) (s : Market)
    → (line_pack user_id l o k s).1 ≡ s
line_pack_state user_id l o PricingType.free s = unless_owned_state user_id l.id s
line_pack_state user_id l o PricingType.one_time s = unless_owned_state user_id l.id s
line_pack_state user_id l o PricingType.per_run s = required_pack_state l.id o s

-- The checks write nothing.
pub check_item_state :
    (user_id : ℕ) (input : AddItemInput) (s : Market) → (check_item user_id input s).1 ≡ s
unfolding check_item
check_item_state user_id input s =
    elim (Option-cases (find_first (is_live input.listing_id) s.listings.rows)) [
      | inl e ↦ ground (arith, e)
      | inr (l, e) ↦ elim (Bool-cases (is_published l.status)) [
        | inr hidden ↦ ground (arith, e, hidden)
        | inl shown ↦ elim (Bool-cases (l.maker_user_id == user_id)) [
          | inl own ↦ ground (arith, e, shown, own)
          | inr other ↦
              ground (
                arith,
                e,
                shown,
                other,
                line_pack_state user_id l input.run_pack_id l.pricing_type s,
              )
        ]
      ]
    ]

find_or_create_line-Same :
    (user_id i : ℕ) (o : Option ℕ) (s : Market) → Same s (find_or_create_line user_id i o s).1
unfolding find_or_create_line create_line
find_or_create_line-Same user_id i o s =
    elim (Option-cases (find_first (is_line user_id i o) s.cart_items.rows)) [
      | inr (c, e) ↦ ground (arith, e)
      | inl e ↦ elim (Bool-cases (any (violates_unique user_id i o) s.cart_items.rows)) [
        | inl there ↦ ground (arith, e, there)
        | inr free ↦ ground (arith, e, free)
      ]
    ]

bind-Same :
    (user_id i : ℕ) (s : Market) (r : Result (Option ℕ) × Market)
    → r.1 ≡ s
    → Same s
        (elim r.0 as (λ _. Result CartItem × Market) [
          | ok o ↦ find_or_create_line user_id i o r.1
          | err e ↦ (err e, r.1)
        ]).1
bind-Same user_id i s (err e, t) h = rw h (refl, refl, refl, refl, refl, refl)
bind-Same user_id i s (ok o, t) h =
    subst (λ x. Same x (find_or_create_line user_id i o t).1) h
      (find_or_create_line-Same user_id i o t)

pub add_item-Same :
    (user_id : ℕ) (input : AddItemInput) (s : Market) → Same s (add_item user_id input s).1
unfolding add_item
add_item-Same user_id input s =
    bind-Same user_id input.listing_id s (check_item user_id input s)
      (check_item_state user_id input s)

pub remove_item-Same : (user_id i : ℕ) (s : Market) → Same s (remove_item user_id i s).1
unfolding remove_item
remove_item-Same user_id i s = elim (Bool-cases (any (is_line_id user_id i) s.cart_items.rows)) [
  | inl e ↦ ground (arith, e)
  | inr e ↦ ground (arith, e)
]

pub merge_items-Steps :
    (user_id : ℕ) (inputs : List AddItemInput) (m : MergeResult) (s : Market)
    → Steps s (merge_items user_id inputs m s).1
unfolding merge_items
merge_items-Steps user_id [] m s = done s
merge_items-Steps user_id (input ∷ inputs) m s =
    let r = add_item user_id input s in
    joined (single (Step.aside r.1 (add_item-Same user_id input s)))
      (merge_items-Steps user_id inputs (counted input r.0 m) r.1)
