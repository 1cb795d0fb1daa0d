-- ===== src/Agents/Checkout/Outcome.antt =====
-- What `checkout` of apps/api/src/modules/agents/services/checkout.service.ts returns and writes.
use saziqo_platform.Prelude.{
  ℕ, suc, ◌+◌, ◌*◌, ◌/◌, ◌≡◌, refl, sym, ap, ◌∙◌, Bool, true, false, Option, none, some, List, [],
  ◌∷◌, ◌++◌, arith, is_some, All, reverse, reverse-cons, pos, ◌+ℤ◌,
}
use saziqo_platform.Table.{Table, find_first, insert}
use saziqo_platform.Agents.{
  Market, Listing, RunPack, CartItem, Purchase, PurchaseStatus, is_live, is_owned, is_published,
}
use saziqo_platform.Agents.Runs.{is_runs_of}
use saziqo_platform.Agents.Checkout.{
  BuiltLine, Sold, new_purchase, sell_line, grant_runs, grant_pack, granted_pack, count_user,
  with_purchase,
}
use saziqo_platform.Agents.Checkout.Commit.{add_sold, sell_lines}
use saziqo_platform.Agents.Checkout.Quoted.{Charge, IsQuoted, Matched}
use saziqo_platform.Agents.Steps.{IsSellable}

-- The purchases of these lines, newest first, the first line's with this id.
abbrev pub bought : ℕ → List BuiltLine → ℕ → List Purchase
bought user_id [] n = []
bought user_id (line ∷ rest) n = bought user_id rest (suc n) ++ (new_purchase user_id line n ∷ [])

abbrev pub amounts : List BuiltLine → ℕ
amounts [] = 0
amounts (line ∷ rest) = line.amount_toman + amounts rest

abbrev pub paid : List Purchase → ℕ
paid [] = 0
paid (p ∷ ps) = p.amount_toman + paid ps

append_one :
    (xs : List Purchase) (x : Purchase) (ys : List Purchase)
    → (xs ++ (x ∷ [])) ++ ys ≡ xs ++ (x ∷ ys)
append_one [] x ys = refl
append_one (y ∷ xs) x ys = ap (◌∷◌ y) (append_one xs x ys)

-- The same purchases, oldest first.
abbrev pub in_order : ℕ → List BuiltLine → ℕ → List Purchase
in_order user_id [] n = []
in_order user_id (line ∷ rest) n = new_purchase user_id line n ∷ in_order user_id rest (suc n)

pub bought-reverse :
    (user_id : ℕ) (built : List BuiltLine) (n : ℕ)
    → bought user_id built n ≡ reverse (in_order user_id built n)
bought-reverse user_id [] n = refl
bought-reverse user_id (line ∷ rest) n =
    ap (λ ps. ps ++ (new_purchase user_id line n ∷ [])) (bought-reverse user_id rest (suc n))
    ∙ sym (reverse-cons (new_purchase user_id line n) (in_order user_id rest (suc n)))

pub paid-in_order :
    (user_id : ℕ) (built : List BuiltLine) (n : ℕ) → paid (in_order user_id built n) ≡ amounts built
paid-in_order user_id [] n = refl
paid-in_order user_id (line ∷ rest) n = omega (arith, paid-in_order user_id rest (suc n))

-- The buyer's completed purchase of the listing of a line of the cart, which was published, at its
-- charge and pricing type, with the commission at the rate of the settings; the commission and the
-- maker's part are the amount.
abbrev pub IsCharged : Market → ℕ → ℕ → CartItem → Purchase → Type 0
IsCharged s user_id percent item p =
    (p.user_id ≡ user_id)
    × (p.listing_id ≡ item.listing_id)
    × (p.status ≡ PurchaseStatus.completed)
    × (pos p.commission_toman +ℤ p.maker_earned_toman ≡ pos p.amount_toman)
    × (p.commission_toman ≡ p.amount_toman * percent / 100)
    × ((l : Listing) × (find_first (is_live item.listing_id) s.listings.rows ≡ some l)
        × (is_published l.status ≡ true)
        × (p.pricing_type_at_sale ≡ l.pricing_type)
        × Charge s user_id item l p.amount_toman p.runs_granted p.run_pack_id l.pricing_type)

pub in_order-IsCharged :
    (s : Market) (user_id percent : ℕ) (items : List CartItem) (built : List BuiltLine) (n : ℕ)
    → All (IsSellable s) built
    → Matched (IsQuoted s user_id percent) items built
    → Matched (IsCharged s user_id percent) items (in_order user_id built n)
in_order-IsCharged s user_id percent [] [] n h q = tt
in_order-IsCharged s user_id percent [] (line ∷ rest) n h q = absurd q
in_order-IsCharged s user_id percent (item ∷ items) [] n h q = absurd q
in_order-IsCharged s user_id percent (item ∷ items) (line ∷ rest) n h (quote_, quotes) =
    let (live, own, shown, charge, rate) = quote_ in
    (
      (refl, own, refl, h.0.2, rate, (line.listing, live, shown, refl, charge)),
      in_order-IsCharged s user_id percent items rest (suc n) h.1 quotes,
    )

-- What a sale leaves of the carts and makes of the purchases.
abbrev Sells : ℕ → BuiltLine → Market → Market → Type 0
Sells user_id line s t =
    (t.purchases ≡ insert (new_purchase user_id line) s.purchases) × (t.cart_items ≡ s.cart_items)

grant_pack-Sells :
    (user_id i : ℕ) (o : Option RunPack) (s : Market)
    → ((grant_pack user_id i o s).purchases ≡ s.purchases)
      × ((grant_pack user_id i o s).cart_items ≡ s.cart_items)
unfolding grant_runs
grant_pack-Sells user_id i none s = (refl, refl)
grant_pack-Sells user_id i (some p) s =
    ground (arith, is_some (find_first (is_runs_of user_id i) s.user_runs.rows))

count_user-Sells :
    (b : Bool) (i : ℕ) (s : Market)
    → ((count_user b i s).purchases ≡ s.purchases) × ((count_user b i s).cart_items ≡ s.cart_items)
count_user-Sells true i s = (refl, refl)
count_user-Sells false i s = (refl, refl)

sell_line-Sells :
    (user_id : ℕ) (line : BuiltLine) (s : Market) → Sells user_id line s (sell_line user_id line s)
unfolding sell_line
sell_line-Sells user_id line s =
    let i = line.listing.id in
    let t = with_purchase user_id line s in
    let pack = granted_pack line.listing.pricing_type line.pack in
    let p = grant_pack-Sells user_id i pack t in
    let q =
      count_user-Sells (is_some (find_first (is_owned user_id i) s.purchases.rows)) i
        (grant_pack user_id i pack t) in
    (q.0 ∙ p.0, q.1 ∙ p.1)

pub sell_lines_lem :
    (user_id : ℕ) (built : List BuiltLine) (a : Sold) (s : Market)
    → let r = sell_lines user_id built a s in
      (r.1.purchases.rows ≡ bought user_id built s.purchases.next ++ s.purchases.rows)
      × (r.1.cart_items ≡ s.cart_items)
      × (r.0.total_amount_toman ≡ a.total_amount_toman + amounts built)
unfolding sell_lines
sell_lines_lem user_id [] a s = (refl, refl, omega arith)
sell_lines_lem user_id (line ∷ rest) a s =
    let t = sell_line user_id line s in
    let (e, c) = sell_line-Sells user_id line s in
    let n = s.purchases.next in
    let (p, q, r) = sell_lines_lem user_id rest (add_sold line n a) t in
    (
      p
          ∙ ap (λ (x : Table Purchase). bought user_id rest x.next ++ x.rows) e
          ∙ sym (
              append_one (bought user_id rest (suc n)) (new_purchase user_id line n)
                s.purchases.rows),
      q ∙ c,
      omega (arith, r),
    )
