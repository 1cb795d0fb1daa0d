-- ===== src/Agents/Books.antt =====
-- The books of runs that checkout.service.ts and runs.service.ts of apps/api/src/modules/agents/services
-- keep together, and what a sale does to them.
use saziqo_platform.Prelude.{
  ℕ, ◌+◌, ◌≤◌, ◌≡◌, refl, sym, ap, ◌∙◌, subst, Bool, true, false, Option, none, some, arith,
  is_some, All, inl, inr, Bool-cases,
}
use saziqo_platform.Table.{find_first}
use saziqo_platform.Agents.{Market, RunPack, listing_key, is_owned}
use saziqo_platform.Agents.Reviews.{review_key}
use saziqo_platform.Agents.Runs.{is_runs_of}
use saziqo_platform.Agents.Checkout.{
  BuiltLine, granted_pack, grant_pack, grant_runs, sell_line, with_purchase, count_user,
}
use saziqo_platform.Agents.Steps.{Same, IsSellable, runs_of}
use saziqo_platform.Agents.Tallies.{
  rows_of, granted_to, consumed_by, bought_by, consumed_events, IsSettled, if_same, rows_of-grant,
  granted_to-grant, consumed_by-grant, none_of_rows, IsSettled-grant,
}

-- For each user and listing there is at most one row of runs; each row's runs left and used are those
-- granted; the runs granted are those of the purchases; and no more CONSUMED events are on record than
-- runs were used.
pub record IsBalanced (s : Market) : Type 0 where
  pub one_row : (a b : ℕ) → rows_of a b s.user_runs.rows ≤ 1
  pub settled : All IsSettled s.user_runs.rows
  pub bought : (a b : ℕ) → granted_to a b s.user_runs.rows ≡ bought_by a b s.purchases.rows
  pub events : (a b : ℕ) → consumed_events a b s.run_events.rows ≤ consumed_by a b s.user_runs.rows

-- The three tables that the invariant is about.
abbrev pub SameBooks : Market → Market → Type 0
SameBooks s t =
    (s.purchases ≡ t.purchases) × (s.user_runs ≡ t.user_runs) × (s.run_events ≡ t.run_events)

pub same_books-IsBalanced : (s t : Market) → SameBooks s t → IsBalanced s → IsBalanced t
same_books-IsBalanced s t (p, q, r) h = record {
  one_row = λ a b. subst (λ x. rows_of a b x.rows ≤ 1) q (h.one_row a b);
  settled = subst (λ x. All IsSettled x.rows) q h.settled;
  bought = λ a b.
      ap (λ x. granted_to a b x.rows) (sym q) ∙ h.bought a b ∙ ap (λ x. bought_by a b x.rows) p;
  events = λ a b. rw (sym q, sym r) (h.events a b);
}

abbrev pub books_of : (s t : Market) → Same s t → SameBooks s t
books_of s t same = (same.2, same.3, same.4)

abbrev IsBought : Market → ℕ → ℕ → ℕ → Market → Type 0
IsBought s user_id i n t =
    ((a b : ℕ) → rows_of a b t.user_runs.rows ≤ 1)
    × All IsSettled t.user_runs.rows
    × ((a b : ℕ)
        → granted_to a b t.user_runs.rows
          ≡ granted_to a b s.user_runs.rows + if_same a b user_id i n)
    × ((a b : ℕ) → consumed_by a b t.user_runs.rows ≡ consumed_by a b s.user_runs.rows)
    × (t.purchases ≡ s.purchases)
    × (t.run_events ≡ s.run_events)

grant_runs-IsBought :
    (user_id i n : ℕ) (s : Market)
    → ((a b : ℕ) → rows_of a b s.user_runs.rows ≤ 1)
    → All IsSettled s.user_runs.rows
    → IsBought s user_id i n (grant_runs user_id i n s)
unfolding grant_runs
grant_runs-IsBought user_id i n s one settled =
    elim (Bool-cases (is_some (find_first (is_runs_of user_id i) s.user_runs.rows))) [
      | inl there ↦ rw there (
        λ a b. ground (arith, rows_of-grant a b user_id i n s.user_runs.rows, one a b),
        IsSettled-grant (is_runs_of user_id i) n s.user_runs.rows settled,
        λ a b. granted_to-grant a b user_id i n s.user_runs.rows there,
        λ a b. consumed_by-grant a b user_id i n s.user_runs.rows,
        refl,
        refl,
      )
      | inr free ↦ rw free (
        λ a b. ground (arith, none_of_rows user_id i s.user_runs.rows free, one a b),
        (omega arith, settled),
        λ a b. ground arith,
        λ a b. ground arith,
        refl,
        refl,
      )
    ]

grant_pack-IsBought :
    (user_id i : ℕ) (o : Option RunPack) (s : Market)
    → ((a b : ℕ) → rows_of a b s.user_runs.rows ≤ 1)
    → All IsSettled s.user_runs.rows
    → IsBought s user_id i (runs_of o) (grant_pack user_id i o s)
grant_pack-IsBought user_id i none s one settled =
    (one, settled, λ a b. ground arith, λ a b. refl, refl, refl)
grant_pack-IsBought user_id i (some p) s one settled =
    grant_runs-IsBought user_id i p.runs s one settled

count_user-SameBooks : (b : Bool) (i : ℕ) (s : Market) → SameBooks s (count_user b i s)
count_user-SameBooks true i s = (refl, refl, refl)
count_user-SameBooks false i s = (refl, refl, refl)

granted-IsBalanced :
    (user_id : ℕ) (line : BuiltLine) (s t : Market)
    → IsBalanced s
    → IsBought (with_purchase user_id line s) user_id line.listing.id line.runs_granted t
    → IsBalanced t
granted-IsBalanced user_id line s t h (one, settled, grants, uses, same, log) = record {
  one_row = one;
  settled = settled;
  bought = λ a b. ground (arith, grants a b, h.bought a b, ap (λ x. bought_by a b x.rows) same);
  events = λ a b. ground (arith, uses a b, h.events a b, ap (λ x. consumed_events a b x.rows) log);
}

pub sell_line-IsBalanced :
    (user_id : ℕ) (line : BuiltLine) (s : Market)
    → IsSellable s line
    → IsBalanced s
    → IsBalanced (sell_line user_id line s)
unfolding sell_line
sell_line-IsBalanced user_id line s sellable h =
    let i = line.listing.id in
    let t = with_purchase user_id line s in
    let pack = granted_pack line.listing.pricing_type line.pack in
    let known = is_some (find_first (is_owned user_id i) s.purchases.rows) in
    same_books-IsBalanced (grant_pack user_id i pack t) (sell_line user_id line s)
      (count_user-SameBooks known i (grant_pack user_id i pack t))
      (granted-IsBalanced user_id line s (grant_pack user_id i pack t) h (
        subst (λ n. IsBought t user_id i n (grant_pack user_id i pack t)) sellable.1
          (grant_pack-IsBought user_id i pack t h.one_row h.settled)))
