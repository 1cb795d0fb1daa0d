-- ===== src/Agents/Tallies.antt =====
-- Sums over the rows of runs, purchases and events of a user and a listing, and what the writes of
-- apps/api/src/modules/agents/services/runs.service.ts and checkout.service.ts do to them.
use saziqo_platform.Prelude.{
  ℕ, suc, ◌+◌, ◌≤◌, ◌≡◌, refl, Bool, true, false, ◌&&◌, some, List, [], ◌∷◌, ◌==◌, arith,
  if◌then◌else◌, is_some, All,
}
use saziqo_platform.Table.{find_first, update_many}
use saziqo_platform.Agents.{Purchase, UserRuns, RunEvent, RunOutcome}
use saziqo_platform.Agents.Runs.{is_runs_of, has_runs, after_one_run}
use saziqo_platform.Agents.Checkout.{granted, update_first}

-- How many rows a user has for a listing.
abbrev pub rows_of : ℕ → ℕ → List UserRuns → ℕ
rows_of user_id i [] = 0
rows_of user_id i (r ∷ rs) =
    let rest = rows_of user_id i rs in if is_runs_of user_id i r then suc rest else rest

abbrev pub granted_to : ℕ → ℕ → List UserRuns → ℕ
granted_to user_id i [] = 0
granted_to user_id i (r ∷ rs) =
    let rest = granted_to user_id i rs in
    if is_runs_of user_id i r then r.total_granted + rest else rest

abbrev pub consumed_by : ℕ → ℕ → List UserRuns → ℕ
consumed_by user_id i [] = 0
consumed_by user_id i (r ∷ rs) =
    let rest = consumed_by user_id i rs in
    if is_runs_of user_id i r then r.total_consumed + rest else rest

abbrev pub bought_by : ℕ → ℕ → List Purchase → ℕ
bought_by user_id i [] = 0
bought_by user_id i (p ∷ ps) =
    let rest = bought_by user_id i ps in
    if user_id == p.user_id && i == p.listing_id then p.runs_granted + rest else rest

abbrev pub is_consumed : RunOutcome → Bool
is_consumed RunOutcome.consumed = true
is_consumed RunOutcome.refused_insufficient = false
is_consumed RunOutcome.refused_invalid_key = false

-- The CONSUMED events.
abbrev pub consumed_events : ℕ → ℕ → List RunEvent → ℕ
consumed_events user_id i [] = 0
consumed_events user_id i (e ∷ es) =
    let rest = consumed_events user_id i es in
    if user_id == e.user_id && i == e.listing_id && is_consumed e.outcome then suc rest else rest

-- The runs left and the runs consumed are the runs granted.
abbrev pub IsSettled : UserRuns → Type 0
IsSettled r = r.remaining_runs + r.total_consumed ≡ r.total_granted

abbrev pub if_same : ℕ → ℕ → ℕ → ℕ → ℕ → ℕ
if_same a b user_id i n = if a == user_id && b == i then n else 0

module _ (a b user_id i : ℕ) where
  pub rows_of-grant :
      (n : ℕ) (rs : List UserRuns)
      → rows_of a b (update_first (is_runs_of user_id i) (granted n) rs) ≡ rows_of a b rs
  rows_of-grant n [] = refl
  rows_of-grant n (r ∷ rs) = ground (arith, rows_of-grant n rs)

  pub granted_to-grant :
      (n : ℕ) (rs : List UserRuns)
      → is_some (find_first (is_runs_of user_id i) rs) ≡ true
      → granted_to a b (update_first (is_runs_of user_id i) (granted n) rs)
        ≡ granted_to a b rs + if_same a b user_id i n
  granted_to-grant n [] e = cc
  granted_to-grant n (r ∷ rs) e = ground (arith, granted_to-grant n rs)

  pub consumed_by-grant :
      (n : ℕ) (rs : List UserRuns)
      → consumed_by a b (update_first (is_runs_of user_id i) (granted n) rs) ≡ consumed_by a b rs
  consumed_by-grant n [] = refl
  consumed_by-grant n (r ∷ rs) = ground (arith, consumed_by-grant n rs)

  pub rows_of-run :
      (now : ℕ) (rs : List UserRuns)
      → rows_of a b (update_many (has_runs user_id i) (after_one_run now) rs) ≡ rows_of a b rs
  rows_of-run now [] = refl
  rows_of-run now (r ∷ rs) = ground (arith, rows_of-run now rs)

  pub granted_to-run :
      (now : ℕ) (rs : List UserRuns)
      → granted_to a b (update_many (has_runs user_id i) (after_one_run now) rs) ≡ granted_to a b rs
  granted_to-run now [] = refl
  granted_to-run now (r ∷ rs) = ground (arith, granted_to-run now rs)

  pub consumed_by-run_none :
      (now : ℕ) (rs : List UserRuns)
      → rows_of user_id i rs ≡ 0
      → consumed_by a b (update_many (has_runs user_id i) (after_one_run now) rs)
        ≡ consumed_by a b rs
  consumed_by-run_none now [] e = refl
  consumed_by-run_none now (r ∷ rs) e = ground (arith, consumed_by-run_none now rs)

pub none_of_rows :
    (user_id i : ℕ) (rs : List UserRuns)
    → is_some (find_first (is_runs_of user_id i) rs) ≡ false
    → rows_of user_id i rs ≡ 0
none_of_rows user_id i [] e = refl
none_of_rows user_id i (r ∷ rs) e = ground (arith, none_of_rows user_id i rs)

-- One run is counted where the user has one row for the listing, with a run left.
pub consumed_by-run :
    (a b user_id i now : ℕ) (rs : List UserRuns) (r : UserRuns)
    → rows_of user_id i rs ≤ 1
    → find_first (has_runs user_id i) rs ≡ some r
    → consumed_by a b (update_many (has_runs user_id i) (after_one_run now) rs)
      ≡ consumed_by a b rs + if_same a b user_id i 1
consumed_by-run a b user_id i now [] r one e = cc
consumed_by-run a b user_id i now (x ∷ rs) r one e =
    ground
      (arith, consumed_by-run a b user_id i now rs r, consumed_by-run_none a b user_id i now rs)

pub IsSettled-grant :
    (p : UserRuns → Bool) (n : ℕ) (rs : List UserRuns)
    → All IsSettled rs
    → All IsSettled (update_first p (granted n) rs)
IsSettled-grant p n [] h = tt
IsSettled-grant p n (r ∷ rs) h = ground (arith, IsSettled-grant p n rs h.1)

pub IsSettled-run :
    (user_id i now : ℕ) (rs : List UserRuns)
    → All IsSettled rs
    → All IsSettled (update_many (has_runs user_id i) (after_one_run now) rs)
IsSettled-run user_id i now [] h = tt
IsSettled-run user_id i now (r ∷ rs) h = ground (arith, IsSettled-run user_id i now rs h.1)

pub consumed_by_granted :
    (user_id i : ℕ) (rs : List UserRuns)
    → All IsSettled rs
    → consumed_by user_id i rs ≤ granted_to user_id i rs
consumed_by_granted user_id i [] h = omega arith
consumed_by_granted user_id i (r ∷ rs) h = ground (arith, consumed_by_granted user_id i rs h.1)
