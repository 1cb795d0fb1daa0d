-- ===== src/Agents/Sequences.antt =====
-- Any sequence of the calls of apps/api/src/modules/agents/services, each run to its end before the
-- next, and the steps that it takes. The two increments take none of these steps: what each of them
-- keeps is asked for apart. The cart adapter deletes lines as `removes` and `clears` do.
use saziqo_platform.Prelude.{
  ℕ, ◌≡◌, refl, sym, ◌∙◌, subst, Bool, true, false, Option, none, some, List, [], ◌∷◌, Text, arith,
  is_some, All,
}
use saziqo_platform.Table.{find_first, update_many}
use saziqo_platform.Table.Fresh.{IsFresh}
use saziqo_platform.Agents.{Market, RunPack, RunEvent, RunOutcome, listing_key, is_owned}
use saziqo_platform.Agents.Checkout.{
  BuiltLine, granted_pack, grant_runs, grant_pack, sell_line, with_purchase, count_user,
}
use saziqo_platform.Agents.Cart.{
  AddItemInput, add_item, remove_item, clear_for_user, merge_guest_cart,
}
use saziqo_platform.Agents.Checkout.Commit.{commits, checkout}
use saziqo_platform.Agents.Runs.{
  Config, ConsumeInput, consume, is_runs_of, has_runs, after_one_run, with_user_runs, new_event,
}
use saziqo_platform.Agents.Listings.{CreateListingInput, create, record_view, recompute_rating}
use saziqo_platform.Agents.Lifecycle.{
  submit_for_review, approve, reject, suspend, unsuspend, soft_delete,
}
use saziqo_platform.Agents.Increments.{
  increment_user_count, increment_run_count, Raised, increment_user_count-kept,
  increment_run_count-kept,
}
use saziqo_platform.Agents.Reviews.{
  PostReviewInput, UpdateReviewInput, review_key, post, update_review, delete_review,
}
use saziqo_platform.Agents.Steps.{event_if, Step, Steps, done, more, single}
use saziqo_platform.Agents.Moves.{
  approve-Steps, reject-Steps, suspend-Steps, unsuspend-Steps, submit-Steps, soft_delete-Steps,
}
use saziqo_platform.Agents.Writes.{create-Steps, view-Steps, recompute-Steps}
use saziqo_platform.Agents.Sales.{checkout-Steps}
use saziqo_platform.Agents.Usage.{consume-Steps}
use saziqo_platform.Agents.Carts.{add_item-Same, remove_item-Same, merge_items-Steps}
use saziqo_platform.Agents.Opinions.{post-Steps}
use saziqo_platform.Agents.Corrections.{update-Steps, delete-Steps}

pub data Call : Type 0 where
  adds : ℕ → AddItemInput → Call
  removes : ℕ → ℕ → Call
  clears : ℕ → Call
  merges : ℕ → List AddItemInput → Call
  checks_out : ℕ → Call
  consumes : Config → ConsumeInput → Call
  creates : (Text → Text) → ℕ → CreateListingInput → Call
  submits : List ℕ → ℕ → ℕ → Call
  approves : ℕ → ℕ → ℕ → Call
  rejects : ℕ → ℕ → Text → Call
  suspends : ℕ → ℕ → Text → Call
  unsuspends : ℕ → ℕ → Call
  deletes : ℕ → ℕ → ℕ → Call
  views : Text → ℕ → Call
  posts : PostReviewInput → Call
  corrects : UpdateReviewInput → Call
  withdraws : ℕ → ℕ → Call
  recomputes : ℕ → Call
  counts_user : ℕ → Call
  counts_run : ℕ → Call

-- The state after a call, whether it returned or threw.
unfoldable pub called : Call → Market → Market
called (adds user_id input) s = (add_item user_id input s).1
called (removes user_id i) s = (remove_item user_id i s).1
called (clears user_id) s = (clear_for_user user_id s).1
called (merges user_id inputs) s = (merge_guest_cart user_id inputs s).1
called (checks_out user_id) s = (checkout user_id commits commits (λ t. t) s).1
called (consumes c input) s = (consume c input s).1
called (creates lower maker dto) s = (create lower maker dto s).1
called (submits admins i maker) s = (submit_for_review admins i maker s).1
called (approves now i admin) s = (approve now i admin s).1
called (rejects i admin reason) s = (reject i admin reason s).1
called (suspends i admin reason) s = (suspend i admin reason s).1
called (unsuspends i admin) s = (unsuspend i admin s).1
called (deletes now i admin) s = (soft_delete now i admin s).1
called (views slug sample) s = (record_view slug sample s).1
called (posts input) s = (post input s).1
called (corrects input) s = (update_review input s).1
called (withdraws user_id i) s = (delete_review user_id i s).1
called (recomputes i) s = (recompute_rating i s).1
called (counts_user i) s = (increment_user_count i s).1
called (counts_run i) s = (increment_run_count i s).1

-- `incrementUserCount` and `incrementRunCount`, which take none of the steps.
abbrev pub is_increment : Call → Bool
is_increment (counts_user _) = true
is_increment (counts_run _) = true
is_increment _ = false

unfoldable pub called_all : List Call → Market → Market
called_all [] s = s
called_all (c ∷ cs) s = called_all cs (called c s)

clear-Steps : (user_id : ℕ) (s : Market) → Steps s (clear_for_user user_id s).1
unfolding clear_for_user
clear-Steps user_id s =
    single (Step.aside (clear_for_user user_id s).1 (refl, refl, refl, refl, refl, refl))

pub called-Steps :
    (c : Call) (s : Market) → is_increment c ≡ false → IsFresh s.reviews → Steps s (called c s)
unfolding called merge_guest_cart
called-Steps (adds user_id input) s e h =
    single (Step.aside (add_item user_id input s).1 (add_item-Same user_id input s))
called-Steps (removes user_id i) s e h =
    single (Step.aside (remove_item user_id i s).1 (remove_item-Same user_id i s))
called-Steps (clears user_id) s e h = clear-Steps user_id s
called-Steps (merges user_id inputs) s e h =
    merge_items-Steps user_id inputs (record { merged = 0; failed = [] }) s
called-Steps (checks_out user_id) s e h = checkout-Steps user_id commits (λ t. t) s
called-Steps (consumes c input) s e h = consume-Steps c input s
called-Steps (creates lower maker dto) s e h = create-Steps lower maker dto s
called-Steps (submits admins i maker) s e h = submit-Steps admins i maker s
called-Steps (approves now i admin) s e h = approve-Steps now i admin s
called-Steps (rejects i admin reason) s e h = reject-Steps i admin reason s
called-Steps (suspends i admin reason) s e h = suspend-Steps i admin reason s
called-Steps (unsuspends i admin) s e h = unsuspend-Steps i admin s
called-Steps (deletes now i admin) s e h = soft_delete-Steps now i admin s
called-Steps (views slug sample) s e h = view-Steps slug sample s
called-Steps (posts input) s e h = post-Steps input s h
called-Steps (corrects input) s e h = update-Steps input s h
called-Steps (withdraws user_id i) s e h = delete-Steps user_id i s
called-Steps (recomputes i) s e h = recompute-Steps i s
called-Steps (counts_user i) s e h = cc
called-Steps (counts_run i) s e h = cc

grant_pack_reviews :
    (user_id i : ℕ) (o : Option RunPack) (s : Market)
    → (grant_pack user_id i o s).reviews ≡ s.reviews
unfolding grant_runs
grant_pack_reviews user_id i none s = refl
grant_pack_reviews user_id i (some p) s =
    ground (arith, is_some (find_first (is_runs_of user_id i) s.user_runs.rows))

count_user_reviews : (b : Bool) (i : ℕ) (s : Market) → (count_user b i s).reviews ≡ s.reviews
count_user_reviews true i s = refl
count_user_reviews false i s = refl

sell_line_reviews :
    (user_id : ℕ) (line : BuiltLine) (s : Market) → (sell_line user_id line s).reviews ≡ s.reviews
unfolding sell_line
sell_line_reviews user_id line s =
    let i = line.listing.id in
    let t = with_purchase user_id line s in
    let pack = granted_pack line.listing.pricing_type line.pack in
    count_user_reviews (is_some (find_first (is_owned user_id i) s.purchases.rows)) i
      (grant_pack user_id i pack t)
    ∙ grant_pack_reviews user_id i pack t

event_if_reviews :
    (b : Bool) (mk : ℕ → RunEvent) (s : Market) → (event_if b mk s).reviews ≡ s.reviews
event_if_reviews true mk s = refl
event_if_reviews false mk s = refl

-- The keys of the reviews stay fresh.
Step-IsFresh : (s t : Market) → Step s t → IsFresh s.reviews → IsFresh t.reviews
Step-IsFresh s t (Step.aside _ same) h = subst IsFresh same.5 h
Step-IsFresh s t (Step.moves _ l f found edge keeps same) h = subst IsFresh same.5 h
Step-IsFresh s t (Step.edits _ i f keeps same) h = subst IsFresh same.5 h
Step-IsFresh s t (Step.views _ slug same) h = subst IsFresh same.5 h
Step-IsFresh s t (Step.creates _ lower maker dto shape new room same) h = subst IsFresh same.5 h
Step-IsFresh s t (Step.sells _ user_id line sellable same) h =
    subst IsFresh (sym (sell_line_reviews user_id line s) ∙ same.5) h
Step-IsFresh s t (Step.refuses _ mk refusal same) h = subst IsFresh same.5 h
Step-IsFresh s t (Step.consumes _ written input i now r there found same) h =
    subst IsFresh
      (sym (
          event_if_reviews written (new_event input i RunOutcome.consumed)
            (with_user_runs (update_many (has_runs input.user_id i) (after_one_run now)) s))
        ∙ same.5)
      h
Step-IsFresh s t (Step.rates _ i rs there fresh others same) h = subst IsFresh same.5 (fresh h)
Step-IsFresh s t (Step.rewords _ rs fresh others same) h = subst IsFresh same.5 (fresh h)

-- What every step keeps is kept along any steps, and so by any calls.
pub Steps-kept :
    (P : Market → Type 0)
    → ((s t : Market) → Step s t → P s → P t)
    → {s t : Market} → Steps s t
    → P s
    → P t
Steps-kept P keep (done s) h = h
Steps-kept P keep (more s t u st rest) h = Steps-kept P keep rest (keep s t st h)

module _ (P : Market → Type 0) (keep : (s t : Market) → Step s t → P s → P t) where
  abbrev WithFresh : Market → Type 0
  WithFresh s = IsFresh s.reviews × P s

  Step-WithFresh : (s t : Market) → Step s t → WithFresh s → WithFresh t
  Step-WithFresh s t st (fresh, h) = (Step-IsFresh s t st fresh, keep s t st h)

  called-WithFresh :
      (c : Call) (s : Market) → is_increment c ≡ false → WithFresh s → WithFresh (called c s)
  called-WithFresh c s e h = Steps-kept WithFresh Step-WithFresh (called-Steps c s e h.0) h

  -- Without the two increments.
  pub stepped_all-kept :
      (calls : List Call) (s : Market)
      → All (λ c. is_increment c ≡ false) calls
      → WithFresh s
      → P (called_all calls s)
  unfolding called_all
  stepped_all-kept [] s steps h = h.1
  stepped_all-kept (c ∷ cs) s (e, steps) h =
      stepped_all-kept cs (called c s) steps (called-WithFresh c s e h)

  module _ (raised : Raised P) where
    Raised-WithFresh : Raised WithFresh
    Raised-WithFresh s i (fresh, h) = ((fresh, (raised s i h).0), (fresh, (raised s i h).1))

    call-WithFresh : (c : Call) (s : Market) → WithFresh s → WithFresh (called c s)
    unfolding called
    call-WithFresh (counts_user i) s h = increment_user_count-kept WithFresh i s Raised-WithFresh h
    call-WithFresh (counts_run i) s h = increment_run_count-kept WithFresh i s Raised-WithFresh h
    call-WithFresh c s h = called-WithFresh c s refl h

    all-kept : (calls : List Call) (s : Market) → WithFresh s → P (called_all calls s)
    unfolding called_all
    all-kept [] s h = h.1
    all-kept (c ∷ cs) s h = all-kept cs (called c s) (call-WithFresh c s h)

    pub called_all-kept :
        (calls : List Call) (s : Market) → IsFresh s.reviews → P s → P (called_all calls s)
    called_all-kept calls s fresh h = all-kept calls s (fresh, h)
