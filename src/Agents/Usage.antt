-- ===== src/Agents/Usage.antt =====
-- The use of runs in apps/api/src/modules/agents/services/runs.service.ts, as steps.
use saziqo_platform.Prelude.{
  ℕ, ◌≡◌, ◌≢◌, refl, sym, ap, ◌∙◌, subst, Bool, true, false, Option, none, some, List, [], ◌∷◌,
  Text, text_eq, inl, inr, arith, Option-cases, Bool-cases, is_some, if◌then◌else◌,
}
use saziqo_platform.Table.{find_unique, find_first, update_many}
use saziqo_platform.Agents.{Market, Listing, Purchase, RunOutcome, UserRuns, listing_key}
use saziqo_platform.Agents.Runs.{
  Config, ConsumeInput, has_slug, consumable_key, has_runs, after_one_run, with_user_runs,
  new_event, record_event, take_one_run, claim_low_runs, warn_low, is_pack_purchase,
  dispatch_threshold_notifications, consume_taken, consume_with_key, consume,
}
use saziqo_platform.Agents.Steps.{
  Same, is_there, event_if, with_events, one_run, Step, Steps, single, joined, stays,
}
use saziqo_platform.Agents.Sales.{Same-refl}

pub found_there :
    (p : Listing → Bool) (rows : List Listing) (l : Listing)
    → find_first p rows ≡ some l
    → is_some (find_unique l.id rows) ≡ true
found_there p [] l e = cc
found_there p (x ∷ rows) l e = ground (arith, found_there p rows l)

claim_low_runs-Same :
    (now user_id listing_id : ℕ) (title : Text) (remaining : ℕ) (s : Market)
    → Same s (claim_low_runs now user_id listing_id title remaining s)
unfolding claim_low_runs
claim_low_runs-Same now user_id listing_id title remaining s = ground arith

warn_low-Same :
    (now user_id listing_id : ℕ) (title : Text) (remaining : ℕ) (o : Option Purchase) (s : Market)
    → Same s (warn_low now user_id listing_id title remaining o s)
warn_low-Same now user_id listing_id title remaining none s = Same-refl s
warn_low-Same now user_id listing_id title remaining (some p) s =
    ground (arith, claim_low_runs-Same now user_id listing_id title remaining s)

pub dispatch-Same :
    (now user_id listing_id : ℕ) (title : Text) (remaining : ℕ) (s : Market)
    → Same s (dispatch_threshold_notifications now user_id listing_id title remaining s).1
unfolding dispatch_threshold_notifications
dispatch-Same now user_id listing_id title remaining s = ground (
  arith,
  warn_low-Same now user_id listing_id title remaining
      (find_first (is_pack_purchase user_id listing_id) s.purchases.rows) s,
)

pub record_event_state :
    (c : Config) (input : ConsumeInput) (i : ℕ) (outcome : RunOutcome) (s : Market)
    → (record_event c input i outcome s).1 ≡ event_if c.event_written (new_event input i outcome) s
unfolding record_event
record_event_state c input i outcome s =
    elim c.event_written
      as (λ b.
        (if b then with_events (new_event input i outcome) s else s)
        ≡ event_if b (new_event input i outcome) s) [ true ↦ refl | false ↦ refl ]

event_if-Steps :
    (b : Bool) (c : Config) (input : ConsumeInput) (i : ℕ) (outcome : RunOutcome) (s : Market)
    → outcome ≢ RunOutcome.consumed
    → Steps s (event_if b (new_event input i outcome) s)
event_if-Steps false c input i outcome s h = stays s s refl
event_if-Steps true c input i outcome s h =
    let t = with_events (new_event input i outcome) s in
    single (Step.refuses t (new_event input i outcome) (λ _. h) (Same-refl t))

refused-Steps :
    (c : Config) (input : ConsumeInput) (i : ℕ) (outcome : RunOutcome) (s t : Market)
    → outcome ≢ RunOutcome.consumed
    → t ≡ (record_event c input i outcome s).1
    → Steps s t
refused-Steps c input i outcome s t h e =
    subst (Steps s) (sym (e ∙ record_event_state c input i outcome s))
      (event_if-Steps c.event_written c input i outcome s h)

-- The state behind the decrement and what is counted.
abbrev pub counted : Config → ConsumeInput → Listing → Market → Market
counted c input l s = one_run c.event_written input l.id c.now s

pub consumed_state :
    (c : Config) (input : ConsumeInput) (l : Listing) (hash : Text) (r : UserRuns) (s : Market)
    → text_eq (c.sha256 input.api_key_plaintext) hash ≡ true
    → find_first (has_runs input.user_id l.id) s.user_runs.rows ≡ some r
    → (consume_with_key c input l hash s).1
      ≡ (dispatch_threshold_notifications c.now input.user_id l.id l.title_fa
          (after_one_run c.now r).remaining_runs
          (counted c input l s)).1
unfolding consume_with_key take_one_run consume_taken record_event dispatch_threshold_notifications
consumed_state c input l hash r s key found = ground (arith, key, found)

update_many-none :
    (p : UserRuns → Bool) (f : UserRuns → UserRuns) (rows : List UserRuns)
    → find_first p rows ≡ none
    → update_many p f rows ≡ rows
update_many-none p f [] e = refl
update_many-none p f (r ∷ rows) e = ground (arith, update_many-none p f rows)

pub nothing_taken :
    (now user_id i : ℕ) (s : Market)
    → find_first (has_runs user_id i) s.user_runs.rows ≡ none
    → with_user_runs (update_many (has_runs user_id i) (after_one_run now)) s ≡ s
nothing_taken now user_id i s e =
    ap (λ rows. with_user_runs (λ _. rows) s)
      (update_many-none (has_runs user_id i) (after_one_run now) s.user_runs.rows e)

pub insufficient_state :
    (c : Config) (input : ConsumeInput) (l : Listing) (hash : Text) (s : Market)
    → text_eq (c.sha256 input.api_key_plaintext) hash ≡ true
    → find_first (has_runs input.user_id l.id) s.user_runs.rows ≡ none
    → (consume_with_key c input l hash s).1
      ≡ (record_event c input l.id RunOutcome.refused_insufficient
          (with_user_runs (update_many (has_runs input.user_id l.id) (after_one_run c.now)) s)).1
unfolding consume_with_key take_one_run consume_taken record_event
insufficient_state c input l hash s key gone = ground (arith, key, gone)

key-Steps :
    (c : Config) (input : ConsumeInput) (l : Listing) (hash : Text) (s : Market)
    → is_there l.id s ≡ true
    → Steps s (consume_with_key c input l hash s).1
unfolding consume_with_key take_one_run consume_taken
key-Steps c input l hash s there =
    elim (Bool-cases (text_eq (c.sha256 input.api_key_plaintext) hash)) [
      | inr wrong ↦
          refused-Steps c input l.id RunOutcome.refused_invalid_key s
            (consume_with_key c input l hash s).1 (λ e. cc)
            (unfold record_event in ground (arith, wrong))
      | inl key ↦ elim (Option-cases (find_first (has_runs input.user_id l.id) s.user_runs.rows)) [
        | inr (r, found) ↦
            let t = counted c input l s in
            joined
              (single
                (Step.consumes t c.event_written input l.id c.now r there found (Same-refl t)))
              (single (
                Step.aside (consume_with_key c input l hash s).1 (
                  subst (Same t) (sym (consumed_state c input l hash r s key found)) (
                    dispatch-Same c.now input.user_id l.id l.title_fa
                      (after_one_run c.now r).remaining_runs t))))
        | inl gone ↦
            refused-Steps c input l.id RunOutcome.refused_insufficient s
              (consume_with_key c input l hash s).1 (λ e. cc)
              (insufficient_state c input l hash s key gone
                ∙ ap (λ t. (record_event c input l.id RunOutcome.refused_insufficient t).1)
                    (nothing_taken c.now input.user_id l.id s gone))
      ]
    ]

pub consume-Steps : (c : Config) (input : ConsumeInput) (s : Market) → Steps s (consume c input s).1
unfolding consume
consume-Steps c input s =
    elim (Option-cases (find_first (has_slug input.listing_slug) s.listings.rows)) [
      | inl e ↦ stays s (consume c input s).1 (ground (arith, e))
      | inr (l, e) ↦ elim (Option-cases (consumable_key l)) [
        | inl shut ↦ stays s (consume c input s).1 (ground (arith, e, shut))
        | inr (hash, open_) ↦ elim (Bool-cases (c.user_exists input.user_id)) [
          | inr nobody ↦ stays s (consume c input s).1 (ground (arith, e, open_, nobody))
          | inl known ↦
              let same : (consume c input s).1 ≡ (consume_with_key c input l hash s).1 =
                ground (arith, e, open_, known) in
              subst (Steps s) (sym same) (
                key-Steps c input l hash s
                  (found_there (has_slug input.listing_slug) s.listings.rows l e))
        ]
      ]
    ]
