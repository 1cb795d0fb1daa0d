-- ===== src/Agents/Consumed.antt =====
-- Every outcome of `consume` of apps/api/src/modules/agents/services/runs.service.ts.
use saziqo_platform.Prelude.{
  ℕ, suc, ◌-◌, ◌≡◌, ◌≢◌, refl, sym, ap, ◌∙◌, subst, Bool, true, false, Option, none, some, List,
  Text, text_eq, text_eq_iff, ◌⊎◌, inl, inr, arith, Option-cases, Bool-cases,
}
use saziqo_platform.Action.{Result, ok, err}
use saziqo_platform.Table.{find_first, update_many}
use saziqo_platform.Agents.{Market, Listing, UserRuns, RunOutcome, is_published, is_per_run}
use saziqo_platform.Agents.Runs.{
  Config, ConsumeInput, ConsumeResult, has_slug, consumable_key, has_runs, after_one_run,
  with_user_runs, new_event, record_event, take_one_run, invalid_api_key, insufficient_runs,
  dispatch_threshold_notifications, consume_taken, consume_with_key, consume,
}
use saziqo_platform.Agents.Steps.{event_if}
use saziqo_platform.Agents.Usage.{
  nothing_taken, insufficient_state, consumed_state, counted, dispatch-Same,
}

-- The listing of the slug is published and sold by the run, the key is its key, and the user exists.
abbrev pub Authorised : Config → ConsumeInput → Market → Listing → Type 0
Authorised c input s l =
    (find_first (has_slug input.listing_slug) s.listings.rows ≡ some l)
    × (is_published l.status ≡ true)
    × (is_per_run l.pricing_type ≡ true)
    × (l.api_key_hash ≡ some (c.sha256 input.api_key_plaintext))
    × (c.user_exists input.user_id ≡ true)

abbrev pub rows_after : Config → ConsumeInput → Listing → Market → List UserRuns
rows_after c input l s =
    update_many (has_runs input.user_id l.id) (after_one_run c.now) s.user_runs.rows

abbrev pub Consumption : Config → ConsumeInput → Market → Result ConsumeResult × Market → Type 0
Consumption c input s r =
    (((l : Listing) → ¬ Authorised c input s l)
      × (r.0 ≡ err invalid_api_key)
      × (r.1.user_runs ≡ s.user_runs))
    ⊎ ((l : Listing) × Authorised c input s l
        × (((find_first (has_runs input.user_id l.id) s.user_runs.rows ≡ none)
              × (r.0 ≡ err insufficient_runs)
              × (r.1.user_runs ≡ s.user_runs))
            ⊎ ((x : UserRuns) × (find_first (has_runs input.user_id l.id) s.user_runs.rows ≡ some x)
                × (r.0
                    ≡ ok (record {
                      remaining_runs = x.remaining_runs - 1;
                      total_consumed = suc x.total_consumed;
                    }))
                × (r.1.user_runs.rows ≡ rows_after c input l s))))

key_of :
    (l : Listing) (hash : Text)
    → consumable_key l ≡ some hash
    → (is_published l.status ≡ true)
      × (is_per_run l.pricing_type ≡ true)
      × (l.api_key_hash ≡ some hash)
key_of l hash e = ground (arith, e)

no_key :
    (l : Listing) (hash : Text)
    → consumable_key l ≡ none
    → is_published l.status ≡ true
    → is_per_run l.pricing_type ≡ true
    → l.api_key_hash ≢ some hash
no_key l hash e shown kind key = ground (arith, e, shown, kind, key)

refused_runs :
    (c : Config) (input : ConsumeInput) (i : ℕ) (outcome : RunOutcome) (s : Market)
    → (record_event c input i outcome s).1.user_runs ≡ s.user_runs
unfolding record_event
refused_runs c input i outcome s = ground arith

insufficient_runs_same :
    (c : Config) (input : ConsumeInput) (l : Listing) (hash : Text) (s : Market)
    → text_eq (c.sha256 input.api_key_plaintext) hash ≡ true
    → find_first (has_runs input.user_id l.id) s.user_runs.rows ≡ none
    → (consume_with_key c input l hash s).1.user_runs ≡ s.user_runs
insufficient_runs_same c input l hash s key gone =
    ap (λ t. t.user_runs) (insufficient_state c input l hash s key gone)
    ∙ refused_runs c input l.id RunOutcome.refused_insufficient
        (with_user_runs (update_many (has_runs input.user_id l.id) (after_one_run c.now)) s)
    ∙ ap (λ t. t.user_runs) (nothing_taken c.now input.user_id l.id s gone)

event_if_runs :
    (b : Bool) (input : ConsumeInput) (i : ℕ) (s : Market)
    → (event_if b (new_event input i RunOutcome.consumed) s).user_runs ≡ s.user_runs
event_if_runs true input i s = refl
event_if_runs false input i s = refl

consumed_rows :
    (c : Config) (input : ConsumeInput) (l : Listing) (hash : Text) (x : UserRuns) (s : Market)
    → text_eq (c.sha256 input.api_key_plaintext) hash ≡ true
    → find_first (has_runs input.user_id l.id) s.user_runs.rows ≡ some x
    → (consume_with_key c input l hash s).1.user_runs.rows ≡ rows_after c input l s
consumed_rows c input l hash x s key found =
    let t = counted c input l s in
    let u = with_user_runs (update_many (has_runs input.user_id l.id) (after_one_run c.now)) s in
    ap (λ t. t.user_runs.rows) (consumed_state c input l hash x s key found)
    ∙ ap (λ r. r.rows)
        (sym
          (dispatch-Same c.now input.user_id l.id l.title_fa (after_one_run c.now x).remaining_runs
            t).3)
    ∙ ap (λ r. r.rows) (event_if_runs c.event_written input l.id u)

-- What is returned and left of the runs behind the look-ups.
with_key_outcome :
    (c : Config) (input : ConsumeInput) (l : Listing) (hash : Text) (s : Market)
    → let r = consume_with_key c input l hash s in
      ((text_eq (c.sha256 input.api_key_plaintext) hash ≡ false)
        × (r.0 ≡ err invalid_api_key)
        × (r.1.user_runs ≡ s.user_runs))
      ⊎ ((text_eq (c.sha256 input.api_key_plaintext) hash ≡ true)
          × (((find_first (has_runs input.user_id l.id) s.user_runs.rows ≡ none)
                × (r.0 ≡ err insufficient_runs)
                × (r.1.user_runs ≡ s.user_runs))
              ⊎ ((x : UserRuns) × (find_first (has_runs input.user_id l.id) s.user_runs.rows
                    ≡ some x)
                  × (r.0
                      ≡ ok (record {
                        remaining_runs = x.remaining_runs - 1;
                        total_consumed = suc x.total_consumed;
                      }))
                  × (r.1.user_runs.rows ≡ rows_after c input l s))))
unfolding consume_with_key take_one_run consume_taken record_event dispatch_threshold_notifications
with_key_outcome c input l hash s =
    elim (Bool-cases (text_eq (c.sha256 input.api_key_plaintext) hash)) [
      | inr wrong ↦ inl (wrong, ground (arith, wrong), ground (arith, wrong))
      | inl key ↦ elim (Option-cases (find_first (has_runs input.user_id l.id) s.user_runs.rows)) [
        | inl gone ↦ inr (
          key,
          inl (gone, ground (arith, key, gone), insufficient_runs_same c input l hash s key gone),
        )
        | inr (x, found) ↦ inr (
          key,
          inr (x, found, ground (arith, key, found), consumed_rows c input l hash x s key found),
        )
      ]
    ]

same_listing : (o : Option Listing) (l m : Listing) → o ≡ some l → o ≡ some m → m ≡ l
same_listing none l m e f = cc
same_listing (some x) l m e f = ground (arith, e, f)

at_found :
    (c : Config) (input : ConsumeInput) (s : Market) (l m : Listing)
    → find_first (has_slug input.listing_slug) s.listings.rows ≡ some l
    → Authorised c input s m
    → Authorised c input s l
at_found c input s l m e a =
    subst (Authorised c input s)
      (same_listing (find_first (has_slug input.listing_slug) s.listings.rows) l m e a.0) a

wrong_key :
    (l : Listing) (hash sent : Text)
    → l.api_key_hash ≡ some hash
    → text_eq sent hash ≡ false
    → l.api_key_hash ≢ some sent
wrong_key l hash sent key wrong other = ground (arith, key, wrong, other, (text_eq_iff sent hash).1)

-- A call to consume a run has one of three outcomes. Unless the listing of the slug is published and sold
-- by the run, the key's hash is the listing's and the user exists, it throws INVALID_API_KEY and takes
-- no run. With these, it throws INSUFFICIENT_RUNS and takes no run where the user has no row with a run
-- left; otherwise it takes one run from the row and returns what is left and used.
pub consume_outcome :
    (c : Config) (input : ConsumeInput) (s : Market) → Consumption c input s (consume c input s)
unfolding consume
consume_outcome c input s =
    elim (Option-cases (find_first (has_slug input.listing_slug) s.listings.rows)) [
      | inl none_ ↦
          inl (λ l a. ground (arith, none_, a.0), ground (arith, none_), ground (arith, none_))
      | inr (l, e) ↦ elim (Option-cases (consumable_key l)) [
        | inl shut ↦ inl (
          λ m a.
              let (_, shown, kind, key, _) = at_found c input s l m e a in
              no_key l (c.sha256 input.api_key_plaintext) shut shown kind key,
          ground (arith, e, shut),
          ground (arith, e, shut),
        )
        | inr (hash, key) ↦ elim (Bool-cases (c.user_exists input.user_id)) [
          | inr nobody ↦ inl (
            λ m a. ground (arith, a.4, nobody),
            ground (arith, e, key, nobody),
            ground (arith, e, key, nobody),
          )
          | inl known ↦
              let same : consume c input s ≡ consume_with_key c input l hash s =
                ground (arith, e, key, known) in
              subst (Consumption c input s) (sym same) (elim (with_key_outcome c input l hash s) [
                | inl (wrong, thrown, runs) ↦ inl (
                  λ m a.
                      let (_, _, _, sent, _) = at_found c input s l m e a in
                      wrong_key l hash (c.sha256 input.api_key_plaintext) (key_of l hash key).2
                        wrong sent,
                  thrown,
                  runs,
                )
                | inr (right, rest) ↦
                    let (shown, kind, own) = key_of l hash key in
                    let equal = (text_eq_iff (c.sha256 input.api_key_plaintext) hash).0 right in
                    inr (l, (e, shown, kind, own ∙ ap some (sym equal), known), rest)
              ])
        ]
      ]
    ]
