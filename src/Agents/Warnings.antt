-- ===== src/Agents/Warnings.antt =====
-- How often apps/api/src/modules/agents/services/runs.service.ts warns that runs are low, and how a
-- top-up by checkout.service.ts starts this again.
use saziqo_platform.Prelude.{
  ℕ, ◌+◌, ◌<◌, ◌≡◌, refl, sym, ap, subst, true, false, not, Option, none, some, List, [], ◌∷◌, Text,
  text_eq, text_eq_iff, ◌==◌, ==→eq, arith, inl, inr, Bool-cases, Option-cases, any, filter, map,
}
use saziqo_platform.Table.{find_first, update_many}
use saziqo_platform.Agents.{
  Market, Listing, Purchase, RedisKey, RunOutcome, Notice, Channel, low_runs_dedup_key,
}
use saziqo_platform.Agents.Runs.{
  Config, ConsumeInput, has_slug, consumable_key, has_runs, is_standing, claim_low_runs, warn_low,
  is_pack_purchase, dispatch_threshold_notifications, record_event, after_one_run, with_user_runs,
  consume_with_key, consume,
}
use saziqo_platform.Agents.Steps.{one_run}
use saziqo_platform.Agents.Usage.{counted, insufficient_state, consumed_state}
use saziqo_platform.Agents.Checkout.Commit.{is_key_of, clear_low_runs_dedup}

-- Calls to consume a run, one after the other.
unfoldable pub consumed_all : List (Config × ConsumeInput) → Market → Market
consumed_all [] s = s
consumed_all (x ∷ xs) s = consumed_all xs (consume x.0 x.1 s).1

abbrev IsStanding : ℕ → Text → Market → Type 0
IsStanding now key s = any (is_standing now key) s.low_runs_keys ≡ true

claim_keeps :
    (now user_id i : ℕ) (title : Text) (n later : ℕ) (key : Text) (s : Market)
    → IsStanding later key s
    → IsStanding later key (claim_low_runs now user_id i title n s)
unfolding claim_low_runs
claim_keeps now user_id i title n later key s h = ground (arith, h)

warn_keeps :
    (now user_id i : ℕ) (title : Text) (n : ℕ) (o : Option Purchase) (later : ℕ) (key : Text)
    (s : Market)
    → IsStanding later key s
    → IsStanding later key (warn_low now user_id i title n o s)
warn_keeps now user_id i title n none later key s h = h
warn_keeps now user_id i title n (some p) later key s h =
    ground (arith, h, claim_keeps now user_id i title n later key s h)

dispatch_keeps :
    (now user_id i : ℕ) (title : Text) (n later : ℕ) (key : Text) (s : Market)
    → IsStanding later key s
    → IsStanding later key (dispatch_threshold_notifications now user_id i title n s).1
unfolding dispatch_threshold_notifications
dispatch_keeps now user_id i title n later key s h = ground (
  arith,
  h,
  warn_keeps now user_id i title n (find_first (is_pack_purchase user_id i) s.purchases.rows) later
      key s h,
)

event_keys :
    (c : Config) (input : ConsumeInput) (i : ℕ) (outcome : RunOutcome) (s : Market)
    → (record_event c input i outcome s).1.low_runs_keys ≡ s.low_runs_keys
unfolding record_event
event_keys c input i outcome s = ground arith

counted_keys :
    (c : Config) (input : ConsumeInput) (l : Listing) (s : Market)
    → (counted c input l s).low_runs_keys ≡ s.low_runs_keys
counted_keys c input l s =
    elim c.event_written as (λ b. (one_run b input l.id c.now s).low_runs_keys ≡ s.low_runs_keys) [
      | true ↦ refl
      | false ↦ refl
    ]

with_key_keeps :
    (c : Config) (input : ConsumeInput) (l : Listing) (hash : Text) (later : ℕ) (key : Text)
    (s : Market)
    → IsStanding later key s
    → IsStanding later key (consume_with_key c input l hash s).1
unfolding consume_with_key record_event
with_key_keeps c input l hash later key s h =
    elim (Bool-cases (text_eq (c.sha256 input.api_key_plaintext) hash)) [
      | inr wrong ↦ ground (arith, wrong, h)
      | inl right ↦
          elim (Option-cases (find_first (has_runs input.user_id l.id) s.user_runs.rows)) [
            | inl gone ↦
                subst (IsStanding later key) (sym (insufficient_state c input l hash s right gone))
                  (subst (λ ks. any (is_standing later key) ks ≡ true)
                    (sym (
                      event_keys c input l.id RunOutcome.refused_insufficient (
                        with_user_runs
                          (update_many (has_runs input.user_id l.id) (after_one_run c.now)) s)))
                    h)
            | inr (r, found) ↦
                subst (IsStanding later key) (sym (consumed_state c input l hash r s right found)) (
                  dispatch_keeps c.now input.user_id l.id l.title_fa
                    (after_one_run c.now r).remaining_runs later key (counted c input l s)
                    (subst (λ ks. any (is_standing later key) ks ≡ true)
                      (sym (counted_keys c input l s)) h))
          ]
    ]

consume_keeps :
    (c : Config) (input : ConsumeInput) (later : ℕ) (key : Text) (s : Market)
    → IsStanding later key s
    → IsStanding later key (consume c input s).1
unfolding consume
consume_keeps c input later key s h =
    elim (Option-cases (find_first (has_slug input.listing_slug) s.listings.rows)) [
      | inl e ↦ ground (arith, e, h)
      | inr (l, e) ↦ elim (Option-cases (consumable_key l)) [
        | inl shut ↦ ground (arith, e, shut, h)
        | inr (hash, open_) ↦ elim (Bool-cases (c.user_exists input.user_id)) [
          | inr nobody ↦ ground (arith, e, open_, nobody, h)
          | inl known ↦
              let same : (consume c input s).1 ≡ (consume_with_key c input l hash s).1 =
                ground (arith, e, open_, known) in
              subst (IsStanding later key) (sym same) (with_key_keeps c input l hash later key s h)
        ]
      ]
    ]

consumed_all_keeps :
    (xs : List (Config × ConsumeInput)) (later : ℕ) (key : Text) (s : Market)
    → IsStanding later key s
    → IsStanding later key (consumed_all xs s)
unfolding consumed_all
consumed_all_keeps [] later key s h = h
consumed_all_keeps (x ∷ xs) later key s h =
    consumed_all_keeps xs later key (consume x.0 x.1 s).1 (consume_keeps x.0 x.1 later key s h)

-- A claim that was made stands for a day.
claim_stands :
    (now user_id i : ℕ) (title : Text) (n later : ℕ) (s : Market)
    → any (is_standing now (low_runs_dedup_key user_id i)) s.low_runs_keys ≡ false
    → later < now + 86400000
    → IsStanding later (low_runs_dedup_key user_id i) (claim_low_runs now user_id i title n s)
unfolding claim_low_runs
claim_stands now user_id i title n later s free soon =
    let key = low_runs_dedup_key user_id i in
    ground (arith, free, soon, (text_eq_iff key key).1 refl)

standing_silent :
    (now user_id i : ℕ) (title : Text) (n : ℕ) (s : Market)
    → IsStanding now (low_runs_dedup_key user_id i) s
    → claim_low_runs now user_id i title n s ≡ s
unfolding claim_low_runs
standing_silent now user_id i title n s h = ground (arith, h)

own_key :
    (user_id i : ℕ) (ids : List ℕ)
    → any (λ j. i == j) ids ≡ true
    → any (text_eq (low_runs_dedup_key user_id i)) (map (low_runs_dedup_key user_id) ids) ≡ true
own_key user_id i [] h = h
own_key user_id i (j ∷ ids) h = elim (Bool-cases (i == j)) [
  | inr other ↦ ground (arith, other, h, own_key user_id i ids)
  | inl same ↦
      let key = low_runs_dedup_key user_id i in
      let one = ap (low_runs_dedup_key user_id) (==→eq i j same) in
      rw ((text_eq_iff key (low_runs_dedup_key user_id j)).1 one) refl
]

deleted_key :
    (user_id i : ℕ) (ids : List ℕ) (k : RedisKey)
    → any (λ j. i == j) ids ≡ true
    → text_eq (low_runs_dedup_key user_id i) k.key ≡ true
    → is_key_of user_id ids k ≡ true
deleted_key user_id i ids k h e =
    subst (λ key. any (text_eq key) (map (low_runs_dedup_key user_id) ids) ≡ true)
      ((text_eq_iff (low_runs_dedup_key user_id i) k.key).0 e) (own_key user_id i ids h)

-- A key that is deleted stands no more.
cleared_key :
    (user_id i now : ℕ) (ids : List ℕ) (keys : List RedisKey)
    → any (λ j. i == j) ids ≡ true
    → any
        (is_standing now (low_runs_dedup_key user_id i))
        (filter (λ k. not (is_key_of user_id ids k)) keys)
      ≡ false
cleared_key user_id i now ids [] h = refl
cleared_key user_id i now ids (k ∷ keys) h =
    elim (Bool-cases (text_eq (low_runs_dedup_key user_id i) k.key)) [
      | inl mine ↦ rw (deleted_key user_id i ids k h mine) (cleared_key user_id i now ids keys h)
      | inr other ↦ ground (arith, other, cleared_key user_id i now ids keys h)
    ]

-- A RUNS_LOW that has been sent to a user for a listing is not sent again within a day, whatever runs
-- are consumed in between: the claim writes nothing. A checkout's clean-up for the listing takes this
-- back: after it, the claim of the key succeeds.
pub low_runs_once :
    (xs : List (Config × ConsumeInput)) (now later user_id i : ℕ) (title again : Text) (n m : ℕ)
    (ids : List ℕ) (s : Market)
    → any (is_standing now (low_runs_dedup_key user_id i)) s.low_runs_keys ≡ false
    → later < now + 86400000
    → any (λ j. i == j) ids ≡ true
    → let t = consumed_all xs (claim_low_runs now user_id i title n s) in
      (claim_low_runs later user_id i again m t ≡ t)
      × ((claim_low_runs later user_id i again m (clear_low_runs_dedup user_id ids t)).notified
          ≡ record { user_id = user_id; notice = Notice.runs_low again m; channel = Channel.in_app }
            ∷ t.notified)
unfolding claim_low_runs clear_low_runs_dedup
low_runs_once xs now later user_id i title again n m ids s free soon bought =
    let key = low_runs_dedup_key user_id i in
    let t = consumed_all xs (claim_low_runs now user_id i title n s) in
    let gone = cleared_key user_id i later ids t.low_runs_keys bought in
    (
      standing_silent later user_id i again m t (
          consumed_all_keeps xs later key (claim_low_runs now user_id i title n s)
            (claim_stands now user_id i title n later s free soon)),
      ground (arith, gone),
    )
