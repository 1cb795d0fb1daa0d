-- ===== src/Agents/Moves.antt =====
-- The calls on a listing's status in apps/api/src/modules/agents/services/listings.service.ts, as steps.
use saziqo_platform.Prelude.{
  ℕ, ◌≡◌, refl, sym, subst, true, Option, none, some, List, [], ◌∷◌, Text, inl, inr, ◌==◌, arith,
  Option-cases, Bool-cases,
}
use saziqo_platform.Table.{find_unique, find_first, find_unique_id}
use saziqo_platform.Agents.{
  Market, Listing, ListingStatus, Notice, Channel, listing_key, is_live, update_listing, notify,
}
use saziqo_platform.Agents.Lifecycle.{
  loaded, lock_and_load, status_code, submit_for_review, approve, reject, suspend, unsuspend,
  soft_delete, notify_all, maker_name, assert_submission_ready, is_unready, with_status, approved,
  refused, taken_down, restored, deleted,
}
use saziqo_platform.Agents.Steps.{Same, Edge, Step, Steps, single, stays}

-- The row that `lockAndLoad` gives.
abbrev pub load : ℕ → Market → Option Listing
load i s = loaded (find_first (is_live i) s.listings.rows) (find_unique i s.listings.rows)

loaded_found : (o p : Option Listing) (l : Listing) → loaded o p ≡ some l → p ≡ some l
loaded_found none p l e = cc
loaded_found (some x) none l e = cc
loaded_found (some x) (some m) l e = ground (arith, e)

load_found :
    (i : ℕ) (s : Market) (l : Listing)
    → load i s ≡ some l
    → find_unique l.id s.listings.rows ≡ some l
load_found i s l e =
    let found =
      loaded_found (find_first (is_live i) s.listings.rows) (find_unique i s.listings.rows) l e in
    subst (λ x. find_unique x s.listings.rows ≡ some l)
      (sym (find_unique_id i l s.listings.rows found)) found

status_of_code : (a b : ListingStatus) → (status_code a == status_code b) ≡ true → a ≡ b
status_of_code a b e = ground arith

edge_of :
    (l : Listing) (from to : ListingStatus)
    → (status_code l.status == status_code from) ≡ true
    → Edge from to
    → Edge l.status to
edge_of l from to e edge = subst (λ x. Edge x to) (sym (status_of_code l.status from e)) edge

pub approve-Steps : (now i admin : ℕ) (s : Market) → Steps s (approve now i admin s).1
unfolding approve lock_and_load
approve-Steps now i admin s = elim (Option-cases (load i s)) [
  | inl e ↦ stays s (approve now i admin s).1 (ground (arith, e))
  | inr (l, e) ↦
      elim (Bool-cases (status_code l.status == status_code ListingStatus.pending_review)) [
        | inr other ↦ stays s (approve now i admin s).1 (ground (arith, e, other))
        | inl here ↦ single (
            Step.moves (approve now i admin s).1 l (approved now) (load_found i s l e)
              (edge_of l ListingStatus.pending_review ListingStatus.published here Edge.approved)
              (λ m. (refl, refl, refl, refl, refl, refl, refl, refl, refl, λ d. d))
              (ground (arith, e, here)))
      ]
]

pub reject-Steps : (i admin : ℕ) (reason : Text) (s : Market) → Steps s (reject i admin reason s).1
unfolding reject lock_and_load
reject-Steps i admin reason s = elim (Option-cases (load i s)) [
  | inl e ↦ stays s (reject i admin reason s).1 (ground (arith, e))
  | inr (l, e) ↦
      elim (Bool-cases (status_code l.status == status_code ListingStatus.pending_review)) [
        | inr other ↦ stays s (reject i admin reason s).1 (ground (arith, e, other))
        | inl here ↦ single (
            Step.moves (reject i admin reason s).1 l (refused reason) (load_found i s l e)
              (edge_of l ListingStatus.pending_review ListingStatus.rejected here Edge.rejected)
              (λ m. (refl, refl, refl, refl, refl, refl, refl, refl, refl, λ d. d))
              (ground (arith, e, here)))
      ]
]

pub suspend-Steps :
    (i admin : ℕ) (reason : Text) (s : Market) → Steps s (suspend i admin reason s).1
unfolding suspend lock_and_load
suspend-Steps i admin reason s = elim (Option-cases (load i s)) [
  | inl e ↦ stays s (suspend i admin reason s).1 (ground (arith, e))
  | inr (l, e) ↦ elim (Bool-cases (status_code l.status == status_code ListingStatus.published)) [
    | inr other ↦ stays s (suspend i admin reason s).1 (ground (arith, e, other))
    | inl here ↦ single (
        Step.moves (suspend i admin reason s).1 l (taken_down reason) (load_found i s l e)
          (edge_of l ListingStatus.published ListingStatus.suspended here Edge.suspended)
          (λ m. (refl, refl, refl, refl, refl, refl, refl, refl, refl, λ d. d))
          (ground (arith, e, here)))
  ]
]

pub unsuspend-Steps : (i admin : ℕ) (s : Market) → Steps s (unsuspend i admin s).1
unfolding unsuspend lock_and_load
unsuspend-Steps i admin s = elim (Option-cases (load i s)) [
  | inl e ↦ stays s (unsuspend i admin s).1 (ground (arith, e))
  | inr (l, e) ↦ elim (Bool-cases (status_code l.status == status_code ListingStatus.suspended)) [
    | inr other ↦ stays s (unsuspend i admin s).1 (ground (arith, e, other))
    | inl here ↦ single (
        Step.moves (unsuspend i admin s).1 l restored (load_found i s l e)
          (edge_of l ListingStatus.suspended ListingStatus.published here Edge.unsuspended)
          (λ m. (refl, refl, refl, refl, refl, refl, refl, refl, refl, λ d. d))
          (ground (arith, e, here)))
  ]
]

notify_all-Same : (admins : List ℕ) (n : Notice) (s : Market) → Same s (notify_all admins n s)
notify_all-Same [] n s = (refl, refl, refl, refl, refl, refl)
notify_all-Same (a ∷ rest) n s = notify_all-Same rest n (notify a n Channel.in_app s)

pub submit-Steps :
    (admins : List ℕ) (i maker : ℕ) (s : Market) → Steps s (submit_for_review admins i maker s).1
unfolding submit_for_review lock_and_load assert_submission_ready
submit-Steps admins i maker s = elim (Option-cases (load i s)) [
  | inl e ↦ stays s (submit_for_review admins i maker s).1 (ground (arith, e))
  | inr (l, e) ↦ elim (Bool-cases (l.maker_user_id == maker)) [
    | inr other ↦ stays s (submit_for_review admins i maker s).1 (ground (arith, e, other))
    | inl own ↦ elim (Bool-cases (status_code l.status == status_code ListingStatus.draft)) [
      | inr other ↦ stays s (submit_for_review admins i maker s).1 (ground (arith, e, own, other))
      | inl here ↦ elim (Bool-cases (is_unready s l l.pricing_type)) [
        | inl bad ↦
            stays s (submit_for_review admins i maker s).1 (ground (arith, e, own, here, bad))
        | inr good ↦
            let f = with_status ListingStatus.pending_review in
            let pending = Notice.new_listing_pending l.title_fa (maker_name l.maker_user_id) in
            single (
              Step.moves (submit_for_review admins i maker s).1 l f (load_found i s l e)
                (edge_of l ListingStatus.draft ListingStatus.pending_review here Edge.submitted)
                (λ m. (refl, refl, refl, refl, refl, refl, refl, refl, refl, λ d. d))
                (ground (
                  arith,
                  e,
                  own,
                  here,
                  good,
                  notify_all-Same admins pending (update_listing l.id f s),
                )))
      ]
    ]
  ]
]

pub soft_delete-Steps : (now i admin : ℕ) (s : Market) → Steps s (soft_delete now i admin s).1
unfolding soft_delete
soft_delete-Steps now i admin s = elim (Option-cases (find_unique i s.listings.rows)) [
  | inl e ↦ stays s (soft_delete now i admin s).1 (ground (arith, e))
  | inr (l, e) ↦ single (
      Step.edits (soft_delete now i admin s).1 i (deleted now)
        (λ m. ((refl, refl, refl, refl, refl, refl, refl, refl, refl, λ d. refl), refl))
        (ground (arith, e)))
]
