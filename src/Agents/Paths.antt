-- ===== src/Agents/Paths.antt =====
-- The status of a listing along the calls of apps/api/src/modules/agents/services.
use saziqo_platform.Prelude.{
  ℕ, ◌<◌, ◌≡◌, refl, sym, ap, ◌∙◌, subst, Bool, true, false, Option, none, some, List, [], ◌∷◌,
  Text, ◌==◌, ==→eq, arith, inl, inr, Bool-cases, is_some,
}
use saziqo_platform.Table.{find_first, find_unique, find_unique-update, update_many}
use saziqo_platform.Table.Fresh.{IsFresh}
use saziqo_platform.Agents.{
  Market, Listing, ListingStatus, RunOutcome, listing_key, is_owned, update_listing,
}
use saziqo_platform.Agents.Reviews.{review_key}
use saziqo_platform.Agents.Runs.{
  ConsumeInput, has_runs, after_one_run, with_user_runs, new_event, one_more_run,
}
use saziqo_platform.Agents.Checkout.{
  BuiltLine, granted_pack, grant_pack, sell_line, with_purchase, count_user, one_more_user,
}
use saziqo_platform.Agents.Listings.{rated, shown_ratings, is_viewed, one_more_view}
use saziqo_platform.Agents.Steps.{Edge, Edits, Step, event_if}
use saziqo_platform.Agents.Increments.{Raised}
use saziqo_platform.Agents.Sequences.{Call, called_all, called_all-kept}
use saziqo_platform.Agents.Sales.{grant_pack_listings}
use saziqo_platform.Agents.Counters.{there_below}
use saziqo_platform.Agents.Counters.Written.{viewed}

-- Any number of edges.
pub data StatusPath : ListingStatus → ListingStatus → Type 0 where
  here : (a : ListingStatus) → StatusPath a a
  along : (a b c : ListingStatus) → StatusPath a b → Edge b c → StatusPath a c

-- What a listing keeps, and the path of its status.
abbrev pub LeadsTo : Listing → Listing → Type 0
LeadsTo l m =
    StatusPath l.status m.status
    × (m.pricing_type ≡ l.pricing_type)
    × (m.one_time_price_toman ≡ l.one_time_price_toman)
    × (m.slug ≡ l.slug)

-- The listing with this key is still there, and comes from this one.
abbrev pub Follows : Listing → Market → Type 0
Follows l t =
    (l.id < t.listings.next)
    × ((m : Listing) × (find_unique l.id t.listings.rows ≡ some m) × LeadsTo l m)

Follows-same : (l : Listing) (s t : Market) → s.listings ≡ t.listings → Follows l s → Follows l t
Follows-same l s t e (low, (m, found, path)) =
    (subst (λ x. l.id < x.next) e low, (m, ap (λ x. find_unique l.id x.rows) (sym e) ∙ found, path))

-- A write whose row at the listing's key comes from the one that was there.
Follows-write :
    (l : Listing) (i : ℕ) (f : Listing → Listing) (s t : Market)
    → ((m : Listing) → (f m).id ≡ m.id)
    → ((m : Listing) → find_unique i s.listings.rows ≡ some m → LeadsTo l m → LeadsTo l (f m))
    → (update_listing i f s).listings ≡ t.listings
    → Follows l s
    → Follows l t
Follows-write l i f s t keeps leads e (low, (m, found, path)) =
    Follows-same l (update_listing i f s) t e (
      low,
      elim (Bool-cases (i == l.id)) [
        | inr other ↦ (
          m,
          ground (arith, other, found, find_unique-update l.id i f s.listings.rows keeps),
          path,
        )
        | inl same ↦ (
          f m,
          ground (arith, same, found, find_unique-update l.id i f s.listings.rows keeps),
          leads m (ap (λ k. find_unique k s.listings.rows) (==→eq i l.id same) ∙ found) path,
        )
      ],
    )

leads_edit : (l m n : Listing) → Edits m n → n.status ≡ m.status → LeadsTo l m → LeadsTo l n
leads_edit l m n e st (path, a, b, c) =
    let (_, p, q, _, _, _, _, slug, _, _) = e in
    (subst (StatusPath l.status) (sym st) path, p ∙ a, q ∙ b, slug ∙ c)

leads_move : (l m n : Listing) → Edits m n → Edge m.status n.status → LeadsTo l m → LeadsTo l n
leads_move l m n e edge (path, a, b, c) =
    let (_, p, q, _, _, _, _, slug, _, _) = e in
    (StatusPath.along l.status m.status n.status path edge, p ∙ a, q ∙ b, slug ∙ c)

-- A write that edits every row and moves no status.
Follows-edit :
    (l : Listing) (i : ℕ) (f : Listing → Listing) (s t : Market)
    → ((m : Listing) → (f m).id ≡ m.id)
    → ((m : Listing) → LeadsTo l m → LeadsTo l (f m))
    → (update_listing i f s).listings ≡ t.listings
    → Follows l s
    → Follows l t
Follows-edit l i f s t keeps leads e h = Follows-write l i f s t keeps (λ m _ p. leads m p) e h

viewed_found :
    (j : ℕ) (slug : Text) (rows : List Listing) (l m : Listing)
    → find_unique j rows ≡ some m
    → LeadsTo l m
    → (n : Listing) × (find_unique j (update_many (is_viewed slug) one_more_view rows) ≡ some n)
      × LeadsTo l n
viewed_found j slug [] l m e h = cc
viewed_found j slug (x ∷ rows) l m e h = elim (Bool-cases (j == x.id)) [
  | inl same ↦ elim (Bool-cases (is_viewed slug x)) [
    | inl hit ↦ (one_more_view m, ground (arith, same, hit, e), h)
    | inr missed ↦ (m, ground (arith, same, missed, e), h)
  ]
  | inr other ↦
      let later : find_unique j rows ≡ some m = ground (arith, other, e) in
      let (n, found, path) = viewed_found j slug rows l m later h in
      elim (Bool-cases (is_viewed slug x)) [
        | inl hit ↦ (n, ground (arith, other, hit, found), path)
        | inr missed ↦ (n, ground (arith, other, missed, found), path)
      ]
]

pub event_if_listings :
    (b : Bool) (input : ConsumeInput) (i : ℕ) (s : Market)
    → s.listings ≡ (event_if b (new_event input i RunOutcome.consumed) s).listings
event_if_listings true input i s = refl
event_if_listings false input i s = refl

found_one : (o : Option Listing) (l m : Listing) → o ≡ some l → o ≡ some m → m ≡ l
found_one none l m e g = cc
found_one (some x) l m e g = ground (arith, e, g)

counted-Follows :
    (b : Bool) (i : ℕ) (l : Listing) (s : Market) → Follows l s → Follows l (count_user b i s)
counted-Follows true i l s h = h
counted-Follows false i l s h =
    Follows-edit l i one_more_user s (count_user false i s) (λ m. refl) (λ m p. p) refl h

sold-Follows :
    (user_id : ℕ) (line : BuiltLine) (l : Listing) (s : Market)
    → Follows l s
    → Follows l (sell_line user_id line s)
unfolding sell_line
sold-Follows user_id line l s h =
    let i = line.listing.id in
    let t = with_purchase user_id line s in
    let pack = granted_pack line.listing.pricing_type line.pack in
    counted-Follows (is_some (find_first (is_owned user_id i) s.purchases.rows)) i l
      (grant_pack user_id i pack t)
      (Follows-same l s (grant_pack user_id i pack t) (sym (grant_pack_listings user_id i pack t))
        h)

Step-Follows : (l : Listing) (s t : Market) → Step s t → Follows l s → Follows l t
Step-Follows l s t (Step.aside _ same) h = Follows-same l s t same.0 h
Step-Follows l s t (Step.moves _ x f found edge keeps same) h =
    Follows-write l x.id f s t (λ m. (keeps m).0)
      (λ m e p.
        leads_move l m (f m) (keeps m)
          (subst (λ y. Edge y.status (f y).status)
            (sym (found_one (find_unique x.id s.listings.rows) x m found e)) edge)
          p)
      same.0 h
Step-Follows l s t (Step.edits _ i f keeps same) h =
    Follows-edit l i f s t (λ m. (keeps m).0.0)
      (λ m p. leads_edit l m (f m) (keeps m).0 (keeps m).1 p) same.0 h
Step-Follows l s t (Step.views _ slug same) (low, (m, found, path)) =
    Follows-same l (viewed slug s) t same.0
      (low, viewed_found l.id slug s.listings.rows l m found path)
Step-Follows l s t (Step.creates _ lower maker dto shape new room same) (low, (m, found, path)) = (
  subst (λ x. l.id < x.next) same.0 (omega arith),
  (m, ap (λ x. find_unique l.id x.rows) (sym same.0) ∙ ground (arith, low, found), path),
)
Step-Follows l s t (Step.sells _ user_id line sellable same) h =
    Follows-same l (sell_line user_id line s) t same.0 (sold-Follows user_id line l s h)
Step-Follows l s t (Step.refuses _ mk refusal same) h = Follows-same l s t same.0 h
Step-Follows l s t (Step.consumes _ written input i now r there found same) h =
    let u = with_user_runs (update_many (has_runs input.user_id i) (after_one_run now)) s in
    let v = event_if written (new_event input i RunOutcome.consumed) u in
    Follows-edit l i one_more_run v t (λ m. refl) (λ m p. p) same.0
      (Follows-same l s v (event_if_listings written input i u) h)
Step-Follows l s t (Step.rates _ i rs there fresh others same) h =
    Follows-edit l i (rated (shown_ratings i rs.rows)) s t (λ m. refl) (λ m p. p) same.0 h
Step-Follows l s t (Step.rewords _ rs fresh others same) h = Follows-same l s t same.0 h

Raised-Follows : (l : Listing) → Raised (Follows l)
Raised-Follows l s i h = (
  Follows-edit l i one_more_user s (update_listing i one_more_user s) (λ m. refl) (λ m p. p) refl h,
  Follows-edit l i one_more_run s (update_listing i one_more_run s) (λ m. refl) (λ m p. p) refl h,
)

-- Whatever calls come, a listing stays, keeps its pricing type, price and slug, and its status moves only
-- along the edges DRAFT to PENDING_REVIEW, PENDING_REVIEW to PUBLISHED or REJECTED, PUBLISHED to
-- SUSPENDED and SUSPENDED to PUBLISHED.
pub called_all-StatusPath :
    (calls : List Call) (s : Market) (l : Listing)
    → IsFresh s.reviews
    → IsFresh s.listings
    → find_unique l.id s.listings.rows ≡ some l
    → (m : Listing) × (find_unique l.id (called_all calls s).listings.rows ≡ some m) × LeadsTo l m
called_all-StatusPath calls s l reviews listings found =
    (called_all-kept (Follows l) (Step-Follows l) (Raised-Follows l) calls s reviews (
      there_below l.id s.listings.next s.listings.rows listings.0 (ground (arith, found)),
      (l, found, (StatusPath.here l.status, refl, refl, refl)),
    )).1

-- No path leaves REJECTED.
rejected_end :
    {a b : ListingStatus} → StatusPath a b → a ≡ ListingStatus.rejected → b ≡ ListingStatus.rejected
rejected_end (StatusPath.here a) e = e
rejected_end (StatusPath.along a b c p Edge.submitted) e = absurd (ground (arith, rejected_end p e))
rejected_end (StatusPath.along a b c p Edge.approved) e = absurd (ground (arith, rejected_end p e))
rejected_end (StatusPath.along a b c p Edge.rejected) e = refl
rejected_end (StatusPath.along a b c p Edge.suspended) e = absurd (ground (arith, rejected_end p e))
rejected_end (StatusPath.along a b c p Edge.unsuspended) e =
    absurd (ground (arith, rejected_end p e))

-- A listing that is REJECTED stays so, whatever calls come.
pub rejected_stays :
    (calls : List Call) (s : Market) (l : Listing)
    → IsFresh s.reviews
    → IsFresh s.listings
    → find_unique l.id s.listings.rows ≡ some l
    → l.status ≡ ListingStatus.rejected
    → (m : Listing) × (find_unique l.id (called_all calls s).listings.rows ≡ some m)
      × (m.status ≡ ListingStatus.rejected)
rejected_stays calls s l reviews listings found e =
    let (m, there, (path, _, _, _)) = called_all-StatusPath calls s l reviews listings found in
    (m, there, rejected_end path e)
