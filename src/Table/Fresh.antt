-- ===== src/Table/Fresh.antt =====
-- Tables whose keys fall and stay below the next one, as `@id @default(autoincrement())` of
-- apps/api/prisma/schema.prisma gives them, and the writes that keep them so.
use saziqo_platform.Prelude.{
  ℕ, ◌<◌, ◌≡◌, sym, subst, Bool, true, some, List, [], ◌∷◌, arith, All, All-map, All-filter, filter,
  inl, inr, if◌then◌else◌, Bool-cases,
}
use saziqo_platform.Table.{
  Table, HasId, id_of, find_first, find_unique, update, update_many, insert, Descending,
}

module _ {R : Type 0} ⦃h : HasId R⦄ where
  abbrev pub IsFresh : Table R → Type 0
  IsFresh t = All (λ r. id_of r < t.next) t.rows × Descending t.rows

  pub insert-IsFresh :
      (mk : ℕ → R) (t : Table R) → id_of (mk t.next) ≡ t.next → IsFresh t → IsFresh (insert mk t)
  insert-IsFresh mk t e (low, falling) = (
    (omega arith, All-map (λ r lt. omega arith) t.rows low),
    (All-map (λ r lt. omega arith) t.rows low, falling),
  )

  All_id-update :
      (i n : ℕ) (f : R → R) (rs : List R)
      → ((r : R) → id_of (f r) ≡ id_of r)
      → All (λ r. id_of r < n) rs
      → All (λ r. id_of r < n) (update i f rs)
  All_id-update i n f [] k a = tt
  All_id-update i n f (r ∷ rs) k a = ground (arith, k r, All_id-update i n f rs k a.1)

  Descending-update :
      (i : ℕ) (f : R → R) (rs : List R)
      → ((r : R) → id_of (f r) ≡ id_of r)
      → Descending rs
      → Descending (update i f rs)
  Descending-update i f [] k d = tt
  Descending-update i f (r ∷ rs) k d = ground (
    arith,
    subst (λ n. All (λ x. id_of x < n) rs) (sym (k r)) d.0,
    All_id-update i (id_of r) f rs k d.0,
    Descending-update i f rs k d.1,
  )

  pub update-IsFresh :
      (i : ℕ) (f : R → R) (t : Table R)
      → ((r : R) → id_of (f r) ≡ id_of r)
      → IsFresh t
      → IsFresh (record { rows = update i f t.rows; next = t.next })
  update-IsFresh i f t k (low, falling) =
      (All_id-update i t.next f t.rows k low, Descending-update i f t.rows k falling)

  All_id-update_many :
      (n : ℕ) (p : R → Bool) (f : R → R) (rs : List R)
      → ((r : R) → id_of (f r) ≡ id_of r)
      → All (λ r. id_of r < n) rs
      → All (λ r. id_of r < n) (update_many p f rs)
  All_id-update_many n p f [] k a = tt
  All_id-update_many n p f (r ∷ rs) k a = ground (arith, k r, All_id-update_many n p f rs k a.1)

  id_of-update_many :
      (p : R → Bool) (f : R → R) (r : R)
      → id_of (f r) ≡ id_of r
      → id_of (if p r then f r else r) ≡ id_of r
  id_of-update_many p f r e = ground (arith, e)

  Descending-update_many :
      (p : R → Bool) (f : R → R) (rs : List R)
      → ((r : R) → id_of (f r) ≡ id_of r)
      → Descending rs
      → Descending (update_many p f rs)
  Descending-update_many p f [] k d = tt
  Descending-update_many p f (r ∷ rs) k d = (
    subst (λ n. All (λ x. id_of x < n) (update_many p f rs)) (sym (id_of-update_many p f r (k r)))
        (All_id-update_many (id_of r) p f rs k d.0),
    Descending-update_many p f rs k d.1,
  )

  pub update_many-IsFresh :
      (p : R → Bool) (f : R → R) (t : Table R)
      → ((r : R) → id_of (f r) ≡ id_of r)
      → IsFresh t
      → IsFresh (record { rows = update_many p f t.rows; next = t.next })
  update_many-IsFresh p f t k (low, falling) =
      (All_id-update_many t.next p f t.rows k low, Descending-update_many p f t.rows k falling)

  Descending-kept : (p : R → Bool) (rs : List R) → Descending rs → Descending (filter p rs)
  Descending-kept p [] d = tt
  Descending-kept p (r ∷ rs) d =
      ground (arith, Descending-kept p rs d.1, All-filter (λ x. id_of x < id_of r) p rs d.0)

  pub filter-IsFresh :
      (p : R → Bool) (t : Table R)
      → IsFresh t
      → IsFresh (record { rows = filter p t.rows; next = t.next })
  filter-IsFresh p t (low, falling) =
      (All-filter (λ r. id_of r < t.next) p t.rows low, Descending-kept p t.rows falling)

  pub found_All :
      (P : R → Type 0) (p : R → Bool) (rs : List R) (r : R)
      → All P rs
      → find_first p rs ≡ some r
      → P r
  found_All P p [] r a e = cc
  found_All P p (x ∷ rs) r a e = ground (arith, found_All P p rs r a.1)

  -- The row that a test finds is the one that its key finds.
  pub first_found :
      (p : R → Bool) (rs : List R) (r : R)
      → Descending rs
      → find_first p rs ≡ some r
      → (find_unique (id_of r) rs ≡ some r) × (p r ≡ true)
  first_found p [] r d e = cc
  first_found p (x ∷ rs) r d e = elim (Bool-cases (p x)) [
    | inl here ↦ ground (arith, here)
    | inr other ↦
        let later : find_first p rs ≡ some r = ground (arith, other) in
        let below : id_of r < id_of x = found_All (λ r. id_of r < id_of x) p rs r d.0 later in
        ground (arith, other, below, first_found p rs r d.1 later)
  ]
