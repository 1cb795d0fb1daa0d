-- ===== src/Table.antt =====
-- A database table: its rows, newest first, and the sequence that numbers them (the models of
-- apps/api/prisma/schema.prisma all have `id BigInt @id @default(autoincrement())`).
pub mod Fresh
use saziqo_platform.Prelude.{
  ℕ, suc, ◌<◌, ◌≡◌, Bool, Option, none, some, List, [], ◌∷◌, arith, ◌==◌, if◌then◌else◌, All,
  All-zip,
}

pub record Table (R : Type 0) : Type 0 where
  pub rows : List R
  pub next : ℕ

-- The primary key of a row.
pub record HasId (R : Type 0) : Type 0 where
  pub id_of : R → ℕ

abbrev pub id_of : {R : Type 0} ⦃h : HasId R⦄ → R → ℕ
id_of ⦃h⦄ = h.id_of

-- `findFirst({ where })` with the newest row first.
abbrev pub find_first : {R : Type 0} → (R → Bool) → List R → Option R
find_first p [] = none
find_first p (r ∷ rs) = if p r then some r else find_first p rs

-- `updateMany({ where, data })`.
abbrev pub update_many : {R : Type 0} → (R → Bool) → (R → R) → List R → List R
update_many p f [] = []
update_many p f (r ∷ rs) = (if p r then f r else r) ∷ update_many p f rs

module _ {R : Type 0} ⦃h : HasId R⦄ where
  -- `findUnique({ where: { id } })`.
  abbrev pub find_unique : ℕ → List R → Option R
  find_unique i [] = none
  find_unique i (r ∷ rs) = if i == id_of r then some r else find_unique i rs

  -- `update({ where: { id }, data })`.
  abbrev pub update : ℕ → (R → R) → List R → List R
  update i f [] = []
  update i f (r ∷ rs) = if i == id_of r then f r ∷ rs else r ∷ update i f rs

  abbrev map_option : (R → R) → Option R → Option R
  map_option f none = none
  map_option f (some r) = some (f r)

  -- What is found after a write that keeps the keys.
  pub find_unique-update :
      (j i : ℕ) (f : R → R) (rs : List R)
      → ((r : R) → id_of (f r) ≡ id_of r)
      → find_unique j (update i f rs)
        ≡ (if i == j then map_option f (find_unique j rs) else find_unique j rs)
  find_unique-update j i f [] k = ground arith
  find_unique-update j i f (r ∷ rs) k = ground (arith, find_unique-update j i f rs k, k r)

  pub find_unique_id : (i : ℕ) (r : R) (rs : List R) → find_unique i rs ≡ some r → id_of r ≡ i
  find_unique_id i r [] e = cc
  find_unique_id i r (x ∷ rs) e = ground (arith, find_unique_id i r rs)

  -- The keys fall, and stay below the next one: the order of `orderBy: { id: 'desc' }`.
  abbrev pub Descending : List R → Type 0
  Descending [] = Unit
  Descending (r ∷ rs) = All (λ x. id_of x < id_of r) rs × Descending rs

  -- With falling keys every row is the one that its key finds.
  pub found_of_Descending :
      (rs : List R) → Descending rs → All (λ r. find_unique (id_of r) rs ≡ some r) rs
  found_of_Descending [] d = tt
  found_of_Descending (x ∷ rs) d = (
    ground arith,
    All-zip {P = λ r. id_of r < id_of x} {Q = λ r. find_unique (id_of r) rs ≡ some r}
        {R = λ r. find_unique (id_of r) (x ∷ rs) ≡ some r} (λ r lt e. ground arith) rs d.0
        (found_of_Descending rs d.1),
  )

-- `create({ data })`: the row that the next key gives, and the table with it.
abbrev pub insert : {R : Type 0} → (ℕ → R) → Table R → Table R
insert mk t = record { rows = mk t.next ∷ t.rows; next = suc t.next }
