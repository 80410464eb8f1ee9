-- ===== src/Database/Table.antt =====
-- A Prisma model delegate over one table whose rows have a unique key: the four statements that
-- the services issue, with what PostgreSQL documents of them. A row does not hold its key. `create`
-- checks the key; another unique constraint of a table is written out with `exists` where it matters.
mod Where
pub use Where.{
  hit, hits, where_key, Selects, where_key-Selects, drop_hit, count_is_one, rewritten, at_key,
}
use posts_media.Common.{
  ℕ, ◌≤◌, ◌≡◌, Bool, true, false, Option, none, some, Eq, ◌==◌, if◌then◌else◌, arith, ◌&&◌,
  Option-cases, inl, inr, beq_refl,
}

pub record Table (K Row : Type 0) ⦃e : Eq K⦄ : Type 1 where
  pub State : Type 0
  -- findUnique
  pub find : K → State → Option Row
  -- updateMany: the new table, and the count of rows updated
  pub update_many : (K → Row → Bool) → (Row → Row) → State → State × ℕ
  -- create: `none` is the unique violation P2002
  pub create : K → Row → State → Option State
  -- deleteMany
  pub delete_many : (K → Row → Bool) → State → State × ℕ
  -- findFirst, as far as whether there is a row
  pub exists : (K → Row → Bool) → State → Bool
  -- aggregate with `_max` of one column, over the rows that meet a clause
  pub maximum : (K → Row → Bool) → (Row → ℕ) → State → Option ℕ
  pub find-update_many :
      (p : K → Row → Bool) (f : Row → Row) (s : State) (k : K)
      → find k (update_many p f s).0 ≡ hit (p k) f (find k s)
  pub count-update_many :
      (p : K → Row → Bool) (f : Row → Row) (s : State) (k : K)
      → Selects p k
      → (update_many p f s).1 ≡ hits (p k) (find k s)
  pub find-create :
      (k j : K) (r : Row) (s s' : State)
      → create k r s ≡ some s'
      → find j s' ≡ (if k == j then some r else find j s)
  pub create_taken : (k : K) (r q : Row) (s : State) → find k s ≡ some q → create k r s ≡ none
  pub create_free :
      (k : K) (r : Row) (s : State) → find k s ≡ none → (s' : State) × (create k r s ≡ some s')
  pub find-delete_many :
      (p : K → Row → Bool) (s : State) (k : K)
      → find k (delete_many p s).0 ≡ drop_hit (p k) (find k s)
  pub exists-false :
      (p : K → Row → Bool) (s : State) (k : K) (r : Row)
      → exists p s ≡ false
      → find k s ≡ some r
      → p k r ≡ false
  pub exists-true :
      (p : K → Row → Bool) (s : State)
      → exists p s ≡ true
      → (k : K) × ((r : Row) × ((find k s ≡ some r) × (p k r ≡ true)))
  pub maximum-le :
      (p : K → Row → Bool) (f : Row → ℕ) (s : State) (k : K) (r : Row)
      → find k s ≡ some r
      → p k r ≡ true
      → (m : ℕ) × ((maximum p f s ≡ some m) × (f r ≤ m))
  pub maximum-attained :
      (p : K → Row → Bool) (f : Row → ℕ) (s : State) (m : ℕ)
      → maximum p f s ≡ some m
      → (k : K) × ((r : Row) × ((find k s ≡ some r) × ((p k r ≡ true) × (f r ≡ m))))

module _ {K Row : Type 0} ⦃e : Eq K⦄ (T : Table K Row) where
  open T use {State, find, update_many, find-update_many, count-update_many}

  -- `where: { <key>: k, …p }`
  pub find-update_key :
      (k j : K) (p : Row → Bool) (f : Row → Row) (s : State)
      → find j (update_many (where_key k p) f s).0 ≡ hit (where_key k p j) f (find j s)
  find-update_key k j p f s = find-update_many (where_key k p) f s j

  pub count-update_key :
      (k : K) (p : Row → Bool) (f : Row → Row) (s : State)
      → (update_many (where_key k p) f s).1 ≡ hits (where_key k p k) (find k s)
  count-update_key k p f s = count-update_many (where_key k p) f s k (where_key-Selects k p)

  -- the same, as a function on the row under `k`
  pub find-update_at :
      (k j : K) (p : Row → Bool) (f : Row → Row) (s : State)
      → find j (update_many (where_key k p) f s).0 ≡ at_key k j (rewritten p f) (find j s)
  find-update_at k j p f s = ground (arith, find-update_key k j p f s)

  abbrev pub updated : K → (Row → Bool) → (Row → Row) → State → State × ℕ
  updated k p f s = update_many (where_key k p) f s

  -- a statement that counts one row met its clause there, and wrote it
  pub count-one :
      (k : K) (p : Row → Bool) (f : Row → Row) (s : State)
      → count_is_one (updated k p f s).1 ≡ true
      → (r : Row) × ((find k s ≡ some r)
          × ((p r ≡ true) × (find k (updated k p f s).0 ≡ some (f r))))
  count-one k p f s h = elim (Option-cases (find k s)) [
    | inl absent ↦ ground (arith, count-update_key k p f s)
    | inr (r, found) ↦ (
      r,
      (
        found,
        (
          ground (arith, count-update_key k p f s, beq_refl k),
          ground (arith, count-update_key k p f s, find-update_key k k p f s, beq_refl k),
        ),
      ),
    )
  ]

  -- one that does not wrote nothing
  pub count-not_one :
      (k j : K) (p : Row → Bool) (f : Row → Row) (s : State)
      → count_is_one (updated k p f s).1 ≡ false
      → find j (updated k p f s).0 ≡ find j s
  count-not_one k j p f s h =
      ground
        (arith, count-update_key k p f s, find-update_key k j p f s, e.equals_iff k j, beq_refl k)

  pub count-missed :
      (k : K) (p : Row → Bool) (f : Row → Row) (s : State)
      → ((r : Row) → find k s ≡ some r → p r ≡ false)
      → count_is_one (updated k p f s).1 ≡ false
  count-missed k p f s h = elim (Option-cases (find k s)) [
    | inl absent ↦ ground (arith, count-update_key k p f s)
    | inr (r, found) ↦
        let missed = h r found in ground (arith, count-update_key k p f s, beq_refl k)
  ]
