-- ===== src/Database/Table/Where.antt =====
-- `where` clauses, and their effect on the row under one key.
use posts_media.Common.{
  ℕ, ◌≡◌, Bool, true, ◌&&◌, Option, none, some, Eq, ◌==◌, nat_beq, if◌then◌else◌, arith,
}

module _ {Row : Type 0} where
  abbrev pub hit : (Row → Bool) → (Row → Row) → Option Row → Option Row
  hit p f none = none
  hit p f (some r) = if p r then some (f r) else some r

  abbrev pub hits : (Row → Bool) → Option Row → ℕ
  hits p none = 0
  hits p (some r) = if p r then 1 else 0

  abbrev pub drop_hit : (Row → Bool) → Option Row → Option Row
  drop_hit p none = none
  drop_hit p (some r) = if p r then none else some r

-- `result.count === 1`
abbrev pub count_is_one : ℕ → Bool
count_is_one n = nat_beq n 1

module _ {K Row : Type 0} ⦃e : Eq K⦄ where
  -- the clause names the key and a condition on the row
  abbrev pub where_key : K → (Row → Bool) → K → Row → Bool
  where_key k p j r = k == j && p r

  -- a clause that at most the row under `k` meets
  abbrev pub Selects : (K → Row → Bool) → K → Type 0
  Selects p k = (j : K) (r : Row) → p j r ≡ true → j ≡ k

  pub where_key-Selects : (k : K) (p : Row → Bool) → Selects (where_key k p) k
  where_key-Selects k p j r h = ground (arith, e.equals_iff k j)

-- what a row becomes by a conditional write
abbrev pub rewritten : {Row : Type 0} → (Row → Bool) → (Row → Row) → Row → Row
rewritten p f r = if p r then f r else r

-- a function on the row under one key
abbrev pub at_key : {K Row : Type 0} ⦃e : Eq K⦄ → K → K → (Row → Row) → Option Row → Option Row
at_key k j g none = none
at_key k j g (some r) = if k == j then some (g r) else some r
