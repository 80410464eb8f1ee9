-- ===== src/Database/Rows.antt =====
-- An association list, whose first entry for a key is its row, meets the interface of a table.
use posts_media.Common.{
  ℕ, ◌+◌, ◌≡◌, refl, ap, Bool, true, false, not, ◌&&◌, ◌||◌, Option, none, some, List, [], ◌∷◌, Eq,
  ◌==◌, if◌then◌else◌, arith, Bool-cases, inl, inr, is_some, beq_refl, leb, ◌≤◌, ◌⊎◌,
}
use posts_media.Database.Table.{Table, hit, hits, drop_hit, Selects}

module _ {K Row : Type 0} ⦃e : Eq K⦄ where
  abbrev rows_find : K → List (K × Row) → Option Row
  rows_find k [] = none
  rows_find k ((j, r) ∷ l) = if j == k then some r else rows_find k l

  abbrev rows_update : (K → Row → Bool) → (Row → Row) → List (K × Row) → List (K × Row)
  rows_update p f [] = []
  rows_update p f ((j, r) ∷ l) = (j, if p j r then f r else r) ∷ rows_update p f l

  -- shadowed entries do not count
  abbrev rows_count : (K → Row → Bool) → List (K × Row) → ℕ
  rows_count p [] = 0
  rows_count p ((j, r) ∷ l) = (if p j r then 1 else 0) + rows_count (λ i q. not (j == i) && p i q) l

  abbrev rows_delete : (K → Row → Bool) → List (K × Row) → List (K × Row)
  rows_delete p [] = []
  rows_delete p ((j, r) ∷ l) =
      let gone = rows_delete (λ i q. j == i || p i q) l in
      let kept = (j, r) ∷ rows_delete p l in if p j r then gone else kept

  abbrev rows_create : K → Row → List (K × Row) → Option (List (K × Row))
  rows_create k r l = if is_some (rows_find k l) then none else some ((k, r) ∷ l)

  pub find-update :
      (p : K → Row → Bool) (f : Row → Row) (l : List (K × Row)) (k : K)
      → rows_find k (rows_update p f l) ≡ hit (p k) f (rows_find k l)
  find-update p f [] k = refl
  find-update p f ((j, r) ∷ l) k = ground (arith, find-update p f l k, e.equals_iff j k)

  Selects-rest :
      (p : K → Row → Bool) (j k : K) → Selects p k → Selects (λ i q. not (j == i) && p i q) k
  Selects-rest p j k h i q x = h i q (ground arith)

  count_never :
      (p : K → Row → Bool) (l : List (K × Row))
      → ((i : K) (q : Row) → p i q ≡ false)
      → rows_count p l ≡ 0
  count_never p [] h = refl
  count_never p ((j, r) ∷ l) h =
      ground
        (arith, h j r, count_never (λ i q. not (j == i) && p i q) l (λ i q. ground (arith, h i q)))

  none_else :
      (p : K → Row → Bool) (j k : K)
      → Selects p k
      → (j == k) ≡ true
      → (i : K) (q : Row) → (not (j == i) && p i q) ≡ false
  none_else p j k h same i q = ground (arith, h i q, e.equals_iff j i, e.equals_iff j k)

  pub count-update :
      (p : K → Row → Bool) (l : List (K × Row)) (k : K)
      → Selects p k
      → rows_count p l ≡ hits (p k) (rows_find k l)
  count-update p [] k h = refl
  count-update p ((j, r) ∷ l) k h = elim (Bool-cases (j == k)) [
    | inl same ↦ ground (
      arith,
      ap (λ i. p i r) ((e.equals_iff j k).0 same),
      count_never (λ i q. not (j == i) && p i q) l (none_else p j k h same),
    )
    | inr other ↦ ground (
      arith,
      h j r,
      e.equals_iff j k,
      count-update (λ i q. not (j == i) && p i q) l k (Selects-rest p j k h),
    )
  ]

  pub find-delete :
      (p : K → Row → Bool) (l : List (K × Row)) (k : K)
      → rows_find k (rows_delete p l) ≡ drop_hit (p k) (rows_find k l)
  find-delete p [] k = refl
  find-delete p ((j, r) ∷ l) k =
      ground (arith, find-delete p l k, find-delete (λ i q. j == i || p i q) l k, e.equals_iff j k)

  pub create-find :
      (k j : K) (r : Row) (l l' : List (K × Row))
      → rows_create k r l ≡ some l'
      → rows_find j l' ≡ (if k == j then some r else rows_find j l)
  create-find k j r l l' h = ground arith

  pub create_taken :
      (k : K) (r q : Row) (l : List (K × Row)) → rows_find k l ≡ some q → rows_create k r l ≡ none
  create_taken k r q l h = ground arith

  pub create_free :
      (k : K) (r : Row) (l : List (K × Row))
      → rows_find k l ≡ none
      → (l' : List (K × Row)) × (rows_create k r l ≡ some l')
  create_free k r l h = ((k, r) ∷ l, ground arith)

module _ {K Row : Type 0} ⦃e : Eq K⦄ where
  abbrev rows_exists : (K → Row → Bool) → List (K × Row) → Bool
  rows_exists p [] = false
  rows_exists p ((j, r) ∷ l) = p j r || rows_exists (λ i q. not (j == i) && p i q) l

  pub exists-not :
      (p : K → Row → Bool) (l : List (K × Row)) (k : K) (r : Row)
      → rows_exists p l ≡ false
      → rows_find k l ≡ some r
      → p k r ≡ false
  exists-not p [] k r h f = ground arith
  exists-not p ((j, q) ∷ l) k r h f = elim (Bool-cases (j == k)) [
    | inl same ↦ ground (arith, ap (λ i. p i q) ((e.equals_iff j k).0 same))
    | inr other ↦ ground (arith, exists-not (λ i q. not (j == i) && p i q) l k r)
  ]

  pub exists-row :
      (p : K → Row → Bool) (l : List (K × Row))
      → rows_exists p l ≡ true
      → (k : K) × ((r : Row) × ((rows_find k l ≡ some r) × (p k r ≡ true)))
  exists-row p [] h = ground arith
  exists-row p ((j, q) ∷ l) h = elim (Bool-cases (p j q)) [
    | inl here ↦ (j, (q, (ground (arith, beq_refl j), here)))
    | inr not_here ↦
        let (k, (r, (f, x))) = exists-row (λ i q. not (j == i) && p i q) l (ground arith) in
        (k, (r, (ground arith, ground arith)))
  ]

abbrev greater : ℕ → Option ℕ → Option ℕ
greater a none = some a
greater a (some b) = some (if leb a b then b else a)

greater-le :
    (a : ℕ) (o : Option ℕ)
    → (m : ℕ) × ((greater a o ≡ some m) × ((a ≤ m) × ((b : ℕ) → o ≡ some b → b ≤ m)))
greater-le a none = (a, (refl, (omega arith, λ b h. ground arith)))
greater-le a (some c) = elim (Bool-cases (leb a c)) [
  | inl le ↦ (c, (ground arith, (ground arith, λ b h. ground arith)))
  | inr gt ↦ (a, (ground arith, (omega arith, λ b h. ground arith)))
]

-- the greater one is the first or in the rest
greater-eq : (a m : ℕ) (o : Option ℕ) → greater a o ≡ some m → (a ≡ m) ⊎ (o ≡ some m)
greater-eq a m none h = inl (ground arith)
greater-eq a m (some b) h = ground arith

module _ {K Row : Type 0} ⦃e : Eq K⦄ where
  abbrev rows_maximum : (K → Row → Bool) → (Row → ℕ) → List (K × Row) → Option ℕ
  rows_maximum p f [] = none
  rows_maximum p f ((j, r) ∷ l) =
      let rest = rows_maximum (λ i q. not (j == i) && p i q) f l in
      if p j r then greater (f r) rest else rest

  pub maximum-le :
      (p : K → Row → Bool) (f : Row → ℕ) (l : List (K × Row)) (k : K) (r : Row)
      → rows_find k l ≡ some r
      → p k r ≡ true
      → (m : ℕ) × ((rows_maximum p f l ≡ some m) × (f r ≤ m))
  maximum-le p f [] k r h x = ground arith
  maximum-le p f ((j, q) ∷ l) k r h x =
      let rest = rows_maximum (λ i z. not (j == i) && p i z) f l in
      let (g, (is_g, (first, others))) = greater-le (f q) rest in
      elim (Bool-cases (j == k)) [
        | inl same ↦
            let here : p j q ≡ true = ground (arith, ap (λ i. p i q) ((e.equals_iff j k).0 same)) in
            (g, (rw here is_g, ground arith))
        | inr other ↦
            let (m, (found, le)) =
              maximum-le (λ i z. not (j == i) && p i z) f l k r (ground arith) (ground arith) in
            let above = others m found in
            elim (Bool-cases (p j q)) [
              | inl here ↦ (g, (rw here is_g, omega (arith, above, le)))
              | inr not_here ↦ (m, (rw not_here found, le))
            ]
      ]

  pub maximum-attained :
      (p : K → Row → Bool) (f : Row → ℕ) (l : List (K × Row)) (m : ℕ)
      → rows_maximum p f l ≡ some m
      → (k : K) × ((r : Row) × ((rows_find k l ≡ some r) × ((p k r ≡ true) × (f r ≡ m))))
  maximum-attained p f [] m h = ground arith
  maximum-attained p f ((j, q) ∷ l) m h =
      let rest = rows_maximum (λ i z. not (j == i) && p i z) f l in
      let later : rest ≡ some m
          → (k : K) × ((r : Row) × ((rows_find k ((j, q) ∷ l) ≡ some r)
                × ((p k r ≡ true) × (f r ≡ m)))) =
        λ found.
          let (k, (r, (at_k, (x, is_m)))) =
            maximum-attained (λ i z. not (j == i) && p i z) f l m found in
          (k, (r, (ground arith, (ground arith, is_m)))) in
      elim (Bool-cases (p j q)) [
        | inl here ↦ elim (greater-eq (f q) m rest (ground arith)) [
          | inl is_m ↦ (j, (q, (ground (arith, beq_refl j), (here, is_m))))
          | inr found ↦ later found
        ]
        | inr not_here ↦ later (ground arith)
      ]

-- Keys and rows of any types; the tests run on it.
abbrev pub rows_table : {K Row : Type 0} ⦃e : Eq K⦄ → Table K Row
rows_table {K} {Row} ⦃e⦄ = record {
  State = List (K × Row);
  find = rows_find;
  update_many = λ p f l. (rows_update p f l, rows_count p l);
  create = rows_create;
  delete_many = λ p l. (rows_delete p l, rows_count p l);
  find-update_many = find-update;
  count-update_many = λ p f. count-update p;
  find-create = create-find;
  create_taken = create_taken;
  create_free = create_free;
  find-delete_many = find-delete;
  exists = rows_exists;
  exists-false = λ p. exists-not p;
  exists-true = exists-row;
  maximum = rows_maximum;
  maximum-le = maximum-le;
  maximum-attained = maximum-attained;
}
