-- ===== src/Posts/Promotion/Inserted.antt =====
-- The rows that the transaction of a promotion writes.
use mathlib.Core.Path.{subst}
use posts_media.Common.{
  ℕ, suc, String, ◌≡◌, refl, ap, ◌∙◌, some, List, [], ◌∷◌, map, string_eq, ◌==◌, arith,
  Option-cases, Bool-cases, inl, inr,
}
use posts_media.Domain.Enums.{MediaType}
use posts_media.Database.Table.{Table}
use posts_media.Storage.{ObjectRef}
use posts_media.Schema.{Media, ProcessingDispatch, Tables, Db}
use posts_media.Media.{
  CreateMediaWithDispatchInput, created_media, dispatch_of, initial_payload, insert_media,
  insert_dispatch, create_with_dispatch,
}
use posts_media.Media.Writes.{IsAccepted, created-IsAccepted}
use posts_media.Posts.Presenter.{MediaRow}
use posts_media.Posts.Promotion.{Item, media_input, insert_all}

-- a row that is there stays as it is when another is created
created-keeps :
    {Row : Type 0} (T : Table String Row) (k j : String) (r q : Row) (s s' : T.State)
    → T.create k r s ≡ some s'
    → T.find j s ≡ some q
    → T.find j s' ≡ some q
created-keeps T k j r q s s' made found = elim (Bool-cases (k == j)) [
  | inl same ↦
      let k_is : k ≡ j = (string_eq.equals_iff k j).0 same in
      ground (arith, T.create_taken k r q s (ap (λ i. T.find i s) k_is ∙ found))
  | inr differs ↦ ground (arith, T.find-create k j r s s' made)
]

module _ (X : Tables) where
  -- what was in the tables of media and dispatches is still there
  pub record Grows (a b : Db X) : Type 0 where
    pub media :
        (k : String) (m : Media) → X.media.find k a.media ≡ some m → X.media.find k b.media ≡ some m
    pub dispatches :
        (k : String) (d : ProcessingDispatch)
        → X.dispatches.find k a.dispatches ≡ some d
        → X.dispatches.find k b.dispatches ≡ some d
    pub variants : b.variants ≡ a.variants
    pub attempts : b.attempts ≡ a.attempts

  pub Grows-refl : (a : Db X) → Grows a a
  Grows-refl a = record {
    media = λ k m h. h;
    dispatches = λ k d h. h;
    variants = refl;
    attempts = refl;
  }

  pub Grows-trans : (a b c : Db X) → Grows a b → Grows b c → Grows a c
  Grows-trans a b c f g = record {
    media = λ k m h. g.media k m (f.media k m h);
    dispatches = λ k d h. g.dispatches k d (f.dispatches k d h);
    variants = g.variants ∙ f.variants;
    attempts = g.attempts ∙ f.attempts;
  }

  insert_media-Grows :
      (id : String) (m : Media) (db db' : Db X) → insert_media X id m db ≡ some db' → Grows db db'
  unfolding insert_media
  insert_media-Grows id m db db' h = elim (Option-cases (X.media.create id m db.media)) [
    | inl taken ↦ ground arith
    | inr (s, made) ↦
        let same : (record db { media = s }) ≡ db' = ground arith in
        subst (Grows db) same (record {
          media = λ k q found. created-keeps X.media id k m q db.media s made found;
          dispatches = λ k d found. found;
          variants = refl;
          attempts = refl;
        })
  ]

  insert_dispatch-Grows :
      (id : String) (d : ProcessingDispatch) (db db' : Db X)
      → insert_dispatch X id d db ≡ some db'
      → Grows db db'
  unfolding insert_dispatch
  insert_dispatch-Grows id d db db' h =
      elim (Option-cases (X.dispatches.create id d db.dispatches)) [
        | inl taken ↦ ground arith
        | inr (s, made) ↦
            let same : (record db { dispatches = s }) ≡ db' = ground arith in
            subst (Grows db) same (record {
              media = λ k q found. found;
              dispatches =
                  λ k q found. created-keeps X.dispatches id k d q db.dispatches s made found;
              variants = refl;
              attempts = refl;
            })
      ]

  pub create_with_dispatch-Grows :
      (input : CreateMediaWithDispatchInput) (now : ℕ) (db db' : Db X) (m : Media)
      → create_with_dispatch X input now db ≡ some (db', m)
      → Grows db db' × (m ≡ created_media input)
  unfolding create_with_dispatch
  create_with_dispatch-Grows input now db db' m h =
      elim (Option-cases (insert_media X input.id (created_media input) db)) [
        | inl taken ↦ ground arith
        | inr (db₁, first) ↦
            elim (Option-cases
              (insert_dispatch X input.dispatch_id (dispatch_of (initial_payload input) now) db₁)) [
                | inl taken ↦ ground arith
                | inr (db₂, second) ↦
                    let same : db₂ ≡ db' = ground arith in
                    (
                      subst (Grows db) same (
                          Grows-trans db db₁ db₂
                            (insert_media-Grows input.id (created_media input) db db₁ first)
                            (insert_dispatch-Grows input.dispatch_id
                              (dispatch_of (initial_payload input) now) db₁ db₂ second)),
                      ground arith,
                    )
              ]
      ]

  IsAccepted-Grows :
      (dispatch_id media_id : String) (g : ℕ) (t : MediaType) (a b : Db X)
      → Grows a b
      → IsAccepted X dispatch_id media_id g t a
      → IsAccepted X dispatch_id media_id g t b
  IsAccepted-Grows dispatch_id media_id g t a b grows (d, (found, rest)) =
      (d, (grows.dispatches dispatch_id d found, rest))

  module _ (post_id : String) (original : Item → ObjectRef) where
    -- the row of an item is there, and the outbox accepts its dispatch
    abbrev pub IsStored : ℕ → Item → Db X → Type 0
    IsStored sort_order i db =
        (X.media.find i.media_id db.media
          ≡ some (created_media (media_input post_id sort_order i (original i))))
        × IsAccepted X i.dispatch_id i.media_id 1 i.upload.media_type db

    abbrev pub AllStored : ℕ → List Item → Db X → Type 0
    AllStored sort_order [] db = Unit
    AllStored sort_order (i ∷ is) db = IsStored sort_order i db × AllStored (suc sort_order) is db

    -- the rows that a presenter is given
    abbrev pub rows_of : ℕ → List Item → List MediaRow
    rows_of sort_order [] = []
    rows_of sort_order (i ∷ is) =
        record {
          id = i.media_id;
          row = created_media (media_input post_id sort_order i (original i));
        }
        ∷ rows_of (suc sort_order) is

    IsStored-Grows :
        (sort_order : ℕ) (i : Item) (a b : Db X)
        → Grows a b
        → IsStored sort_order i a
        → IsStored sort_order i b
    IsStored-Grows sort_order i a b grows (row, accepted) = (
      grows.media i.media_id (created_media (media_input post_id sort_order i (original i))) row,
      IsAccepted-Grows i.dispatch_id i.media_id 1 i.upload.media_type a b grows accepted,
    )

    created-IsStored :
        (now sort_order : ℕ) (i : Item) (db db' : Db X) (m : Media)
        → create_with_dispatch X (media_input post_id sort_order i (original i)) now db
          ≡ some (db', m)
        → IsStored sort_order i db'
    created-IsStored now sort_order i db db' m h =
        let (row, _, accepted) =
          created-IsAccepted X (media_input post_id sort_order i (original i)) now db db' m h in
        (row, accepted)

    pub inserted-AllStored :
        (now sort_order : ℕ) (is : List Item) (db db' : Db X) (ms : List MediaRow)
        → insert_all X post_id now sort_order is (map original is) db ≡ some (db', ms)
        → Grows db db' × AllStored sort_order is db' × (ms ≡ rows_of sort_order is)
    unfolding insert_all
    inserted-AllStored now sort_order [] db db' ms h =
        let same : db ≡ db' = ground arith in
        (subst (Grows db) same (Grows-refl db), tt, ground arith)
    inserted-AllStored now sort_order (i ∷ is) db db' ms h =
        elim (Option-cases
          (create_with_dispatch X (media_input post_id sort_order i (original i)) now db)) [
            | inl failed ↦ ground arith
            | inr ((db₁, created), first) ↦
                elim (Option-cases
                  (insert_all X post_id now (suc sort_order) is (map original is) db₁)) [
                    | inl failed ↦ ground arith
                    | inr ((db₂, rest), later) ↦
                        let same : db₂ ≡ db' = ground arith in
                        let (grows₁, is_m) =
                          create_with_dispatch-Grows (media_input post_id sort_order i (original i))
                            now db db₁ created first in
                        let (grows₂, stored, rows) =
                          inserted-AllStored now (suc sort_order) is db₁ db₂ rest later in
                        (
                          subst (Grows db) same (Grows-trans db db₁ db₂ grows₁ grows₂),
                          subst (AllStored sort_order (i ∷ is)) same (
                            IsStored-Grows sort_order i db₁ db₂ grows₂
                                (created-IsStored now sort_order i db db₁ created first),
                            stored,
                          ),
                          ground (arith, rows, is_m),
                        )
                  ]
          ]
