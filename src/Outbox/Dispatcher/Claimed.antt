-- ===== src/Outbox/Dispatcher/Claimed.antt =====
-- The rows that a pass claims.
use posts_media.Common.{
  String, ◌≡◌, ◌≢◌, refl, ◌∙◌, true, ◌&&◌, Option, none, some, List, [], ◌∷◌, All, any, ◌==◌,
  string_eq, beq_refl, arith, Bool-cases, inl, inr,
}
use posts_media.Database.Table.{Table}
use posts_media.Schema.{ProcessingDispatch}
use posts_media.Outbox.Statements.{claimable, claimed, claim_batch}
use posts_media.Outbox.Publication.{JobQueues, ClaimedDispatch}
use posts_media.Outbox.Dispatcher.Each.{Held, DistinctIds}
use posts_media.Outbox.Dispatcher.{Settings, Pass, returned_if, claimed_rows, leased}

module _ (T : Table String ProcessingDispatch) (Q : JobQueues) (settings : Settings)
    (pass : Pass) where
  abbrev Holds : ClaimedDispatch → T.State → Type 0
  Holds = Held T Q settings pass

  abbrev Distinct : List ClaimedDispatch → Type 0
  Distinct = DistinctIds T Q settings pass

  abbrev pub rows_of : List String → T.State → List ClaimedDispatch
  rows_of = claimed_rows T Q settings pass

  abbrev pub leased_state : T.State → T.State
  leased_state = leased T Q settings pass

  abbrev pub DistinctTexts : List String → Type 0
  DistinctTexts [] = Unit
  DistinctTexts (i ∷ ids) = All (λ j. i ≢ j) ids × DistinctTexts ids

  returned_if-All :
      (C : ClaimedDispatch → Type 0) (id : String) (found : Option ProcessingDispatch)
      (rest : List ClaimedDispatch)
      → ((row : ProcessingDispatch)
          → found ≡ some row
          → claimable pass.claimed_at row ≡ true
          → C (record {
            id = id;
            row = claimed settings.lease_seconds pass.lease_token pass.claimed_at row;
            lease_token = pass.lease_token;
          }))
      → All C rest
      → All C (returned_if T Q settings pass id found rest)
  returned_if-All C id none rest h all = all
  returned_if-All C id (some row) rest h all = elim (Bool-cases (claimable pass.claimed_at row)) [
    | inl free ↦ rw free (h row refl free, all)
    | inr busy ↦ rw busy all
  ]

  -- the rows that are returned are leased under the token
  lease-Holds :
      (id : String) (s : T.State) (row : ProcessingDispatch)
      → any (λ i. i == id) pass.selected ≡ true
      → T.find id s ≡ some row
      → claimable pass.claimed_at row ≡ true
      → Holds
          (record {
            id = id;
            row = claimed settings.lease_seconds pass.lease_token pass.claimed_at row;
            lease_token = pass.lease_token;
          })
          (leased_state s)
  unfolding claim_batch
  lease-Holds id s row chosen found free = (
    claimed settings.lease_seconds pass.lease_token pass.claimed_at row,
    (
      T.find-update_many (λ k d. any (λ i. i == k) pass.selected && claimable pass.claimed_at d)
            (claimed settings.lease_seconds pass.lease_token pass.claimed_at) s id
          ∙ rw (found, chosen, free) refl,
      rw (beq_refl pass.lease_token) refl,
    ),
  )

  pub rows-Holds :
      (ids : List String) (s : T.State)
      → All (λ id. any (λ i. i == id) pass.selected ≡ true) ids
      → All (λ d. Holds d (leased_state s)) (rows_of ids s)
  unfolding claimed_rows
  rows-Holds [] s chosen = tt
  rows-Holds (id ∷ ids) s (c, chosen) =
      returned_if-All (λ d. Holds d (leased_state s)) id (T.find id s) (rows_of ids s)
        (λ row found free. lease-Holds id s row c found free) (rows-Holds ids s chosen)

  rows_apart :
      (k : String) (ids : List String) (s : T.State)
      → All (λ j. k ≢ j) ids
      → All (λ d. k ≢ d.id) (rows_of ids s)
  unfolding claimed_rows
  rows_apart k [] s apart = tt
  rows_apart k (id ∷ ids) s (differs, apart) =
      returned_if-All (λ d. k ≢ d.id) id (T.find id s) (rows_of ids s) (λ row found free. differs)
        (rows_apart k ids s apart)

  returned_if-Distinct :
      (id : String) (found : Option ProcessingDispatch) (rest : List ClaimedDispatch)
      → All (λ d. id ≢ d.id) rest
      → Distinct rest
      → Distinct (returned_if T Q settings pass id found rest)
  returned_if-Distinct id none rest apart distinct = distinct
  returned_if-Distinct id (some row) rest apart distinct =
      elim (Bool-cases (claimable pass.claimed_at row)) [
        | inl free ↦ rw free (apart, distinct)
        | inr busy ↦ rw busy distinct
      ]

  pub rows-Distinct :
      (ids : List String) (s : T.State) → DistinctTexts ids → Distinct (rows_of ids s)
  unfolding claimed_rows
  rows-Distinct [] s distinct = tt
  rows-Distinct (id ∷ ids) s (apart, distinct) =
      returned_if-Distinct id (T.find id s) (rows_of ids s) (rows_apart id ids s apart)
        (rows-Distinct ids s distinct)

  all_chosen :
      (ids more : List String)
      → All (λ id. any (λ i. i == id) more ≡ true) ids
      → (k : String) → All (λ id. any (λ i. i == id) (k ∷ more) ≡ true) ids
  all_chosen [] more h k = tt
  all_chosen (id ∷ ids) more (h, hs) k = (ground arith, all_chosen ids more hs k)

  pub chosen_self : (ids : List String) → All (λ id. any (λ i. i == id) ids ≡ true) ids
  chosen_self [] = tt
  chosen_self (id ∷ ids) = (rw (beq_refl id) refl, all_chosen ids ids (chosen_self ids) id)
