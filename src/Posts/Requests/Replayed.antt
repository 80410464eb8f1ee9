-- ===== src/Posts/Requests/Replayed.antt =====
-- A request whose key is new, and one whose key is finalized.
use mathlib.Core.Path.{subst}
use mathlib.Core.Option.{some-injective}
use posts_media.Common.{
  ℕ, suc, String, ◌≡◌, refl, sym, ap, ◌∙◌, Option, none, some, List, string_eq, beq_refl, arith,
  Option-cases, inl, inr,
}
use posts_media.Domain.Json.{Json}
use posts_media.Domain.Result.{Result, ok, Result-cases, Reply, replied}
use posts_media.Database.Table.{Table}
use posts_media.Storage.{ObjectStorage}
use posts_media.Schema.{Tables}
use posts_media.Idempotency.{Context, IdempotencyRequest, AcquireResult, finalized}
use posts_media.Idempotency.Key.{validate_idempotency_key}
use posts_media.Idempotency.Fingerprint.{FingerprintFile, build_fingerprint_files}
use posts_media.Idempotency.Service.{quiet, acquire_or_replay, acquire_result, stored_outcome}
use posts_media.Idempotency.Service.Rounds.{acquire_fresh, row_from}
use posts_media.Idempotency.Service.Replay.{finalized-replay}
use posts_media.Validation.Uploads.{File}
use posts_media.Posts.{Post}
use posts_media.Posts.Requests.{Site, Service, Course, replayed, claimed, proceeded, handle}

-- the course of a request during which nobody else touches the table of the keys at the acquisition
abbrev pub alone :
    {X : Tables} {P : Table String Post} {I : Table String IdempotencyRequest} {O : ObjectStorage}
    → (clock : ℕ → ℕ) (uuid : ℕ → String) (fuel : ℕ) → Course X P I O
    → Course X P I O
alone clock uuid fuel c = record c { env = quiet clock uuid; fuel = suc fuel }

module _ (X : Tables) (P : Table String Post) (I : Table String IdempotencyRequest)
    (O : ObjectStorage) (service : Service) (clock : ℕ → ℕ) (uuid : ℕ → String) (fuel : ℕ)
    (c : Course X P I O) (context : String → Context) (fingerprint : List FingerprintFile → String)
    (files : List File) (act : String → Site X P I O → Site X P I O × Reply Json)
    (named : (key : String) → (context key).key ≡ key) where
  abbrev handled : Option String → Site X P I O → Option (Site X P I O × Reply Json)
  handled = handle X P I O service (alone clock uuid fuel c) context fingerprint files act

  abbrev claim_on : String → String → I.State → Option (I.State × Result AcquireResult)
  claim_on key fp s =
      acquire_or_replay I service.idempotency (suc fuel) (quiet clock uuid) (context key) fp s

  abbrev after_claim :
      String
      → Site X P I O
      → Option (I.State × Result AcquireResult)
      → Option (Site X P I O × Reply Json)
  after_claim = proceeded X P I O service (alone clock uuid fuel c) context fingerprint files act

  handled_steps :
      (idempotency_key : Option String) (key : String) (fs : List FingerprintFile)
      (s : Site X P I O)
      → validate_idempotency_key idempotency_key ≡ ok key
      → build_fingerprint_files service.tools files ≡ some (ok fs)
      → handled idempotency_key s ≡ after_claim key s (claim_on key (fingerprint fs) s.requests)
  unfolding handle
  handled_steps idempotency_key key fs s valid built = rw (valid, built) refl

  claim-replay :
      (key : String) (s : I.State) (row : IdempotencyRequest)
      → I.find key s ≡ some row
      → row.state ≡ finalized
      → claim_on key row.request_fingerprint s
        ≡ some (s, ok (AcquireResult.replay (stored_outcome row)))
  unfolding acquire_or_replay acquire_result
  claim-replay key s row found done =
      let again =
        finalized-replay I service.idempotency clock uuid (context key) fuel s row
          (ap (λ k. I.find k s) (named key) ∙ found) done in
      rw (again, acquire_or_replay) refl

  -- a finalized key with the fingerprint is replayed, and nothing changes
  pub handle-replayed :
      (idempotency_key : Option String) (key : String) (fs : List FingerprintFile)
      (s : Site X P I O) (row : IdempotencyRequest)
      → validate_idempotency_key idempotency_key ≡ ok key
      → build_fingerprint_files service.tools files ≡ some (ok fs)
      → I.find key s.requests ≡ some row
      → row.state ≡ finalized
      → row.request_fingerprint ≡ fingerprint fs
      → handled idempotency_key s ≡ some (s, replayed (stored_outcome row))
  unfolding claimed
  handle-replayed idempotency_key key fs s row valid built found done same =
      handled_steps idempotency_key key fs s valid built
      ∙ ap (after_claim key s) (
          subst
            (λ t.
              claim_on key t s.requests
              ≡ some (s.requests, ok (AcquireResult.replay (stored_outcome row))))
            same (claim-replay key s.requests row found done))

  -- What is known of a request with a new key that is answered with a body: the key and the
  -- fingerprint, and that `act` answered, in a table where the key has a row with the fingerprint.
  pub record Acted (idempotency_key : Option String) (s s' : Site X P I O) (body : Json)
      : Type 0 where
    pub key : String
    pub prints : List FingerprintFile
    pub requests : I.State
    pub row : IdempotencyRequest
    pub valid : validate_idempotency_key idempotency_key ≡ ok key
    pub built : build_fingerprint_files service.tools files ≡ some (ok prints)
    pub found : I.find key requests ≡ some row
    pub same : row.request_fingerprint ≡ fingerprint prints
    pub acted : act key (record s { requests = requests }) ≡ (s', replied body)

  claim-fresh :
      (key fp : String) (s : I.State)
      → I.find key s ≡ none
      → (s' : I.State) × ((row : IdempotencyRequest) × ((claim_on key fp s
              ≡ some (s', ok AcquireResult.acquired))
            × ((I.find key s' ≡ some row) × (row.request_fingerprint ≡ fp))))
  unfolding acquire_or_replay acquire_result
  claim-fresh key fp s new =
      let (s', got, rows) =
        acquire_fresh I service.idempotency (quiet clock uuid) (context key) fp fuel 0 s
          (ap (λ k. I.find k s) (named key) ∙ new) in
      let row = row_from I service.idempotency (quiet clock uuid) (context key) fp fuel 0 s in
      (
        s',
        (
          row,
          (rw (got, acquire_or_replay) refl, (rows key ∙ rw (named key, beq_refl key) refl, refl)),
        ),
      )

  pub handle-Acted :
      (idempotency_key : Option String) (s s' : Site X P I O) (body : Json)
      → ((key : String)
          → validate_idempotency_key idempotency_key ≡ ok key
          → I.find key s.requests ≡ none)
      → handled idempotency_key s ≡ some (s', replied body)
      → Acted idempotency_key s s' body
  unfolding claimed handle
  handle-Acted idempotency_key s s' body new h =
      elim (Result-cases (validate_idempotency_key idempotency_key)) [
        | inl (e, invalid) ↦ ground arith
        | inr (key, valid) ↦ elim (Option-cases (build_fingerprint_files service.tools files)) [
          | inl unread ↦ ground arith
          | inr (r, built) ↦ elim (Result-cases r) [
            | inl (e, failed) ↦ ground arith
            | inr (fs, got) ↦
                let (t, (row, (claim, (found, same)))) =
                  claim-fresh key (fingerprint fs) s.requests (new key valid) in
                let built' = built ∙ ap some got in
                let steps : handled idempotency_key s ≡ some (act key (record s { requests = t })) =
                  handled_steps idempotency_key key fs s valid built'
                  ∙ ap (after_claim key s) claim in
                record {
                  key = key;
                  prints = fs;
                  requests = t;
                  row = row;
                  valid = valid;
                  built = built';
                  found = found;
                  same = same;
                  acted = some-injective _ _ (sym steps ∙ h);
                }
          ]
        ]
      ]
