-- ===== src/Posts/Requests/Frame.antt =====
-- A request that is not answered with a body leaves the posts and the media as the others keep them.
use mathlib.Core.Path.{subst}
use posts_media.Common.{string_eq, String, ◌≡◌, Option, none, some, List, Bool-cases, inl, inr}
use posts_media.Domain.Json.{Json}
use posts_media.Domain.Result.{Result, ok, err, Reply, replied, rejected, crashed}
use posts_media.Database.Table.{Table}
use posts_media.Storage.{ObjectRef, ObjectStorage}
use posts_media.Schema.{Tables, Db}
use posts_media.Idempotency.{Context, IdempotencyRequest, AcquireResult}
use posts_media.Idempotency.Key.{validate_idempotency_key}
use posts_media.Idempotency.Fingerprint.{FingerprintFile, build_fingerprint_files}
use posts_media.Idempotency.Service.{acquire_or_replay}
use posts_media.Validation.Uploads.{File}
use posts_media.Posts.{Post}
use posts_media.Posts.Promotion.{Promotion}
use posts_media.Posts.Requests.{
  Site, Service, Course, compensated, finished, concluded, claimed, proceeded, fingerprinted, keyed,
  handle,
}

-- the request is not answered with a body
abbrev pub IsFailure : Reply Json → Type 0
IsFailure (replied body) = ⊥
IsFailure (rejected e) = Unit
IsFailure crashed = Unit

module _ (X : Tables) (P : Table String Post) (I : Table String IdempotencyRequest)
    (O : ObjectStorage) (service : Service) (c : Course X P I O) (Q : P.State → Db X → Type 0) where
  -- what holds of the posts and the media, and others keep, holds after the failure
  abbrev pub Framed : Site X P I O × Reply Json → Type 0
  Framed (s, answer) = IsFailure answer → Q s.posts s.db

  abbrev pub Others : Type 0
  Others = (s : Site X P I O) → Q s.posts s.db → Q (c.meanwhile s).posts (c.meanwhile s).db

  finished-Framed :
      (key : String) (promoted : List ObjectRef) (s : Site X P I O)
      (made : Option (Site X P I O × Json))
      → Q s.posts s.db
      → Framed (finished X P I O service c key promoted s made)
  unfolding compensated
  finished-Framed key promoted s none h f = h
  finished-Framed key promoted s (some (committed, body)) h f = absurd f

  pub concluded-Framed :
      Others
      → (tx : List ObjectRef → Site X P I O → Option (Site X P I O × Json)) (key : String)
        (p : Promotion O.State) (s : Site X P I O)
      → Q s.posts s.db
      → Framed (concluded X P I O service c tx key p s)
  unfolding concluded compensated
  concluded-Framed others tx key p s h = elim (Bool-cases p.failed) [
    | inl failed ↦ rw failed (λ f. h)
    | inr kept ↦
        let s' = c.meanwhile (record s { objects = p.objects }) in
        rw kept (
          finished-Framed key p.promoted s' (tx p.promoted s')
            (others (record s { objects = p.objects }) h))
  ]

  -- the same of an answer that may be missing
  abbrev AllFramed : Option (Site X P I O × Reply Json) → Type 0
  AllFramed none = Unit
  AllFramed (some r) = Framed r

  module _ (context : String → Context) (fingerprint : List FingerprintFile → String)
      (files : List File) (act : String → Site X P I O → Site X P I O × Reply Json)
      (framed : (key : String) (s : Site X P I O) → Q s.posts s.db → Framed (act key s)) where
    claimed-Framed :
        (key : String) (claim : Result AcquireResult) (s : Site X P I O)
        → Q s.posts s.db
        → Framed (claimed X P I O service c context fingerprint files act key claim s)
    unfolding claimed
    claimed-Framed key (err e) s h f = h
    claimed-Framed key (ok (AcquireResult.replay o)) s h f = h
    claimed-Framed key (ok AcquireResult.acquired) s h f = framed key s h f

    proceeded-AllFramed :
        (key : String) (s : Site X P I O) (acquired : Option (I.State × Result AcquireResult))
        → Q s.posts s.db
        → AllFramed (proceeded X P I O service c context fingerprint files act key s acquired)
    proceeded-AllFramed key s none h = tt
    proceeded-AllFramed key s (some (requests, claim)) h =
        claimed-Framed key claim (record s { requests = requests }) h

    fingerprinted-AllFramed :
        (key : String) (s : Site X P I O) (fs : Option (Result (List FingerprintFile)))
        → Q s.posts s.db
        → AllFramed (fingerprinted X P I O service c context fingerprint files act key s fs)
    fingerprinted-AllFramed key s none h = λ f. h
    fingerprinted-AllFramed key s (some (err e)) h = λ f. h
    fingerprinted-AllFramed key s (some (ok fs)) h =
        proceeded-AllFramed key s
          (acquire_or_replay I service.idempotency c.fuel c.env (context key) (fingerprint fs)
            s.requests)
          h

    keyed-AllFramed :
        (s : Site X P I O) (key : Result String)
        → Q s.posts s.db
        → AllFramed (keyed X P I O service c context fingerprint files act s key)
    keyed-AllFramed s (err e) h = λ f. h
    keyed-AllFramed s (ok key) h =
        fingerprinted-AllFramed key s (build_fingerprint_files service.tools files) h

    pub handle-Framed :
        (idempotency_key : Option String) (s s' : Site X P I O) (answer : Reply Json)
        → Q s.posts s.db
        → handle X P I O service c context fingerprint files act idempotency_key s
          ≡ some (s', answer)
        → IsFailure answer
        → Q s'.posts s'.db
    unfolding handle
    handle-Framed idempotency_key s s' answer h done failure =
        subst AllFramed done (keyed-AllFramed s (validate_idempotency_key idempotency_key) h)
          failure
