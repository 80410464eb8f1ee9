-- ===== src/Posts/Requests/Answered.antt =====
-- What is known of a request that is answered with a body.
use posts_media.Common.{
  String, ◌≡◌, false, true, All, Bool-cases, Option, none, some, List, string_eq, arith, inl, inr,
}
use posts_media.Domain.Json.{Json}
use posts_media.Domain.Result.{replied}
use posts_media.Database.Table.{Table}
use posts_media.Storage.{ObjectRef, ObjectStorage}
use posts_media.Schema.{Tables}
use posts_media.Idempotency.{IdempotencyRequest}
use posts_media.Posts.{Post}
use posts_media.Posts.Promotion.{Item, Promotion}
use posts_media.Posts.Requests.{Site, Service, Course, finished, concluded}

module _ (X : Tables) (P : Table String Post) (I : Table String IdempotencyRequest)
    (O : ObjectStorage) (service : Service) (c : Course X P I O) where
  -- others do not remove the originals of these items
  abbrev pub KeepOriginals : (Item → ObjectRef) → List Item → Type 0
  KeepOriginals original is =
      (s : Site X P I O)
      → All (λ i. O.holds (original i) s.objects ≡ true) is
      → All (λ i. O.holds (original i) (c.meanwhile s).objects ≡ true) is

  -- the site at the start of the transaction
  abbrev pub before_tx : Promotion O.State → Site X P I O → Site X P I O
  before_tx p s = c.meanwhile (record s { objects = p.objects })

  finished-replied :
      (key : String) (promoted : List ObjectRef) (s s' : Site X P I O)
      (made : Option (Site X P I O × Json)) (body : Json)
      → finished X P I O service c key promoted s made ≡ (s', replied body)
      → made ≡ some (s', body)
  finished-replied key promoted s s' none body h = ground arith
  finished-replied key promoted s s' (some (t, b)) body h = ground arith

  pub concluded-replied :
      (tx : List ObjectRef → Site X P I O → Option (Site X P I O × Json)) (key : String)
      (p : Promotion O.State) (s s' : Site X P I O) (body : Json)
      → concluded X P I O service c tx key p s ≡ (s', replied body)
      → (p.failed ≡ false) × (tx p.promoted (before_tx p s) ≡ some (s', body))
  unfolding concluded
  concluded-replied tx key p s s' body h = elim (Bool-cases p.failed) [
    | inl failed ↦ ground arith
    | inr kept ↦ (
      kept,
      finished-replied key p.promoted (before_tx p s) s' (tx p.promoted (before_tx p s)) body
          (rw kept at h),
    )
  ]
