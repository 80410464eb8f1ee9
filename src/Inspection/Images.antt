-- ===== src/Inspection/Images.antt =====
-- libs/media/src/validation/image-inspector.service.ts. What sharp reports of a file is an argument; its
-- sizes are natural numbers.
use mathlib.Core.Path.{subst}
use posts_media.Common.{
  ℕ, ◌*◌, ◌≤◌, ◌<◌, String, ◌≡◌, refl, Bool, true, false, ◌||◌, Option, none, some, ltb, ◌==◌,
  string_eq, if◌then◌else◌, arith,
}
use posts_media.Domain.Enums.{MediaType}
use posts_media.Domain.Errors.{DomainError, ErrorCode}
use posts_media.Domain.Json.{num, obj, end, field}
use posts_media.Domain.Result.{Result, ok, err, ◌>>=◌, bind-ok, ok-injective}
use posts_media.Validation.Names.{find_policy}
use posts_media.Inspection.Tables.{HasPolicy, policy-HasPolicy}

pub record SharpMetadata : Type 0 where
  pub format : Option String
  pub width : Option ℕ
  pub height : Option ℕ
  pub page_height : Option ℕ
  pub pages : Option ℕ

pub data ImageFormat : Type 0 where
  jpeg png webp : ImageFormat

abbrev pub format_text : ImageFormat → String
format_text ImageFormat.jpeg = "jpeg"
format_text ImageFormat.png = "png"
format_text ImageFormat.webp = "webp"

abbrev pub mime_by_format : ImageFormat → String
mime_by_format ImageFormat.jpeg = "image/jpeg"
mime_by_format ImageFormat.png = "image/png"
mime_by_format ImageFormat.webp = "image/webp"

pub record ImageInspection : Type 0 where
  pub format : ImageFormat
  pub width : ℕ
  pub height : ℕ
  pub pages : ℕ

abbrev corrupted_file : DomainError
corrupted_file = record {
  code = ErrorCode.corrupted_file;
  message = "The uploaded image could not be decoded.";
  http_status = 422;
  details = none;
}

abbrev animated_image_not_supported : ℕ → DomainError
animated_image_not_supported pages = record {
  code = ErrorCode.animated_image_not_supported;
  message = "Animated or multi-frame images are not supported.";
  http_status = 422;
  details = some (obj (field "pages" (num pages) end));
}

abbrev image_pixel_limit_exceeded : ℕ → ℕ → ℕ → DomainError
image_pixel_limit_exceeded width height max_pixels = record {
  code = ErrorCode.image_pixel_limit_exceeded;
  message = "The decoded image exceeds the pixel limit.";
  http_status = 422;
  details = some (
      obj (
        field "width" (num width)
          (field "height" (num height) (field "maxPixels" (num max_pixels) end))));
}

abbrev image_format : Option String → Option ImageFormat
image_format none = none
image_format (some f) =
    if f == "jpeg"
    then some ImageFormat.jpeg
    else if f == "png"
    then some ImageFormat.png
    else if f == "webp"
    then some ImageFormat.webp
    else none

-- `a ?? b`
abbrev or_else : Option ℕ → Option ℕ → Option ℕ
or_else none b = b
or_else (some a) b = some a

abbrev or_one : Option ℕ → ℕ
or_one none = 1
or_one (some n) = n

-- the format, the width and the height of a page
abbrev described : Option ImageFormat → Option ℕ → Option ℕ → ℕ → Result ImageInspection
described (some format) (some width) (some page_height) pages =
    if ltb width 1 || ltb page_height 1
    then err corrupted_file
    else ok (record { format = format; width = width; height = page_height; pages = pages })
described _ _ _ pages = err corrupted_file

-- an error of sharp that is caught
abbrev decoded : Bool → Result (Unit {0})
decoded true = ok tt
decoded false = err corrupted_file

abbrev metadata_of : Option SharpMetadata → Result SharpMetadata
metadata_of none = err corrupted_file
metadata_of (some m) = ok m

module _ (max_pixels : ℕ) where
  unfoldable pub assert_safety : ImageInspection → Result (Unit {0})
  assert_safety i =
      if ltb 1 i.pages
      then err (animated_image_not_supported i.pages)
      else if ltb max_pixels (i.width * i.height)
      then err (image_pixel_limit_exceeded i.width i.height max_pixels)
      else ok tt

  -- `metadata` is `none` where sharp throws; `decodes` is whether the body is decoded within a limit
  unfoldable pub inspect : Option SharpMetadata → (decodes : ℕ → Bool) → Result ImageInspection
  inspect metadata decodes = metadata_of metadata >>= λ m.
      described (image_format m.format) m.width (or_else m.page_height m.height) (or_one m.pages)
      >>= λ inspection.
          assert_safety inspection >>= λ _. decoded (decodes max_pixels) >>= λ _. ok inspection

format-HasPolicy : (f : ImageFormat) → HasPolicy MediaType.image (format_text f) (mime_by_format f)
unfolding find_policy
format-HasPolicy ImageFormat.jpeg = policy-HasPolicy "jpeg" _ refl refl
format-HasPolicy ImageFormat.png = policy-HasPolicy "png" _ refl refl
format-HasPolicy ImageFormat.webp = policy-HasPolicy "webp" _ refl refl

described-bounds :
    (f : Option ImageFormat) (width height : Option ℕ) (pages : ℕ) (i : ImageInspection)
    → described f width height pages ≡ ok i
    → (0 < i.width) × (0 < i.height)
described-bounds (some f) (some w) (some h) pages i d = ground arith
described-bounds none w h pages i d = ground arith
described-bounds (some f) none h pages i d = ground arith
described-bounds (some f) (some w) none pages i d = ground arith

assert_safety-bounds :
    (max_pixels : ℕ) (i : ImageInspection) (u : Unit {0})
    → assert_safety max_pixels i ≡ ok u
    → (i.pages ≤ 1) × (i.width * i.height ≤ max_pixels)
unfolding assert_safety
assert_safety-bounds max_pixels i u h = ground arith

decoded-true : (b : Bool) (u : Unit {0}) → decoded b ≡ ok u → b ≡ true
decoded-true true u h = refl
decoded-true false u h = ground arith

-- An image that is accepted has a width and a height, one page at most, and at most the pixels of the
-- limit, within which its body was decoded; and the table of extensions has an image policy with its
-- format and its MIME type.
pub inspect-bounds :
    (max_pixels : ℕ) (metadata : Option SharpMetadata) (decodes : ℕ → Bool) (i : ImageInspection)
    → inspect max_pixels metadata decodes ≡ ok i
    → (0 < i.width)
      × (0 < i.height)
      × (i.pages ≤ 1)
      × (i.width * i.height ≤ max_pixels)
      × (decodes max_pixels ≡ true)
      × HasPolicy MediaType.image (format_text i.format) (mime_by_format i.format)
unfolding inspect
inspect-bounds max_pixels metadata decodes i h =
    let (m, (_, h₁)) = bind-ok (metadata_of metadata) _ i h in
    let (j, (sizes, h₂)) =
      bind-ok
        (described (image_format m.format) m.width (or_else m.page_height m.height)
          (or_one m.pages))
        _ i h₁ in
    let (u, (safe, h₃)) = bind-ok (assert_safety max_pixels j) _ i h₂ in
    let (v, (body, h₄)) = bind-ok (decoded (decodes max_pixels)) _ i h₃ in
    let (wide, high) =
      described-bounds (image_format m.format) m.width (or_else m.page_height m.height)
        (or_one m.pages) j sizes in
    let (single, few) = assert_safety-bounds max_pixels j u safe in
    let is_i = ok-injective j i h₄ in
    subst
      (λ x.
        (0 < x.width)
        × (0 < x.height)
        × (x.pages ≤ 1)
        × (x.width * x.height ≤ max_pixels)
        × (decodes max_pixels ≡ true)
        × HasPolicy MediaType.image (format_text x.format) (mime_by_format x.format))
      is_i
      (wide, high, single, few, decoded-true (decodes max_pixels) v body, format-HasPolicy j.format)
