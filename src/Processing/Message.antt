-- ===== src/Processing/Message.antt =====
-- `safeProcessingErrorMessage` of apps/worker/src/processing/worker-claim.service.ts
pub mod Codes
use posts_media.Common.{
  ℕ, Text, ◌≡◌, refl, Bool, true, false, ◌&&◌, ◌||◌, List, [], ◌∷◌, leb, nat_beq, codes, trim, all,
  take, if◌then◌else◌,
}

-- `message.split(sep, 1)[0]`
before : ℕ → List ℕ → List ℕ
before sep [] = []
before sep (c ∷ cs) = let rest = c ∷ before sep cs in if nat_beq c sep then [] else rest

-- `[A-Z0-9_]`
abbrev is_identifier_char : ℕ → Bool
is_identifier_char c = (leb b'A' c && leb c b'Z') || ((leb b'0' c && leb c b'9') || nat_beq c b'_')

-- the text after a prefix, if it is one
after_prefix : List ℕ → List ℕ → List ℕ
after_prefix [] cs = cs
after_prefix (p ∷ ps) [] = []
after_prefix (p ∷ ps) (c ∷ cs) = let rest = after_prefix ps cs in if nat_beq p c then rest else []

non_empty : List ℕ → Bool
non_empty [] = false
non_empty (c ∷ cs) = true

-- `^<prefix>_[A-Z0-9_]+$`, for a prefix with its underscore
tagged : List ℕ → List ℕ → Bool
unfolding after_prefix non_empty
tagged prefix cs =
    let rest = after_prefix prefix cs in non_empty rest && all is_identifier_char rest

is_safe_identifier : List ℕ → Bool
is_safe_identifier cs =
    tagged (codes "PROCESSING_") cs
    || (tagged (codes "MEDIA_") cs || (tagged (codes "FFMPEG_") cs || tagged (codes "FFPROBE_") cs))

-- Over code points. A text that passes the test is ASCII, so that `slice(0, 1000)` counts alike.
unfoldable pub safe_processing_error_message : Text → Text
unfolding is_safe_identifier tagged before
safe_processing_error_message message =
    let identifier = trim (before b':' message) in
    if is_safe_identifier identifier then take 1000 identifier else codes "Media processing failed."

keeps_code :
    safe_processing_error_message (codes "FFMPEG_FAILED: /tmp/secret") ≡ codes "FFMPEG_FAILED"
unfolding safe_processing_error_message
keeps_code = refl

hides_path :
    safe_processing_error_message (codes "ENOENT: /tmp/secret") ≡ codes "Media processing failed."
unfolding safe_processing_error_message
hides_path = refl
