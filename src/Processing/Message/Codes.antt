-- ===== src/Processing/Message/Codes.antt =====
-- What `safeProcessingErrorMessage` of apps/worker/src/processing/worker-claim.service.ts lets through.
use posts_media.Common.{
  ℕ, ◌≤◌, Text, ◌≡◌, ◌≢◌, ◌++◌, ◌⊎◌, inl, inr, refl, Bool, true, false, ◌||◌, List, [], ◌∷◌, codes,
  trim, trim_start, trim_end, is_space, All, all, length, take, length-take-le, if◌then◌else◌,
  arith, Bool-cases,
}
use posts_media.Processing.Message.{
  before, is_identifier_char, after_prefix, non_empty, tagged, is_safe_identifier,
  safe_processing_error_message,
}

-- `[A-Z0-9_]`
abbrev pub IsIdentifierChar : ℕ → Type 0
IsIdentifierChar c = ((b'A' ≤ c) × (c ≤ b'Z')) ⊎ (((b'0' ≤ c) × (c ≤ b'9')) ⊎ (c ≡ b'_'))

all_identifier : (cs : List ℕ) → all is_identifier_char cs ≡ true → All IsIdentifierChar cs
all_identifier [] h = tt
all_identifier (c ∷ cs) h = (ground arith, all_identifier cs (ground arith))

-- the codes that may be stored, by their prefix
pub data Tag : Type 0 where
  processing media ffmpeg ffprobe : Tag

abbrev pub prefix_of : Tag → Text
prefix_of Tag.processing = codes "PROCESSING_"
prefix_of Tag.media = codes "MEDIA_"
prefix_of Tag.ffmpeg = codes "FFMPEG_"
prefix_of Tag.ffprobe = codes "FFPROBE_"

-- A code that names no more than a step of the processing: a known prefix, then upper case letters,
-- digits and underscores, cut to 1000 characters.
pub record IsCode (m : Text) : Type 0 where
  pub tag : Tag
  pub rest : Text
  pub named : rest ≢ []
  pub chars : All IsIdentifierChar rest
  pub cut : m ≡ take 1000 (prefix_of tag ++ rest)
  pub bound : length m ≤ 1000

after_prefix-append :
    (p cs : List ℕ) → non_empty (after_prefix p cs) ≡ true → p ++ after_prefix p cs ≡ cs
unfolding after_prefix non_empty
after_prefix-append [] cs h = refl
after_prefix-append (p ∷ ps) [] h = ground arith
after_prefix-append (p ∷ ps) (c ∷ cs) h = ground (arith, after_prefix-append ps cs)

tagged-IsCode : (tag : Tag) (cs : List ℕ) → tagged (prefix_of tag) cs ≡ true → IsCode (take 1000 cs)
unfolding tagged
tagged-IsCode tag cs h = record {
  tag = tag;
  rest = after_prefix (prefix_of tag) cs;
  named = ground arith;
  chars = all_identifier (after_prefix (prefix_of tag) cs) (ground arith);
  cut = rw (after_prefix-append (prefix_of tag) cs (ground arith)) refl;
  bound = length-take-le 1000 cs;
}

-- a test made of four
or_cases :
    {R : Type 0} (a b c d : Bool)
    → (a ≡ true → R)
    → (b ≡ true → R)
    → (c ≡ true → R)
    → (d ≡ true → R)
    → (a || (b || (c || d))) ≡ true
    → R
or_cases true b c d f g h k e = f refl
or_cases false true c d f g h k e = g refl
or_cases false false true d f g h k e = h refl
or_cases false false false d f g h k e = k e

safe-IsCode : (cs : List ℕ) → is_safe_identifier cs ≡ true → IsCode (take 1000 cs)
unfolding is_safe_identifier
safe-IsCode cs h =
    or_cases _ _ _ _ (tagged-IsCode Tag.processing cs) (tagged-IsCode Tag.media cs)
      (tagged-IsCode Tag.ffmpeg cs) (tagged-IsCode Tag.ffprobe cs) h

safe_cases :
    (cs : List ℕ)
    → let m = if is_safe_identifier cs then take 1000 cs else codes "Media processing failed." in
      (m ≡ codes "Media processing failed.") ⊎ IsCode m
safe_cases cs = elim (Bool-cases (is_safe_identifier cs)) [
  | inl safe ↦ rw safe (inr (safe-IsCode cs safe))
  | inr other ↦ rw other (inl refl)
]

identifier_not_space : (c : ℕ) → is_identifier_char c ≡ true → is_space c ≡ false
identifier_not_space c h = ground arith

trim_start-identifier : (cs : List ℕ) → all is_identifier_char cs ≡ true → trim_start cs ≡ cs
trim_start-identifier [] h = refl
trim_start-identifier (c ∷ cs) h = rw (identifier_not_space c (ground arith)) refl

trim_end-identifier : (cs : List ℕ) → all is_identifier_char cs ≡ true → trim_end cs ≡ cs
trim_end-identifier [] h = refl
trim_end-identifier (c ∷ []) h = rw (identifier_not_space c (ground arith)) refl
trim_end-identifier (c ∷ d ∷ cs) h = rw (trim_end-identifier (d ∷ cs) (ground arith)) refl

before-append :
    (cs rest : List ℕ) → all is_identifier_char cs ≡ true → before b':' (cs ++ b':' ∷ rest) ≡ cs
unfolding before
before-append [] rest h = refl
before-append (c ∷ cs) rest h = ground (arith, before-append cs rest)

after_prefix-same : (p cs : List ℕ) → after_prefix p (p ++ cs) ≡ cs
unfolding after_prefix
after_prefix-same [] cs = refl
after_prefix-same (p ∷ ps) cs = ground (arith, after_prefix-same ps cs)

identifier_all : (cs : List ℕ) → All IsIdentifierChar cs → all is_identifier_char cs ≡ true
identifier_all [] h = refl
identifier_all (c ∷ cs) h = ground (arith, identifier_all cs h.1)

all-append :
    (xs ys : List ℕ)
    → all is_identifier_char xs ≡ true
    → all is_identifier_char ys ≡ true
    → all is_identifier_char (xs ++ ys) ≡ true
all-append [] ys h k = k
all-append (x ∷ xs) ys h k = ground (arith, all-append xs ys)

tagged-same :
    (p rest : List ℕ) → rest ≢ [] → all is_identifier_char rest ≡ true → tagged p (p ++ rest) ≡ true
unfolding tagged non_empty
tagged-same p [] some_rest h = absurd (some_rest refl)
tagged-same p (c ∷ cs) some_rest h = rw (after_prefix-same p (c ∷ cs), h) refl

by_or : (a : Bool) {b : Bool} → b ≡ true → (a || b) ≡ true
by_or true h = refl
by_or false h = h

-- the test of a code's own prefix is enough
tagged-safe :
    (tag : Tag) (cs : List ℕ) → tagged (prefix_of tag) cs ≡ true → is_safe_identifier cs ≡ true
unfolding is_safe_identifier
tagged-safe Tag.processing cs h = rw h refl
tagged-safe Tag.media cs h = by_or (tagged (codes "PROCESSING_") cs) (rw h refl)
tagged-safe Tag.ffmpeg cs h =
    by_or (tagged (codes "PROCESSING_") cs) (by_or (tagged (codes "MEDIA_") cs) (rw h refl))
tagged-safe Tag.ffprobe cs h =
    by_or (tagged (codes "PROCESSING_") cs)
      (by_or (tagged (codes "MEDIA_") cs) (by_or (tagged (codes "FFMPEG_") cs) h))

prefix_of-identifier : (tag : Tag) → all is_identifier_char (prefix_of tag) ≡ true
prefix_of-identifier Tag.processing = refl
prefix_of-identifier Tag.media = refl
prefix_of-identifier Tag.ffmpeg = refl
prefix_of-identifier Tag.ffprobe = refl

-- the code before the first colon of a message is kept
kept_code :
    (tag : Tag) (rest detail : List ℕ)
    → rest ≢ []
    → All IsIdentifierChar rest
    → safe_processing_error_message ((prefix_of tag ++ rest) ++ b':' ∷ detail)
      ≡ take 1000 (prefix_of tag ++ rest)
unfolding safe_processing_error_message
kept_code tag rest detail some_rest chars =
    let code = prefix_of tag ++ rest in
    let h = identifier_all rest chars in
    let all_chars : all is_identifier_char code ≡ true =
      all-append (prefix_of tag) rest (prefix_of-identifier tag) h in
    rw
      (
        before-append code detail all_chars,
        trim_start-identifier code all_chars,
        trim_end-identifier code all_chars,
        tagged-safe tag code (tagged-same (prefix_of tag) rest some_rest h),
      )
      refl

-- The message that is stored for a failed run is the fixed text, or the first 1000 characters of a
-- text that consists of PROCESSING_, MEDIA_, FFMPEG_ or FFPROBE_ and of one or more upper case
-- letters, digits and underscores; and such a text is stored, cut to 1000 characters, where a
-- message has it before its first colon.
pub safe_processing_error_message-IsCode :
    (message : Text) (tag : Tag) (rest detail : Text)
    → rest ≢ []
    → All IsIdentifierChar rest
    → ((safe_processing_error_message message ≡ codes "Media processing failed.")
        ⊎ IsCode (safe_processing_error_message message))
      × (safe_processing_error_message ((prefix_of tag ++ rest) ++ b':' ∷ detail)
          ≡ take 1000 (prefix_of tag ++ rest))
safe_processing_error_message-IsCode message tag rest detail some_rest chars = (
  unfold safe_processing_error_message in safe_cases (trim (before b':' message)),
  kept_code tag rest detail some_rest chars,
)
