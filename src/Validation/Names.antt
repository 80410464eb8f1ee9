-- ===== src/Validation/Names.antt =====
-- File names and declared types: normalizeOriginalFilename and resolveExtensionPolicy of
-- libs/media/src/validation/extension-policy.ts, and mime-policy.ts beside it
use Prim.Native.Char.{Char, code}
use posts_media.Common.{
  ℕ, ◌+◌, String, Bool, true, false, not, ◌||◌, Option, none, some, List, [], ◌∷◌, ltb, nat_beq,
  is_space, any, ◌==◌, string_eq, ◌≡◌, ◌≢◌, arith, if◌then◌else◌,
}
use posts_media.Domain.Errors.{DomainError, ErrorCode}
use posts_media.Domain.Json.{str, obj, end, field}
use posts_media.Domain.Result.{Result, ok, err, ◌>>=◌}
use posts_media.Signature.Policies.{ExtensionPolicy, policies}

-- `.length`, in UTF-16 code units
abbrev units : String → ℕ
units String.[] = 0
units (String.◌∷◌ c s) = (if ltb (code c) 0x10000 then 1 else 2) + units s

abbrev some_char : (ℕ → Bool) → String → Bool
some_char p String.[] = false
some_char p (String.◌∷◌ c s) = p (code c) || some_char p s

abbrev map_chars : (Char → Char) → String → String
map_chars f String.[] = String.[]
map_chars f (String.◌∷◌ c s) = String.◌∷◌ (f c) (map_chars f s)

-- `split(...).at(-1)`: what stands after the last separator
abbrev after_last : (ℕ → Bool) → String → String
after_last p String.[] = String.[]
after_last p (String.◌∷◌ c s) =
    let rest = after_last p s in
    if some_char p s then rest else if p (code c) then s else String.◌∷◌ c s

abbrev is_separator : ℕ → Bool
is_separator c = nat_beq c b'/' || nat_beq c b'\\'

abbrev without_control : Char → Char
without_control c = if ltb (code c) 32 || nat_beq (code c) 127 then " " else c

abbrev starts_with_space : String → Bool
starts_with_space String.[] = false
starts_with_space (String.◌∷◌ c s) = is_space (code c)

-- `replace(/\s+/gu, ' ')`
abbrev collapse_spaces : String → String
collapse_spaces String.[] = String.[]
collapse_spaces (String.◌∷◌ c s) =
    let rest = collapse_spaces s in
    if is_space (code c)
    then (if starts_with_space s then rest else String.◌∷◌ " " rest)
    else String.◌∷◌ c rest

-- trim
abbrev trim_start : String → String
trim_start String.[] = String.[]
trim_start (String.◌∷◌ c s) =
    let rest = trim_start s in if is_space (code c) then rest else String.◌∷◌ c s

abbrev cons_unless_blank : Char → String → String
cons_unless_blank c String.[] = if is_space (code c) then String.[] else String.◌∷◌ c String.[]
cons_unless_blank c (String.◌∷◌ d s) = String.◌∷◌ c (String.◌∷◌ d s)

abbrev trim_end : String → String
trim_end String.[] = String.[]
trim_end (String.◌∷◌ c s) = cons_unless_blank c (trim_end s)

abbrev invalid_original_filename : DomainError
invalid_original_filename = record {
  code = ErrorCode.invalid_original_filename;
  message = "The uploaded file name is invalid.";
  http_status = 422;
  details = none;
}

unfoldable pub normalize_original_filename : String → Result String
normalize_original_filename original_filename =
    let normalized = trim_end (
      trim_start (
        collapse_spaces (map_chars without_control (after_last is_separator original_filename)))) in
    if nat_beq (units normalized) 0 || ltb 255 (units normalized)
    then err invalid_original_filename
    else ok normalized

abbrev is_dot : ℕ → Bool
is_dot c = nat_beq c b'.'

-- what is before the last dot, if there is one
abbrev before_last_dot : String → String
before_last_dot String.[] = String.[]
before_last_dot (String.◌∷◌ c s) =
    let rest = before_last_dot s in if some_char is_dot s then String.◌∷◌ c rest else String.[]

abbrev missing_extension : DomainError
missing_extension = record {
  code = ErrorCode.missing_extension;
  message = "The uploaded file name must include a supported extension.";
  http_status = 422;
  details = none;
}

abbrev unsupported_extension : String → DomainError
unsupported_extension extension = record {
  code = ErrorCode.unsupported_extension;
  message = "The uploaded file extension is not supported.";
  http_status = 422;
  details = some (obj (field "extension" (str extension) end));
}

-- What `table[name]` gives for an object literal: an entry, a member of Object.prototype, or
-- `undefined`.
pub data Member (A : Type 0) : Type 0 where
  own : A → Member A
  inherited : String → Member A
  absent : Member A

abbrev object_members : List String
object_members =
    "constructor" ∷ "__proto__" ∷ "__defineGetter__" ∷ "__defineSetter__" ∷ "__lookupGetter__"
    ∷ "__lookupSetter__" ∷ "hasOwnProperty" ∷ "isPrototypeOf" ∷ "propertyIsEnumerable"
    ∷ "toLocaleString" ∷ "toString" ∷ "valueOf" ∷ []

abbrev inherited_if : {A : Type 0} → String → Bool → Member A
inherited_if name true = inherited name
inherited_if name false = absent

unfoldable pub member : {A : Type 0} → String → Option A → Member A
member name (some a) = own a
member name none = inherited_if name (any (λ m. m == name) object_members)

inherited_if-not_own : {A : Type 0} (name : String) (b : Bool) (a : A) → inherited_if name b ≢ own a
inherited_if-not_own name true a h = ground arith
inherited_if-not_own name false a h = ground arith

pub member-own :
    {A : Type 0} (name : String) (o : Option A) (a : A) → member name o ≡ own a → o ≡ some a
unfolding member
member-own name (some b) a h = ground arith
member-own name none a h =
    absurd (inherited_if-not_own name (any (λ m. m == name) object_members) a h)

unfoldable pub find_policy : String → List ExtensionPolicy → Option ExtensionPolicy
find_policy extension [] = none
find_policy extension (p ∷ ps) =
    let rest = find_policy extension ps in if p.extension == extension then some p else rest

abbrev pub supported : String → Member ExtensionPolicy → Result (Member ExtensionPolicy)
supported extension absent = err (unsupported_extension extension)
supported extension found = ok found

abbrev unsupported_mime_type : String → DomainError
unsupported_mime_type normalized = record {
  code = ErrorCode.unsupported_mime_type;
  message = "The uploaded file MIME type is not supported.";
  http_status = 422;
  details =
      if nat_beq (units normalized) 0
      then none
      else some (obj (field "declaredMimeType" (str normalized) end));
}

-- an alias and the type that it stands for
pub record Alias : Type 0 where
  declared : String
  canonical : String

abbrev alias : String → String → Alias
alias declared canonical = record { declared = declared; canonical = canonical }

abbrev pub aliases : List Alias
aliases =
    alias "application/octet-stream" "application/octet-stream"
    ∷ alias "application/ogg" "audio/ogg"
    ∷ alias "audio/aac" "audio/aac"
    ∷ alias "audio/aacp" "audio/aac"
    ∷ alias "audio/flac" "audio/flac"
    ∷ alias "audio/m4a" "audio/mp4"
    ∷ alias "audio/mp3" "audio/mpeg"
    ∷ alias "audio/mp4" "audio/mp4"
    ∷ alias "audio/mpeg" "audio/mpeg"
    ∷ alias "audio/ogg" "audio/ogg"
    ∷ alias "audio/wav" "audio/wav"
    ∷ alias "audio/wave" "audio/wav"
    ∷ alias "audio/x-aac" "audio/aac"
    ∷ alias "audio/x-flac" "audio/flac"
    ∷ alias "audio/x-m4a" "audio/mp4"
    ∷ alias "audio/x-mp3" "audio/mpeg"
    ∷ alias "audio/x-wav" "audio/wav"
    ∷ alias "image/jpeg" "image/jpeg"
    ∷ alias "image/jpg" "image/jpeg"
    ∷ alias "image/pjpeg" "image/jpeg"
    ∷ alias "image/png" "image/png"
    ∷ alias "image/webp" "image/webp"
    ∷ alias "image/x-png" "image/png"
    ∷ alias "video/matroska" "video/x-matroska"
    ∷ alias "video/mp4" "video/mp4"
    ∷ alias "video/quicktime" "video/quicktime"
    ∷ alias "video/webm" "video/webm"
    ∷ alias "video/x-matroska" "video/x-matroska"
    ∷ []

abbrev find_alias : String → List Alias → Option String
find_alias declared [] = none
find_alias declared (a ∷ rows) =
    let rest = find_alias declared rows in if a.declared == declared then some a.canonical else rest

abbrev known_type : String → Member String → Result (Member String)
known_type normalized absent = err (unsupported_mime_type normalized)
known_type normalized found = ok found

-- `split(';', 1)[0]`
abbrev before_semicolon : String → String
before_semicolon String.[] = String.[]
before_semicolon (String.◌∷◌ c s) =
    let rest = before_semicolon s in if nat_beq (code c) b';' then String.[] else String.◌∷◌ c rest

-- `policies[extension]`, where `undefined` throws
unfoldable pub policy_of : String → Result (Member ExtensionPolicy)
policy_of extension = supported extension (member extension (find_policy extension policies))

-- `toLowerCase` is an argument
module _ (to_lower_case : String → String) where
  -- from `lastIndexOf('.')` to the extension in lower case
  unfoldable pub extension_of : String → Result String
  extension_of normalized =
      let last = after_last is_dot normalized in
      if not (some_char is_dot normalized)
        || (nat_beq (units (before_last_dot normalized)) 0 || nat_beq (units last) 0)
      then err missing_extension
      else ok (to_lower_case last)

  unfoldable pub resolve_extension_policy : String → Result (Member ExtensionPolicy)
  resolve_extension_policy original_filename =
      normalize_original_filename original_filename >>= λ normalized.
      extension_of normalized >>= λ extension. policy_of extension

  unfoldable pub canonicalize_declared_mime_type : String → Result (Member String)
  canonicalize_declared_mime_type declared =
      let normalized = to_lower_case (trim_end (trim_start (before_semicolon declared))) in
      known_type normalized (member normalized (find_alias normalized aliases))

unfoldable pub is_declared_mime_compatible : ExtensionPolicy → String → Bool
is_declared_mime_compatible policy canonical =
    canonical == "application/octet-stream" || canonical == policy.detected_mime_type
