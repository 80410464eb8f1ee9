-- ===== src/Signature/Containers.antt =====
-- parseEbmlDocType and parseIsoEvidence of libs/media/src/validation/signature-detector.service.ts
use posts_media.Common.{
  ℕ, zero, suc, ◌+◌, ◌-◌, ◌*◌, ◌/◌, ◌%◌, ◌≤◌, ◌≡◌, String, Bool, true, false, not, ◌&&◌, ◌||◌,
  Option, none, some, List, [], ◌∷◌, ◌==◌, nat_eq, ltb, leb, length, drop, take, any, codes,
  if◌then◌else◌, arith, sym, Option-cases, inl, inr, is_some,
}
use posts_media.Signature.Integers.{parse_variable_integer, parse-bounds}

pub data Variant : Type 0 where
  mp4 mov m4a webm mkv : Variant

abbrev pub same_bytes : List ℕ → List ℕ → Bool
same_bytes [] [] = true
same_bytes (x ∷ xs) (y ∷ ys) = x == y && same_bytes xs ys
same_bytes _ _ = false

-- `toString('ascii')` drops the highest bit of each byte
abbrev ascii : List ℕ → List ℕ
ascii [] = []
ascii (b ∷ bytes) = b % 128 ∷ ascii bytes

abbrev pub text_from : List ℕ → ℕ → ℕ → List ℕ
text_from header from to = ascii (take (to - from) (drop from header))

unfoldable pub ascii_at : List ℕ → ℕ → String → Bool
ascii_at header offset value =
    leb (offset + length (codes value)) (length header)
    && same_bytes (text_from header offset (offset + length (codes value))) (codes value)

-- `toLowerCase` on ASCII
abbrev lower : List ℕ → List ℕ
lower [] = []
lower (c ∷ cs) = (if leb 65 c && leb c 90 then c + 32 else c) ∷ lower cs

abbrev doc_type : List ℕ → Option Variant
doc_type text =
    if same_bytes text (codes "webm")
    then some Variant.webm
    else if same_bytes text (codes "matroska")
    then some Variant.mkv
    else none

-- The loop from `cursor` to `end`; the fuel bounds its rounds, and the outer `none` says that it ran
-- out before the loop ended.
unfoldable pub ebml_elements : ℕ → List ℕ → ℕ → ℕ → Option (Option Variant)
ebml_elements zero header cursor end = if ltb cursor end then none else some none
ebml_elements (suc fuel) header cursor end = elim (parse_variable_integer header cursor true) [
  | none ↦ some none
  | some id ↦ elim (parse_variable_integer header (cursor + id.length) false) [
    | none ↦ some none
    | some size ↦
        let data_start = cursor + id.length + size.length in
        let data_end = data_start + size.value in
        let rest = ebml_elements fuel header data_end end in
        if not (ltb cursor end)
        then some none
        else if ltb end data_end
        then some none
        else if id.value == 17026
        then some (doc_type (lower (text_from header data_start data_end)))
        else rest
  ]
]

unfoldable pub parse_ebml_doc_type : List ℕ → Option Variant
parse_ebml_doc_type header = elim (parse_variable_integer header 4 false) [
  | none ↦ none
  | some header_size ↦
      let cursor = 4 + header_size.length in
      let end = cursor + header_size.value in
      let found : Option Variant = elim (ebml_elements (length header) header cursor end) [
        | none ↦ none
        | some variant ↦ variant
      ] in
      if ltb (length header) end then none else found
]

pub record IsoEvidence : Type 0 where
  pub variant : Option Variant
  pub shared : Bool

-- readUInt32BE(0)
abbrev uint32 : List ℕ → ℕ
uint32 (a ∷ b ∷ c ∷ d ∷ rest) = ((a * 256 + b) * 256 + c) * 256 + d
uint32 _ = 0

-- the compatible brands: the texts of four bytes from offset 16 to the end of the box
abbrev brands_of : ℕ → List ℕ → List (List ℕ)
brands_of zero bytes = []
brands_of (suc n) bytes = ascii (take 4 bytes) ∷ brands_of n (drop 4 bytes)

abbrev m4_brand : List ℕ → Bool
m4_brand brand =
    same_bytes brand (codes "M4A ")
    || (same_bytes brand (codes "M4B ") || same_bytes brand (codes "M4P "))

abbrev shared_brand : List ℕ → Bool
shared_brand brand =
    any (λ s. same_bytes brand (codes s))
      ("avc1" ∷ "dash" ∷ "iso2" ∷ "iso5" ∷ "iso6" ∷ "isom" ∷ "mp41" ∷ "mp42" ∷ [])

unfoldable pub parse_iso_evidence : List ℕ → Option IsoEvidence
parse_iso_evidence header =
    let box_size = uint32 header in
    let brands = text_from header 8 12 ∷ brands_of ((box_size - 16) / 4) (drop 16 header) in
    if ltb (length header) 16 || not (ascii_at header 4 "ftyp")
    then none
    else if ltb box_size 16 || (ltb (length header) box_size || not (box_size % 4 == 0))
    then none
    else if any (λ b. same_bytes b (codes "qt  ")) brands
    then some (record { variant = some Variant.mov; shared = false })
    else if any m4_brand brands
    then some (record { variant = some Variant.m4a; shared = false })
    else if any shared_brand brands
    then some (record { variant = none; shared = true })
    else none

ebml_elements-ended :
    (fuel : ℕ) (header : List ℕ) (cursor end : ℕ)
    → end ≤ cursor
    → ebml_elements fuel header cursor end ≡ some none
unfolding ebml_elements
ebml_elements-ended zero header cursor end h = ground arith
ebml_elements-ended (suc fuel) header cursor end h =
    elim (Option-cases (parse_variable_integer header cursor true)) [
      | inl gone ↦ ground arith
      | inr (id, there) ↦
          elim (Option-cases (parse_variable_integer header (cursor + id.length) false)) [
            | inl gone ↦ ground arith
            | inr (size, here) ↦ ground arith
          ]
    ]

ebml_elements-total :
    (fuel fuel' : ℕ) (header : List ℕ) (cursor end : ℕ)
    → end ≤ cursor + fuel
    → end ≤ cursor + fuel'
    → (is_some (ebml_elements fuel header cursor end) ≡ true)
      × (ebml_elements fuel header cursor end ≡ ebml_elements fuel' header cursor end)
unfolding ebml_elements
ebml_elements-total zero fuel' header cursor end h k =
    let same = ebml_elements-ended fuel' header cursor end (omega arith) in rw same (ground arith)
ebml_elements-total (suc fuel) zero header cursor end h k =
    let same = ebml_elements-ended (suc fuel) header cursor end (omega arith) in
    rw same (ground arith)
ebml_elements-total (suc fuel) (suc fuel') header cursor end h k =
    elim (Option-cases (parse_variable_integer header cursor true)) [
      | inl gone ↦ ground arith
      | inr (id, there) ↦
          elim (Option-cases (parse_variable_integer header (cursor + id.length) false)) [
            | inl gone ↦ ground arith
            | inr (size, here) ↦
                let bounds = parse-bounds header cursor true id there in
                ground (
                  arith,
                  ebml_elements-total fuel fuel' header
                      (cursor + id.length + size.length + size.value) end (omega (arith, bounds))
                      (omega (arith, bounds)),
                )
          ]
    ]

-- The loop over the EBML elements of a header ends: where its end lies within the header, as many
-- rounds as the header has bytes never run out, and any number of rounds that covers the distance
-- from the cursor to the end gives the same result.
pub ebml_elements-ends :
    (fuel : ℕ) (header : List ℕ) (cursor end : ℕ)
    → end ≤ length header
    → end ≤ cursor + fuel
    → (is_some (ebml_elements (length header) header cursor end) ≡ true)
      × (ebml_elements fuel header cursor end ≡ ebml_elements (length header) header cursor end)
ebml_elements-ends fuel header cursor end within enough =
    let (total, same) =
      ebml_elements-total (length header) fuel header cursor end (omega arith) enough in
    (total, sym same)
