-- ===== src/Validation/Accepted.antt =====
-- What the uploads that validation accepts have in common.
use mathlib.Core.Path.{subst}
use posts_media.Common.{
  ℕ, ◌≤◌, ◌<◌, String, ◌≡◌, refl, ap, sym, ◌∙◌, ◌⊎◌, true, some, List, [], ◌∷◌, arith, string_eq,
}
use posts_media.Domain.Enums.{MediaType}
use posts_media.Domain.Result.{ok, bind-ok, ok-injective}
use posts_media.Signature.{SignatureDetection}
use posts_media.Signature.Policies.{ExtensionPolicy, policies}
use posts_media.Validation.Names.{
  Member, own, inherited, absent, find_policy, policy_of, supported, member, member-own,
  extension_of, resolve_extension_policy, normalize_original_filename, is_declared_mime_compatible,
  canonicalize_declared_mime_type,
}
use posts_media.Validation.{
  maximum_bytes, matched, inspected, checked, same_format, within_limit, is_safe, detect, not_empty,
}
use posts_media.Validation.Uploads.{
  File, Limits, Tools, Inspection, Matched, upload_of, ValidatedUpload, or_corrupted,
}

find_policy-extension :
    (extension : String) (ps : List ExtensionPolicy) (p : ExtensionPolicy)
    → find_policy extension ps ≡ some p
    → p.extension ≡ extension
unfolding find_policy
find_policy-extension extension [] p h = ground arith
find_policy-extension extension (q ∷ ps) p h =
    ground (arith, find_policy-extension extension ps p, string_eq.equals_iff q.extension extension)

supported-own :
    (extension : String) (m : Member ExtensionPolicy) (p : ExtensionPolicy)
    → supported extension m ≡ ok (own p)
    → m ≡ own p
supported-own extension (own q) p h = ground arith
supported-own extension (inherited name) p h = ground arith
supported-own extension absent p h = ground arith

policy_of-found :
    (extension : String) (p : ExtensionPolicy)
    → policy_of extension ≡ ok (own p)
    → find_policy p.extension policies ≡ some p
unfolding policy_of
policy_of-found extension p h =
    let found : find_policy extension policies ≡ some p =
      member-own extension (find_policy extension policies) p
        (supported-own extension (member extension (find_policy extension policies)) p h) in
    subst (λ e. find_policy e policies ≡ some p)
      (sym (find_policy-extension extension policies p found)) found

-- the policy of the table that a file name resolves to
resolved_policy :
    (lower : String → String) (name : String) (p : ExtensionPolicy)
    → resolve_extension_policy lower name ≡ ok (own p)
    → find_policy p.extension policies ≡ some p
unfolding resolve_extension_policy
resolved_policy lower name p h =
    let (normalized, (_, rest)) = bind-ok (normalize_original_filename name) _ (own p) h in
    let (extension, (_, last)) = bind-ok (extension_of lower normalized) policy_of (own p) rest in
    policy_of-found extension p last

-- what a policy demands of an upload
abbrev pub IsSound : Limits → ValidatedUpload → Type 0
IsSound limits v =
    (0 < v.size_bytes)
    × (v.size_bytes ≤ maximum_bytes limits v.media_type)
    × ((p : ExtensionPolicy) × ((find_policy v.extension policies ≡ some p)
          × ((v.media_type ≡ p.media_type)
              × ((v.detected_format ≡ p.format)
                  × ((v.detected_mime_type ≡ p.detected_mime_type)
                      × ((v.declared_mime_type ≡ "application/octet-stream")
                          ⊎ (v.declared_mime_type ≡ p.detected_mime_type)))))))

matched-compatible :
    (p : Member ExtensionPolicy) (t : Member String) (s : SignatureDetection) (m : Matched)
    → matched p t s ≡ ok m
    → (p ≡ own m.policy) × (is_declared_mime_compatible m.policy m.declared_mime_type ≡ true)
unfolding matched
matched-compatible (own p) (own t) s m h = ground arith
matched-compatible (inherited n) t s m h = ground arith
matched-compatible absent t s m h = ground arith
matched-compatible (own p) (inherited n) s m h = ground arith
matched-compatible (own p) absent s m h = ground arith

-- an upload of a size that agrees with a matched policy
abbrev Matches : Limits → ℕ → Matched → ValidatedUpload → Type 0
Matches limits size m v =
    (v.size_bytes ≡ size)
    × (v.extension ≡ m.policy.extension)
    × (v.media_type ≡ m.policy.media_type)
    × (size ≤ maximum_bytes limits v.media_type)
    × (v.detected_format ≡ m.policy.format)
    × (v.detected_mime_type ≡ m.policy.detected_mime_type)
    × (v.declared_mime_type ≡ m.declared_mime_type)

same_format-eq :
    (m : Matched) (i : Inspection) (u : Unit {0})
    → same_format m i ≡ ok u
    → (i.format ≡ m.policy.format) × (i.mime_type ≡ m.policy.detected_mime_type)
same_format-eq m i u h = ground (
  arith,
  string_eq.equals_iff i.format m.policy.format,
  string_eq.equals_iff i.mime_type m.policy.detected_mime_type,
)

within_limit-le :
    (limits : Limits) (tools : Tools) (t : MediaType) (size : ℕ) (u : Unit {0})
    → within_limit limits tools t size ≡ ok u
    → size ≤ maximum_bytes limits t
within_limit-le limits tools t size u h = ground arith

not_empty-lt : (size : ℕ) (u : Unit {0}) → not_empty size ≡ ok u → 0 < size
not_empty-lt size u h = ground arith

compatible-or :
    (p : ExtensionPolicy) (t : String)
    → is_declared_mime_compatible p t ≡ true
    → (t ≡ "application/octet-stream") ⊎ (t ≡ p.detected_mime_type)
unfolding is_declared_mime_compatible
compatible-or p t h = ground (
  arith,
  string_eq.equals_iff t "application/octet-stream",
  string_eq.equals_iff t p.detected_mime_type,
)

Matches-IsSound :
    (limits : Limits) (size : ℕ) (m : Matched) (v : ValidatedUpload)
    → 0 < size
    → Matches limits size m v
    → find_policy m.policy.extension policies ≡ some m.policy
    → is_declared_mime_compatible m.policy m.declared_mime_type ≡ true
    → IsSound limits v
Matches-IsSound limits size m v some_bytes
      (sizes, extension, media_type, limited, format, mime_type, declared) found compatible =
    (
      subst (λ n. 0 < n) (sym sizes) some_bytes,
      subst (λ n. n ≤ maximum_bytes limits v.media_type) (sym sizes) limited,
      (
        m.policy,
        (
          subst (λ e. find_policy e policies ≡ some m.policy) (sym extension) found,
          (
            media_type,
            (
              format,
              (
                mime_type,
                subst (λ t. (t ≡ "application/octet-stream") ⊎ (t ≡ m.policy.detected_mime_type))
                    (sym declared) (compatible-or m.policy m.declared_mime_type compatible),
              ),
            ),
          ),
        ),
      ),
    )

module _ (limits : Limits) (tools : Tools) (file : File) (file_index size : ℕ) where
  inspected-Matches :
      (name : String) (m : Matched) (v : ValidatedUpload)
      → inspected limits tools file file_index size name m ≡ ok v
      → Matches limits size m v
  unfolding inspected
  inspected-Matches name m v h =
      let t = m.policy.media_type in
      let (i, (_, h1)) =
        bind-ok (or_corrupted (tools.inspect t file.path m.policy.format)) _ (v) h in
      let (u, (formats, h2)) = bind-ok (same_format m i) _ v h1 in
      let (w, (limited, h3)) = bind-ok (within_limit limits tools t size) _ v h2 in
      let (_, (_, h4)) = bind-ok (is_safe limits tools t i) _ v h3 in
      let (c, (_, h5)) = bind-ok (or_corrupted (tools.checksum file.path)) _ v h4 in
      let (format, mime_type) = same_format-eq m i u formats in
      subst (Matches limits size m) (ok-injective (upload_of file file_index size name m i c) v h5)
        (refl, refl, refl, within_limit-le limits tools t size w limited, format, mime_type, refl)

  pub checked-IsSound :
      (v : ValidatedUpload)
      → checked limits tools file file_index size ≡ ok v
      → (v.size_bytes ≡ size) × IsSound limits v
  unfolding checked
  checked-IsSound v h =
      let (u, (some_bytes, h1)) = bind-ok (not_empty size) _ v h in
      let (name, (_, h2)) = bind-ok (normalize_original_filename file.originalname) _ v h1 in
      let (p, (resolved, h3)) =
        bind-ok (resolve_extension_policy tools.to_lower_case name) _ v h2 in
      let (t, (_, h4)) =
        bind-ok (canonicalize_declared_mime_type tools.to_lower_case file.mimetype) _ v h3 in
      let (s, (_, h5)) = bind-ok (detect limits tools file.path) _ v h4 in
      let (m, (together, h6)) = bind-ok (matched p t s) _ v h5 in
      let (is_own, compatible) = matched-compatible p t s m together in
      let matches = inspected-Matches name m v h6 in
      (
        matches.0,
        Matches-IsSound limits size m v (not_empty-lt size u some_bytes) matches
            (resolved_policy tools.to_lower_case name m.policy (resolved ∙ ap ok is_own))
            compatible,
      )
