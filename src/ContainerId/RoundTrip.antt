-- ===== src/ContainerId/RoundTrip.antt =====
-- Packing a container id and unpacking it again, and when packing panics.
use remote_docker_agent.Prelude.{
  ℕ, ◌%◌, ◌≡◌, ◌≢◌, refl, ap, ◌∙◌, sym, ◌↔◌, inl, inr, none, some, List, [], ◌∷◌, ◌++◌, ◌==◌,
  if◌then◌else◌, length, Text, All, Option-cases, arith,
}
use mathlib.Core.Path.{ap₂}
use remote_docker_agent.Encoding.Hex.{
  IsHex, IsLowerHex, IsByte, hex_decode, hex_encode, hex_decode-total, hex_decode_sound,
  hex_encode-hex_decode, hex_decode-hex_encode,
}
use remote_docker_agent.Encoding.Base64.{
  base64_char, base64_encode, base64_decode, IsBase64, base64_encode-IsBase64,
  base64_decode-base64_encode, base64_decode-IsByte,
}
use remote_docker_agent.ContainerId.{
  escape_base64, unescape_base64, compress_container_id, strip_last, strip_zeros, decode_label,
  decompress_container_id,
}

abbrev escape_char : ℕ → ℕ
escape_char c =
    let d = if c == b'=' then b'-' else c in
    let e = if d == b'+' then b'_' else d in if e == b'/' then b'.' else e

abbrev unescape_char : ℕ → ℕ
unescape_char c =
    let d = if c == b'-' then b'=' else c in
    let e = if d == b'_' then b'+' else d in if e == b'.' then b'/' else e

unescape_char-escape_char : (c : ℕ) → IsBase64 c → unescape_char (escape_char c) ≡ c
unfolding base64_char
unescape_char-escape_char c (inl (n, h, e)) = rw e (ground arith)
unescape_char-escape_char c (inr e) = rw e

unescape_base64-escape_base64 : (s : Text) → All IsBase64 s → unescape_base64 (escape_base64 s) ≡ s
unfolding unescape_base64 escape_base64
unescape_base64-escape_base64 [] h = refl
unescape_base64-escape_base64 (c ∷ s) (hc, h) =
    ap₂ ◌∷◌ (unescape_char-escape_char c hc) (unescape_base64-escape_base64 s h)

strip_last-append : (s : Text) → strip_last (s ++ b'0' ∷ []) ≡ some s
unfolding strip_last
strip_last-append [] = refl
strip_last-append (c ∷ []) = refl
strip_last-append (c ∷ d ∷ s) = rw (strip_last-append (d ∷ s))

strip_zeros-cons : (s : Text) → strip_zeros (b'0' ∷ (s ++ b'0' ∷ [])) ≡ some s
unfolding strip_zeros
strip_zeros-cons s = strip_last-append s

decode_label-encoded :
    (bytes : List ℕ)
    → All IsByte bytes
    → decode_label (escape_base64 (base64_encode bytes)) ≡ hex_encode bytes
unfolding decode_label
decode_label-encoded bytes h = rw (
  unescape_base64-escape_base64 (base64_encode bytes) (base64_encode-IsBase64 bytes h),
  base64_decode-base64_encode bytes h,
  decode_label,
)

compress-eq :
    (id : Text) {bytes : List ℕ}
    → hex_decode id ≡ some bytes
    → compress_container_id id ≡ some (b'0' ∷ (escape_base64 (base64_encode bytes) ++ b'0' ∷ []))
unfolding compress_container_id
compress-eq id e = rw (e, compress_container_id)

pub compress-eq-some :
    (id : Text) {label : Text}
    → compress_container_id id ≡ some label
    → (bytes : List ℕ) × (hex_decode id ≡ some bytes)
      × (label ≡ b'0' ∷ (escape_base64 (base64_encode bytes) ++ b'0' ∷ []))
unfolding compress_container_id
compress-eq-some id {label} e = elim (Option-cases (hex_decode id)) [
  | inl n ↦ let k : none ≡ some label = rw (n, compress_container_id) at e in cc
  | inr (bytes, s) ↦ (bytes, s, cc (compress-eq id s))
]

All-IsHex : (id : Text) → All IsLowerHex id → All IsHex id
All-IsHex [] h = tt
All-IsHex (c ∷ id) (hc, h) = (inl hc, All-IsHex id h)

-- Every container id in lower-case hexadecimal with an even number of digits is packed without a
-- panic, and unpacking the label gives the same id back.
pub decompress-compress :
    (id : Text)
    → All IsLowerHex id
    → length id % 2 ≡ 0
    → (label : Text) × (compress_container_id id ≡ some label)
      × (decompress_container_id label ≡ id)
unfolding decompress_container_id
decompress-compress id h even =
    let (bytes, e) = hex_decode-total id (All-IsHex id h) even in
    let (_, _, small) = hex_decode_sound id e in
    (
      b'0' ∷ (escape_base64 (base64_encode bytes) ++ b'0' ∷ []),
      compress-eq id e,
      rw (strip_zeros-cons (escape_base64 (base64_encode bytes)), decompress_container_id)
          (decode_label-encoded bytes small ∙ hex_encode-hex_decode id h e),
    )

-- Packing panics exactly on a text that has a character which is no hexadecimal digit, or an odd
-- number of characters.
pub compress-none_iff :
    (id : Text) → (compress_container_id id ≡ none) ↔ (¬ (All IsHex id × (length id % 2 ≡ 0)))
unfolding compress_container_id
compress-none_iff id = elim (Option-cases (hex_decode id)) [
  | inl e ↦ (
    λ _ (h, even). let (bytes, s) = hex_decode-total id h even in cc,
    λ _. rw (e, compress_container_id),
  )
  | inr (bytes, e) ↦ (
    λ n. let k : some _ ≡ none = sym (compress-eq id e) ∙ n in cc,
    λ no. let (h, even, _) = hex_decode_sound id e in absurd (no (h, even)),
  )
]

compress-ne-none_of_nil : compress_container_id [] ≢ none
unfolding compress_container_id hex_decode
compress-ne-none_of_nil h = cc

-- What unpacking gives can always be packed: the text is empty or whole pairs of digits.
pub compress-decompress-ne-none :
    (label : Text) → compress_container_id (decompress_container_id label) ≢ none
unfolding decompress_container_id
compress-decompress-ne-none label = elim (Option-cases (strip_zeros label)) [
  | inl e ↦ rw (e, decompress_container_id) compress-ne-none_of_nil
  | inr (s, e) ↦ elim (Option-cases (base64_decode (unescape_base64 s))) [
    | inl f ↦ rw (e, f, decompress_container_id, decode_label) compress-ne-none_of_nil
    | inr (bytes, f) ↦ λ h.
        let same : decompress_container_id label ≡ hex_encode bytes =
          rw (e, f, decompress_container_id, decode_label) in
        let packed =
          compress-eq (hex_encode bytes)
            (hex_decode-hex_encode bytes (base64_decode-IsByte _ bytes f)) in
        let k = sym h ∙ ap compress_container_id same ∙ packed in cc
  ]
]
