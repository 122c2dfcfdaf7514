-- ===== src/ContainerId/Labels.antt =====
-- The shape of a packed container id: what Mutagen accepts as the value of a label.
use remote_docker_agent.Prelude.{
  ℕ, suc, ◌+◌, ◌*◌, ◌/◌, ◌≤◌, ◌≡◌, refl, ap, ◌⊎◌, inl, inr, some, List, [], ◌∷◌, ◌++◌, length,
  length-append, Text, All, All-append, arith,
}
use remote_docker_agent.Encoding.Hex.{hex_decode_sound, length-hex_decode}
use remote_docker_agent.Encoding.Base64.{
  base64_char, base64_encode, IsBase64, base64_encode-IsBase64,
}
use remote_docker_agent.ContainerId.{escape_base64, compress_container_id}
use remote_docker_agent.ContainerId.RoundTrip.{compress-eq-some}

-- A letter, a digit, or one of the three marks that a label value may hold.
abbrev pub IsLabelChar : ℕ → Type 0
IsLabelChar c =
    ((b'a' ≤ c) × (c ≤ b'z'))
    ⊎ ((b'A' ≤ c) × (c ≤ b'Z'))
    ⊎ ((b'0' ≤ c) × (c ≤ b'9'))
    ⊎ (c ≡ b'-')
    ⊎ (c ≡ b'_')
    ⊎ (c ≡ b'.')

escape_char-IsLabelChar : (c : ℕ) → IsBase64 c → All IsLabelChar (escape_base64 (c ∷ []))
unfolding escape_base64 base64_char
escape_char-IsLabelChar c (inl (n, h, e)) = rw e (ground arith)
escape_char-IsLabelChar c (inr e) = rw e (ground arith)

escape_base64-IsLabelChar : (s : Text) → All IsBase64 s → All IsLabelChar (escape_base64 s)
unfolding escape_base64
escape_base64-IsLabelChar [] h = tt
escape_base64-IsLabelChar (c ∷ s) (hc, h) =
    (unfold escape_base64 in (escape_char-IsLabelChar c hc).0, escape_base64-IsLabelChar s h)

length-escape_base64 : (s : Text) → length (escape_base64 s) ≡ length s
unfolding escape_base64
length-escape_base64 [] = refl
length-escape_base64 (c ∷ s) = ap suc (length-escape_base64 s)

length-base64_encode : (bs : List ℕ) → length (base64_encode bs) ≡ 4 * ((length bs + 2) / 3)
unfolding base64_encode
length-base64_encode [] = refl
length-base64_encode (a ∷ []) = refl
length-base64_encode (a ∷ b ∷ []) = refl
length-base64_encode (a ∷ b ∷ c ∷ bs) = omega (arith, length-base64_encode bs)

-- A packed id of n bytes consists of label characters alone, starts and ends with the digit 0, and
-- has 4⌈n/3⌉ + 2 characters: 46 for a full container id of 64 digits.
pub compress_shape :
    (id label : Text)
    → compress_container_id id ≡ some label
    → All IsLabelChar label
      × ((inner : Text) × (label ≡ b'0' ∷ (inner ++ b'0' ∷ [])))
      × (length label ≡ 4 * ((length id / 2 + 2) / 3) + 2)
compress_shape id label e =
    let (bytes, decoded, shape) = compress-eq-some id e in
    let (_, _, small) = hex_decode_sound id decoded in
    let inner = escape_base64 (base64_encode bytes) in
    let zero_ok : IsLabelChar b'0' = omega arith in
    let chars : All IsLabelChar inner =
      escape_base64-IsLabelChar (base64_encode bytes) (base64_encode-IsBase64 bytes small) in
    (
      rw shape (zero_ok, All-append IsLabelChar inner (b'0' ∷ []) chars (zero_ok, tt)),
      (inner, shape),
      rw shape (
          omega (
            arith,
            length-append inner (b'0' ∷ []),
            length-escape_base64 (base64_encode bytes),
            length-base64_encode bytes,
            length-hex_decode id decoded,
          )),
    )
