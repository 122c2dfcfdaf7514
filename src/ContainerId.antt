-- ===== src/ContainerId.antt =====
-- pkg/docker-proxy/mutagen-bridge/container-id.go: container ids packed into session labels.
-- `none` is the panic of `compressContainerID`.
pub mod RoundTrip
pub mod Labels
mod Tests
use remote_docker_agent.Prelude.{
  ℕ, ◌≡◌, Bool, ◌||◌, Option, none, some, List, [], ◌∷◌, ◌++◌, map, ◌==◌, ltb, if◌then◌else◌, not,
  length, Text,
}
use remote_docker_agent.Encoding.Hex.{hex_decode, hex_encode}
use remote_docker_agent.Encoding.Base64.{base64_encode, base64_decode}

-- `strings.ReplaceAll` of one character by another.
abbrev pub replace_all : ℕ → ℕ → Text → Text
replace_all old new = map λ c. if c == old then new else c

unfoldable pub escape_base64 : Text → Text
escape_base64 s = replace_all b'/' b'.' (replace_all b'+' b'_' (replace_all b'=' b'-' s))

unfoldable pub unescape_base64 : Text → Text
unescape_base64 s = replace_all b'.' b'/' (replace_all b'_' b'+' (replace_all b'-' b'=' s))

unfoldable pub compress_container_id : Text → Option Text
unfolding escape_base64
compress_container_id raw_container_id = elim (hex_decode raw_container_id) [
  | none ↦ none
  | some bytes ↦ some (b'0' ∷ (escape_base64 (base64_encode bytes) ++ b'0' ∷ []))
]

-- The text between the first and the last character, where both are '0'.
strip_last : Text → Option Text
strip_last [] = none
strip_last (c ∷ []) = if c == b'0' then some [] else none
strip_last (c ∷ d ∷ s) = elim (strip_last (d ∷ s)) [ none ↦ none | some t ↦ some (c ∷ t) ]

strip_zeros : Text → Option Text
unfolding strip_last
strip_zeros [] = none
strip_zeros (c ∷ s) = if c == b'0' then strip_last s else none

decode_label : Text → Text
unfolding unescape_base64
decode_label s = elim (base64_decode (unescape_base64 s)) [
  | none ↦ []
  | some bytes ↦ hex_encode bytes
]

unfoldable pub decompress_container_id : Text → Text
unfolding strip_zeros decode_label
decompress_container_id compressed_id = elim (strip_zeros compressed_id) [
  | none ↦ []
  | some base64_str ↦ decode_label base64_str
]
