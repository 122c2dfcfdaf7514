-- ===== src/ContainerId/Tests.antt =====
-- Container ids at concrete inputs.
use remote_docker_agent.Prelude.{
  ◌+◌, ◌/◌, ◌%◌, ◌*◌, ◌≡◌, ◌≢◌, ◌↔◌, refl, none, some, [], ◌∷◌, ◌++◌, length, Text, codes, All,
  arith,
}
use remote_docker_agent.Encoding.Hex.{IsHex, hex_decode, hex_encode}
use remote_docker_agent.Encoding.Base64.{base64_encode, base64_decode}
use remote_docker_agent.ContainerId.{compress_container_id, decompress_container_id}
use remote_docker_agent.ContainerId.RoundTrip.{
  decompress-compress, compress-none_iff, compress-decompress-ne-none,
}
use remote_docker_agent.ContainerId.Labels.{IsLabelChar, compress_shape}

abbrev short_id : Text
short_id = codes "0afbff"

compress_runs : compress_container_id short_id ≡ some (codes "0Cvv.0")
unfolding compress_container_id hex_decode base64_encode
compress_runs = refl

decompress_runs :
    (decompress_container_id (codes "0Cvv.0") ≡ codes "0afbff")
    × (decompress_container_id (codes "0Cvv-0") ≡ codes "0afb")
    × (decompress_container_id (codes "0") ≡ [])
    × (decompress_container_id (codes "0CvvT-0") ≡ [])
    × (decompress_container_id (codes "0Cv--0") ≡ codes "0a")
unfolding decompress_container_id base64_decode hex_encode
decompress_runs = (refl, refl, refl, refl, refl)

-- An odd number of digits panics, also as the id that a client may abbreviate.
compress_panics : compress_container_id (codes "abc") ≡ none
unfolding compress_container_id hex_decode
compress_panics = refl

decompress-compress_example :
    (label : Text) × (compress_container_id short_id ≡ some label)
    × (decompress_container_id label ≡ short_id)
decompress-compress_example = decompress-compress short_id (omega arith) refl

compress-none_iff_example :
    (compress_container_id (codes "abc") ≡ none)
    ↔ (¬ (All IsHex (codes "abc") × (length (codes "abc") % 2 ≡ 0)))
compress-none_iff_example = compress-none_iff (codes "abc")

packs_again : compress_container_id (decompress_container_id (codes "0Cvv.0")) ≢ none
packs_again = compress-decompress-ne-none (codes "0Cvv.0")

compress_shape_example :
    All IsLabelChar (codes "0Cvv.0")
    × ((inner : Text) × (codes "0Cvv.0" ≡ b'0' ∷ (inner ++ b'0' ∷ [])))
    × (length (codes "0Cvv.0") ≡ 4 * ((length short_id / 2 + 2) / 3) + 2)
compress_shape_example = compress_shape short_id (codes "0Cvv.0") compress_runs
