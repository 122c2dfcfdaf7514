-- ===== src/Encoding.antt =====
-- Go's `encoding/hex` and `encoding/base64` (`StdEncoding`), as far as the program calls them.
-- `none` is the error of a decoder, whose partial output the program never reads.
pub mod Hex
pub mod Base64
