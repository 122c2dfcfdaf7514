-- ===== src/Encoding/Hex.antt =====
-- `hex.DecodeString` and `hex.EncodeToString`.
use Prim.Native.Nat.{ℕ}
use remote_docker_agent.Prelude.{
  ◌+◌, ◌-◌, ◌*◌, ◌/◌, ◌%◌, ◌≤◌, ◌<◌, ◌≡◌, refl, ◌⊎◌, inl, inr, ◌&&◌, Option, none, some, List, [],
  ◌∷◌, leb, ltb, if◌then◌else◌, Text, length, All, arith,
}

pub hex_val : ℕ → Option ℕ
hex_val c =
    if leb b'0' c && leb c b'9'
    then some (c - b'0')
    else if leb b'a' c && leb c b'f'
    then some (c - b'a' + 10)
    else if leb b'A' c && leb c b'F'
    then some (c - b'A' + 10)
    else none

pub hex_digit : ℕ → ℕ
hex_digit n = if ltb n 10 then b'0' + n else b'a' + (n - 10)

-- One byte from its two digits, in front of the bytes behind it.
abbrev pub cons_byte : Option ℕ → Option ℕ → Option (List ℕ) → Option (List ℕ)
cons_byte (some h) (some l) (some rest) = some ((h * 16 + l) ∷ rest)
cons_byte (some h) (some l) none = none
cons_byte (some h) none rest = none
cons_byte none l rest = none

unfoldable pub hex_decode : Text → Option (List ℕ)
unfolding hex_val
hex_decode [] = some []
hex_decode (c ∷ []) = none
hex_decode (c ∷ d ∷ s) = cons_byte (hex_val c) (hex_val d) (hex_decode s)

unfoldable pub hex_encode : List ℕ → Text
unfolding hex_digit
hex_encode [] = []
hex_encode (b ∷ bs) = hex_digit (b / 16) ∷ hex_digit (b % 16) ∷ hex_encode bs

abbrev pub IsByte : ℕ → Type 0
IsByte b = b < 256

-- A digit, and the lower-case ones among them, by their ranges.
abbrev pub Within : ℕ → ℕ → ℕ → Type 0
Within lo hi c = (lo ≤ c) × (c ≤ hi)

abbrev pub IsLowerHex : ℕ → Type 0
IsLowerHex c = Within b'0' b'9' c ⊎ Within b'a' b'f' c

abbrev pub IsHex : ℕ → Type 0
IsHex c = IsLowerHex c ⊎ Within b'A' b'F' c

hex_val-hex_digit : (n : ℕ) → n < 16 → hex_val (hex_digit n) ≡ some n
unfolding hex_val hex_digit
hex_val-hex_digit n h = ground arith

pub hex_decode-hex_encode : (bs : List ℕ) → All IsByte bs → hex_decode (hex_encode bs) ≡ some bs
unfolding hex_decode hex_encode
hex_decode-hex_encode [] h = refl
hex_decode-hex_encode (b ∷ bs) h =
    rw
      (
        hex_val-hex_digit (b / 16) (omega (arith, h.0)),
        hex_val-hex_digit (b % 16) (omega arith),
        hex_decode-hex_encode bs h.1,
      )
      (ground arith)

hex_val-eq-some : (c : ℕ) → IsHex c → (n : ℕ) × (hex_val c ≡ some n) × (n < 16)
unfolding hex_val
hex_val-eq-some c (inl (inl h)) = (c - b'0', ground arith, omega arith)
hex_val-eq-some c (inl (inr h)) = (c - b'a' + 10, ground arith, omega arith)
hex_val-eq-some c (inr h) = (c - b'A' + 10, ground arith, omega arith)

IsHex-of_hex_val : (c n : ℕ) → hex_val c ≡ some n → IsHex c
unfolding hex_val
IsHex-of_hex_val c n e = ground arith

hex_val_lt : (c n : ℕ) → hex_val c ≡ some n → n < 16
unfolding hex_val
hex_val_lt c n e = ground arith

hex_digit-hex_val : (c n : ℕ) → IsLowerHex c → hex_val c ≡ some n → hex_digit n ≡ c
unfolding hex_val hex_digit
hex_digit-hex_val c n h e = ground arith

cons_byte-eq-some :
    (h l : Option ℕ) (rest : Option (List ℕ)) {bs : List ℕ}
    → cons_byte h l rest ≡ some bs
    → (x : ℕ) × (y : ℕ) × (bs' : List ℕ) × (h ≡ some x)
      × (l ≡ some y)
      × (rest ≡ some bs')
      × (bs ≡ (x * 16 + y) ∷ bs')
cons_byte-eq-some (some x) (some y) (some r) e = (x, y, r, refl, refl, refl, ground arith)
cons_byte-eq-some (some x) (some y) none e = cc
cons_byte-eq-some (some x) none r e = cc
cons_byte-eq-some none l r e = cc

-- A text decodes exactly when it consists of whole pairs of digits.
pub hex_decode-total :
    (s : Text) → All IsHex s → length s % 2 ≡ 0 → (bs : List ℕ) × (hex_decode s ≡ some bs)
unfolding hex_decode
hex_decode-total [] h e = ([], refl)
hex_decode-total (c ∷ []) h e = absurd (omega arith)
hex_decode-total (c ∷ d ∷ s) (p, (q, h)) e =
    let (x, hx, _) = hex_val-eq-some c p in
    let (y, hy, _) = hex_val-eq-some d q in
    let (bs, ih) = hex_decode-total s h (omega arith) in ((x * 16 + y) ∷ bs, rw (hx, hy, ih))

pub hex_decode_sound :
    (s : Text) {bs : List ℕ}
    → hex_decode s ≡ some bs
    → All IsHex s × (length s % 2 ≡ 0) × All IsByte bs
unfolding hex_decode
hex_decode_sound [] {bs} e = (tt, refl, let e' : bs ≡ [] = ground arith in rw e' tt)
hex_decode_sound (c ∷ []) e = cc
hex_decode_sound (c ∷ d ∷ s) e =
    let (x, y, bs', hx, hy, hr, eq) = cons_byte-eq-some (hex_val c) (hex_val d) (hex_decode s) e in
    let (p, q, r) = hex_decode_sound s hr in
    (
      (IsHex-of_hex_val c x hx, (IsHex-of_hex_val d y hy, p)),
      omega arith,
      rw eq (omega (arith, hex_val_lt c x hx, hex_val_lt d y hy), r),
    )

pub hex_encode-hex_decode :
    (s : Text) {bs : List ℕ} → All IsLowerHex s → hex_decode s ≡ some bs → hex_encode bs ≡ s
unfolding hex_decode hex_encode
hex_encode-hex_decode [] {bs} h e = let e' : bs ≡ [] = ground arith in rw e'
hex_encode-hex_decode (c ∷ []) h e = cc
hex_encode-hex_decode (c ∷ d ∷ s) (p, (q, h)) e =
    let (x, y, bs', hx, hy, hr, eq) = cons_byte-eq-some (hex_val c) (hex_val d) (hex_decode s) e in
    let hi : (x * 16 + y) / 16 ≡ x = omega (arith, hex_val_lt d y hy) in
    let lo : (x * 16 + y) % 16 ≡ y = omega (arith, hex_val_lt d y hy) in
    rw (
      eq,
      hex_encode,
      hi,
      lo,
      hex_digit-hex_val c x p hx,
      hex_digit-hex_val d y q hy,
      hex_encode-hex_decode s h hr,
    )

pub length-hex_decode : (s : Text) {bs : List ℕ} → hex_decode s ≡ some bs → length s ≡ 2 * length bs
unfolding hex_decode
length-hex_decode [] {bs} e = let k : bs ≡ [] = cc in rw k
length-hex_decode (c ∷ []) e = cc
length-hex_decode (c ∷ d ∷ s) e =
    let (x, y, bs', _, _, hr, eq) = cons_byte-eq-some (hex_val c) (hex_val d) (hex_decode s) e in
    rw eq (omega (arith, length-hex_decode s hr))
