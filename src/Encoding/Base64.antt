-- ===== src/Encoding/Base64.antt =====
-- `base64.StdEncoding`: `EncodeToString` and `DecodeString`.
use remote_docker_agent.Prelude.{
  ℕ, ◌+◌, ◌-◌, ◌*◌, ◌/◌, ◌%◌, ◌<◌, ◌≡◌, refl, ◌⊎◌, inl, inr, false, ◌&&◌, ◌||◌, Option, none, some,
  List, [], ◌∷◌, leb, ltb, ◌==◌, if◌then◌else◌, Text, is_empty, All, Bool-cases, Option-cases,
  arith,
}
use remote_docker_agent.Encoding.Hex.{IsByte}

unfoldable pub base64_char : ℕ → ℕ
base64_char n =
    if ltb n 26
    then b'A' + n
    else if ltb n 52
    then b'a' + (n - 26)
    else if ltb n 62
    then b'0' + (n - 52)
    else if n == 62
    then b'+'
    else b'/'

pub base64_val : ℕ → Option ℕ
base64_val c =
    if leb b'A' c && leb c b'Z'
    then some (c - b'A')
    else if leb b'a' c && leb c b'z'
    then some (c - b'a' + 26)
    else if leb b'0' c && leb c b'9'
    then some (c - b'0' + 52)
    else if c == b'+'
    then some 62
    else if c == b'/'
    then some 63
    else none

unfoldable pub base64_encode : List ℕ → Text
unfolding base64_char
base64_encode [] = []
base64_encode (a ∷ []) = base64_char (a / 4) ∷ base64_char (a % 4 * 16) ∷ b'=' ∷ b'=' ∷ []
base64_encode (a ∷ b ∷ []) =
    base64_char (a / 4) ∷ base64_char (a % 4 * 16 + b / 16) ∷ base64_char (b % 16 * 4) ∷ b'=' ∷ []
base64_encode (a ∷ b ∷ c ∷ bs) =
    base64_char (a / 4)
    ∷ base64_char (a % 4 * 16 + b / 16)
    ∷ base64_char (b % 16 * 4 + c / 64)
    ∷ base64_char (c % 64)
    ∷ base64_encode bs

-- The bytes of one quantum of two, three or four characters; the bits that are left over are dropped.
abbrev quantum_two : Option ℕ → Option ℕ → Option (List ℕ)
quantum_two (some x) (some y) = some ((x * 4 + y / 16) ∷ [])
quantum_two (some x) none = none
quantum_two none y = none

abbrev quantum_three : Option ℕ → Option ℕ → Option ℕ → Option (List ℕ)
quantum_three (some x) (some y) (some z) = some ((x * 4 + y / 16) ∷ (y % 16 * 16 + z / 4) ∷ [])
quantum_three (some x) (some y) none = none
quantum_three (some x) none z = none
quantum_three none y z = none

abbrev quantum_four : Option ℕ → Option ℕ → Option ℕ → Option ℕ → Option (List ℕ) → Option (List ℕ)
quantum_four (some x) (some y) (some z) (some w) (some bs) =
    some ((x * 4 + y / 16) ∷ (y % 16 * 16 + z / 4) ∷ (z % 4 * 64 + w) ∷ bs)
quantum_four (some x) (some y) (some z) (some w) none = none
quantum_four (some x) (some y) (some z) none bs = none
quantum_four (some x) (some y) none w bs = none
quantum_four (some x) none z w bs = none
quantum_four none y z w bs = none

-- Padding is accepted only at the very end.
decode_quanta : Text → Option (List ℕ)
unfolding base64_val
decode_quanta [] = some []
decode_quanta (a ∷ b ∷ c ∷ d ∷ s) =
    let rest = decode_quanta s in
    if c == b'='
    then (if d == b'=' && is_empty s then quantum_two (base64_val a) (base64_val b) else none)
    else if d == b'='
    then (if is_empty s then quantum_three (base64_val a) (base64_val b) (base64_val c) else none)
    else quantum_four (base64_val a) (base64_val b) (base64_val c) (base64_val d) rest
decode_quanta _ = none

-- The decoder skips line breaks wherever they stand.
skip_newlines : Text → Text
skip_newlines [] = []
skip_newlines (c ∷ s) =
    let rest = skip_newlines s in if c == b'\n' || c == b'\r' then rest else c ∷ rest

unfoldable pub base64_decode : Text → Option (List ℕ)
unfolding skip_newlines decode_quanta
base64_decode s = decode_quanta (skip_newlines s)

base64_val-base64_char : (n : ℕ) → n < 64 → base64_val (base64_char n) ≡ some n
unfolding base64_val base64_char
base64_val-base64_char n h = ground arith

-- A character of the alphabet is no padding and no line break.
base64_char_plain :
    (n : ℕ)
    → n < 64
    → ((base64_char n == b'=') ≡ false)
      × ((base64_char n == b'\n') ≡ false)
      × ((base64_char n == b'\r') ≡ false)
unfolding base64_char
base64_char_plain n h = ground arith

base64_val_lt : (c n : ℕ) → base64_val c ≡ some n → n < 64
unfolding base64_val
base64_val_lt c n e = ground arith

-- Every character of an encoded text is of the alphabet, or padding.
abbrev pub IsBase64 : ℕ → Type 0
IsBase64 c = ((n : ℕ) × (n < 64) × (c ≡ base64_char n)) ⊎ (c ≡ b'=')

letter : (n : ℕ) → n < 64 → IsBase64 (base64_char n)
letter n h = inl (n, h, refl)

pub base64_encode-IsBase64 : (bs : List ℕ) → All IsByte bs → All IsBase64 (base64_encode bs)
unfolding base64_encode
base64_encode-IsBase64 [] h = tt
base64_encode-IsBase64 (a ∷ []) (ha, h) =
    (letter (a / 4) (omega arith), (letter (a % 4 * 16) (omega arith), (inr refl, (inr refl, tt))))
base64_encode-IsBase64 (a ∷ b ∷ []) (ha, (hb, h)) = (
  letter (a / 4) (omega arith),
  (letter (a % 4 * 16 + b / 16) (omega arith), (letter (b % 16 * 4) (omega arith), (inr refl, tt))),
)
base64_encode-IsBase64 (a ∷ b ∷ c ∷ bs) (ha, (hb, (hc, h))) = (
  letter (a / 4) (omega arith),
  (
    letter (a % 4 * 16 + b / 16) (omega arith),
    (
      letter (b % 16 * 4 + c / 64) (omega arith),
      (letter (c % 64) (omega arith), base64_encode-IsBase64 bs h),
    ),
  ),
)

skip_newlines-IsBase64 : (s : Text) → All IsBase64 s → skip_newlines s ≡ s
unfolding skip_newlines
skip_newlines-IsBase64 [] h = refl
skip_newlines-IsBase64 (c ∷ s) (inl (n, lt, e), h) =
    let (_, no_lf, no_cr) = base64_char_plain n lt in
    rw (skip_newlines-IsBase64 s h, e, no_lf, no_cr)
skip_newlines-IsBase64 (c ∷ s) (inr e, h) = rw (skip_newlines-IsBase64 s h, e)

decode_quanta-base64_encode :
    (bs : List ℕ) → All IsByte bs → decode_quanta (base64_encode bs) ≡ some bs
unfolding decode_quanta base64_encode
decode_quanta-base64_encode [] h = refl
decode_quanta-base64_encode (a ∷ []) (ha, h) =
    rw
      (
        base64_val-base64_char (a / 4) (omega arith),
        base64_val-base64_char (a % 4 * 16) (omega arith),
      )
      (ground arith)
decode_quanta-base64_encode (a ∷ b ∷ []) (ha, (hb, h)) =
    rw
      (
        (base64_char_plain (b % 16 * 4) (omega arith)).0,
        base64_val-base64_char (a / 4) (omega arith),
        base64_val-base64_char (a % 4 * 16 + b / 16) (omega arith),
        base64_val-base64_char (b % 16 * 4) (omega arith),
      )
      (ground arith)
decode_quanta-base64_encode (a ∷ b ∷ c ∷ bs) (ha, (hb, (hc, h))) =
    rw
      (
        (base64_char_plain (b % 16 * 4 + c / 64) (omega arith)).0,
        (base64_char_plain (c % 64) (omega arith)).0,
        base64_val-base64_char (a / 4) (omega arith),
        base64_val-base64_char (a % 4 * 16 + b / 16) (omega arith),
        base64_val-base64_char (b % 16 * 4 + c / 64) (omega arith),
        base64_val-base64_char (c % 64) (omega arith),
        decode_quanta-base64_encode bs h,
      )
      (ground arith)

-- Decoding undoes encoding.
pub base64_decode-base64_encode :
    (bs : List ℕ) → All IsByte bs → base64_decode (base64_encode bs) ≡ some bs
unfolding base64_decode
base64_decode-base64_encode bs h =
    rw (skip_newlines-IsBase64 (base64_encode bs) (base64_encode-IsBase64 bs h))
      (decode_quanta-base64_encode bs h)

val_cases : (c : ℕ) → (base64_val c ≡ none) ⊎ ((n : ℕ) × (base64_val c ≡ some n) × (n < 64))
val_cases c = elim (Option-cases (base64_val c)) [
  | inl e ↦ inl e
  | inr (n, e) ↦ inr (n, e, base64_val_lt c n e)
]

quantum_two-IsByte :
    (a b : ℕ) (bs : List ℕ) → quantum_two (base64_val a) (base64_val b) ≡ some bs → All IsByte bs
quantum_two-IsByte a b bs = elim (val_cases a) [
  | inl e ↦ rw e λ h. cc
  | inr (x, e, hx) ↦ elim (val_cases b) [
    | inl f ↦ rw (e, f) λ h. cc
    | inr (y, f, hy) ↦ rw (e, f) λ h. let k : bs ≡ (x * 4 + y / 16) ∷ [] = cc in rw k (omega arith)
  ]
]

quantum_three-IsByte :
    (a b c : ℕ) (bs : List ℕ)
    → quantum_three (base64_val a) (base64_val b) (base64_val c) ≡ some bs
    → All IsByte bs
quantum_three-IsByte a b c bs = elim (val_cases a) [
  | inl e ↦ rw e λ h. cc
  | inr (x, e, hx) ↦ elim (val_cases b) [
    | inl f ↦ rw (e, f) λ h. cc
    | inr (y, f, hy) ↦ elim (val_cases c) [
      | inl g ↦ rw (e, f, g) λ h. cc
      | inr (z, g, hz) ↦
          rw (e, f, g)
            λ h.
              let k : bs ≡ (x * 4 + y / 16) ∷ (y % 16 * 16 + z / 4) ∷ [] = cc in rw k (omega arith)
    ]
  ]
]

-- The four bits-groups of a full quantum, and the bytes behind it.
quantum_four-IsByte :
    (a b c d : ℕ) (o : Option (List ℕ)) (bs : List ℕ)
    → ((r : List ℕ) → o ≡ some r → All IsByte r)
    → quantum_four (base64_val a) (base64_val b) (base64_val c) (base64_val d) o ≡ some bs
    → All IsByte bs
quantum_four-IsByte a b c d none bs ih = elim (val_cases a) [
  | inl e ↦ rw e λ h. cc
  | inr (x, e, hx) ↦ elim (val_cases b) [
    | inl f ↦ rw (e, f) λ h. cc
    | inr (y, f, hy) ↦ elim (val_cases c) [
      | inl g ↦ rw (e, f, g) λ h. cc
      | inr (z, g, hz) ↦ elim (val_cases d) [
        | inl i ↦ rw (e, f, g, i) λ h. cc
        | inr (w, i, hw) ↦ rw (e, f, g, i) λ h. cc
      ]
    ]
  ]
]
quantum_four-IsByte a b c d (some r) bs ih = elim (val_cases a) [
  | inl e ↦ rw e λ h. cc
  | inr (x, e, hx) ↦ elim (val_cases b) [
    | inl f ↦ rw (e, f) λ h. cc
    | inr (y, f, hy) ↦ elim (val_cases c) [
      | inl g ↦ rw (e, f, g) λ h. cc
      | inr (z, g, hz) ↦ elim (val_cases d) [
        | inl i ↦ rw (e, f, g, i) λ h. cc
        | inr (w, i, hw) ↦
            rw (e, f, g, i)
              λ h.
                let k : bs ≡ (x * 4 + y / 16) ∷ (y % 16 * 16 + z / 4) ∷ (z % 4 * 64 + w) ∷ r = cc in
                rw k (omega arith, (omega arith, (omega arith, ih r refl)))
      ]
    ]
  ]
]

decode_quanta-IsByte : (s : Text) (bs : List ℕ) → decode_quanta s ≡ some bs → All IsByte bs
unfolding decode_quanta
decode_quanta-IsByte [] bs e = let k : bs ≡ [] = cc in rw k tt
decode_quanta-IsByte (a ∷ []) bs e = cc
decode_quanta-IsByte (a ∷ b ∷ []) bs e = cc
decode_quanta-IsByte (a ∷ b ∷ c ∷ []) bs e = cc
decode_quanta-IsByte (a ∷ b ∷ c ∷ d ∷ s) bs e = elim (Bool-cases (c == b'=')) [
  | inl p ↦ elim (Bool-cases (d == b'=' && is_empty s)) [
    | inl q ↦ quantum_two-IsByte a b bs (rw (p, q) at e)
    | inr q ↦ let k : ◌≡◌ {A = Option (List ℕ)} none (some bs) = rw (p, q) at e in cc
  ]
  | inr p ↦ elim (Bool-cases (d == b'=')) [
    | inl q ↦ elim (Bool-cases (is_empty s)) [
      | inl r ↦ quantum_three-IsByte a b c bs (rw (p, q, r) at e)
      | inr r ↦ let k : ◌≡◌ {A = Option (List ℕ)} none (some bs) = rw (p, q, r) at e in cc
    ]
    | inr q ↦
        quantum_four-IsByte a b c d (decode_quanta s) bs (decode_quanta-IsByte s) (rw (p, q) at e)
  ]
]

-- What is decoded is bytes.
pub base64_decode-IsByte : (s : Text) (bs : List ℕ) → base64_decode s ≡ some bs → All IsByte bs
unfolding base64_decode
base64_decode-IsByte s = decode_quanta-IsByte (skip_newlines s)
