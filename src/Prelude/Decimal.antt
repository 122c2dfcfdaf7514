-- ===== src/Prelude/Decimal.antt =====
-- Go's `int`, and its decimal digits as `%d` and `strconv.Itoa` print them.
use Prim.Native.Nat.{ℕ, zero, suc, ◌+◌, ◌-◌, ◌*◌, ◌/◌, ◌%◌, ◌<◌, ◌≤◌}
use mathlib.Core.Path.{◌≡◌, refl, ap, ◌∙◌}
use mathlib.Core.Logic.{◌≢◌, inl, inr}
use mathlib.Core.Bool.{Bool, true, false, ◌&&◌}
use mathlib.Core.Option.{Option, none, some}
use mathlib.Core.List.{[], ◌∷◌}
use native.Mathlib.Omega.{arith}
use remote_docker_agent.Prelude.Tests.{ltb, leb, ◌==◌, if◌then◌else◌, Bool-cases}
use remote_docker_agent.Prelude.Lists.{All}
use remote_docker_agent.Prelude.Texts.{Text}

-- `negsuc n` is -(n + 1).
pub data ℤ : Type 0 where
  pos : ℕ → ℤ
  negsuc : ℕ → ℤ

-- `lo <= z && z <= hi` for natural bounds.
unfoldable pub within : ℕ → ℕ → ℤ → Bool
within lo hi (pos n) = if leb lo n then leb n hi else false
within lo hi (negsuc n) = false

digits_from : ℕ → ℕ → Text → Text
digits_from zero n acc = acc
digits_from (suc fuel) n acc =
    let rest = digits_from fuel (n / 10) ((b'0' + n % 10) ∷ acc) in
    if ltb n 10 then (b'0' + n) ∷ acc else rest

unfoldable pub decimal : ℕ → Text
unfolding digits_from
decimal n = digits_from (suc n) n []

unfoldable pub decimal_int : ℤ → Text
unfolding decimal
decimal_int (pos n) = decimal n
decimal_int (negsuc n) = b'-' ∷ decimal (suc n)

-- The value of decimal digits behind a value; `none` at any other character.
digits_value : ℕ → Text → Option ℕ
digits_value v [] = some v
digits_value v (c ∷ s) =
    let rest = digits_value (v * 10 + (c - b'0')) s in
    if leb b'0' c && leb c b'9' then rest else none

unsigned_value : Text → Option ℕ
unfolding digits_value
unsigned_value [] = none
unsigned_value (c ∷ s) = digits_value 0 (c ∷ s)

-- The 64 bits of Go's `int`.
unfoldable pub int_of : Option ℕ → Option ℤ
int_of none = none
int_of (some n) = if ltb n 9223372036854775808 then some (pos n) else none

unfoldable pub minus_int_of : Option ℕ → Option ℤ
minus_int_of none = none
minus_int_of (some zero) = some (pos 0)
minus_int_of (some (suc n)) = if ltb n 9223372036854775808 then some (negsuc n) else none

-- `strconv.Atoi`; `none` is an error.
unfoldable pub atoi : Text → Option ℤ
unfolding unsigned_value
atoi [] = none
atoi (c ∷ s) =
    if c == b'-'
    then minus_int_of (unsigned_value s)
    else if c == b'+'
    then int_of (unsigned_value s)
    else int_of (unsigned_value (c ∷ s))

-- The digits 0 to 9.
abbrev pub IsDigit : ℕ → Type 0
IsDigit c = (b'0' ≤ c) × (c ≤ b'9')

digits_from-All-IsDigit :
    (fuel n : ℕ) (acc : Text) → All IsDigit acc → All IsDigit (digits_from fuel n acc)
unfolding digits_from
digits_from-All-IsDigit zero n acc h = h
digits_from-All-IsDigit (suc fuel) n acc h = elim (Bool-cases (ltb n 10)) [
  | inl e ↦ rw (e, digits_from) ((ground arith, ground arith), h)
  | inr e ↦
      rw (e, digits_from)
        (digits_from-All-IsDigit fuel (n / 10) ((b'0' + n % 10) ∷ acc)
          ((omega arith, omega arith), h))
]

pub decimal-All-IsDigit : (n : ℕ) → All IsDigit (decimal n)
unfolding decimal
decimal-All-IsDigit n = digits_from-All-IsDigit (suc n) n [] tt

digits_value-digit :
    (v d n : ℕ) (acc : Text)
    → d < 10
    → v * 10 + d ≡ n
    → digits_value v ((b'0' + d) ∷ acc) ≡ digits_value n acc
unfolding digits_value
digits_value-digit v d n acc h e =
    let i : v * 10 + ((b'0' + d) - b'0') ≡ n = omega arith in
    let j : (leb b'0' (b'0' + d) && leb (b'0' + d) b'9') ≡ true = ground arith in rw (j, i)

digits_value-digits_from :
    (fuel n : ℕ) (acc : Text)
    → n < fuel
    → digits_value 0 (digits_from fuel n acc) ≡ digits_value n acc
unfolding digits_from
digits_value-digits_from zero n acc h = absurd (omega arith)
digits_value-digits_from (suc fuel) n acc h = elim (Bool-cases (ltb n 10)) [
  | inl e ↦ rw (e, digits_from) (digits_value-digit 0 n n acc (ground arith) (omega arith))
  | inr e ↦
      let big : 10 ≤ n = ground arith in
      rw (e, digits_from)
        (digits_value-digits_from fuel (n / 10) ((b'0' + n % 10) ∷ acc) (omega arith)
          ∙ digits_value-digit (n / 10) (n % 10) n acc (omega arith) (omega arith))
]

unsigned_value_of : (s : Text) → s ≢ [] → unsigned_value s ≡ digits_value 0 s
unfolding unsigned_value
unsigned_value_of [] h = absurd (h refl)
unsigned_value_of (c ∷ s) h = refl

digits_from_ne : (fuel n c : ℕ) (acc : Text) → digits_from fuel n (c ∷ acc) ≢ []
unfolding digits_from
digits_from_ne zero n c acc h = cc
digits_from_ne (suc fuel) n c acc h = elim (Bool-cases (ltb n 10)) [
  | inl e ↦ let k = rw (e, digits_from) at h in cc
  | inr e ↦ digits_from_ne fuel (n / 10) (b'0' + n % 10) (c ∷ acc) (rw (e, digits_from) at h)
]

decimal_ne : (n : ℕ) → decimal n ≢ []
unfolding decimal digits_from
decimal_ne n h = elim (Bool-cases (ltb n 10)) [
  | inl e ↦ let k = rw (e, decimal) at h in cc
  | inr e ↦ digits_from_ne n (n / 10) (b'0' + n % 10) [] (rw (e, decimal) at h)
]

atoi-unsigned : (s : Text) → All IsDigit s → atoi s ≡ int_of (unsigned_value s)
unfolding atoi unsigned_value int_of
atoi-unsigned [] h = refl
atoi-unsigned (c ∷ s) h =
    let m : (c == b'-') ≡ false = ground (arith, h.0) in
    let p : (c == b'+') ≡ false = ground (arith, h.0) in rw (m, p)

-- Reading back what was printed.
pub atoi-decimal : (n : ℕ) → n < 9223372036854775808 → atoi (decimal n) ≡ some (pos n)
unfolding int_of digits_value
atoi-decimal n h =
    let v : unsigned_value (decimal n) ≡ some n =
      unsigned_value_of (decimal n) (decimal_ne n)
      ∙ (unfold decimal in digits_value-digits_from (suc n) n [] (omega arith)) in
    let b : ltb n 9223372036854775808 ≡ true = ground arith in
    atoi-unsigned (decimal n) (decimal-All-IsDigit n) ∙ ap int_of v ∙ rw b
