-- ===== src/Shelex/Termination.antt =====
-- The lexer's loops end: every token takes at least one rune, so the fuel is never used up.
use remote_docker_agent.Prelude.{
  ℕ, zero, suc, ◌<◌, ◌≤◌, ◌≡◌, refl, ap, ◌⊎◌, inl, inr, List, [], ◌∷◌, ◌++◌, length, Text, nat_eq,
  eq_text, arith,
}
use remote_docker_agent.Shelex.{
  LexError, LexerState, start, in_word, escaping, escaping_quoted, quoting_escaping, quoting,
  comment, eof_rune, Scanner, Round, continues, returns, TokenType, word_token, comment_token,
  token, at_eof, Scanned, step_in, classify_rune, scan_from, initial, scan_stream, Next,
  out_of_fuel, end_of_input, word, failed, after_token, after_scan, next_from, next, split_from,
}

-- In every state the end of the input ends the round.
pub step_in_eof :
    (state : LexerState) (s : Scanner) → (r : Scanned) × (step_in state eof_rune 0 s ≡ returns r)
unfolding step_in
step_in_eof start s = (_, refl)
step_in_eof in_word s = (_, refl)
step_in_eof escaping s = (_, refl)
step_in_eof escaping_quoted s = (_, refl)
step_in_eof quoting_escaping s = (_, refl)
step_in_eof quoting s = (_, refl)
step_in_eof comment s = (_, refl)

Round-cases : (r : Round) → ((s : Scanner) × (r ≡ continues s)) ⊎ ((x : Scanned) × (r ≡ returns x))
Round-cases (continues s) = inl (s, refl)
Round-cases (returns x) = inr (x, refl)

length-scan_from : (input : Text) (s : Scanner) → length (scan_from s input).1 ≤ length input
unfolding scan_from
length-scan_from [] s = let (r, e) = step_in_eof s.state s in rw (e, scan_from) (omega arith)
length-scan_from (c ∷ input) s = elim (Round-cases (step_in s.state (classify_rune c) c s)) [
  | inl (s', e) ↦ rw (e, scan_from) (omega (arith, length-scan_from input s'))
  | inr (x, e) ↦ rw (e, scan_from) (omega arith)
]

scan_stream-nil : scan_stream [] ≡ (at_eof, [])
unfolding scan_stream
scan_stream-nil = refl

length-scan_stream : (c : ℕ) (input : Text) → length (scan_stream (c ∷ input)).1 ≤ length input
unfolding scan_stream
length-scan_stream c input = elim (Round-cases (step_in start (classify_rune c) c initial)) [
  | inl (s', e) ↦ rw (e, scan_from) (length-scan_from input s')
  | inr (x, e) ↦ rw (e, scan_from) (omega arith)
]

module _ (w rest : Text) where
  after_token-length :
      (type : TokenType) (value left : Text) (k : Next) (n : ℕ)
      → length left < n
      → (k ≡ word w rest → length rest < length left)
      → after_token type value left k ≡ word w rest
      → length rest < n
  unfolding after_token
  after_token-length word_token value left k n h ih e = let same : left ≡ rest = cc in rw (← same) h
  after_token-length comment_token value left k n h ih e = omega (arith, ih e)
  after_token-length _ value left k n h ih e = cc

  after_scan-length :
      (r : Scanned) (left : Text) (k : Next) (n : ℕ)
      → length left < n
      → (k ≡ word w rest → length rest < length left)
      → after_scan r left k ≡ word w rest
      → length rest < n
  unfolding after_scan
  after_scan-length (token t) left k n h ih e =
      after_token-length t.token_type t.value left k n h ih e
  after_scan-length _ left k n h ih e = cc

  next_from-length :
      (fuel : ℕ) (input : Text) → next_from fuel input ≡ word w rest → length rest < length input
  unfolding next_from
  next_from-length zero input e = cc
  next_from-length (suc fuel) [] e = unfold scan_stream after_scan in cc
  next_from-length (suc fuel) (c ∷ input) e =
      let (r, left) = scan_stream (c ∷ input) in
      after_scan-length r left (next_from fuel left) (suc (length input))
        (omega (arith, length-scan_stream c input)) (next_from-length fuel left) e

next_shorter : (input w rest : Text) → next input ≡ word w rest → length rest < length input
unfolding next
next_shorter input w rest e = next_from-length w rest (suc (length input)) input e

Next-cases :
    (n : Next)
    → (n ≡ out_of_fuel)
      ⊎ (n ≡ end_of_input)
      ⊎ ((x : LexError) × (n ≡ failed x))
      ⊎ ((w : Text) × (rest : Text) × (n ≡ word w rest))
Next-cases out_of_fuel = inl refl
Next-cases end_of_input = inr (inl refl)
Next-cases (failed x) = inr (inr (inl (x, refl)))
Next-cases (word w rest) = inr (inr (inr (w, rest, refl)))

-- More fuel changes nothing.
pub next_from-fuel :
    (f g : ℕ) (input : Text)
    → length input < f
    → length input < g
    → next_from f input ≡ next_from g input
unfolding next_from
next_from-fuel zero g input h k = absurd (omega arith)
next_from-fuel (suc f) zero input h k = absurd (omega arith)
next_from-fuel (suc f) (suc g) [] h k = unfold scan_stream after_scan in refl
next_from-fuel (suc f) (suc g) (c ∷ input) h k =
    let (r, left) = scan_stream (c ∷ input) in
    let shorter = length-scan_stream c input in
    ap (after_scan r left) (next_from-fuel f g left (omega arith) (omega arith))

pub split_from-fuel :
    (f g : ℕ) (input : Text) (acc : List Text)
    → length input < f
    → length input < g
    → split_from f input acc ≡ split_from g input acc
unfolding split_from
split_from-fuel zero g input acc h k = absurd (omega arith)
split_from-fuel (suc f) zero input acc h k = absurd (omega arith)
split_from-fuel (suc f) (suc g) input acc h k = elim (Next-cases (next input)) [
  | inl e ↦ rw (e, split_from)
  | inr (inl e) ↦ rw (e, split_from)
  | inr (inr (inl (x, e))) ↦ rw (e, split_from)
  | inr (inr (inr (w, rest, e))) ↦
      let shorter : length rest < length input = next_shorter input w rest e in
      rw (e, split_from) (split_from-fuel f g rest (acc ++ w ∷ []) (omega arith) (omega arith))
]
