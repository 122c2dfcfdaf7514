-- ===== src/Shelex/Steps.antt =====
-- Runs of the scanner over one piece of its input, with any rest behind it.
use remote_docker_agent.Prelude.{
  ℕ, ◌≡◌, refl, ◌∙◌, inl, inr, false, ◌||◌, [], ◌∷◌, ◌++◌, append_assoc, append-nil, ◌==◌,
  if◌then◌else◌, Bool-cases, Text, Lacks, nat_eq, eq_text, arith,
}
use remote_docker_agent.Shelex.{
  LexerState, in_word, escaping_quoted, quoting_escaping, quoting, comment, Scanner, continues,
  TokenType, word_token, token, broken, step_in, classify_rune, scan_from, scan_stream,
  eof_in_quote,
}

abbrev pub at : LexerState → TokenType → Text → Scanner
at state type value = record { state = state; token_type = type; value = value }

-- A word in double quotes, with a backslash before each quote and backslash in it.
unfoldable pub escape_double : Text → Text
escape_double [] = []
escape_double (c ∷ w) =
    let rest = escape_double w in if c == b'"' || c == b'\\' then b'\\' ∷ c ∷ rest else c ∷ rest

unfoldable pub quote_word : Text → Text
unfolding escape_double
quote_word w = b'"' ∷ (escape_double w ++ b'"' ∷ [])

step_escaping_quoted :
    (c : ℕ) (s : Scanner)
    → step_in escaping_quoted (classify_rune c) c s
      ≡ continues (at quoting_escaping s.token_type (s.value ++ c ∷ []))
unfolding step_in classify_rune
step_escaping_quoted c s = ground arith

step_quoting_escaping :
    (c : ℕ) (s : Scanner)
    → (c == b'"' || c == b'\\') ≡ false
    → step_in quoting_escaping (classify_rune c) c s
      ≡ continues (at quoting_escaping s.token_type (s.value ++ c ∷ []))
unfolding step_in classify_rune
step_quoting_escaping c s h = ground arith

step_quoting :
    (c : ℕ) (s : Scanner)
    → (c == b'\'') ≡ false
    → step_in quoting (classify_rune c) c s
      ≡ continues (at quoting s.token_type (s.value ++ c ∷ []))
unfolding step_in classify_rune
step_quoting c s h = ground arith

step_comment :
    (c : ℕ) (s : Scanner)
    → (c == b'\n') ≡ false
    → step_in comment (classify_rune c) c s
      ≡ continues (at comment s.token_type (s.value ++ c ∷ []))
unfolding step_in classify_rune
step_comment c s h = ground arith

-- One round that goes on.
scan_from-continues :
    (s s' : Scanner) (c : ℕ) (input : Text)
    → step_in s.state (classify_rune c) c s ≡ continues s'
    → scan_from s (c ∷ input) ≡ scan_from s' input
scan_from-continues s s' c input e = unfold scan_from in rw (e, scan_from)

pub scan_from-escape_double :
    (w rest value : Text) (type : TokenType)
    → scan_from (at quoting_escaping type value) (escape_double w ++ b'"' ∷ rest)
      ≡ scan_from (at in_word type (value ++ w)) rest
unfolding escape_double
scan_from-escape_double [] rest value type = rw append-nil (unfold scan_from in refl)
scan_from-escape_double (c ∷ w) rest value type = elim (Bool-cases (c == b'"' || c == b'\\')) [
  | inl special ↦ rw special (
      scan_from-continues (at quoting_escaping type value) (at escaping_quoted type value) b'\\' _
        (unfold step_in classify_rune in refl)
      ∙ scan_from-continues (at escaping_quoted type value) _ c _
          (step_escaping_quoted c (at escaping_quoted type value))
      ∙ scan_from-escape_double w rest (value ++ c ∷ []) type
      ∙ rw append_assoc)
  | inr other ↦ rw other (
      scan_from-continues (at quoting_escaping type value) _ c _
        (step_quoting_escaping c (at quoting_escaping type value) other)
      ∙ scan_from-escape_double w rest (value ++ c ∷ []) type
      ∙ rw append_assoc)
]

pub scan_from-quoting :
    (w rest value : Text) (type : TokenType)
    → Lacks b'\'' w
    → scan_from (at quoting type value) (w ++ b'\'' ∷ rest)
      ≡ scan_from (at in_word type (value ++ w)) rest
scan_from-quoting [] rest value type h = rw append-nil (unfold scan_from in refl)
scan_from-quoting (c ∷ w) rest value type h =
    scan_from-continues (at quoting type value) _ c _ (step_quoting c (at quoting type value) h.0)
    ∙ scan_from-quoting w rest (value ++ c ∷ []) type h.1
    ∙ rw append_assoc

pub scan_from-unclosed :
    (w value : Text) (type : TokenType)
    → Lacks b'\'' w
    → scan_from (at quoting type value) w
      ≡ (broken eof_in_quote (record { token_type = type; value = value ++ w }), [])
scan_from-unclosed [] value type h = rw append-nil (unfold scan_from in refl)
scan_from-unclosed (c ∷ w) value type h =
    scan_from-continues (at quoting type value) _ c _ (step_quoting c (at quoting type value) h.0)
    ∙ scan_from-unclosed w (value ++ c ∷ []) type h.1
    ∙ rw append_assoc

pub scan_from-comment :
    (body rest value : Text) (type : TokenType)
    → Lacks b'\n' body
    → scan_from (at comment type value) (body ++ b'\n' ∷ rest)
      ≡ (token (record { token_type = type; value = value ++ body }), rest)
scan_from-comment [] rest value type h = rw append-nil (unfold scan_from in refl)
scan_from-comment (c ∷ body) rest value type h =
    scan_from-continues (at comment type value) _ c _ (step_comment c (at comment type value) h.0)
    ∙ scan_from-comment body rest (value ++ c ∷ []) type h.1
    ∙ rw append_assoc

-- A quoted word at the end of the input, and one with a space behind it.
pub scan_stream-quote_word :
    (w : Text)
    → scan_stream (quote_word w) ≡ (token (record { token_type = word_token; value = w }), [])
unfolding quote_word
scan_stream-quote_word w =
    unfold scan_stream in scan_from-escape_double w [] [] word_token ∙ unfold scan_from in refl

pub scan_stream-quote_word_space :
    (w rest : Text)
    → scan_stream (quote_word w ++ b' ' ∷ rest)
      ≡ (token (record { token_type = word_token; value = w }), rest)
unfolding quote_word
scan_stream-quote_word_space w rest =
    unfold scan_stream in
    rw append_assoc
      (scan_from-escape_double w (b' ' ∷ rest) [] word_token ∙ unfold scan_from in refl)
