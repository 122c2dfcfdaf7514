-- ===== src/Shelex.antt =====
-- pkg/utils/shelex/shelex.go: splitting a command line by the quoting rules of a shell. The input is
-- the list of its runes; reading it fails only at its end.
pub mod Steps
pub mod Termination
pub mod RoundTrip
mod Tests
use remote_docker_agent.Prelude.{
  ℕ, zero, suc, ◌+◌, ◌-◌, ◌*◌, ◌/◌, ◌%◌, ◌<◌, ◌≤◌, ◌≡◌, ◌≢◌, refl, ap, subst, ◌∙◌, sym, ◌↔◌, ◌⊎◌,
  inl, inr, Bool, true, false, not, ◌||◌, ◌&&◌, Option, none, some, List, [], ◌∷◌, ◌++◌, map,
  append_assoc, append-nil, ltb, leb, ◌==◌, ==_iff, if◌then◌else◌, Bool-cases, Option-cases, length,
  length-append, take, drop, take-append-drop, Text, codes, is_empty, text_eq, text_eq_iff,
  text_eq_refl, strip_prefix?, has_prefix, trim_prefix, strip_prefix?-append, has_prefix-append,
  trim_prefix-append, split_first, split, join, Lacks, split-append, split-Lacks, join-split,
  split-All-Lacks, Eq, nat_eq, eq_text, Map, lookup, insert, delete, lookup-insert, lookup-delete,
  Result, ok, err, ◌>>=◌, ◌>>◌, guard, Result-cases, >>-eq-ok, >>=-eq-ok, guard-eq-ok, ℤ, pos,
  negsuc, within, decimal, decimal_int, All, All-append, arith,
}

pub data TokenType : Type 0 where
  unknown_token word_token space_token comment_token : TokenType

pub data RuneTokenClass : Type 0 where
  unknown_rune space_rune escaping_quote_rune non_escaping_quote_rune : RuneTokenClass
  escape_rune comment_rune eof_rune : RuneTokenClass

pub data LexerState : Type 0 where
  start in_word escaping escaping_quoted quoting_escaping quoting comment : LexerState

pub record Token : Type 0 where
  pub token_type : TokenType
  pub value : Text

abbrev TokenClassifier : Type 0
TokenClassifier = Map ℕ RuneTokenClass

add_rune_class : Text → RuneTokenClass → TokenClassifier → TokenClassifier
add_rune_class [] class t = t
add_rune_class (c ∷ runes) class t = add_rune_class runes class (insert c class t)

default_classifier : TokenClassifier
unfolding add_rune_class insert
default_classifier =
    let t = add_rune_class (codes " \t\r\n") space_rune [] in
    let t = add_rune_class (codes "\"") escaping_quote_rune t in
    let t = add_rune_class (codes "'") non_escaping_quote_rune t in
    let t = add_rune_class (codes "\\") escape_rune t in add_rune_class (codes "#") comment_rune t

-- A rune that the map lacks has the zero class.
unfoldable pub classify_rune : ℕ → RuneTokenClass
unfolding default_classifier lookup
classify_rune rune = elim (lookup rune default_classifier) [
  | none ↦ unknown_rune
  | some class ↦ class
]

pub data LexError : Type 0 where
  eof_after_escape eof_in_quote unknown_token_type : LexError

-- What `scanStream` returns: io.EOF, a token, or an error with the token so far.
pub data Scanned : Type 0 where
  at_eof : Scanned
  token : Token → Scanned
  broken : LexError → Token → Scanned

-- The variables of the loop, and what one round does.
pub record Scanner : Type 0 where
  pub state : LexerState
  pub token_type : TokenType
  pub value : Text

pub data Round : Type 0 where
  continues : Scanner → Round
  returns : Scanned → Round

abbrev emit : Scanner → Round
emit s = returns (token (record { token_type = s.token_type; value = s.value }))

abbrev fail : LexError → Scanner → Round
fail e s = returns (broken e (record { token_type = s.token_type; value = s.value }))

abbrev goto : LexerState → Scanner → Round
goto state s = continues (record s { state = state })

abbrev push : LexerState → ℕ → Scanner → Round
push state c s = continues (record s { state = state; value = s.value ++ c ∷ [] })

abbrev begin : TokenType → LexerState → Scanner → Round
begin type state s = continues (record s { state = state; token_type = type })

step_start : RuneTokenClass → ℕ → Scanner → Round
step_start eof_rune c s = returns at_eof
step_start space_rune c s = continues s
step_start escaping_quote_rune c s = begin word_token quoting_escaping s
step_start non_escaping_quote_rune c s = begin word_token quoting s
step_start escape_rune c s = begin word_token escaping s
step_start comment_rune c s = begin comment_token comment s
step_start unknown_rune c s = push in_word c (record s { token_type = word_token })

step_in_word : RuneTokenClass → ℕ → Scanner → Round
step_in_word eof_rune c s = emit s
step_in_word space_rune c s = emit s
step_in_word escaping_quote_rune c s = goto quoting_escaping s
step_in_word non_escaping_quote_rune c s = goto quoting s
step_in_word escape_rune c s = goto escaping s
step_in_word _ c s = push in_word c s

step_escaping : RuneTokenClass → ℕ → Scanner → Round
step_escaping eof_rune c s = fail eof_after_escape s
step_escaping _ c s = push in_word c s

step_escaping_quoted : RuneTokenClass → ℕ → Scanner → Round
step_escaping_quoted eof_rune c s = fail eof_after_escape s
step_escaping_quoted _ c s = push quoting_escaping c s

step_quoting_escaping : RuneTokenClass → ℕ → Scanner → Round
step_quoting_escaping eof_rune c s = fail eof_in_quote s
step_quoting_escaping escaping_quote_rune c s = goto in_word s
step_quoting_escaping escape_rune c s = goto escaping_quoted s
step_quoting_escaping _ c s = push quoting_escaping c s

step_quoting : RuneTokenClass → ℕ → Scanner → Round
step_quoting eof_rune c s = fail eof_in_quote s
step_quoting non_escaping_quote_rune c s = goto in_word s
step_quoting _ c s = push quoting c s

step_comment : RuneTokenClass → ℕ → Scanner → Round
step_comment eof_rune c s = emit s
step_comment space_rune c s = if c == b'\n' then emit s else push comment c s
step_comment _ c s = push comment c s

-- `switch state`
unfoldable pub step_in : LexerState → RuneTokenClass → ℕ → Scanner → Round
unfolding step_start step_in_word step_escaping step_escaping_quoted step_quoting_escaping
    step_quoting step_comment
step_in start = step_start
step_in in_word = step_in_word
step_in escaping = step_escaping
step_in escaping_quoted = step_escaping_quoted
step_in quoting_escaping = step_quoting_escaping
step_in quoting = step_quoting
step_in comment = step_comment

-- The loop of `scanStream`, with the input that it leaves. At the end of the input `ReadRune` gives
-- the rune 0 and io.EOF.
unfoldable pub scan_from : Scanner → Text → Scanned × Text
unfolding step_in classify_rune
scan_from s [] = elim (step_in s.state eof_rune 0 s) [
  | returns r ↦ (r, [])
  | continues _ ↦ (at_eof, [])
]
scan_from s (c ∷ input) = elim (step_in s.state (classify_rune c) c s) [
  | returns r ↦ (r, input)
  | continues s' ↦ scan_from s' input
]

abbrev pub initial : Scanner
initial = record { state = start; token_type = unknown_token; value = [] }

unfoldable pub scan_stream : Text → Scanned × Text
unfolding scan_from
scan_stream = scan_from initial

-- What `Lexer.Next` returns, with the input that it leaves; the loop over comments runs on fuel.
pub data Next : Type 0 where
  out_of_fuel end_of_input : Next
  word : Text → Text → Next
  failed : LexError → Next

unfoldable pub after_token : TokenType → Text → Text → Next → Next
after_token word_token value input rest = word value input
after_token comment_token value input rest = rest
after_token _ value input rest = failed unknown_token_type

unfoldable pub after_scan : Scanned → Text → Next → Next
unfolding after_token
after_scan at_eof input rest = end_of_input
after_scan (broken e t) input rest = failed e
after_scan (token t) input rest = after_token t.token_type t.value input rest

unfoldable pub next_from : ℕ → Text → Next
next_from zero input = out_of_fuel
next_from (suc fuel) input =
    let (r, rest) = scan_stream input in after_scan r rest (next_from fuel rest)

unfoldable pub next : Text → Next
unfolding next_from scan_stream after_scan
next input = next_from (suc (length input)) input

-- `Split`: the words so far, and the error, if any. `none` is fuel that ran out.
pub record SplitResult : Type 0 where
  pub sub_strings : List Text
  pub error : Option LexError

unfoldable pub split_from : ℕ → Text → List Text → Option SplitResult
split_from zero input sub_strings = none
split_from (suc fuel) input sub_strings = elim (next input) [
  | out_of_fuel ↦ none
  | end_of_input ↦ some (record { sub_strings = sub_strings; error = none })
  | failed e ↦ some (record { sub_strings = sub_strings; error = some e })
  | word w rest ↦ split_from fuel rest (sub_strings ++ w ∷ [])
]

unfoldable pub split_words : Text → Option SplitResult
unfolding split_from next
split_words s = split_from (suc (length s)) s []
