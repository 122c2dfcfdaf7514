-- ===== src/Shelex/RoundTrip.antt =====
-- Splitting a command line that was put together from quoted words; comments and unclosed quotes.
use remote_docker_agent.Prelude.{
  ℕ, zero, suc, ◌+◌, ◌-◌, ◌<◌, ◌≤◌, ◌≡◌, refl, ap, ◌∙◌, sym, none, some, List, [], ◌∷◌, ◌++◌, map,
  append_assoc, append-nil, length, length-append, Text, join, Lacks, nat_eq, eq_text, arith,
}
use native.Mathlib.Nat.{zero-add, suc-add}
use remote_docker_agent.Shelex.Steps.{
  quote_word, scan_stream-quote_word, scan_stream-quote_word_space, scan_from-comment,
  scan_from-unclosed,
}
use remote_docker_agent.Shelex.Termination.{next_from-fuel, split_from-fuel}
use remote_docker_agent.Shelex.{
  token, broken, scan_stream, eof_in_quote, word_token, end_of_input, word, failed, after_token,
  after_scan, next_from, next, split_from, split_words, comment_token,
}

next-word :
    (input w rest : Text)
    → scan_stream input ≡ (token (record { token_type = word_token; value = w }), rest)
    → next input ≡ word w rest
next-word input w rest e = unfold next_from next after_scan after_token in rw (e, next_from)

next-nil : next [] ≡ end_of_input
unfolding next
next-nil = refl

split_from-word :
    (fuel : ℕ) (input w rest : Text) (acc : List Text)
    → next input ≡ word w rest
    → split_from (suc fuel) input acc ≡ split_from fuel rest (acc ++ w ∷ [])
unfolding split_from
split_from-word fuel input w rest acc e = rw (e, split_from)

split_from-nil :
    (fuel : ℕ) (acc : List Text)
    → split_from (suc fuel) [] acc ≡ some (record { sub_strings = acc; error = none })
unfolding split_from
split_from-nil fuel acc = rw (next-nil, split_from)

-- The words, each in double quotes, with a space between two.
abbrev pub command_line : List Text → Text
command_line ws = join b' ' (map quote_word ws)

split_from-command_line :
    (ws : List Text) (fuel : ℕ) (acc : List Text)
    → length ws < fuel
    → split_from fuel (command_line ws) acc
      ≡ some (record { sub_strings = acc ++ ws; error = none })
unfolding join
split_from-command_line ws zero acc h = absurd (omega arith)
split_from-command_line [] (suc fuel) acc h = rw append-nil (split_from-nil fuel acc)
split_from-command_line (w ∷ []) (suc zero) acc h = absurd (omega arith)
split_from-command_line (w ∷ []) (suc (suc fuel)) acc h =
    split_from-word (suc fuel) (quote_word w) w [] acc
      (next-word (quote_word w) w [] (scan_stream-quote_word w))
    ∙ split_from-nil fuel (acc ++ w ∷ [])
split_from-command_line (w ∷ w' ∷ ws) (suc fuel) acc h =
    split_from-word fuel _ w (command_line (w' ∷ ws)) acc
      (next-word _ w _ (scan_stream-quote_word_space w (command_line (w' ∷ ws))))
    ∙ split_from-command_line (w' ∷ ws) fuel (acc ++ w ∷ []) (omega arith)
    ∙ rw append_assoc

length-command_line : (ws : List Text) → length ws ≤ length (command_line ws)
unfolding join quote_word
length-command_line [] = omega arith
length-command_line (w ∷ []) = omega arith
length-command_line (w ∷ w' ∷ ws) = omega (
  arith,
  length-append (quote_word w) (b' ' ∷ command_line (w' ∷ ws)),
  length-command_line (w' ∷ ws),
)

-- Whatever the words hold, quotes, backslashes, spaces, line ends and `#` included, `Split` of the
-- quoted words with a space between them gives the words back, and no error.
pub split_words-command_line :
    (ws : List Text)
    → split_words (command_line ws) ≡ some (record { sub_strings = ws; error = none })
split_words-command_line ws =
    unfold split_words in
    split_from-command_line ws (suc (length (command_line ws))) []
      (omega (arith, length-command_line ws))

-- Quoted words with a space behind each, in front of something else.
abbrev pub in_front : List Text → Text → Text
in_front [] tail = tail
in_front (w ∷ ws) tail = quote_word w ++ b' ' ∷ in_front ws tail

split_from-in_front :
    (ws : List Text) (tail : Text) (fuel : ℕ) (acc : List Text)
    → split_from (length ws + fuel) (in_front ws tail) acc ≡ split_from fuel tail (acc ++ ws)
split_from-in_front [] tail fuel acc = rw (append-nil, zero-add)
split_from-in_front (w ∷ ws) tail fuel acc = rw suc-add (
    split_from-word (length ws + fuel) _ w (in_front ws tail) acc
      (next-word _ w _ (scan_stream-quote_word_space w (in_front ws tail)))
    ∙ split_from-in_front ws tail fuel (acc ++ w ∷ [])
    ∙ rw append_assoc)

length-in_front :
    (ws : List Text) (tail : Text) → length ws + length tail ≤ length (in_front ws tail)
unfolding quote_word
length-in_front [] tail = omega arith
length-in_front (w ∷ ws) tail =
    omega (arith, length-append (quote_word w) (b' ' ∷ in_front ws tail), length-in_front ws tail)

-- `Split` in front of which stand quoted words.
split_words-in_front :
    (ws : List Text) (tail : Text)
    → split_words (in_front ws tail) ≡ split_from (suc (length tail)) tail ws
split_words-in_front ws tail =
    let fuel = suc (length (in_front ws tail)) - length ws in
    let enough : suc (length (in_front ws tail)) ≡ length ws + fuel =
      omega (arith, length-in_front ws tail) in
    unfold split_words in
    (ap (λ n. split_from n (in_front ws tail) []) enough
      ∙ split_from-in_front ws tail fuel []
      ∙ split_from-fuel fuel (suc (length tail)) tail ws (omega (arith, length-in_front ws tail))
          (omega arith))

next_unclosed : (s : Text) → Lacks b'\'' s → next (b'\'' ∷ s) ≡ failed eof_in_quote
next_unclosed s h =
    let e : scan_stream (b'\'' ∷ s)
        ≡ (broken eof_in_quote (record { token_type = word_token; value = s }), []) =
      unfold scan_stream in scan_from-unclosed s [] word_token h in
    unfold next_from next after_scan in rw (e, next_from)

-- A single quote that nothing closes: `Split` returns the words in front of it, and the error.
pub split_words_unclosed :
    (ws : List Text) (s : Text)
    → Lacks b'\'' s
    → split_words (in_front ws (b'\'' ∷ s))
      ≡ some (record { sub_strings = ws; error = some eof_in_quote })
split_words_unclosed ws s h =
    split_words-in_front ws (b'\'' ∷ s) ∙ unfold split_from in rw (next_unclosed s h, split_from)

after_comment :
    (fuel : ℕ) (body input rest : Text)
    → scan_stream input ≡ (token (record { token_type = comment_token; value = body }), rest)
    → next_from (suc fuel) input ≡ next_from fuel rest
after_comment fuel body input rest e = unfold next_from after_scan after_token in rw (e, next_from)

next_comment :
    (body rest : Text) → Lacks b'\n' body → next (b'#' ∷ (body ++ b'\n' ∷ rest)) ≡ next rest
next_comment body rest h =
    let e : scan_stream (b'#' ∷ (body ++ b'\n' ∷ rest))
        ≡ (token (record { token_type = comment_token; value = body }), rest) =
      unfold scan_stream in scan_from-comment body rest [] comment_token h in
    unfold next in
    (after_comment (suc (length (body ++ b'\n' ∷ rest))) body (b'#' ∷ (body ++ b'\n' ∷ rest)) rest e
      ∙ next_from-fuel (suc (length (body ++ b'\n' ∷ rest))) (suc (length rest)) rest
          (omega (arith, length-append body (b'\n' ∷ rest))) (omega arith))

-- A comment behind quoted words is skipped up to the end of its line: what stands on the next line
-- is split as if it followed the words.
pub split_words_comment :
    (ws : List Text) (body rest : Text)
    → Lacks b'\n' body
    → split_words (in_front ws (b'#' ∷ (body ++ b'\n' ∷ rest))) ≡ split_words (in_front ws rest)
split_words_comment ws body rest h =
    split_words-in_front ws (b'#' ∷ (body ++ b'\n' ∷ rest))
    ∙ same_next (next_comment body rest h)
    ∙ split_from-fuel _ _ rest ws (omega (arith, length-append body (b'\n' ∷ rest))) (omega arith)
    ∙ sym (split_words-in_front ws rest)
  where
    same_next :
        next (b'#' ∷ (body ++ b'\n' ∷ rest)) ≡ next rest
        → split_from (suc (suc (length (body ++ b'\n' ∷ rest)))) (b'#' ∷ (body ++ b'\n' ∷ rest)) ws
          ≡ split_from (suc (suc (length (body ++ b'\n' ∷ rest)))) rest ws
    same_next e = unfold split_from in rw (e, split_from)
