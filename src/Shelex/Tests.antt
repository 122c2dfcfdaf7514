-- ===== src/Shelex/Tests.antt =====
-- Command lines at concrete inputs.
use remote_docker_agent.Prelude.{
  ◌≡◌, refl, Option, none, some, List, [], ◌∷◌, ◌++◌, Text, codes, nat_eq, eq_text,
}
use remote_docker_agent.Shelex.{
  eof_in_quote, eof_after_escape, SplitResult, split_words, classify_rune, scan_stream,
}
use remote_docker_agent.Shelex.RoundTrip.{
  command_line, in_front, split_words-command_line, split_words_unclosed, split_words_comment,
}

abbrev words : List Text → Option SplitResult
words ws = some (record { sub_strings = ws; error = none })

split_runs :
    (split_words (codes "one \"two three\" four # five")
      ≡ words (codes "one" ∷ codes "two three" ∷ codes "four" ∷ []))
    × (split_words (codes "a'b c'\\ d") ≡ words (codes "ab c d" ∷ []))
    × (split_words (codes "x#y \n#z\n\tw") ≡ words (codes "x#y" ∷ codes "w" ∷ []))
    × (split_words (codes "a 'b")
        ≡ some (record { sub_strings = codes "a" ∷ []; error = some eof_in_quote }))
    × (split_words (codes "a \\")
        ≡ some (record { sub_strings = codes "a" ∷ []; error = some eof_after_escape }))
unfolding split_words scan_stream classify_rune
split_runs = (refl, refl, refl, refl, refl)

abbrev odd_words : List Text
odd_words = codes "a \"b\" \\" ∷ [] ∷ codes "#c\n'" ∷ []

split_words-command_line_example : split_words (command_line odd_words) ≡ words odd_words
split_words-command_line_example = split_words-command_line odd_words

quote_unclosed :
    split_words (in_front odd_words (b'\'' ∷ codes "x y"))
    ≡ some (record { sub_strings = odd_words; error = some eof_in_quote })
quote_unclosed = split_words_unclosed odd_words (codes "x y") (refl, (refl, (refl, tt)))

comment_skipped :
    split_words (in_front odd_words (b'#' ∷ (codes "no" ++ b'\n' ∷ codes "end")))
    ≡ split_words (in_front odd_words (codes "end"))
comment_skipped = split_words_comment odd_words (codes "no") (codes "end") (refl, (refl, tt))
