-- ===== src/Prelude/Texts.antt =====
-- Texts as lists of code points, with the functions of Go's `strings` package that the program uses.
use Prim.Native.Char.{code}
use Prim.Native.String.{String}
use Prim.Native.Nat.{ℕ}
use mathlib.Core.Path.{◌≡◌, refl, ap, ap₂, sym, ◌∙◌}
use mathlib.Core.Logic.{◌↔◌, inl, inr}
use mathlib.Core.Bool.{Bool, true, false, ◌&&◌}
use mathlib.Core.Option.{Option, none, some}
use mathlib.Core.List.{List, [], ◌∷◌, ◌++◌}
use native.Mathlib.Omega.{arith}
use remote_docker_agent.Prelude.Tests.{◌==◌, ==_iff, if◌then◌else◌, Bool-cases}
use remote_docker_agent.Prelude.Lists.{All}

abbrev pub Text : Type 0
Text = List ℕ

-- The code points of a literal.
abbrev pub codes : String → Text
codes String.[] = []
codes (String.◌∷◌ c s) = code c ∷ codes s

abbrev pub is_empty : Text → Bool
is_empty [] = true
is_empty (c ∷ s) = false

-- `a == b` on strings.
unfoldable pub text_eq : Text → Text → Bool
text_eq [] [] = true
text_eq (x ∷ xs) (y ∷ ys) = x == y && text_eq xs ys
text_eq _ _ = false

pub text_eq_iff : (a b : Text) → (text_eq a b ≡ true) ↔ (a ≡ b)
unfolding text_eq
text_eq_iff (x ∷ a) (y ∷ b) = ground (arith, text_eq_iff a b)
text_eq_iff _ _ = ground arith

pub text_eq_refl : (a : Text) → text_eq a a ≡ true
text_eq_refl a = (text_eq_iff a a).1 refl

-- `strings.HasPrefix`, with what follows the prefix.
unfoldable pub strip_prefix? : Text → Text → Option Text
strip_prefix? [] s = some s
strip_prefix? (p ∷ ps) [] = none
strip_prefix? (p ∷ ps) (c ∷ s) = if p == c then strip_prefix? ps s else none

unfoldable pub has_prefix : Text → Text → Bool
unfolding strip_prefix?
has_prefix s prefix = elim (strip_prefix? prefix s) [ none ↦ false | some _ ↦ true ]

-- `strings.TrimPrefix`.
unfoldable pub trim_prefix : Text → Text → Text
unfolding strip_prefix?
trim_prefix s prefix = elim (strip_prefix? prefix s) [ none ↦ s | some rest ↦ rest ]

pub strip_prefix?-append : (p s : Text) → strip_prefix? p (p ++ s) ≡ some s
unfolding strip_prefix?
strip_prefix?-append [] s = refl
strip_prefix?-append (c ∷ p) s = ground (arith, strip_prefix?-append p s)

pub has_prefix-append : (p s : Text) → has_prefix (p ++ s) p ≡ true
unfolding has_prefix
has_prefix-append p s = ground (arith, strip_prefix?-append p s)

pub trim_prefix-append : (p s : Text) → trim_prefix (p ++ s) p ≡ s
unfolding trim_prefix
trim_prefix-append p s = ground (arith, strip_prefix?-append p s)

-- `strings.Split` by one character: the first part, and the parts behind it.
unfoldable pub split_first : ℕ → Text → Text × List Text
split_first sep [] = ([], [])
split_first sep (c ∷ s) =
    let (part, parts) = split_first sep s in
    if c == sep then ([], part ∷ parts) else (c ∷ part, parts)

unfoldable pub split : ℕ → Text → List Text
unfolding split_first
split sep s = (split_first sep s).0 ∷ (split_first sep s).1

-- `strings.Join` by one character.
unfoldable pub join : ℕ → List Text → Text
join sep [] = []
join sep (p ∷ []) = p
join sep (p ∷ q ∷ ps) = p ++ sep ∷ join sep (q ∷ ps)

-- No character of the text is `sep`.
abbrev pub Lacks : ℕ → Text → Type 0
Lacks sep [] = Unit {0}
Lacks sep (c ∷ s) = ((c == sep) ≡ false) × Lacks sep s

pub split_first-Lacks : (sep : ℕ) (p : Text) → Lacks sep p → split_first sep p ≡ (p, [])
unfolding split_first
split_first-Lacks sep [] h = refl
split_first-Lacks sep (c ∷ p) h = rw (split_first-Lacks sep p h.1, h.0)

pub split_first-append :
    (sep : ℕ) (p rest : Text)
    → Lacks sep p
    → split_first sep (p ++ sep ∷ rest) ≡ (p, split sep rest)
unfolding split split_first
split_first-append sep [] rest h = ground arith
split_first-append sep (c ∷ p) rest h = rw (split_first-append sep p rest h.1, h.0)

pub split-append :
    (sep : ℕ) (p rest : Text) → Lacks sep p → split sep (p ++ sep ∷ rest) ≡ p ∷ split sep rest
unfolding split
split-append sep p rest h = rw (split_first-append sep p rest h)

pub split-Lacks : (sep : ℕ) (p : Text) → Lacks sep p → split sep p ≡ p ∷ []
unfolding split
split-Lacks sep p h = rw (split_first-Lacks sep p h)

join-cons :
    (sep c : ℕ) (p : Text) (ps : List Text) → join sep ((c ∷ p) ∷ ps) ≡ c ∷ join sep (p ∷ ps)
unfolding join
join-cons sep c p [] = refl
join-cons sep c p (q ∷ ps) = refl

join-nil : (sep : ℕ) (p : Text) (ps : List Text) → join sep ([] ∷ p ∷ ps) ≡ sep ∷ join sep (p ∷ ps)
unfolding join
join-nil sep p ps = refl

split-cons_eq : (sep c : ℕ) (s : Text) → (c == sep) ≡ true → split sep (c ∷ s) ≡ [] ∷ split sep s
unfolding split split_first
split-cons_eq sep c s h = rw h

split-cons_ne :
    (sep c : ℕ) (s : Text)
    → (c == sep) ≡ false
    → split sep (c ∷ s) ≡ (c ∷ (split_first sep s).0) ∷ (split_first sep s).1
unfolding split split_first
split-cons_ne sep c s h = rw h

join-split_first :
    (sep : ℕ) (s : Text) → join sep ((split_first sep s).0 ∷ (split_first sep s).1) ≡ s
unfolding split
join-split_first sep [] = unfold join split_first in refl
join-split_first sep (c ∷ s) = elim (Bool-cases (c == sep)) [
  | inl e ↦
      ap (join sep) (split-cons_eq sep c s e)
      ∙ join-nil sep (split_first sep s).0 (split_first sep s).1
      ∙ ap₂ ◌∷◌ (sym ((==_iff c sep).0 e)) (join-split_first sep s)
  | inr e ↦
      ap (join sep) (split-cons_ne sep c s e)
      ∙ join-cons sep c (split_first sep s).0 (split_first sep s).1
      ∙ ap (◌∷◌ c) (join-split_first sep s)
]

-- Splitting loses nothing.
pub join-split : (sep : ℕ) (s : Text) → join sep (split sep s) ≡ s
unfolding split
join-split sep s = join-split_first sep s

pub split-All-Lacks : (sep : ℕ) (s : Text) → All (Lacks sep) (split sep s)
unfolding split split_first
split-All-Lacks sep [] = (tt, tt)
split-All-Lacks sep (c ∷ s) = elim (Bool-cases (c == sep)) [
  | inl e ↦ rw e (tt, split-All-Lacks sep s)
  | inr e ↦ rw e ((e, (split-All-Lacks sep s).0), (split-All-Lacks sep s).1)
]
