-- ===== src/Net.antt =====
-- Go's `net.SplitHostPort` and the white space of `strings.Fields`.
use remote_docker_agent.Prelude.{
  ℕ, ◌≡◌, refl, Bool, true, false, not, ◌&&◌, ◌||◌, Option, none, some, List, [], ◌∷◌, ◌++◌, ◌==◌,
  leb, if◌then◌else◌, Text, is_empty, arith, Bool-cases, Option-cases, ==_iff, inl, inr, ap, ◌∙◌,
}

unfoldable pub contains : ℕ → Text → Bool
contains c [] = false
contains c (d ∷ s) = if d == c then true else contains c s

-- What stands before and behind the first `c`.
unfoldable pub cut : ℕ → Text → Option (Text × Text)
cut c [] = none
cut c (d ∷ s) =
    let rest = cut c s in
    if d == c then some ([], s) else elim rest [ none ↦ none | some (a, b) ↦ some (d ∷ a, b) ]

-- What stands before and behind the last `c`.
unfoldable pub cut_last : ℕ → Text → Option (Text × Text)
cut_last c [] = none
cut_last c (d ∷ s) = elim (cut_last c s) [
  | some (a, b) ↦ some (d ∷ a, b)
  | none ↦ if d == c then some ([], s) else none
]

-- The port behind a bracketed host: exactly one colon, directly behind the bracket.
bracketed : Text → Text → Option (Text × Text)
unfolding contains
bracketed host [] = none
bracketed host (c ∷ port) =
    if not (c == b':')
    then none
    else if contains b':' port || contains b'[' host || contains b'[' port || contains b']' port
    then none
    else some (host, port)

plain : Text → Text → Option (Text × Text)
unfolding contains
plain host port =
    if contains b':' host
    then none
    else if contains b'[' host || contains b'[' port || contains b']' host || contains b']' port
    then none
    else some (host, port)

split_plain : Text → Option (Text × Text)
unfolding cut_last plain
split_plain s = elim (cut_last b':' s) [ none ↦ none | some (host, port) ↦ plain host port ]

split_bracketed : Text → Option (Text × Text)
unfolding cut bracketed
split_bracketed s = elim (cut b']' s) [ none ↦ none | some (host, rest) ↦ bracketed host rest ]

-- `none` is an error; the program reads no part of the result then but the empty strings.
unfoldable pub split_host_port : Text → Option (Text × Text)
unfolding split_plain split_bracketed
split_host_port [] = none
split_host_port (c ∷ s) = if c == b'[' then split_bracketed s else split_plain (c ∷ s)

-- `unicode.IsSpace`
unfoldable pub is_space : ℕ → Bool
is_space c =
    (leb 9 c && leb c 13)
    || c == 32
    || c == 0x85
    || c == 0xA0
    || c == 0x1680
    || (leb 0x2000 c && leb c 0x200a)
    || c == 0x2028
    || c == 0x2029
    || c == 0x202f
    || c == 0x205f
    || c == 0x3000

-- `strings.Fields`: the word at the front, and the words behind it.
fields_from : Text → Text × List Text
unfolding is_space
fields_from [] = ([], [])
fields_from (c ∷ s) =
    let (word, words) = fields_from s in
    if is_space c then ([], if is_empty word then words else word ∷ words) else (c ∷ word, words)

unfoldable pub fields : Text → List Text
unfolding fields_from
fields s = let (word, words) = fields_from s in if is_empty word then words else word ∷ words

split_host_port_of_no_colon_cut : (s : Text) → contains b':' s ≡ false → cut_last b':' s ≡ none
unfolding cut_last contains
split_host_port_of_no_colon_cut [] h = refl
split_host_port_of_no_colon_cut (c ∷ s) h = ground (arith, split_host_port_of_no_colon_cut s)

cut_last_of_lacking : (c : ℕ) (s : Text) → contains c s ≡ false → cut_last c s ≡ none
unfolding cut_last contains
cut_last_of_lacking c [] h = refl
cut_last_of_lacking c (d ∷ s) h = ground (arith, cut_last_of_lacking c s)

-- An address with no colon at all has no port, which is an error.
pub split_host_port_no_colon :
    (s : Text) → contains b':' s ≡ false → contains b'[' s ≡ false → split_host_port s ≡ none
unfolding split_host_port contains
split_host_port_no_colon [] h k = refl
split_host_port_no_colon (c ∷ s) h k = ground (arith, split_host_port_of_no_colon_cut (c ∷ s) h)

pub cut-eq-some : (c : ℕ) (s : Text) {a b : Text} → cut c s ≡ some (a, b) → s ≡ a ++ c ∷ b
unfolding cut
cut-eq-some c [] e = cc
cut-eq-some c (d ∷ s) {a} {b} e = elim (Bool-cases (d == c)) [
  | inl h ↦
      let k : some ([], s) ≡ some (a, b) = rw h at e in
      let front : [] ≡ a = cc in let back : s ≡ b = cc in rw (← front, ← back, (==_iff d c).0 h)
  | inr h ↦ elim (Option-cases (cut c s)) [
    | inl m ↦ let k : none ≡ some (a, b) = rw (h, m) at e in cc
    | inr ((a', b'), m) ↦
        let k : some (d ∷ a', b') ≡ some (a, b) = rw (h, m) at e in
        let front : d ∷ a' ≡ a = cc in
        let back : b' ≡ b = cc in rw (← front, ← back) (ap (◌∷◌ d) (cut-eq-some c s m))
  ]
]

-- What is not cut holds no `c`, and neither does what stands before the first.
pub cut-eq-none : (c : ℕ) (s : Text) → cut c s ≡ none → contains c s ≡ false
unfolding cut contains
cut-eq-none c [] e = refl
cut-eq-none c (d ∷ s) e = elim (Bool-cases (d == c)) [
  | inl h ↦ let k = rw h at e in cc
  | inr h ↦ elim (Option-cases (cut c s)) [
    | inl m ↦ rw h (cut-eq-none c s m)
    | inr ((a, b), m) ↦ let k = rw (h, m) at e in cc
  ]
]

pub cut-contains : (c : ℕ) (s : Text) {a b : Text} → cut c s ≡ some (a, b) → contains c a ≡ false
unfolding cut contains
cut-contains c [] e = cc
cut-contains c (d ∷ s) {a} {b} e = elim (Bool-cases (d == c)) [
  | inl h ↦
      let k : some ([], s) ≡ some (a, b) = rw h at e in let front : [] ≡ a = cc in rw (← front) refl
  | inr h ↦ elim (Option-cases (cut c s)) [
    | inl m ↦ let k : none ≡ some (a, b) = rw (h, m) at e in cc
    | inr ((a', b'), m) ↦
        let k : some (d ∷ a', b') ≡ some (a, b) = rw (h, m) at e in
        let front : d ∷ a' ≡ a = cc in rw (← front, h) (cut-contains c s m)
  ]
]

pub cut_last-append :
    (c : ℕ) (a b : Text) → contains c b ≡ false → cut_last c (a ++ c ∷ b) ≡ some (a, b)
unfolding cut_last
cut_last-append c [] b h =
    let n : cut_last c b ≡ none = cut_last_of_lacking c b h in rw n (ground arith)
cut_last-append c (d ∷ a) b h = rw (cut_last-append c a b h)

split_plain-append :
    (host port : Text)
    → contains b':' port ≡ false
    → split_plain (host ++ b':' ∷ port) ≡ plain host port
unfolding split_plain
split_plain-append host port h = rw (cut_last-append b':' host port h, split_plain)

plain_unbracketed :
    (host port : Text)
    → contains b'[' host ≡ false
    → contains b']' host ≡ false
    → contains b'[' port ≡ false
    → contains b']' port ≡ false
    → plain host port ≡ (if contains b':' host then none else some (host, port))
unfolding plain
plain_unbracketed host port h1 h2 p1 p2 = elim (Bool-cases (contains b':' host)) [
  | inl e ↦ rw (e, plain)
  | inr e ↦ rw (e, plain, h1, h2, p1, p2)
]

split_host_port-split_plain :
    (c : ℕ) (s : Text) → (c == b'[') ≡ false → split_host_port (c ∷ s) ≡ split_plain (c ∷ s)
unfolding split_host_port
split_host_port-split_plain c s h = rw (h, split_host_port)

ne_of_contains : (c d : ℕ) (s : Text) → contains c (d ∷ s) ≡ false → (d == c) ≡ false
unfolding contains
ne_of_contains c d s h = ground arith

-- A plain host in front of a port is split off again, and a host that holds a colon without
-- brackets is an error.
pub split_host_port-append :
    (host port : Text)
    → contains b'[' host ≡ false
    → contains b']' host ≡ false
    → contains b':' port ≡ false
    → contains b'[' port ≡ false
    → contains b']' port ≡ false
    → split_host_port (host ++ b':' ∷ port)
      ≡ (if contains b':' host then none else some (host, port))
split_host_port-append [] port h1 h2 p0 p1 p2 =
    split_host_port-split_plain b':' port refl
    ∙ split_plain-append [] port p0
    ∙ plain_unbracketed [] port h1 h2 p1 p2
split_host_port-append (c ∷ host) port h1 h2 p0 p1 p2 =
    split_host_port-split_plain c (host ++ b':' ∷ port) (ne_of_contains b'[' c host h1)
    ∙ split_plain-append (c ∷ host) port p0
    ∙ plain_unbracketed (c ∷ host) port h1 h2 p1 p2
