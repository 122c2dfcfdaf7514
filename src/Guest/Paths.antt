-- ===== src/Guest/Paths.antt =====
-- Go's path/filepath on Unix, as far as the program uses it: Clean, Join, Dir, IsAbs, Rel.
use remote_docker_agent.Prelude.{
  ◌≡◌, refl, subst, ◌⊎◌, inl, inr, Bool, true, false, not, ◌&&◌, Option, none, some, List, [], ◌∷◌,
  ◌++◌, map, if◌then◌else◌, Bool-cases, Text, codes, is_empty, text_eq, text_eq_iff, split, join,
  has_prefix,
}
use remote_docker_agent.Net.{cut_last}

unfoldable pub is_abs : Text → Bool
is_abs path = has_prefix path (codes "/")

-- The segments of a path that are not empty.
unfoldable pub segments : List Text → List Text
segments [] = []
segments (s ∷ ss) = let rest = segments ss in if is_empty s then rest else s ∷ rest

unfoldable pub parts : Text → List Text
parts path = segments (split b'/' path)

-- `..` behind the segments kept so far, the last of them first: it removes one, stays at the root,
-- and is kept in front of a relative path.
unfoldable pub go_up : Bool → List Text → List Text
go_up rooted [] = if rooted then [] else codes ".." ∷ []
go_up rooted (s ∷ kept) = if text_eq s (codes "..") then codes ".." ∷ s ∷ kept else kept

unfoldable pub clean_parts : Bool → List Text → List Text → List Text
clean_parts rooted kept [] = kept
clean_parts rooted kept (s ∷ ss) =
    clean_parts rooted
      (if text_eq s (codes ".")
        then kept
        else if text_eq s (codes "..")
        then go_up rooted kept
        else s ∷ kept)
      ss

unfoldable pub reversed : List Text → List Text → List Text
reversed [] acc = acc
reversed (s ∷ ss) acc = reversed ss (s ∷ acc)

unfoldable pub or_dot : Text → Text
or_dot [] = codes "."
or_dot (c ∷ s) = c ∷ s

unfoldable pub clean : Text → Text
clean path =
    let kept = join b'/' (reversed (clean_parts (is_abs path) [] (parts path)) []) in
    if is_abs path then b'/' ∷ kept else or_dot kept

-- `filepath.Join` of two elements, of which empty ones are left out.
unfoldable pub join_path : Text → Text → Text
join_path [] [] = []
join_path [] (c ∷ b) = clean (c ∷ b)
join_path (c ∷ a) [] = clean (c ∷ a)
join_path (c ∷ a) (d ∷ b) = clean (c ∷ a ++ b'/' ∷ d ∷ b)

unfoldable pub dir_of : Option (Text × Text) → Text
dir_of none = codes "."
dir_of (some (front, base)) = clean (front ++ codes "/")

unfoldable pub dir : Text → Text
dir path = dir_of (cut_last b'/' path)

-- The segments of a base path, "." being none.
unfoldable pub base_parts : Text → List Text
base_parts base = if text_eq base (codes ".") then [] else parts base

-- Up from what is left of the base, down to what is left of the target.
unfoldable pub climb : List Text → List Text → Option Text
climb [] down = some (join b'/' down)
climb (s ∷ up) down =
    if text_eq s (codes "..")
    then none
    else some (join b'/' (codes ".." ∷ (map (λ _. codes "..") up ++ down)))

-- Past the segments that the base and the target share.
unfoldable pub rel_parts : List Text → List Text → Option Text
rel_parts [] targ = climb [] targ
rel_parts (b ∷ base) [] = climb (b ∷ base) []
rel_parts (b ∷ base) (t ∷ targ) =
    let rest = rel_parts base targ in if text_eq b t then rest else climb (b ∷ base) (t ∷ targ)

unfoldable pub same_root : Bool → Bool → Bool
same_root true b = b
same_root false b = not b

unfoldable pub is_rooted : Text → Bool
is_rooted base = not (text_eq base (codes ".")) && is_abs base

unfoldable pub rel : Text → Text → Option Text
rel base targ =
    if text_eq (clean targ) (clean base)
    then some (codes ".")
    else if same_root (is_rooted (clean base)) (is_abs (clean targ))
    then rel_parts (base_parts (clean base)) (parts (clean targ))
    else none

-- A path whose first segment is `..` starts with two dots.
join-up : (ss : List Text) → has_prefix (join b'/' (codes ".." ∷ ss)) (codes "..") ≡ true
unfolding join has_prefix
join-up [] = refl
join-up (s ∷ ss) = refl

climb-up :
    (b : Text) (base down : List Text) {r : Text}
    → climb (b ∷ base) down ≡ some r
    → has_prefix r (codes "..") ≡ true
unfolding climb
climb-up b base down {r} e = elim (Bool-cases (text_eq b (codes ".."))) [
  | inl q ↦ let k = rw (q, climb) at e in cc
  | inr q ↦
      let up = map (λ _. codes "..") base ++ down in
      let k : some (join b'/' (codes ".." ∷ up)) ≡ some r = rw (q, climb) at e in
      let i : join b'/' (codes ".." ∷ up) ≡ r = cc in
      subst (λ x. has_prefix x (codes "..") ≡ true) i (join-up up)
]

-- A relative path that does not start with two dots leads from the base's segments further down.
pub rel_parts-below :
    (base targ : List Text) {r : Text}
    → rel_parts base targ ≡ some r
    → has_prefix r (codes "..") ≡ false
    → (down : List Text) × (targ ≡ base ++ down)
unfolding rel_parts
rel_parts-below [] targ e h = (targ, refl)
rel_parts-below (b ∷ base) [] {r} e h = let k = climb-up b base [] e in absurd cc
rel_parts-below (b ∷ base) (t ∷ targ) {r} e h = elim (Bool-cases (text_eq b t)) [
  | inl q ↦
      let k : rel_parts base targ ≡ some r = rw (q, rel_parts) at e in
      let (down, i) = rel_parts-below base targ k h in let j = (text_eq_iff b t).0 q in (down, cc)
  | inr q ↦
      let k : climb (b ∷ base) (t ∷ targ) ≡ some r = rw (q, rel_parts) at e in
      let m = climb-up b base (t ∷ targ) k in absurd cc
]

-- The target's segments are the base's, and then others.
abbrev pub IsUnder : Text → Text → Type 0
IsUnder base targ = (down : List Text) × (parts (clean targ) ≡ base_parts (clean base) ++ down)

-- A target whose relative path does not start with two dots is the base or lies under it.
pub rel-IsUnder :
    (base targ : Text) {r : Text}
    → rel base targ ≡ some r
    → has_prefix r (codes "..") ≡ false
    → (clean targ ≡ clean base) ⊎ IsUnder base targ
unfolding rel
rel-IsUnder base targ {r} e h = elim (Bool-cases (text_eq (clean targ) (clean base))) [
  | inl q ↦ inl ((text_eq_iff (clean targ) (clean base)).0 q)
  | inr q ↦ elim (Bool-cases (same_root (is_rooted (clean base)) (is_abs (clean targ)))) [
    | inl m ↦
        let k : rel_parts (base_parts (clean base)) (parts (clean targ)) ≡ some r =
          rw (q, m, rel) at e in
        inr (rel_parts-below (base_parts (clean base)) (parts (clean targ)) k h)
    | inr m ↦ let k = rw (q, m, rel) at e in absurd cc
  ]
]
