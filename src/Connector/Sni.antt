-- ===== src/Connector/Sni.antt =====
-- pkg/connector/proxy.go: `parseConnectIDFromSNI`.
use remote_docker_agent.Prelude.{
  ◌≡◌, ◌≢◌, refl, ap, subst, ◌∙◌, sym, ◌↔◌, ◌⊎◌, inl, inr, true, false, not, List, [], ◌∷◌, ◌++◌,
  Text, is_empty, split, join, Lacks, split-append, split-Lacks, join-split, split-All-Lacks,
  nat_eq, eq_text, Result, ok, err, ◌>>◌, guard, >>-eq-ok, guard-eq-ok, All, arith,
}

pub data SniError : Type 0 where
  sni_empty invalid_sni_format connect_id_empty : SniError

first_part : List Text → Result SniError Text
first_part [] = err invalid_sni_format
first_part (connect_id ∷ _) = do guard (not (is_empty connect_id)) connect_id_empty; ok connect_id

unfoldable pub parse_connect_id_from_sni : Text → Result SniError Text
unfolding first_part
parse_connect_id_from_sni sni = do guard (not (is_empty sni)) sni_empty; first_part (split b'.' sni)

-- The server name is the connect id alone, or the connect id, a dot and anything.
pub record IsLabelOf (connect_id sni : Text) : Type 0 where
  pub ne_nil : connect_id ≢ []
  pub no_dot : Lacks b'.' connect_id
  pub start : (sni ≡ connect_id) ⊎ ((domain : Text) × (sni ≡ connect_id ++ b'.' ∷ domain))

ne_of_guard : (s : Text) → not (is_empty s) ≡ true → s ≢ []
ne_of_guard s h = ground arith

guard_of_ne : (s : Text) → s ≢ [] → is_empty s ≡ false
guard_of_ne s h = ground arith

first_part-eq-ok :
    (parts : List Text) {c : Text}
    → first_part parts ≡ ok c
    → (rest : List Text) × (parts ≡ c ∷ rest) × (c ≢ [])
unfolding first_part
first_part-eq-ok [] e = cc
first_part-eq-ok (p ∷ rest) {c} e =
    let (a, b) = >>-eq-ok (guard (not (is_empty p)) connect_id_empty) _ e in
    let same : p ≡ c = cc in
    (rest, cc, subst (λ q. q ≢ []) same (ne_of_guard p (guard-eq-ok _ _ a)))

start_of :
    (sni c : Text) (rest : List Text)
    → join b'.' (c ∷ rest) ≡ sni
    → (sni ≡ c) ⊎ ((domain : Text) × (sni ≡ c ++ b'.' ∷ domain))
unfolding join
start_of sni c [] e = inl (sym e)
start_of sni c (p ∷ ps) e = inr (join b'.' (p ∷ ps), sym e)

found : (sni c : Text) → parse_connect_id_from_sni sni ≡ ok c → IsLabelOf c sni
unfolding parse_connect_id_from_sni
found sni c e =
    let (_, e') = >>-eq-ok (guard (not (is_empty sni)) sni_empty) _ e in
    let (rest, parts, ne) = first_part-eq-ok (split b'.' sni) e' in
    record {
      ne_nil = ne;
      no_dot = (subst (All (Lacks b'.')) parts (split-All-Lacks b'.' sni)).0;
      start = start_of sni c rest (sym (ap (join b'.') parts) ∙ join-split b'.' sni);
    }

-- The first label of a name that starts with `c`.
finds_split :
    (sni c : Text) (rest : List Text)
    → c ≢ []
    → sni ≢ []
    → split b'.' sni ≡ c ∷ rest
    → parse_connect_id_from_sni sni ≡ ok c
unfolding parse_connect_id_from_sni
finds_split sni c rest h k e = rw (guard_of_ne sni k, e, guard_of_ne c h)

ne-append : (c rest : Text) → c ≢ [] → c ++ rest ≢ []
ne-append [] rest h = absurd (h refl)
ne-append (x ∷ c) rest h = λ e. cc

finds : (sni c : Text) → IsLabelOf c sni → parse_connect_id_from_sni sni ≡ ok c
finds sni c l = elim l.start [
  | inl e ↦ rw e (finds_split c c [] l.ne_nil l.ne_nil (split-Lacks b'.' c l.no_dot))
  | inr (domain, e) ↦ rw e (
      finds_split (c ++ b'.' ∷ domain) c (split b'.' domain) l.ne_nil (ne-append c _ l.ne_nil)
        (split-append b'.' c domain l.no_dot))
]

-- A server name yields a connect id exactly when that is its first label; the domain behind it is
-- not looked at.
pub parse_connect_id_iff :
    (sni connect_id : Text)
    → (parse_connect_id_from_sni sni ≡ ok connect_id) ↔ IsLabelOf connect_id sni
parse_connect_id_iff sni c = (found sni c, finds sni c)
