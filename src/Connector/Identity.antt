-- ===== src/Connector/Identity.antt =====
-- pkg/connector/identity.go: the user's identity in the SPIFFE URI of a client certificate.
use remote_docker_agent.Prelude.{
  ◌≡◌, ◌≢◌, refl, ap, subst, ◌∙◌, sym, ◌↔◌, inl, inr, true, not, Option, none, some, List, [], ◌∷◌,
  ◌++◌, if◌then◌else◌, Bool-cases, Text, codes, is_empty, text_eq, text_eq_iff, has_prefix,
  trim_prefix, has_prefix-append, split, join, Lacks, split-append, split-Lacks, join-split,
  split-All-Lacks, nat_eq, eq_text, Result, ok, err, ◌>>◌, guard, Result-cases, >>-eq-ok,
  guard-eq-ok, All, arith,
}

-- The fields of a parsed `url.URL` that a certificate's URI shows.
pub record Uri : Type 0 where
  pub scheme : Text
  pub host : Text
  pub path : Text

pub record UserIdentity : Type 0 where
  pub user_id : Text
  pub org_id : Text

pub data IdentityError : Type 0 where
  certificate_nil no_spiffe_uri invalid_scheme invalid_path_format : IdentityError
  missing_orgs missing_users org_id_empty user_id_empty : IdentityError

-- The checks on the four segments of the path.
parse_segments : List Text → Result IdentityError UserIdentity
parse_segments (orgs ∷ org ∷ users ∷ user ∷ []) = do
  guard (text_eq orgs (codes "orgs")) missing_orgs
  guard (text_eq users (codes "users")) missing_users
  guard (not (is_empty org)) org_id_empty
  guard (not (is_empty user)) user_id_empty
  ok (record { user_id = user; org_id = org })
parse_segments _ = err invalid_path_format

unfoldable pub parse_spiffe_uri : Uri → Result IdentityError UserIdentity
unfolding parse_segments
parse_spiffe_uri uri = do
  guard (text_eq uri.scheme (codes "spiffe")) invalid_scheme
  parse_segments (split b'/' (trim_prefix uri.path (codes "/")))

-- The loop over `cert.URIs`: the first URI that parses.
first_identity : List Uri → Result IdentityError UserIdentity
unfolding parse_spiffe_uri
first_identity [] = err no_spiffe_uri
first_identity (uri ∷ uris) =
    let rest = first_identity uris in
    if has_prefix uri.scheme (codes "spiffe")
    then elim (parse_spiffe_uri uri) [ ok identity ↦ ok identity | err _ ↦ rest ]
    else rest

-- A certificate is its list of URIs, `none` the nil pointer.
unfoldable pub extract_user_identity : Option (List Uri) → Result IdentityError UserIdentity
unfolding first_identity
extract_user_identity none = err certificate_nil
extract_user_identity (some uris) = first_identity uris

-- A non-empty segment.
abbrev pub IsSegment : Text → Type 0
IsSegment s = (s ≢ []) × Lacks b'/' s

-- The URI names this identity, by the format that the issuer writes, with or without the first slash.
pub record Names (uri : Uri) (i : UserIdentity) : Type 0 where
  pub scheme : uri.scheme ≡ codes "spiffe"
  pub path :
      trim_prefix uri.path (codes "/")
      ≡ codes "orgs" ++ b'/' ∷ (i.org_id ++ b'/' ∷ (codes "users" ++ b'/' ∷ i.user_id))
  pub org : IsSegment i.org_id
  pub user : IsSegment i.user_id

parse_segments-eq-ok :
    (parts : List Text) {i : UserIdentity}
    → parse_segments parts ≡ ok i
    → (parts ≡ codes "orgs" ∷ i.org_id ∷ codes "users" ∷ i.user_id ∷ [])
      × (i.org_id ≢ [])
      × (i.user_id ≢ [])
unfolding parse_segments
parse_segments-eq-ok (orgs ∷ org ∷ users ∷ user ∷ []) e =
    ground (arith, text_eq_iff orgs (codes "orgs"), text_eq_iff users (codes "users"))
parse_segments-eq-ok _ e = cc

parse_segments_of_valid :
    (org user : Text)
    → org ≢ []
    → user ≢ []
    → parse_segments (codes "orgs" ∷ org ∷ codes "users" ∷ user ∷ [])
      ≡ ok (record { user_id = user; org_id = org })
unfolding parse_segments text_eq
parse_segments_of_valid org user h k = ground arith

joined :
    (i : UserIdentity)
    → join b'/' (codes "orgs" ∷ i.org_id ∷ codes "users" ∷ i.user_id ∷ [])
      ≡ codes "orgs" ++ b'/' ∷ (i.org_id ++ b'/' ∷ (codes "users" ++ b'/' ∷ i.user_id))
unfolding join
joined i = refl

parsed : (uri : Uri) (i : UserIdentity) → parse_spiffe_uri uri ≡ ok i → Names uri i
unfolding parse_spiffe_uri
parsed uri i e =
    let (scheme, e') = >>-eq-ok (guard (text_eq uri.scheme (codes "spiffe")) invalid_scheme) _ e in
    let rest = trim_prefix uri.path (codes "/") in
    let (parts, org, user) = parse_segments-eq-ok (split b'/' rest) e' in
    let lacks = subst (All (Lacks b'/')) parts (split-All-Lacks b'/' rest) in
    record {
      scheme = (text_eq_iff uri.scheme (codes "spiffe")).0 (guard-eq-ok _ _ scheme);
      path = sym (join-split b'/' rest) ∙ ap (join b'/') parts ∙ joined i;
      org = (org, lacks.1.0);
      user = (user, lacks.1.1.1.0);
    }

split_path :
    (i : UserIdentity)
    → Lacks b'/' i.org_id
    → Lacks b'/' i.user_id
    → split b'/' (codes "orgs" ++ b'/' ∷ (i.org_id ++ b'/' ∷ (codes "users" ++ b'/' ∷ i.user_id)))
      ≡ codes "orgs" ∷ i.org_id ∷ codes "users" ∷ i.user_id ∷ []
split_path i h k =
    split-append b'/' (codes "orgs") _ (refl, (refl, (refl, (refl, tt))))
    ∙ ap (◌∷◌ (codes "orgs")) (
        split-append b'/' i.org_id _ h
        ∙ ap (◌∷◌ i.org_id) (
            split-append b'/' (codes "users") _ (refl, (refl, (refl, (refl, (refl, tt)))))
            ∙ ap (◌∷◌ (codes "users")) (split-Lacks b'/' i.user_id k)))

parses : (uri : Uri) (i : UserIdentity) → Names uri i → parse_spiffe_uri uri ≡ ok i
unfolding parse_spiffe_uri
parses uri i n =
    rw ((text_eq_iff uri.scheme (codes "spiffe")).1 n.scheme, n.path, split_path i n.org.1 n.user.1)
      (parse_segments_of_valid i.org_id i.user_id n.org.0 n.user.0)

-- A URI parses to an identity exactly when its scheme is spiffe and its path, but for a
-- slash in front, is orgs/, the identity's organization, /users/ and its user, neither of them empty
-- or with a slash. The host of the URI is not looked at.
pub parse_spiffe_uri_iff :
    (uri : Uri) (i : UserIdentity) → (parse_spiffe_uri uri ≡ ok i) ↔ Names uri i
parse_spiffe_uri_iff uri i = (parsed uri i, parses uri i)

-- The first URI of a certificate that names an identity names this one.
pub data FirstNamed (i : UserIdentity) : List Uri → Type 0 where
  here : {uri : Uri} {uris : List Uri} → Names uri i → FirstNamed i (uri ∷ uris)
  later :
      {uri : Uri} {uris : List Uri}
      → ((j : UserIdentity) → ¬ Names uri j)
      → FirstNamed i uris
      → FirstNamed i (uri ∷ uris)

has_spiffe_prefix :
    (uri : Uri) {i : UserIdentity} → Names uri i → has_prefix uri.scheme (codes "spiffe") ≡ true
has_spiffe_prefix uri n = rw n.scheme (has_prefix-append (codes "spiffe") [])

skips :
    (uri : Uri) (uris : List Uri) (x : IdentityError)
    → parse_spiffe_uri uri ≡ err x
    → first_identity (uri ∷ uris) ≡ first_identity uris
unfolding first_identity
skips uri uris x p = elim (Bool-cases (has_prefix uri.scheme (codes "spiffe"))) [
  | inl h ↦ rw (h, p, first_identity)
  | inr h ↦ rw (h, first_identity)
]

first_found : (uris : List Uri) (i : UserIdentity) → first_identity uris ≡ ok i → FirstNamed i uris
unfolding first_identity
first_found [] i e = cc
first_found (uri ∷ uris) i e = elim (Result-cases (parse_spiffe_uri uri)) [
  | inl (j, p) ↦
      let n = parsed uri j p in
      let same : j ≡ i = cc (rw (has_spiffe_prefix uri n, p, first_identity) at e) in
      here (subst (Names uri) same n)
  | inr (x, p) ↦
      later (λ j n. let q = parses uri j n in cc)
        (first_found uris i (sym (skips uri uris x p) ∙ e))
]

first_finds : (i : UserIdentity) {uris : List Uri} → FirstNamed i uris → first_identity uris ≡ ok i
unfolding first_identity
first_finds i (here {uri} {uris} n) = rw (has_spiffe_prefix uri n, parses uri i n, first_identity)
first_finds i (later {uri} {uris} unnamed f) = elim (Result-cases (parse_spiffe_uri uri)) [
  | inl (j, p) ↦ absurd (unnamed j (parsed uri j p))
  | inr (x, p) ↦ skips uri uris x p ∙ first_finds i f
]

-- A certificate yields an identity exactly when one of its URIs names it, and no URI in front of
-- that one names any.
pub extract_user_identity_iff :
    (uris : List Uri) (i : UserIdentity)
    → (extract_user_identity (some uris) ≡ ok i) ↔ FirstNamed i uris
extract_user_identity_iff uris i =
    unfold extract_user_identity in (first_found uris i, first_finds i)
