-- ===== src/Bridge/Sessions/Teardown.antt =====
-- pkg/docker-proxy/mutagen-bridge: the sessions that are listed once a container's are terminated.
use remote_docker_agent.Prelude.{
  ◌%◌, ◌≡◌, ap, sym, ◌∙◌, ◌⊎◌, inl, inr, Bool, true, false, Option, none, some, List, [], ◌∷◌, ◌++◌,
  if◌then◌else◌, length, All, Text, codes, is_empty, text_eq, text_eq_iff, eq_text, lookup,
  lookup-insert, ok, arith,
}
use remote_docker_agent.Encoding.Hex.{IsLowerHex}
use remote_docker_agent.ContainerId.{decompress_container_id, compress_container_id}
use remote_docker_agent.ContainerId.RoundTrip.{decompress-compress}
use remote_docker_agent.Bridge.Sessions.{
  label_selector, Session, SessionManager, container_id_label, session_container_id, container_ids,
}

-- A container id as Docker makes them: lower-case hexadecimal digits, in pairs.
abbrev pub IsContainerId : Text → Type 0
IsContainerId id = All IsLowerHex id × (length id % 2 ≡ 0)

-- The label of a session that was created here: none, or a packed container id.
abbrev pub IsLabelled : Session → Type 0
IsLabelled s =
    (lookup container_id_label s.labels ≡ none)
    ⊎ ((id : Text) × (label : Text) × IsContainerId id
        × (compress_container_id id ≡ some label)
        × (lookup container_id_label s.labels ≡ some label))

unfoldable pub is_label : Text → Option Text → Bool
is_label label none = false
is_label label (some l) = text_eq l label

-- The sessions without the label.
unfoldable pub without : Text → List Session → List Session
without label [] = []
without label (s ∷ states) =
    let rest = without label states in
    if is_label label (lookup container_id_label s.labels) then rest else s ∷ rest

-- Mutagen's label selectors: terminating by `container-id=label` leaves the sessions without that
-- label, and no others.
abbrev pub HonoursSelectors {ℓ} : {S : Type ℓ} → SessionManager S → Type ℓ
HonoursSelectors {S = S} mutagen =
    (label : Text) (sessions : S) (states : List Session)
    → mutagen.list sessions ≡ ok states
    → mutagen.list (mutagen.terminate (label_selector (codes "container-id=" ++ label)) sessions)
      ≡ ok (without label states)

same-text_eq : (a b c d : Text) → (a ≡ b → c ≡ d) → (c ≡ d → a ≡ b) → text_eq a b ≡ text_eq c d
same-text_eq a b c d f g = ground (arith, text_eq_iff a b, text_eq_iff c d)

-- A session has the label of a container exactly when the id it is listed under is the container's.
is_label-session :
    (id label : Text) (s : Session)
    → IsContainerId id
    → compress_container_id id ≡ some label
    → IsLabelled s
    → (is_empty (session_container_id s) ≡ true)
      ⊎ (is_label label (lookup container_id_label s.labels) ≡ text_eq (session_container_id s) id)
unfolding session_container_id is_label is_empty
is_label-session id label s h c (inl e) = inl (rw (e, session_container_id))
is_label-session id label s h c (inr (j, l, k, d, e)) =
    let p = decompress-compress id h.0 h.1 in
    let q = decompress-compress j k.0 k.1 in
    let pe : p.0 ≡ label = let i = p.1 in cc in
    let qe : q.0 ≡ l = let i = q.1 in cc in
    let id_of : decompress_container_id label ≡ id = ap decompress_container_id (sym pe) ∙ p.2 in
    let j_of : decompress_container_id l ≡ j = ap decompress_container_id (sym qe) ∙ q.2 in
    let same : text_eq l label ≡ text_eq j id =
      same-text_eq l label j id (λ i. sym j_of ∙ ap decompress_container_id i ∙ id_of) (λ i. cc) in
    inr (rw (e, session_container_id, is_label, j_of) same)

pub lookup-container_ids :
    (id label other : Text) (states : List Session)
    → IsContainerId id
    → compress_container_id id ≡ some label
    → All IsLabelled states
    → lookup other (container_ids (without label states))
      ≡ (if text_eq id other then none else lookup other (container_ids states))
unfolding container_ids without lookup
lookup-container_ids id label other [] h c a = ground arith
lookup-container_ids id label other (s ∷ states) h c (b, a) =
    let r = lookup-container_ids id label other states h c a in
    let l = is_label-session id label s h c b in
    let i = lookup-insert (session_container_id s) other true (container_ids states) in
    let k =
      lookup-insert (session_container_id s) other true (container_ids (without label states)) in
    ground (
      arith,
      text_eq_iff id other,
      text_eq_iff (session_container_id s) id,
      text_eq_iff (session_container_id s) other,
    )
