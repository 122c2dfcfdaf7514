-- ===== src/Guest/Access.antt =====
-- pkg/guest/server.go: the check of a client's certificate beyond its chain.
use remote_docker_agent.Prelude.{
  ◌≡◌, refl, subst, ◌⊎◌, ◌↔◌, inl, inr, Bool, true, false, List, [], ◌∷◌, if◌then◌else◌, Bool-cases,
  Text, text_eq, text_eq_iff, arith,
}

-- A verified chain is the list of its certificates' common names.
abbrev pub Chain : Type 0
Chain = List Text

unfoldable pub is_allowed_name : List Text → Text → Bool
is_allowed_name [] client_cn = false
is_allowed_name (allowed_cn ∷ allowed_cns) client_cn =
    let rest = is_allowed_name allowed_cns client_cn in
    if text_eq client_cn allowed_cn then true else rest

unfoldable pub verify_first : List Text → List Chain → Bool
verify_first allowed_cns [] = false
verify_first allowed_cns ([] ∷ chains) = false
verify_first allowed_cns ((client_cn ∷ chain) ∷ chains) = is_allowed_name allowed_cns client_cn

-- The callback `VerifyPeerCertificate`, by the configured names.
unfoldable pub verify_peer_certificate : List Text → List Chain → Bool
verify_peer_certificate [] chains = true
verify_peer_certificate (cn ∷ allowed_cns) chains = verify_first (cn ∷ allowed_cns) chains

-- One of the texts.
pub data IsOneOf (s : Text) : List Text → Type 0 where
  first : {t : Text} {ts : List Text} → s ≡ t → IsOneOf s (t ∷ ts)
  later : {t : Text} {ts : List Text} → IsOneOf s ts → IsOneOf s (t ∷ ts)

is_allowed-IsOneOf : (cns : List Text) (cn : Text) → is_allowed_name cns cn ≡ true → IsOneOf cn cns
unfolding is_allowed_name
is_allowed-IsOneOf [] cn h = absurd cc
is_allowed-IsOneOf (a ∷ cns) cn h = elim (Bool-cases (text_eq cn a)) [
  | inl e ↦ first ((text_eq_iff cn a).0 e)
  | inr e ↦ later (is_allowed-IsOneOf cns cn (rw (e, is_allowed_name) at h))
]

IsOneOf-is_allowed : (cn : Text) {cns : List Text} → IsOneOf cn cns → is_allowed_name cns cn ≡ true
unfolding is_allowed_name
IsOneOf-is_allowed cn (first {t} e) = rw ((text_eq_iff cn t).1 e)
IsOneOf-is_allowed cn (later h) = ground (arith, IsOneOf-is_allowed cn h)

-- With a list of names a client passes exactly when there are verified chains and the first
-- certificate of the first chain has one of the names, whatever the other chains hold; without a
-- list every client passes.
pub verify_peer_certificate_iff :
    (allowed_cns : List Text) (chains : List Chain)
    → (verify_peer_certificate allowed_cns chains ≡ true) ↔ (
        (allowed_cns ≡ [])
        ⊎ ((client_cn : Text) × (chain : Chain) × (others : List Chain) × (chains
              ≡ (client_cn ∷ chain) ∷ others)
            × IsOneOf client_cn allowed_cns))
unfolding verify_peer_certificate verify_first
verify_peer_certificate_iff [] chains = (λ h. inl refl, λ h. refl)
verify_peer_certificate_iff (a ∷ cns) [] =
    (λ h. absurd cc, λ h. elim h [ inl e ↦ absurd cc | inr (cn, chain, others, e, i) ↦ absurd cc ])
verify_peer_certificate_iff (a ∷ cns) ([] ∷ chains) =
    (λ h. absurd cc, λ h. elim h [ inl e ↦ absurd cc | inr (cn, chain, others, e, i) ↦ absurd cc ])
verify_peer_certificate_iff (a ∷ cns) ((cn ∷ chain) ∷ chains) = (
  λ h. inr (cn, chain, chains, refl, is_allowed-IsOneOf (a ∷ cns) cn h),
  λ h. elim h [
    | inl e ↦ absurd cc
    | inr (name, rest, others, e, i) ↦
        let same : name ≡ cn = cc in IsOneOf-is_allowed cn (subst (λ x. IsOneOf x (a ∷ cns)) same i)
  ],
)
