-- ===== src/Bridge/PortForward/Targets.antt =====
-- pkg/docker-proxy/mutagen-bridge/port-forward.go: the forwards that a container's ports ask for.
use remote_docker_agent.Prelude.{
  ℕ, suc, ◌+◌, ◌≡◌, refl, ap, sym, ◌∙◌, inl, inr, Bool-cases, List, [], ◌∷◌, ◌++◌, map,
  if◌then◌else◌, length, Text, split, is_empty, eq_text, nat_eq,
}
use remote_docker_agent.Bridge.PortForward.{
  PortBinding, ContainerPorts, port_and_protocol, host_bindings, port_bindings,
}

-- A host port, and the container's port with its protocol.
abbrev pub Target : Type 0
Target = Text × (Text × Text)

unfoldable pub host_targets : Text × Text → List Text → List Target
host_targets target [] = []
host_targets target (host_port ∷ rest) =
    let more = host_targets target rest in
    if is_empty host_port then more else (host_port, target) ∷ more

-- The forwards that the host ports of a container's ports ask for.
unfoldable pub targets : List (Text × List Text) → List Target
targets [] = []
targets ((port, host_ports) ∷ rest) =
    host_targets (port_and_protocol port (split b'/' port)) host_ports ++ targets rest

abbrev pub target_of : PortBinding → Target
target_of b = (b.host_port, (b.container_port, b.protocol))

abbrev pub targets_of : ContainerPorts → List Target
targets_of ports = map target_of ports.bindings

host_bindings-targets :
    (next : ℕ) (target : Text × Text) (host_ports : List Text)
    → map target_of (host_bindings next target host_ports) ≡ host_targets target host_ports
unfolding host_bindings host_targets
host_bindings-targets next target [] = refl
host_bindings-targets next target (h ∷ hs) = elim (Bool-cases (is_empty h)) [
  | inl e ↦ rw (e, host_bindings) (host_bindings-targets next target hs)
  | inr e ↦
      rw (e, host_bindings) (ap (◌∷◌ (h, target)) (host_bindings-targets (suc next) target hs))
]

map-append {ℓ κ} :
    {A : Type ℓ} {B : Type κ} (f : A → B) (xs ys : List A) → map f (xs ++ ys) ≡ map f xs ++ map f ys
map-append f [] ys = refl
map-append f (x ∷ xs) ys = ap (◌∷◌ (f x)) (map-append f xs ys)

pub port_bindings-targets :
    (next : ℕ) (host_ports : List (Text × List Text))
    → map target_of (port_bindings next host_ports) ≡ targets host_ports
unfolding port_bindings targets
port_bindings-targets next [] = refl
port_bindings-targets next ((port, hs) ∷ rest) =
    map-append target_of (host_bindings next (port_and_protocol port (split b'/' port)) hs) _
    ∙ rw
        (
          host_bindings-targets next (port_and_protocol port (split b'/' port)) hs,
          port_bindings-targets
              (next + length (host_bindings next (port_and_protocol port (split b'/' port)) hs))
              rest,
        )
        refl

length-map {ℓ κ} :
    {A : Type ℓ} {B : Type κ} (f : A → B) (xs : List A) → length (map f xs) ≡ length xs
length-map f [] = refl
length-map f (x ∷ xs) = ap suc (length-map f xs)

pub length-targets :
    (next : ℕ) (host_ports : List (Text × List Text))
    → length (targets host_ports) ≡ length (port_bindings next host_ports)
length-targets next host_ports =
    ap length (sym (port_bindings-targets next host_ports))
    ∙ length-map target_of (port_bindings next host_ports)
