-- ===== src/Bridge/PortForward.antt =====
-- pkg/docker-proxy/mutagen-bridge/port-forward.go: the bookkeeping of port forwards. A request is
-- a number (the source's maps compare the pointers), a stop channel the number that `make` gave
-- it, and `closed` holds the channels closed so far. No code assigns a binding's `Listener`.
pub mod Channels
pub mod Lifecycle
pub mod Setup
pub mod Created
pub mod Targets
pub mod Refinement
use remote_docker_agent.Prelude.{
  ℕ, suc, ◌+◌, ◌≡◌, Bool, true, false, Option, none, some, List, [], ◌∷◌, ◌++◌, ◌==◌, ◌||◌,
  if◌then◌else◌, length, Text, codes, is_empty, split, eq_text, nat_eq, Map, lookup, insert, delete,
}
use remote_docker_agent.Bridge.Sessions.{
  Selection, all_sessions, SessionManager, container_selection,
}

pub record PortBinding : Type 0 where
  pub host_port : Text
  pub container_port : Text
  pub protocol : Text
  pub stop_ch : ℕ

pub record ContainerPorts : Type 0 where
  pub container_id : Text
  pub bindings : List PortBinding

pub record PortForwardManager : Type 0 where
  pub containers : Map ℕ ContainerPorts
  pub container_ports : Map Text ContainerPorts
  pub made : ℕ
  pub closed : List ℕ

unfoldable pub new_port_forward_bridge : PortForwardManager
new_port_forward_bridge = record { containers = []; container_ports = []; made = 0; closed = [] }

-- "80/tcp" is the port "80" and the protocol "tcp", which is also the default.
unfoldable pub port_and_protocol : Text → List Text → Text × Text
port_and_protocol whole [] = (whole, codes "tcp")
port_and_protocol whole (port ∷ []) = (whole, codes "tcp")
port_and_protocol whole (port ∷ protocol ∷ []) = (port, protocol)
port_and_protocol whole (port ∷ protocol ∷ more ∷ rest) = (whole, codes "tcp")

-- One binding for each host port that is not empty.
unfoldable pub host_bindings : ℕ → Text × Text → List Text → List PortBinding
host_bindings next target [] = []
host_bindings next target (host_port ∷ rest) = elim (is_empty host_port) [
  | true ↦ host_bindings next target rest
  | false ↦
      record {
        host_port = host_port;
        container_port = target.0;
        protocol = target.1;
        stop_ch = next;
      }
      ∷ host_bindings (suc next) target rest
]

-- The host ports of each container port, in the order in which the map's range visits them.
unfoldable pub port_bindings : ℕ → List (Text × List Text) → List PortBinding
port_bindings next [] = []
port_bindings next ((container_port, host_ports) ∷ rest) =
    let target = port_and_protocol container_port (split b'/' container_port) in
    let bindings = host_bindings next target host_ports in
    bindings ++ port_bindings (next + length bindings) rest

unfoldable pub store_port_bindings_start :
    ℕ → List (Text × List Text) → PortForwardManager → PortForwardManager
store_port_bindings_start req host_ports m =
    let bindings = port_bindings m.made host_ports in
    if length bindings == 0 then m else record {
      containers = insert req (record { container_id = []; bindings = bindings }) m.containers;
      container_ports = m.container_ports;
      made = m.made + length bindings;
      closed = m.closed;
    }

unfoldable pub named_ports :
    Text → Option ContainerPorts → Map Text ContainerPorts → Map Text ContainerPorts
named_ports container_id none ports = ports
named_ports container_id (some pending) ports =
    if is_empty container_id then ports else insert container_id pending ports

unfoldable pub store_port_bindings_end : ℕ → Text → PortForwardManager → PortForwardManager
store_port_bindings_end req container_id m = record {
  containers = delete req m.containers;
  container_ports = named_ports container_id (lookup req m.containers) m.container_ports;
  made = m.made;
  closed = m.closed;
}

unfoldable pub store_port_bindings_for_container :
    Text → List (Text × List Text) → PortForwardManager → PortForwardManager
store_port_bindings_for_container container_id host_ports m =
    let bindings = port_bindings m.made host_ports in
    if length bindings == 0 then m else record {
      containers = m.containers;
      container_ports =
          insert container_id (record { container_id = container_id; bindings = bindings })
            m.container_ports;
      made = m.made + length bindings;
      closed = m.closed;
    }

unfoldable pub is_closed : ℕ → List ℕ → Bool
is_closed c [] = false
is_closed c (d ∷ ds) = (d == c) || is_closed c ds

-- `close` of each binding's channel: closing a closed one panics.
unfoldable pub close_all : List PortBinding → List ℕ → Option (List ℕ)
close_all [] closed = some closed
close_all (b ∷ bindings) closed = elim (is_closed b.stop_ch closed) [
  | true ↦ none
  | false ↦ close_all bindings (b.stop_ch ∷ closed)
]

unfoldable pub bindings_at : Option ContainerPorts → List PortBinding
bindings_at none = []
bindings_at (some ports) = ports.bindings

-- The manager without a container's forwards, whose channels are closed.
unfoldable pub close_forwards : Text → PortForwardManager → Option PortForwardManager
close_forwards container_id m =
    elim (close_all (bindings_at (lookup container_id m.container_ports)) m.closed) [
      | none ↦ none
      | some closed ↦ some (record {
        containers = m.containers;
        container_ports = delete container_id m.container_ports;
        made = m.made;
        closed = closed;
      })
    ]

unfoldable pub all_bindings {ℓ} : {K : Type ℓ} → Map K ContainerPorts → List PortBinding
all_bindings [] = []
all_bindings ((k, ports) ∷ m) = ports.bindings ++ all_bindings m

-- The manager without any container's forwards, all whose channels are closed.
unfoldable pub close_all_forwards : PortForwardManager → Option PortForwardManager
close_all_forwards m = elim (close_all (all_bindings m.container_ports) m.closed) [
  | none ↦ none
  | some closed ↦
      some
        (record { containers = m.containers; container_ports = []; made = m.made; closed = closed })
]

module _ {ℓ} {S : Type ℓ} (mutagen : SessionManager S) where
  unfoldable pub teardown_forwards : Text → PortForwardManager × S → Option (PortForwardManager × S)
  teardown_forwards container_id (m, sessions) = elim (close_forwards container_id m) [
    | none ↦ none
    | some left ↦ elim (container_selection container_id) [
      | none ↦ none
      | some selected ↦ some (left, mutagen.terminate selected sessions)
    ]
  ]

  unfoldable pub teardown_all_forwards : PortForwardManager × S → Option (PortForwardManager × S)
  teardown_all_forwards (m, sessions) = elim (close_all_forwards m) [
    | none ↦ none
    | some left ↦ some (left, mutagen.terminate all_sessions sessions)
  ]
