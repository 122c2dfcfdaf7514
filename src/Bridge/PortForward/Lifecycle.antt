-- ===== src/Bridge/PortForward/Lifecycle.antt =====
-- pkg/docker-proxy/mutagen-bridge/port-forward.go: the managers that the operations reach, and
-- what taking forwards down does to them.
use remote_docker_agent.Prelude.{
  ℕ, ◌+◌, ◌≤◌, ◌≡◌, refl, subst, ◌↔◌, ◌≢◌, inl, inr, Option, none, some, Option-cases, List, [],
  text_eq_refl, text_eq_iff, Text, eq_text, nat_eq, Map, lookup, delete, lookup-delete, arith,
}
use remote_docker_agent.ContainerId.{compress_container_id}
use remote_docker_agent.Bridge.Sessions.{SessionManager, all_sessions, container_selection}
use remote_docker_agent.Bridge.PortForward.{
  ContainerPorts, PortForwardManager, port_bindings, new_port_forward_bridge,
  store_port_bindings_start, store_port_bindings_end, store_port_bindings_for_container,
  named_ports, bindings_at, close_forwards, close_all_forwards, all_bindings, teardown_forwards,
  teardown_all_forwards,
}
use remote_docker_agent.Bridge.PortForward.Channels.{
  uses, times, held, OwnsChannels, fresh, uses-port_bindings, uses-insert, uses-delete,
  close_all-total,
}

-- The managers that a sequence of operations leads to.
pub data Reachable : PortForwardManager → Type 0 where
  created : Reachable new_port_forward_bridge
  started :
      (req : ℕ) (host_ports : List (Text × List Text)) {m : PortForwardManager}
      → Reachable m
      → Reachable (store_port_bindings_start req host_ports m)
  ended :
      (req : ℕ) (container_id : Text) {m : PortForwardManager}
      → Reachable m
      → Reachable (store_port_bindings_end req container_id m)
  stored :
      (container_id : Text) (host_ports : List (Text × List Text)) {m : PortForwardManager}
      → Reachable m
      → Reachable (store_port_bindings_for_container container_id host_ports m)
  torn_down :
      (container_id : Text) {m left : PortForwardManager}
      → Reachable m
      → close_forwards container_id m ≡ some left
      → Reachable left
  torn_down_all :
      {m left : PortForwardManager}
      → Reachable m
      → close_all_forwards m ≡ some left
      → Reachable left

start-OwnsChannels :
    (req : ℕ) (host_ports : List (Text × List Text)) (m : PortForwardManager)
    → OwnsChannels m
    → OwnsChannels (store_port_bindings_start req host_ports m)
unfolding store_port_bindings_start held fresh
start-OwnsChannels req host_ports m h c =
    let bs = port_bindings m.made host_ports in
    let i = uses-insert c req (record { container_id = []; bindings = bs }) m.containers in
    let n = uses-port_bindings c m.made host_ports in let k = h c in ground arith

stored-OwnsChannels :
    (container_id : Text) (host_ports : List (Text × List Text)) (m : PortForwardManager)
    → OwnsChannels m
    → OwnsChannels (store_port_bindings_for_container container_id host_ports m)
unfolding store_port_bindings_for_container held fresh
stored-OwnsChannels container_id host_ports m h c =
    let bs = port_bindings m.made host_ports in
    let v : ContainerPorts = record { container_id = container_id; bindings = bs } in
    let i = uses-insert c container_id v m.container_ports in
    let n = uses-port_bindings c m.made host_ports in let k = h c in ground arith

uses-named_ports :
    (c : ℕ) (container_id : Text) (pending : Option ContainerPorts)
    (ports : Map Text ContainerPorts)
    → uses c (all_bindings (named_ports container_id pending ports))
      ≤ uses c (bindings_at pending) + uses c (all_bindings ports)
unfolding named_ports bindings_at uses
uses-named_ports c container_id none ports = omega arith
uses-named_ports c container_id (some v) ports =
    let i = uses-insert c container_id v ports in ground arith

ended-OwnsChannels :
    (req : ℕ) (container_id : Text) (m : PortForwardManager)
    → OwnsChannels m
    → OwnsChannels (store_port_bindings_end req container_id m)
unfolding store_port_bindings_end held
ended-OwnsChannels req container_id m h c =
    let i = uses-delete c req m.containers in
    let n = uses-named_ports c container_id (lookup req m.containers) m.container_ports in
    let k = h c in ground arith

-- The container has no bindings left, the other containers keep theirs, and each channel that
-- the container held is closed, once.
abbrev pub TornDown : Text → PortForwardManager → PortForwardManager → Type 0
TornDown container_id m left =
    (lookup container_id left.container_ports ≡ none)
    × ((other : Text)
        → other ≢ container_id
        → lookup other left.container_ports ≡ lookup other m.container_ports)
    × ((c : ℕ)
        → 1 ≤ uses c (bindings_at (lookup container_id m.container_ports))
        → times c left.closed ≡ 1)

pub close_forwards-total :
    (container_id : Text) (m : PortForwardManager)
    → OwnsChannels m
    → (left : PortForwardManager) × (close_forwards container_id m ≡ some left)
      × OwnsChannels left
      × TornDown container_id m left
unfolding close_forwards held
close_forwards-total container_id m h =
    let bs = bindings_at (lookup container_id m.container_ports) in
    let d = λ (c : ℕ). uses-delete c container_id m.container_ports in
    let r = close_all-total bs m.closed (λ c. let i = d c in let k = h c in omega arith) in
    let at = λ (other : Text). lookup-delete container_id other m.container_ports in
    (
      record {
        containers = m.containers;
        container_ports = delete container_id m.container_ports;
        made = m.made;
        closed = r.0;
      },
      rw (r.1, close_forwards),
      (λ c. let i = d c in let k = h c in let t = r.2 c in (omega arith, λ p. omega arith)),
      (
        (let i = at container_id in ground (arith, text_eq_refl container_id)),
        (λ other ne. let i = at other in ground (arith, text_eq_iff container_id other)),
        (λ c p. let i = d c in let k = h c in let t = r.2 c in omega arith),
      ),
    )

pub close_all_forwards-total :
    (m : PortForwardManager)
    → OwnsChannels m
    → (left : PortForwardManager) × (close_all_forwards m ≡ some left)
      × OwnsChannels left
      × (left.container_ports ≡ [])
unfolding close_all_forwards held all_bindings uses
close_all_forwards-total m h =
    let r =
      close_all-total (all_bindings m.container_ports) m.closed (λ c. let k = h c in omega arith) in
    (
      record { containers = m.containers; container_ports = []; made = m.made; closed = r.0 },
      rw (r.1, close_all_forwards),
      (λ c. let k = h c in let t = r.2 c in (omega arith, λ p. omega arith)),
      refl,
    )

new-OwnsChannels : OwnsChannels new_port_forward_bridge
unfolding new_port_forward_bridge held all_bindings uses times
new-OwnsChannels c = (omega arith, λ p. omega arith)

pub Reachable-OwnsChannels : {m : PortForwardManager} → Reachable m → OwnsChannels m
Reachable-OwnsChannels created = new-OwnsChannels
Reachable-OwnsChannels (started req host_ports {m} r) =
    start-OwnsChannels req host_ports m (Reachable-OwnsChannels r)
Reachable-OwnsChannels (ended req container_id {m} r) =
    ended-OwnsChannels req container_id m (Reachable-OwnsChannels r)
Reachable-OwnsChannels (stored container_id host_ports {m} r) =
    stored-OwnsChannels container_id host_ports m (Reachable-OwnsChannels r)
Reachable-OwnsChannels (torn_down container_id {m} {left} r e) =
    let t = close_forwards-total container_id m (Reachable-OwnsChannels r) in
    let q = t.1 in let i : t.0 ≡ left = cc in subst OwnsChannels i t.2
Reachable-OwnsChannels (torn_down_all {m} {left} r e) =
    let t = close_all_forwards-total m (Reachable-OwnsChannels r) in
    let q = t.1 in let i : t.0 ≡ left = cc in subst OwnsChannels i t.2

module _ {ℓ} {S : Type ℓ} (mutagen : SessionManager S) where
  -- Taking a container's forwards down never closes a channel twice, whatever operations came
  -- before: it panics exactly for an id that cannot be packed into a label.
  pub teardown_forwards-none_iff :
      (container_id : Text) (m : PortForwardManager) (sessions : S)
      → Reachable m
      → (teardown_forwards mutagen container_id (m, sessions) ≡ none)
        ↔ (compress_container_id container_id ≡ none)
  unfolding teardown_forwards container_selection
  teardown_forwards-none_iff container_id m sessions r =
      let t = close_forwards-total container_id m (Reachable-OwnsChannels r) in
      elim (Option-cases (compress_container_id container_id)) [
        | inl e ↦ (λ h. e, λ h. rw (t.1, teardown_forwards, e, container_selection))
        | inr (label, e) ↦
            (λ h. let k = rw (t.1, teardown_forwards, e, container_selection) at h in cc, λ h. cc)
      ]

  left_of :
      (container_id : Text) (m x left : PortForwardManager) (sessions sessions_left : S)
      → close_forwards container_id m ≡ some x
      → teardown_forwards mutagen container_id (m, sessions) ≡ some (left, sessions_left)
      → x ≡ left
  unfolding teardown_forwards
  left_of container_id m x left sessions sessions_left e h =
      elim (Option-cases (container_selection container_id)) [
        | inl n ↦ let k = rw (e, teardown_forwards, n) at h in cc
        | inr (selected, n) ↦ let k = rw (e, teardown_forwards, n) at h in cc
      ]

  -- When a container's forwards are taken down, it has no bindings left, the other containers
  -- keep theirs, and each channel it held is closed, once.
  pub teardown_forwards-TornDown :
      (container_id : Text) (m left : PortForwardManager) (sessions sessions_left : S)
      → Reachable m
      → teardown_forwards mutagen container_id (m, sessions) ≡ some (left, sessions_left)
      → TornDown container_id m left
  teardown_forwards-TornDown container_id m left sessions sessions_left r h =
      let t = close_forwards-total container_id m (Reachable-OwnsChannels r) in
      let i = left_of container_id m t.0 left sessions sessions_left t.1 h in
      subst (TornDown container_id m) i t.3

  pub teardown_forwards-Reachable :
      (container_id : Text) (m left : PortForwardManager) (sessions sessions_left : S)
      → Reachable m
      → teardown_forwards mutagen container_id (m, sessions) ≡ some (left, sessions_left)
      → Reachable left
  teardown_forwards-Reachable container_id m left sessions sessions_left r h =
      let t = close_forwards-total container_id m (Reachable-OwnsChannels r) in
      let i = left_of container_id m t.0 left sessions sessions_left t.1 h in
      subst Reachable i (torn_down container_id r t.1)

  -- Taking all forwards down never panics, and leaves no container with bindings.
  pub teardown_all_forwards-total :
      (m : PortForwardManager) (sessions : S)
      → Reachable m
      → (left : PortForwardManager × S) × (teardown_all_forwards mutagen (m, sessions) ≡ some left)
        × (left.0.container_ports ≡ [])
  unfolding teardown_all_forwards close_all_forwards
  teardown_all_forwards-total m sessions r =
      let t = close_all_forwards-total m (Reachable-OwnsChannels r) in
      ((t.0, mutagen.terminate all_sessions sessions), rw (t.1, teardown_all_forwards), t.3)
