-- ===== src/Bridge/PortForward/Refinement.antt =====
-- pkg/docker-proxy/mutagen-bridge/port-forward.go: the manager as a store of forwards, which forgets
-- the stop channels.
use remote_docker_agent.Prelude.{
  ℕ, ◌+◌, ◌≡◌, refl, subst, inl, inr, Bool-cases, Option, none, some, Option-cases, List, [], ◌++◌,
  ◌==◌, length, Text, codes, is_empty, eq_text, nat_eq, Map, lookup, insert, delete,
}
use remote_docker_agent.ContainerId.{compress_container_id}
use remote_docker_agent.Bridge.Sessions.{
  SessionManager, all_sessions, label_selector, container_selection,
}
use remote_docker_agent.Bridge.Store.{
  Store, Operation, begin_request, end_request, store_container, teardown, teardown_all, is_packed,
  named_live, store_step, run, Agree, both_stop, both_go, run-Agree, viewed, Shows, insert-Shows,
  delete-Shows,
}
use remote_docker_agent.Bridge.PortForward.{
  ContainerPorts, PortForwardManager, port_bindings, store_port_bindings_start, named_ports,
  store_port_bindings_end, store_port_bindings_for_container, close_all, bindings_at,
  close_forwards, all_bindings, close_all_forwards, teardown_forwards, teardown_all_forwards,
}
use remote_docker_agent.Bridge.PortForward.Lifecycle.{
  Reachable, started, ended, stored, torn_down, torn_down_all, Reachable-OwnsChannels,
  close_forwards-total, close_all_forwards-total,
}
use remote_docker_agent.Bridge.PortForward.Targets.{
  Target, targets, targets_of, port_bindings-targets, length-targets,
}

-- The manager came about by its operations, and its maps hold the store's forwards.
pub record HoldsPorts (m : PortForwardManager) (s : Store Target) : Type 0 where
  pub reachable : Reachable m
  pub pending : Shows targets_of m.containers s.pending
  pub live : Shows targets_of m.container_ports s.live

shown_targets :
    (next : ℕ) (id : Text) (d : List (Text × List Text))
    → targets_of (record { container_id = id; bindings = port_bindings next d }) ≡ targets d
shown_targets next id d = port_bindings-targets next d

start-HoldsPorts :
    (req : ℕ) (d : List (Text × List Text)) (m : PortForwardManager) (s : Store Target)
    → HoldsPorts m s
    → Agree HoldsPorts
        (some (store_port_bindings_start req d m))
        (store_step targets (begin_request req d) s)
unfolding store_port_bindings_start
start-HoldsPorts req d m s h = elim (Bool-cases (length (port_bindings m.made d) == 0)) [
  | inl e ↦
      let same : store_port_bindings_start req d m ≡ m = rw e refl in
      rw (same, length-targets m.made d, e) (both_go h)
  | inr e ↦
      let same : store_port_bindings_start req d m ≡ record {
        containers =
            insert req (record { container_id = []; bindings = port_bindings m.made d })
              m.containers;
        container_ports = m.container_ports;
        made = m.made + length (port_bindings m.made d);
        closed = m.closed;
      } =
        rw e refl in
      let reached = subst Reachable same (started req d h.reachable) in
      rw (same, length-targets m.made d, e)
        (both_go (record {
          reachable = reached;
          pending =
              rw (← port_bindings-targets m.made d)
                (insert-Shows targets_of req _ m.containers s.pending h.pending);
          live = h.live;
        }))
]

stored-HoldsPorts :
    (id : Text) (d : List (Text × List Text)) (m : PortForwardManager) (s : Store Target)
    → HoldsPorts m s
    → Agree HoldsPorts
        (some (store_port_bindings_for_container id d m))
        (store_step targets (store_container id d) s)
unfolding store_port_bindings_for_container
stored-HoldsPorts id d m s h = elim (Bool-cases (length (port_bindings m.made d) == 0)) [
  | inl e ↦
      let same : store_port_bindings_for_container id d m ≡ m = rw e refl in
      rw (same, length-targets m.made d, e) (both_go h)
  | inr e ↦
      let same : store_port_bindings_for_container id d m ≡ record {
        containers = m.containers;
        container_ports =
            insert id (record { container_id = id; bindings = port_bindings m.made d })
              m.container_ports;
        made = m.made + length (port_bindings m.made d);
        closed = m.closed;
      } =
        rw e refl in
      let reached = subst Reachable same (stored id d h.reachable) in
      rw (same, length-targets m.made d, e)
        (both_go (record {
          reachable = reached;
          pending = h.pending;
          live =
              rw (← port_bindings-targets m.made d)
                (insert-Shows targets_of id _ m.container_ports s.live h.live);
        }))
]

named_ports-Shows :
    (id : Text) (pending : Option ContainerPorts) (ports : Map Text ContainerPorts)
    (live : Text → Option (List Target))
    → Shows targets_of ports live
    → Shows targets_of
        (named_ports id pending ports)
        (named_live targets id (viewed targets_of pending) live)
unfolding named_ports
named_ports-Shows id none ports live h = h
named_ports-Shows id (some p) ports live h = elim (Bool-cases (is_empty id)) [
  | inl e ↦ rw e h
  | inr e ↦ rw e (insert-Shows targets_of id _ ports live h)
]

ended-HoldsPorts :
    (req : ℕ) (id : Text) (m : PortForwardManager) (s : Store Target)
    → HoldsPorts m s
    → Agree HoldsPorts
        (some (store_port_bindings_end req id m))
        (store_step targets (end_request req id) s)
unfolding store_port_bindings_end
ended-HoldsPorts req id m s h = both_go (record {
  reachable = ended req id h.reachable;
  pending = delete-Shows targets_of req m.containers s.pending h.pending;
  live =
      subst
        (λ p.
          Shows targets_of (named_ports id (lookup req m.containers) m.container_ports)
            (named_live targets id p s.live))
        (h.pending req)
        (named_ports-Shows id (lookup req m.containers) m.container_ports s.live h.live);
})

-- Closing the channels of a container that the operations led to does not panic.
closes :
    (id : Text) (m : PortForwardManager)
    → Reachable m
    → (closed : List ℕ) × (close_all (bindings_at (lookup id m.container_ports)) m.closed
        ≡ some closed)
unfolding close_forwards
closes id m r =
    elim (Option-cases (close_all (bindings_at (lookup id m.container_ports)) m.closed)) [
      | inl e ↦
          let t = close_forwards-total id m (Reachable-OwnsChannels r) in
          let n : close_forwards id m ≡ none = rw (e, close_forwards) refl in
          absurd (let q = t.1 in cc)
      | inr found ↦ found
    ]

closes_all :
    (m : PortForwardManager)
    → Reachable m
    → (closed : List ℕ) × (close_all (all_bindings m.container_ports) m.closed ≡ some closed)
unfolding close_all_forwards
closes_all m r = elim (Option-cases (close_all (all_bindings m.container_ports) m.closed)) [
  | inl e ↦
      let t = close_all_forwards-total m (Reachable-OwnsChannels r) in
      let n : close_all_forwards m ≡ none = rw (e, close_all_forwards) refl in
      absurd (let q = t.1 in cc)
  | inr found ↦ found
]

module _ {ℓ} {S : Type ℓ} (mutagen : SessionManager S) where
  -- One operation of the manager.
  unfoldable pub forward_step :
      Operation (List (Text × List Text)) → PortForwardManager × S → Option (PortForwardManager × S)
  forward_step (begin_request req d) (m, sessions) =
      some (store_port_bindings_start req d m, sessions)
  forward_step (end_request req id) (m, sessions) =
      some (store_port_bindings_end req id m, sessions)
  forward_step (store_container id d) (m, sessions) =
      some (store_port_bindings_for_container id d m, sessions)
  forward_step (teardown id) (m, sessions) = teardown_forwards mutagen id (m, sessions)
  forward_step teardown_all (m, sessions) = teardown_all_forwards mutagen (m, sessions)

  abbrev pub HoldsForwards : PortForwardManager × S → Store Target → Type 0
  HoldsForwards (m, sessions) s = HoldsPorts m s

  with_sessions :
      (m : PortForwardManager) (sessions : S) {n : Option (Store Target)}
      → Agree HoldsPorts (some m) n
      → Agree HoldsForwards (some (m, sessions)) n
  with_sessions m sessions (both_go h) = both_go h

  teardown-HoldsForwards :
      (id : Text) (m : PortForwardManager) (sessions : S) (s : Store Target)
      → HoldsPorts m s
      → Agree HoldsForwards
          (teardown_forwards mutagen id (m, sessions))
          (store_step targets (teardown id) s)
  unfolding teardown_forwards close_forwards container_selection is_packed
  teardown-HoldsForwards id m sessions s h =
      let (closed, c) = closes id m h.reachable in
      let left : PortForwardManager = record {
        containers = m.containers;
        container_ports = delete id m.container_ports;
        made = m.made;
        closed = closed;
      } in
      let f : close_forwards id m ≡ some left = rw (c, close_forwards) refl in
      elim (Option-cases (compress_container_id id)) [
        | inl e ↦
            let stops : teardown_forwards mutagen id (m, sessions) ≡ none =
              rw (c, e, teardown_forwards, close_forwards, container_selection) refl in
            rw (stops, e) both_stop
        | inr (label, e) ↦
            let goes : teardown_forwards mutagen id (m, sessions)
                ≡ some (
                  left,
                  mutagen.terminate (label_selector (codes "container-id=" ++ label)) sessions,
                ) =
              rw (c, e, teardown_forwards, close_forwards, container_selection) refl in
            rw (goes, e)
              (both_go (record {
                reachable = torn_down id h.reachable f;
                pending = h.pending;
                live = delete-Shows targets_of id m.container_ports s.live h.live;
              }))
      ]

  teardown_all-HoldsForwards :
      (m : PortForwardManager) (sessions : S) (s : Store Target)
      → HoldsPorts m s
      → Agree HoldsForwards
          (teardown_all_forwards mutagen (m, sessions))
          (store_step targets teardown_all s)
  unfolding teardown_all_forwards close_all_forwards lookup
  teardown_all-HoldsForwards m sessions s h =
      let (closed, c) = closes_all m h.reachable in
      let left : PortForwardManager = record {
        containers = m.containers;
        container_ports = [];
        made = m.made;
        closed = closed;
      } in
      let f : close_all_forwards m ≡ some left = rw (c, close_all_forwards) refl in
      let goes : teardown_all_forwards mutagen (m, sessions)
          ≡ some (left, mutagen.terminate all_sessions sessions) =
        rw (c, teardown_all_forwards, close_all_forwards) refl in
      rw goes (
        both_go (record {
          reachable = torn_down_all h.reachable f;
          pending = h.pending;
          live = λ id. refl;
        }))

  step-HoldsForwards :
      (op : Operation (List (Text × List Text))) (m : PortForwardManager × S) (s : Store Target)
      → HoldsForwards m s
      → Agree HoldsForwards (forward_step op m) (store_step targets op s)
  unfolding forward_step
  step-HoldsForwards (begin_request req d) (m, sessions) s h =
      with_sessions _ sessions (start-HoldsPorts req d m s h)
  step-HoldsForwards (end_request req id) (m, sessions) s h =
      with_sessions _ sessions (ended-HoldsPorts req id m s h)
  step-HoldsForwards (store_container id d) (m, sessions) s h =
      with_sessions _ sessions (stored-HoldsPorts id d m s h)
  step-HoldsForwards (teardown id) (m, sessions) s h = teardown-HoldsForwards id m sessions s h
  step-HoldsForwards teardown_all (m, sessions) s h = teardown_all-HoldsForwards m sessions s h

  -- Whatever sequence of operations is run, the manager of port forwards does what a store does that
  -- knows nothing of channels and has, for each request under way and for each container, the ports
  -- to forward: both stop, at an id that cannot be packed, or the manager holds the store's ports in
  -- the end.
  pub forward_steps-HoldsForwards :
      (operations : List (Operation (List (Text × List Text)))) (m : PortForwardManager)
      (sessions : S) (s : Store Target)
      → HoldsPorts m s
      → Agree HoldsForwards
          (run forward_step operations (m, sessions))
          (run (store_step targets) operations s)
  forward_steps-HoldsForwards operations m sessions s h =
      run-Agree HoldsForwards forward_step (store_step targets) step-HoldsForwards operations
        (m, sessions) s h
