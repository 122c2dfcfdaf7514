-- ===== src/Bridge/PortForward/Created.antt =====
-- pkg/docker-proxy/mutagen-bridge/port-forward.go: the sessions that SetupForwards creates.
use remote_docker_agent.Prelude.{
  ◌≤◌, ◌≡◌, refl, ◌∙◌, Bool, true, some, List, [], ◌++◌, length, Text, text_eq_refl, eq_text, Map,
  lookup, lookup-insert, Result, ok, guard,
}
use remote_docker_agent.ContainerId.{compress_container_id, decompress_container_id}
use remote_docker_agent.ContainerId.RoundTrip.{decompress-compress}
use remote_docker_agent.Bridge.Sessions.{
  Session, SessionManager, container_id_label, container_ids, list_sessions,
}
use remote_docker_agent.Bridge.Sessions.Teardown.{IsContainerId}
use remote_docker_agent.Bridge.PortForward.{PortBinding, PortForwardManager, bindings_at}
use remote_docker_agent.Bridge.PortForward.Setup.{
  CreateConfiguration, create_configuration, ForwardSettings, parse_forward_settings,
  forward_configurations, forward_specification, setup_single_forward, setup_forwards,
}
use remote_docker_agent.Bridge.Creation.{
  TransportConfig, socket_overwrite_mode, file_mode, bad_destination, bad_source, bad_name, fails,
  Mutagen, Specification, compressed_or_panic, add_labels,
}
use remote_docker_agent.Bridge.Creation.Returns.{
  Yields, yields, Returns, >>=-Yields, guard-Returns, short_id-Returns, or_bad_url-Returns,
  with_global-Returns, with_files-Returns, parse_settings-Returns, ensure_ownerships-Returns,
}
use remote_docker_agent.Bridge.Creation.Added.{
  HonoursLabels, Adds, setup_single-Adds, setup_each-Adds, Any, Accepted, added_listed,
  is_empty_of_long,
}

module _ {C : Type 0} (mutagen : Mutagen C) (of_settings : ForwardSettings → C) where
  parse_forward_settings-Returns :
      (c : CreateConfiguration) → Returns (parse_forward_settings mutagen of_settings c)
  unfolding parse_forward_settings
  parse_forward_settings-Returns c =
      >>=-Yields _ _ (parse_settings-Returns mutagen socket_overwrite_mode c.socket_overwrite_mode)
        (λ overwrite _. >>=-Yields _ _ (ensure_ownerships-Returns mutagen c.socket_owner) (λ _ _.
          >>=-Yields _ _ (ensure_ownerships-Returns mutagen c.socket_group) (λ _ _.
            >>=-Yields _ _ (parse_settings-Returns mutagen file_mode c.socket_permission_mode)
              (λ permission _. yields tt))))

  forward_configurations-Returns :
      (c : CreateConfiguration) → Returns (forward_configurations mutagen of_settings c)
  unfolding forward_configurations
  forward_configurations-Returns c =
      >>=-Yields _ _
        (with_global-Returns mutagen c.no_global_configuration mutagen.no_configuration)
        (λ global _.
          >>=-Yields _ _ (with_files-Returns mutagen global c.configuration_files) (λ defaults _.
            >>=-Yields _ _ (parse_forward_settings-Returns c) (λ settings _. yields tt)))

  forward_specification-HasLabel :
      (config : TransportConfig) (id label : Text) (binding : PortBinding) (prompter : Text)
      → 8 ≤ length id
      → compress_container_id id ≡ some label
      → Yields
          (λ s. lookup container_id_label s.labels ≡ some label)
          (forward_specification mutagen of_settings config id binding prompter)
  unfolding forward_specification add_labels create_configuration compressed_or_panic
  forward_specification-HasLabel config id label binding prompter h e =
      rw (e, forward_specification)
        (>>=-Yields _ _ (short_id-Returns id h) (λ short _.
          >>=-Yields _ _ (or_bad_url-Returns bad_destination _) (λ destination _.
            >>=-Yields _ _ (or_bad_url-Returns bad_source _) (λ source _.
              >>=-Yields
                (guard (mutagen.is_name (create_configuration short binding.host_port).name)
                  (fails bad_name))
                _ (guard-Returns _ bad_name)
                (λ _ _.
                  >>=-Yields _ _
                    (forward_configurations-Returns (create_configuration short binding.host_port))
                    (λ configurations _. yields (
                      lookup-insert container_id_label container_id_label label []
                      ∙ rw (text_eq_refl container_id_label) refl)))))))

  module _ {ℓ} {S : Type ℓ} (sessions_of : SessionManager S)
      (create : Specification C → S → Result Text Text × S)
      (honours : HonoursLabels sessions_of create) where
    -- A binding whose session is prepared and created.
    abbrev pub IsAccepted : TransportConfig → Text → Text → PortBinding → Type ℓ
    IsAccepted config container_id prompter binding =
        Accepted create
          (forward_specification mutagen of_settings config container_id binding prompter)

    setup_forwards-added :
        (config : TransportConfig) (container_id prompter : Text) (m : PortForwardManager)
        (sessions : S) (states : List Session)
        → IsContainerId container_id
        → 8 ≤ length container_id
        → sessions_of.list sessions ≡ ok states
        → (label : Text) × (ids : List Text) × (left : S) × (compress_container_id container_id
            ≡ some label)
          × (decompress_container_id label ≡ container_id)
          × (setup_forwards mutagen of_settings create config container_id prompter (m, sessions)
              ≡ some (ids, left))
          × (length ids ≡ length (bindings_at (lookup container_id m.container_ports)))
          × (a : Adds sessions_of label states left) × (Any
                (IsAccepted config container_id prompter)
                (bindings_at (lookup container_id m.container_ports))
              → 1 ≤ length a.added)
    unfolding setup_forwards setup_single_forward
    setup_forwards-added config id prompter m sessions states h long l =
        let (label, c, back) = decompress-compress id h.0 h.1 in
        let (ids, left, e, n, added, k) =
          setup_each-Adds sessions_of (IsAccepted config id prompter) label
            (λ binding. setup_single_forward mutagen of_settings create config id binding prompter)
            (λ binding s ss l.
              setup_single-Adds sessions_of create honours label _ s ss
                (forward_specification-HasLabel config id label binding prompter long c) l)
            (bindings_at (lookup id m.container_ports)) sessions states l in
        (label, ids, left, c, back, e, n, added, k)

    -- Setting up a container's forwards never panics for a Docker container id of at least eight
    -- digits, goes through all its bindings whatever fails, leaves the sessions that were there, and
    -- adds only sessions with the container's packed id as their label.
    pub setup_forwards-Adds :
        (config : TransportConfig) (container_id prompter : Text) (m : PortForwardManager)
        (sessions : S) (states : List Session)
        → IsContainerId container_id
        → 8 ≤ length container_id
        → sessions_of.list sessions ≡ ok states
        → (label : Text) × (ids : List Text) × (left : S) × (compress_container_id container_id
            ≡ some label)
          × (setup_forwards mutagen of_settings create config container_id prompter (m, sessions)
              ≡ some (ids, left))
          × (length ids ≡ length (bindings_at (lookup container_id m.container_ports)))
          × Adds sessions_of label states left
    setup_forwards-Adds config id prompter m sessions states h long l =
        let (label, ids, left, c, d, e, n, a, k) =
          setup_forwards-added config id prompter m sessions states h long l in
        (label, ids, left, c, e, n, a)

    -- Setting up the forwards of a Docker container id of at least eight digits leaves the
    -- container among those that `ListSessions` gives, when for at least one of its bindings the
    -- preparation succeeds and `Create` does not refuse.
    pub setup_forwards-listed :
        (config : TransportConfig) (container_id prompter : Text) (m : PortForwardManager)
        (sessions : S) (states : List Session)
        → IsContainerId container_id
        → 8 ≤ length container_id
        → sessions_of.list sessions ≡ ok states
        → Any
            (IsAccepted config container_id prompter)
            (bindings_at (lookup container_id m.container_ports))
        → (ids : List Text) × (left : S) × (found : Map Text Bool) × (setup_forwards mutagen
              of_settings create config container_id prompter
              (m, sessions)
            ≡ some (ids, left))
          × (list_sessions sessions_of left ≡ ok found)
          × (lookup container_id found ≡ some true)
    unfolding list_sessions
    setup_forwards-listed config id prompter m sessions states h long l some_accepted =
        let (label, ids, left, c, d, e, n, a, k) =
          setup_forwards-added config id prompter m sessions states h long l in
        (
          ids,
          left,
          container_ids (states ++ a.added),
          e,
          rw (a.listed, list_sessions) refl,
          added_listed id label states a.added d (is_empty_of_long id long) a.labelled
              (k some_accepted),
        )
