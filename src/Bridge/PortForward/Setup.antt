-- ===== src/Bridge/PortForward/Setup.antt =====
-- pkg/docker-proxy/mutagen-bridge/port-forward.go: creating a container's forwarding sessions.
use remote_docker_agent.Prelude.{
  ℕ, ◌%◌, Bool, false, Option, List, [], ◌++◌, Text, codes, eq_text, lookup, insert, Result, ok,
  ◌>>=◌, ◌>>◌, guard,
}
use remote_docker_agent.ContainerId.{compress_container_id}
use remote_docker_agent.Tunnel.{forwarding}
use remote_docker_agent.Bridge.Sessions.{container_id_label}
use remote_docker_agent.Bridge.PortForward.{PortBinding, PortForwardManager, bindings_at}
use remote_docker_agent.Bridge.Creation.{
  TransportConfig, PerEndpoint, socket_overwrite_mode, file_mode, SetupError, bad_destination,
  bad_source, bad_name, Failure, fails, Mutagen, Specification, short_id, compressed_or_panic,
  or_bad_url, remote_url, add_labels, with_global, with_files, parse_settings, ensure_ownerships,
  setup_single, setup_each,
}

-- `pfCreateConfiguration`; a setting, its source's and its destination's are one field.
pub record CreateConfiguration : Type 0 where
  pub name : Text
  pub labels : List Text
  pub paused : Bool
  pub no_global_configuration : Bool
  pub configuration_files : List Text
  pub socket_overwrite_mode : PerEndpoint Text
  pub socket_owner : PerEndpoint Text
  pub socket_group : PerEndpoint Text
  pub socket_permission_mode : PerEndpoint Text

abbrev pub unset : PerEndpoint Text
unset = record { whole = []; alpha = []; beta = [] }

unfoldable pub create_configuration : Text → Text → CreateConfiguration
create_configuration short host_port = record {
  name = codes "forward-" ++ (short ++ (codes "-tcp-" ++ host_port));
  labels = [];
  paused = false;
  no_global_configuration = false;
  configuration_files = [];
  socket_overwrite_mode = unset;
  socket_owner = unset;
  socket_group = unset;
  socket_permission_mode = unset;
}

-- The literals of `forwarding.Configuration`.
pub record ForwardSettings : Type 0 where
  pub socket_overwrite_mode : ℕ
  pub socket_owner : Text
  pub socket_group : Text
  pub socket_permission_mode : ℕ

module _ {C : Type 0} (mutagen : Mutagen C) (of_settings : ForwardSettings → C) where
  unfoldable pub forward_settings :
      CreateConfiguration → PerEndpoint ℕ → PerEndpoint ℕ → PerEndpoint ForwardSettings
  forward_settings c overwrite permission = record {
    whole = record {
      socket_overwrite_mode = overwrite.whole;
      socket_owner = c.socket_owner.whole;
      socket_group = c.socket_group.whole;
      socket_permission_mode = permission.whole % 4294967296;
    };
    alpha = record {
      socket_overwrite_mode = overwrite.alpha;
      socket_owner = c.socket_owner.alpha;
      socket_group = c.socket_group.alpha;
      socket_permission_mode = permission.alpha % 4294967296;
    };
    beta = record {
      socket_overwrite_mode = overwrite.beta;
      socket_owner = c.socket_owner.beta;
      socket_group = c.socket_group.beta;
      socket_permission_mode = permission.beta % 4294967296;
    };
  }

  unfoldable pub parse_forward_settings :
      CreateConfiguration → Result Failure (PerEndpoint ForwardSettings)
  parse_forward_settings c = do
    overwrite ← parse_settings mutagen socket_overwrite_mode c.socket_overwrite_mode
    ensure_ownerships mutagen c.socket_owner
    ensure_ownerships mutagen c.socket_group
    permission ← parse_settings mutagen file_mode c.socket_permission_mode
    ok (forward_settings c overwrite permission)

  unfoldable pub forward_configurations : CreateConfiguration → Result Failure (PerEndpoint C)
  forward_configurations c = do
    global ← with_global mutagen c.no_global_configuration mutagen.no_configuration
    defaults ← with_files mutagen global c.configuration_files
    settings ← parse_forward_settings c
    ok (record {
      whole = mutagen.merge defaults (of_settings settings.whole);
      alpha = of_settings settings.alpha;
      beta = of_settings settings.beta;
    })

  -- What setupSingleForward gives to `Create`.
  unfoldable pub forward_specification :
      TransportConfig → Text → PortBinding → Text → Result Failure (Specification C)
  forward_specification config container_id binding prompter = do
    short ← short_id container_id
    let c = create_configuration short binding.host_port
    destination ← or_bad_url bad_destination (
        remote_url mutagen config forwarding (codes "/tcp:localhost:" ++ binding.host_port)
          (codes "tcp:localhost:" ++ binding.host_port))
    source ←
        or_bad_url bad_source
          (mutagen.parsers.parse_mutagen (codes "tcp:localhost:" ++ binding.host_port) forwarding)
    guard (mutagen.is_name c.name) (fails bad_name)
    labels ← add_labels mutagen [] c.labels
    label ← compressed_or_panic (compress_container_id container_id)
    configurations ← forward_configurations c
    ok (record {
      alpha = source;
      beta = destination;
      configurations = configurations;
      name = c.name;
      labels = insert container_id_label label labels;
      paused = c.paused;
      prompter = prompter;
    })

  module _ {ℓ} {S : Type ℓ} (create : Specification C → S → Result Text Text × S) where
    unfoldable pub setup_single_forward :
        TransportConfig → Text → PortBinding → Text → S → Option (Result SetupError Text × S)
    setup_single_forward config container_id binding prompter sessions =
        setup_single create (forward_specification config container_id binding prompter) sessions

    -- A container without bindings needs no sessions.
    unfoldable pub setup_forwards :
        TransportConfig → Text → Text → PortForwardManager × S → Option (List Text × S)
    setup_forwards config container_id prompter (m, sessions) =
        setup_each (λ binding. setup_single_forward config container_id binding prompter)
          (bindings_at (lookup container_id m.container_ports)) sessions
