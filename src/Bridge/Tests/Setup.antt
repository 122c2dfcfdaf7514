-- ===== src/Bridge/Tests/Setup.antt =====
-- pkg/docker-proxy/mutagen-bridge: set-ups at concrete inputs, with Mutagen's sessions as a list.
use remote_docker_agent.Prelude.{
  ℕ, ◌+◌, ◌≡◌, refl, Bool, true, false, none, some, List, [], ◌∷◌, ◌++◌, length, if◌then◌else◌,
  Text, codes, text_eq, eq_text, Map, lookup, insert, Result, ok, arith,
}
use remote_docker_agent.ContainerId.{compress_container_id}
use remote_docker_agent.Encoding.Hex.{hex_decode}
use remote_docker_agent.Encoding.Base64.{base64_encode}
use remote_docker_agent.Tunnel.{Url, forwarding, tinyscale}
use remote_docker_agent.Bridge.Sessions.{Session, list_sessions, container_ids, container_id_label}
use remote_docker_agent.Bridge.PortForward.{PortForwardManager, PortBinding, bindings_at}
use remote_docker_agent.Bridge.PortForward.Setup.{
  ForwardSettings, forward_specification, create_configuration, forward_configurations,
  parse_forward_settings, forward_settings, setup_forwards,
}
use remote_docker_agent.Bridge.PortForward.Created.{setup_forwards-Adds, setup_forwards-listed}
use remote_docker_agent.Bridge.FileSync.{FileSyncManager, teardown_syncs}
use remote_docker_agent.Bridge.FileSync.Settings.{SyncModes}
use remote_docker_agent.Bridge.FileSync.Setup.{setup_syncs}
use remote_docker_agent.Bridge.FileSync.Created.{setup_syncs-teardown_syncs}
use remote_docker_agent.Bridge.Creation.{
  TransportConfig, Mutagen, Specification, no_file, short_id, or_bad_url, remote_url, add_labels,
  compressed_or_panic, with_global, merge_global, load_and_validate, validated, with_files,
  parse_settings, parse_setting, ensure_ownerships, ensure_ownership,
}
use remote_docker_agent.Bridge.Creation.Added.{HonoursLabels, Adds, Any, here, Accepted}
use remote_docker_agent.Bridge.Tests.{
  web, memory, memory-HonoursSelectors, memory_lists, db_session, db_session-IsLabelled,
}

-- A Mutagen that takes every URL, name, label and setting; configurations are numbers.
abbrev url_of : Text → Url
url_of raw = record {
  kind = forwarding;
  protocol = tinyscale;
  host = raw;
  port = 0;
  path = [];
  parameters = [];
}

abbrev pub easy : Mutagen ℕ
easy = record {
  parsers = record { parse = λ raw. none; parse_mutagen = λ raw kind. ok (url_of raw) };
  query_escape = λ s. s;
  is_name = λ s. true;
  is_label_key = λ s. true;
  is_label_value = λ s. true;
  configuration_path = some (codes "/root/.mutagen.yml");
  load_configuration = λ path. no_file;
  is_valid = λ c. true;
  no_configuration = 0;
  merge = λ a b. a + b;
  unmarshal = λ setting text. some 1;
  is_ownership = λ text. true;
}

abbrev pub forward_config : ForwardSettings → ℕ
forward_config s = s.socket_overwrite_mode

abbrev pub sync_modes : SyncModes ℕ
sync_modes = record {
  is_default_permissions = λ m. true;
  default_permissions = 1;
  is_file_mode = λ p m. true;
  is_directory_mode = λ p m. true;
  vcs_ignore = 1;
  vcs_propagate = 2;
  of_session = λ s e. s.synchronization_mode;
  of_endpoint = λ e. e.default_file_mode;
}

unfoldable pub remember : Specification ℕ → List Session → Result Text Text × List Session
remember specification sessions = (
  ok (codes "s"),
  sessions ++ record { identifier = codes "s"; labels = specification.labels } ∷ [],
)

pub remember-HonoursLabels : HonoursLabels memory remember
unfolding memory remember
remember-HonoursLabels = record {
  adds = λ specification sessions after id states e l.
      let i : sessions ≡ states = cc in
      let j : codes "s" ≡ id = cc in
      let k : sessions ++ record { identifier = codes "s"; labels = specification.labels } ∷ []
          ≡ after =
        cc in
      cc;
  refuses = λ specification sessions after e' states e l. absurd cc;
}

abbrev pub ssh_config : TransportConfig
ssh_config = record {
  listen_addr = codes "127.0.0.1:2375";
  transport_type = codes "ssh";
  ssh_user = codes "root";
  ssh_host = codes "host.example:22";
  ssh_key_path = [];
  remote_docker = [];
  ts_tunnel_server = [];
  ts_tunnel_cert_file = [];
  ts_tunnel_key_file = [];
  ts_tunnel_ca_file = [];
  ts_insecure = false;
}

abbrev one_binding : List PortBinding
one_binding =
    record {
      host_port = codes "8080";
      container_port = codes "80";
      protocol = codes "tcp";
      stop_ch = 0;
    }
    ∷ []

abbrev pub one_port : PortForwardManager
one_port = record {
  containers = [];
  container_ports = (web, record { container_id = web; bindings = one_binding }) ∷ [];
  made = 1;
  closed = [];
}

abbrev pub one_mount : FileSyncManager
one_mount = record {
  containers = [];
  container_mounts =
      (
        web,
        record {
          container_id = web;
          mounts =
              record { host_path = codes "/src"; container_path = codes "/app"; read_only = false }
              ∷ [];
        },
      )
      ∷ [];
}

one_port_bindings : bindings_at (lookup web one_port.container_ports) ≡ one_binding
unfolding lookup bindings_at text_eq
one_port_bindings = refl

one_port_set_up :
    (label : Text) × (ids : List Text) × (left : List Session) × (compress_container_id web
      ≡ some label)
    × (setup_forwards easy forward_config remember ssh_config web [] (one_port, db_session ∷ [])
        ≡ some (ids, left))
    × (length ids ≡ length (bindings_at (lookup web one_port.container_ports)))
    × Adds memory label (db_session ∷ []) left
one_port_set_up =
    setup_forwards-Adds easy forward_config memory remember remember-HonoursLabels ssh_config web []
      one_port (db_session ∷ []) (db_session ∷ []) ((omega arith), refl) (omega arith) memory_lists

setup_syncs-teardown_syncs_example :
    (ids : List Text) × (after : List Session) × (left : FileSyncManager × List Session)
    × (found : Map Text Bool) × (setup_syncs easy sync_modes remember ssh_config web []
          (one_mount, db_session ∷ [])
        ≡ some (ids, after))
    × (teardown_syncs memory web (one_mount, after) ≡ some left)
    × (list_sessions memory left.1 ≡ ok found)
    × ((other : Text)
        → lookup other found
          ≡ (if text_eq web other then none else lookup other (container_ids (db_session ∷ []))))
setup_syncs-teardown_syncs_example =
    setup_syncs-teardown_syncs easy sync_modes memory remember remember-HonoursLabels
      memory-HonoursSelectors ssh_config web [] one_mount (db_session ∷ []) (db_session ∷ [])
      ((omega arith), refl) (omega arith) memory_lists (db_session-IsLabelled, tt)

abbrev web_binding : PortBinding
web_binding = record {
  host_port = codes "8080";
  container_port = codes "80";
  protocol = codes "tcp";
  stop_ch = 0;
}

web_prepared :
    (specification : Specification ℕ) × (forward_specification easy forward_config ssh_config web
        web_binding []
      ≡ ok specification)
unfolding forward_specification short_id or_bad_url remote_url add_labels create_configuration
    compressed_or_panic compress_container_id hex_decode base64_encode forward_configurations
    with_global merge_global load_and_validate validated with_files parse_forward_settings
    parse_settings parse_setting ensure_ownerships ensure_ownership forward_settings text_eq insert
    container_id_label
web_prepared = (_, refl)

remember_accepts :
    (specification : Specification ℕ) (sessions : List Session)
    → (id : Text) × (after : List Session) × (remember specification sessions ≡ (ok id, after))
unfolding remember
remember_accepts specification sessions = (_, _, refl)

one_port-Accepted :
    Any
      (λ b. Accepted remember (forward_specification easy forward_config ssh_config web b []))
      (bindings_at (lookup web one_port.container_ports))
unfolding lookup bindings_at text_eq
one_port-Accepted = here (web_prepared.0, web_prepared.1, remember_accepts web_prepared.0)

setup_forwards-listed_example :
    (ids : List Text) × (left : List Session) × (found : Map Text Bool) × (setup_forwards easy
        forward_config remember ssh_config web []
        (one_port, db_session ∷ [])
      ≡ some (ids, left))
    × (list_sessions memory left ≡ ok found)
    × (lookup web found ≡ some true)
setup_forwards-listed_example =
    setup_forwards-listed easy forward_config memory remember remember-HonoursLabels ssh_config web
      [] one_port (db_session ∷ []) (db_session ∷ []) ((omega arith), refl) (omega arith)
      memory_lists one_port-Accepted
