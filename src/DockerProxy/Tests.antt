-- ===== src/DockerProxy/Tests.antt =====
-- pkg/docker-proxy: runs of the proxy's handlers.
mod Connections
use remote_docker_agent.Prelude.{
  insert, Map, Text, ◌≡◌, ◌≢◌, refl, ◌↔◌, Bool, true, false, not, none, some, List, [], ◌∷◌, ◌++◌,
  codes, is_empty, text_eq, split, has_prefix, eq_text, nat_eq, lookup, delete, ok,
}
use remote_docker_agent.ContainerId.{compress_container_id}
use remote_docker_agent.Bridge.Sessions.{Session, SessionManager}
use remote_docker_agent.Bridge.PortForward.{PortForwardManager, new_port_forward_bridge}
use remote_docker_agent.Bridge.PortForward.Lifecycle.{created, Reachable}
use remote_docker_agent.Bridge.FileSync.{
  FileSyncManager, BindMount, Files, store_bind_mounts_start, bind_mounts, add_binds, add_resolved,
  add_mount, resolve_bind, bind_parts, existing_mount,
}
use remote_docker_agent.DockerProxy.Messages.{
  Request, Response, is_container_create, container_start, container_stop, container_remove,
  container_wait, extract_api_version, container_segments, behind_containers, is_version, every,
  is_digit, is_hex_id, is_id_or_name, is_alphanumeric, is_hex_letter, last_id, id_before,
  id_before_wait, only_create, version_of,
}
use remote_docker_agent.Bridge.FileSync.{sync_base_path}
use remote_docker_agent.DockerProxy.Remote.{
  Daemon, answer, is_container_stopped, says_stopped, mount_text,
}
use remote_docker_agent.DockerProxy.Create.{
  Codec, HostConfig, handle_container_create_request, handle_config, store_forwards,
  port_bindings_set, rewrite_bind_mount, rewritten, bind_of, created_container, requested_mounts,
  mount_requests, text_or_empty,
}
use remote_docker_agent.DockerProxy.Operations.{Proxy, resolve_id, after_wait}
use remote_docker_agent.DockerProxy.Sync.{
  ids_or_none, mark_ids, unless_running, stale, existing_sessions, sync_with_running_containers,
}
use remote_docker_agent.DockerProxy.Sync.Total.{sync-total}
use remote_docker_agent.Encoding.Hex.{hex_encode}
use remote_docker_agent.Encoding.Base64.{base64_decode}
use remote_docker_agent.Bridge.Sessions.{
  list_sessions, container_ids, session_container_id, container_id_label,
}
use remote_docker_agent.ContainerId.{decompress_container_id}
use remote_docker_agent.DockerProxy.Remote.{ContainerInfo}
use remote_docker_agent.DockerProxy.Operations.{Managers}
use remote_docker_agent.DockerProxy.Rewriting.{bind_text, rewrite-mount_text}
use remote_docker_agent.DockerProxy.Lifecycle.{
  answered, create-container_mounts, after_wait-none_iff,
}
use remote_docker_agent.DockerProxy.Messages.{should_close_connection, is_connection_upgrade}
use remote_docker_agent.DockerProxy.Operations.{
  is_post, cache_id, posted, after_create, after_start, after_stop, after_remove, with_task,
  then_removed, when_removed, forget_option, forget_cached,
}
use remote_docker_agent.DockerProxy.Connection.{
  Exchange, Incoming, end_of_file, request, waited, no_response, ending_of, ending_of_wait,
  ending_of_response, waits_for, after_response, exchange, serve, with_managers, deferred_id,
  run_deferred, then_deferred, handle_connection,
}
use remote_docker_agent.DockerProxy.Directories.{
  create_remote_mount_directories, guest_post, first_is_made, remote_paths, dir_to_create,
  create_remote_mount_directories-first_is_made,
}
use remote_docker_agent.DockerProxy.Connection.Pending.{NotPending}
use remote_docker_agent.DockerProxy.Connection.Ends.{handle_connection-NotPending}
use remote_docker_agent.Bridge.Sessions.{container_selection}
use remote_docker_agent.Bridge.PortForward.{
  teardown_forwards, close_forwards, close_all, bindings_at,
}
use remote_docker_agent.Bridge.FileSync.{teardown_syncs}
use remote_docker_agent.DockerProxy.Operations.{teardown_both, then_syncs}
use remote_docker_agent.ContainerId.{escape_base64}
use remote_docker_agent.Encoding.Hex.{hex_decode}
use remote_docker_agent.Encoding.Base64.{base64_encode}

patterns_run :
    (is_container_create (codes "/v1.45/containers/create") ≡ true)
    × (container_start (codes "/v1.45/containers/0af/start") ≡ some (codes "0af"))
    × (container_start (codes "/v1.45/containers/web/start") ≡ none)
    × (container_stop (codes "/v1.45/containers/web-1/stop") ≡ some (codes "web-1"))
    × (container_remove (codes "/v1.45/containers/web") ≡ some (codes "web"))
    × (container_remove (codes "/v1.45/containers/w") ≡ none)
    × (container_wait (codes "/v1.45/containers/abc/waiting/x") ≡ some (codes "abc"))
    × (extract_api_version (codes "/v1.45/containers/web") ≡ codes "1.45")
unfolding is_container_create container_start container_stop container_remove container_wait
    extract_api_version container_segments behind_containers is_version every is_digit is_hex_id
    is_id_or_name is_alphanumeric is_hex_letter last_id id_before id_before_wait only_create
    version_of split text_eq has_prefix is_empty
patterns_run = (refl, refl, refl, refl, refl, refl, refl, refl)

-- A named volume is no path of the host, and is rewritten like one.
named_volume :
    rewrite_bind_mount (codes "data:/var") sync_base_path
    ≡ codes "/opt/container-mount-syncdata:/var"
unfolding rewrite_bind_mount rewritten bind_of split sync_base_path
named_volume = refl

rewrite-mount_text_example :
    (rewrite_bind_mount (bind_text true (codes "/src") (codes "/app")) sync_base_path
      ≡ bind_text true (sync_base_path ++ codes "/src") (codes "/app"))
    × (mount_text (record {
      type_ = codes "bind";
      source = sync_base_path ++ codes "/src";
      destination = codes "/app";
      rw = true;
    })
        ≡ bind_text true (codes "/src") (codes "/app"))
rewrite-mount_text_example =
    rewrite-mount_text true (codes "/src") (codes "/app") (refl, (refl, (refl, (refl, tt))))
      (refl, (refl, (refl, (refl, tt))))

-- Bodies that are their own parse results.
pub config_codec : Codec HostConfig
config_codec = record {
  unmarshal = some;
  unmarshal_map = λ c. none;
  marshal_with = λ c body. some body;
}

unmarshals : (c : HostConfig) → config_codec.unmarshal c ≡ some c
unfolding config_codec
unmarshals c = refl

pub host : Files
host = record { abs = some; stat = λ path. true }

abbrev pub one_bind : HostConfig
one_bind = record { port_bindings = []; binds = codes "/src:/app" ∷ []; mounts = [] }

abbrev created_resp : Response
created_resp = record {
  status_code = 201;
  connection = [];
  upgrade = [];
  api_version = some (codes "1.45");
  created_id = some (codes "0afbff");
}

abbrev pub no_mounts : FileSyncManager
no_mounts = record { containers = []; container_mounts = [] }

has_mount : bind_mounts host (requested_mounts one_bind) ≢ []
unfolding bind_mounts add_binds add_resolved add_mount resolve_bind bind_parts existing_mount split
    host text_eq requested_mounts mount_requests
has_mount h = cc

is_created : is_empty (created_container created_resp) ≡ false
unfolding created_container text_or_empty
is_created = refl

abbrev after_create_mounts : FileSyncManager
after_create_mounts =
    (answered config_codec host 7 (some one_bind) created_resp new_port_forward_bridge no_mounts).1

create-container_mounts_example :
    (lookup 7 after_create_mounts.containers ≡ none)
    × (lookup (created_container created_resp) after_create_mounts.container_mounts
        ≡ some (record {
          container_id = created_container created_resp;
          mounts = bind_mounts host (requested_mounts one_bind);
        }))
create-container_mounts_example =
    create-container_mounts config_codec host 7 one_bind one_bind created_resp
      new_port_forward_bridge no_mounts (unmarshals one_bind) has_mount is_created

-- A daemon that knows every container, as a stopped one.
pub one_container : Daemon
one_container = record {
  inspect = λ path. answer 200 (some (record { id = codes "0afbff"; running = false }));
}

abbrev pub remove_web : Request
remove_web = record {
  number = 3;
  method = codes "DELETE";
  path = codes "/v1.45/containers/web";
  proto_major = 1;
  proto_minor = 1;
  connection = [];
}

abbrev pub removed_resp : Response
removed_resp = record {
  status_code = 204;
  connection = [];
  upgrade = [];
  api_version = none;
  created_id = none;
}

abbrev pub idle : Proxy
idle = record {
  forwards = new_port_forward_bridge;
  syncs = no_mounts;
  container_id_cache = [];
  tasks = [];
}

abbrev web_id : Text
web_id = codes "0123456789abcdef0123456789abcdef0123456789abcdef0123456789abcdef"

-- A daemon that knows one container by its full id.
web_container : Daemon
web_container = record {
  inspect = λ path. answer 200 (some (record { id = web_id; running = true }));
}

pub no_sessions : SessionManager (List Session)
no_sessions = record { list = ok; terminate = λ selected sessions. [] }

abbrev removed_id : Text
removed_id = resolve_id web_container remove_web.path (codes "web")

abbrev start_managers : (PortForwardManager × List Session) × (FileSyncManager × List Session)
start_managers = ((new_port_forward_bridge, []), (no_mounts, []))

is_stopped : is_container_stopped one_container (codes "abc") ≡ true
unfolding is_container_stopped says_stopped one_container
is_stopped = refl

after_wait-none_iff_example :
    (after_wait no_sessions no_sessions one_container
        (codes "abc")
        ((new_port_forward_bridge, []), (no_mounts, []))
      ≡ none)
    ↔ (compress_container_id (codes "abc") ≡ none)
after_wait-none_iff_example =
    after_wait-none_iff no_sessions no_sessions one_container (codes "abc") new_port_forward_bridge
      [] no_mounts [] created is_stopped

-- A session of a container that does not run any more, listed by both managers.
two_listed : SessionManager (List Session)
two_listed = record { list = ok; terminate = λ selected sessions. [] }

abbrev old_session : Session
old_session = record {
  identifier = codes "s1";
  labels = (codes "container-id", codes "0Cvv.0") ∷ [];
}

abbrev old_managers : Managers two_listed two_listed one_container
old_managers = ((new_port_forward_bridge, old_session ∷ []), (no_mounts, old_session ∷ []))

old_stale :
    stale (existing_sessions two_listed two_listed one_container old_managers) []
    ≡ codes "0afbff" ∷ []
unfolding stale unless_running existing_sessions mark_ids ids_or_none list_sessions two_listed
    container_ids session_container_id container_id_label decompress_container_id base64_decode
    hex_encode lookup insert text_eq is_empty
old_stale = refl

sync-total_example :
    (left : Managers two_listed two_listed one_container × Map Text ContainerInfo)
    × (sync_with_running_containers two_listed two_listed one_container (some []) old_managers
        ≡ some left)
    × Reachable left.0.0.0
sync-total_example = sync-total two_listed two_listed one_container (some []) old_managers created

-- The remote host cannot make the directory of /b, and this goes unnoticed.
abbrev not_b : Text → Bool
not_b path = not (text_eq path (codes "/opt/container-mount-sync/b"))

abbrev two_mounts : List BindMount
two_mounts =
    record { host_path = codes "/a"; container_path = codes "/x"; read_only = false }
    ∷ record { host_path = codes "/b"; container_path = codes "/y"; read_only = false }
    ∷ []

create_remote_mount_directories-first_is_made_example :
    (create_remote_mount_directories
      (codes "tinyscale")
      (guest_post not_b)
      (λ path. some true)
      two_mounts).is_ok
    ≡ first_is_made not_b (remote_paths (λ path. some true) two_mounts)
create_remote_mount_directories-first_is_made_example =
    create_remote_mount_directories-first_is_made not_b (λ path. some true) two_mounts

failure_unnoticed :
    (first_is_made not_b (remote_paths (λ path. some true) two_mounts) ≡ true)
    × (remote_paths (λ path. some true) two_mounts
        ≡ codes "/opt/container-mount-sync/a" ∷ codes "/opt/container-mount-sync/b" ∷ [])
unfolding remote_paths dir_to_create sync_base_path text_eq
failure_unnoticed = (refl, refl)
