-- ===== src/DockerProxy/Tests/Connections.antt =====
-- pkg/docker-proxy: connections at concrete requests.
use remote_docker_agent.Prelude.{
  insert, ◌≡◌, ◌≢◌, refl, true, none, some, List, [], ◌∷◌, codes, is_empty, text_eq, split,
  has_prefix, eq_text, nat_eq, lookup, delete,
}
use remote_docker_agent.ContainerId.{compress_container_id}
use remote_docker_agent.Bridge.Sessions.{Session}
use remote_docker_agent.Bridge.PortForward.{new_port_forward_bridge}
use remote_docker_agent.Bridge.FileSync.{
  store_bind_mounts_start, bind_mounts, add_binds, add_resolved, add_mount, resolve_bind,
  bind_parts, existing_mount,
}
use remote_docker_agent.DockerProxy.Messages.{
  Request, is_container_create, container_start, container_stop, container_remove, container_wait,
  container_segments, behind_containers, is_version, every, is_digit, is_hex_id, is_id_or_name,
  is_alphanumeric, is_hex_letter, last_id, id_before, id_before_wait, only_create,
  is_full_container_id,
}
use remote_docker_agent.DockerProxy.Remote.{
  is_container_stopped, says_stopped, get_container_id, id_of,
}
use remote_docker_agent.DockerProxy.Create.{
  HostConfig, handle_container_create_request, handle_config, store_forwards, port_bindings_set,
  requested_mounts, mount_requests,
}
use remote_docker_agent.DockerProxy.Operations.{
  Proxy, removes, is_delete, resolve_id, is_success, handle_container_operation,
  handle_container_operation_response, after_wait,
}
use remote_docker_agent.DockerProxy.Messages.{should_close_connection, is_connection_upgrade}
use remote_docker_agent.DockerProxy.Operations.{
  is_post, cache_id, posted, after_create, after_start, after_stop, after_remove, with_task,
  then_removed, when_removed, forget_option, forget_cached,
}
use remote_docker_agent.DockerProxy.Connection.{
  Exchange, Incoming, end_of_file, request, waited, no_response, ending_of, ending_of_wait,
  ending_of_response, waits_for, after_response, exchange, serve, with_managers, deferred_id,
  run_deferred, then_deferred, handle_connection,
}
use remote_docker_agent.DockerProxy.Connection.Pending.{NotPending}
use remote_docker_agent.DockerProxy.Connection.Ends.{handle_connection-NotPending}
use remote_docker_agent.Bridge.Sessions.{container_selection}
use remote_docker_agent.Bridge.PortForward.{
  teardown_forwards, close_forwards, close_all, bindings_at,
}
use remote_docker_agent.Bridge.FileSync.{teardown_syncs}
use remote_docker_agent.DockerProxy.Operations.{teardown_both, then_syncs}
use remote_docker_agent.ContainerId.{escape_base64}
use remote_docker_agent.Encoding.Hex.{hex_decode}
use remote_docker_agent.Encoding.Base64.{base64_encode}
use remote_docker_agent.DockerProxy.Tests.{
  config_codec, host, one_bind, one_container, remove_web, removed_resp, idle, no_sessions,
}

abbrev remove_exchange : Exchange HostConfig
remove_exchange = record {
  req = remove_web;
  body = none;
  is_forwarded = true;
  resp = some removed_resp;
  is_written = true;
}

-- The container is removed, and the next request waits for it; then it has stopped.
abbrev wait_web : Request
wait_web = record {
  number = 4;
  method = codes "POST";
  path = codes "/v1.45/containers/0afbff/wait";
  proto_major = 1;
  proto_minor = 1;
  connection = [];
}

abbrev wait_exchange : Exchange HostConfig
wait_exchange = record {
  req = wait_web;
  body = none;
  is_forwarded = true;
  resp = some removed_resp;
  is_written = true;
}

abbrev two_requests : List (Incoming HostConfig)
two_requests = request remove_exchange ∷ request wait_exchange ∷ end_of_file ∷ []

removes_run :
    (left : Proxy × (List Session × List Session)) × (handle_connection config_codec host
        no_sessions no_sessions one_container one_container true two_requests
        (idle, ([], []))
      ≡ some (left, waited (codes "0afbff")))
unfolding handle_connection serve then_deferred run_deferred deferred_id with_managers after_wait
    is_container_stopped says_stopped teardown_both then_syncs teardown_forwards close_forwards
    close_all bindings_at teardown_syncs container_selection compress_container_id hex_decode
    base64_encode escape_base64 exchange after_response ending_of ending_of_wait ending_of_response
    waits_for is_post handle_container_operation handle_container_operation_response
    is_container_create container_start container_stop container_wait id_before_wait cache_id posted
    after_create after_start after_stop after_remove with_task then_removed when_removed
    forget_option forget_cached is_success should_close_connection is_connection_upgrade removes
    is_delete container_remove container_segments behind_containers is_version every is_digit
    is_hex_letter is_hex_id is_id_or_name is_alphanumeric last_id split text_eq is_empty resolve_id
    is_full_container_id get_container_id id_of one_container insert lookup delete id_before
    only_create has_prefix new_port_forward_bridge no_sessions
removes_run = (_, refl)

nothing_pending : NotPending 3 idle
unfolding lookup new_port_forward_bridge
nothing_pending = ((refl, refl), refl)

handle_connection-NotPending_example : NotPending 3 removes_run.0.0
handle_connection-NotPending_example =
    handle_connection-NotPending config_codec host no_sessions no_sessions 3 one_container
      one_container true two_requests idle removes_run.0.0 ([], []) removes_run.0.1
      (waited (codes "0afbff")) nothing_pending removes_run.1 (λ e. cc) (λ e. cc)

-- A create request that gets no response leaves its mounts under its number.
abbrev lost_create : Request
lost_create = record {
  number = 7;
  method = codes "POST";
  path = codes "/v1.45/containers/create";
  proto_major = 1;
  proto_minor = 1;
  connection = [];
}

lost_runs :
    (left : Proxy × (List Session × List Session)) × (handle_connection config_codec host
        no_sessions no_sessions one_container one_container true
        (request (record {
          req = lost_create;
          body = some one_bind;
          is_forwarded = true;
          resp = none;
          is_written = true;
        })
          ∷ [])
        (idle, ([], []))
      ≡ some (left, no_response))
    × (lookup 7 left.0.syncs.containers ≢ none)
unfolding handle_connection serve then_deferred run_deferred deferred_id exchange after_response
    is_post handle_container_operation handle_container_create_request handle_config store_forwards
    port_bindings_set requested_mounts mount_requests store_bind_mounts_start bind_mounts add_binds
    add_resolved add_mount resolve_bind bind_parts existing_mount is_container_create cache_id
    removes is_delete container_segments behind_containers is_version every is_digit only_create
    split text_eq is_empty insert lookup config_codec host
lost_runs = (_, refl, λ h. cc)
