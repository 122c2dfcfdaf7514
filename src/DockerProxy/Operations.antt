-- ===== src/DockerProxy/Operations.antt =====
-- pkg/docker-proxy/proxy.go: what the proxy does before a request is forwarded and after its
-- response came. The goroutines it starts are tasks, to be run in any order.
use remote_docker_agent.Prelude.{
  ℕ, ◌++◌, Bool, ◌&&◌, Option, none, some, List, [], ◌∷◌, leb, ltb, if◌then◌else◌, Text, codes,
  is_empty, text_eq, eq_text, nat_eq, Map, lookup, insert, delete,
}
use remote_docker_agent.Bridge.Sessions.{SessionManager}
use remote_docker_agent.Bridge.PortForward.{
  PortForwardManager, teardown_forwards, teardown_all_forwards,
}
use remote_docker_agent.Bridge.FileSync.{FileSyncManager, Files, teardown_syncs, teardown_all_syncs}
use remote_docker_agent.DockerProxy.Messages.{
  Request, Response, is_full_container_id, is_container_create, container_start, container_stop,
  container_remove, extract_api_version,
}
use remote_docker_agent.DockerProxy.Remote.{Daemon, get_container_id, is_container_stopped}
use remote_docker_agent.DockerProxy.Create.{
  Codec, Handled, handle_container_create_request, handle_container_create_response,
}

-- `setupSessionsIfRunning` of an id, or `teardownForContainer` of an id or name and a version.
pub data Task : Type 0 where
  setup_sessions : Text → Task
  teardown : Text → Text → Task

pub record Proxy : Type 0 where
  pub forwards : PortForwardManager
  pub syncs : FileSyncManager
  pub container_id_cache : Map ℕ Text
  pub tasks : List Task

unfoldable pub is_success : Response → Bool
is_success resp = leb 200 resp.status_code && ltb resp.status_code 300

unfoldable pub is_post : Request → Bool
is_post req = text_eq req.method (codes "POST")

unfoldable pub is_delete : Request → Bool
is_delete req = text_eq req.method (codes "DELETE")

-- The container that a request removes, if it is one that does.
unfoldable pub removes : Request → Option Text
removes req = if is_delete req then container_remove req.path else none

unfoldable pub resolve_id : Daemon → Text → Text → Text
resolve_id daemon path id_or_name =
    if is_full_container_id id_or_name
    then id_or_name
    else get_container_id daemon (extract_api_version path) id_or_name

unfoldable pub cache_id : Daemon → Request → Option Text → Map ℕ Text → Map ℕ Text
cache_id daemon req none cache = cache
cache_id daemon req (some id_or_name) cache =
    let id = resolve_id daemon req.path id_or_name in
    if is_empty id then cache else insert req.number id cache

module _ {ℓ} {B : Type ℓ} (codec : Codec B) (files : Files) (daemon : Daemon) where
  -- Before the request is forwarded: the proxy, and the body to send instead, if any.
  unfoldable pub handle_container_operation : Request → Option B → Proxy → Proxy × Option B
  handle_container_operation req body p =
      let h : Handled B =
        if is_post req && is_container_create req.path
        then handle_container_create_request codec files req.number body p.forwards p.syncs
        else record { forwards = p.forwards; syncs = p.syncs; replaced = none } in
      (
        record {
          forwards = h.forwards;
          syncs = h.syncs;
          container_id_cache = cache_id daemon req (removes req) p.container_id_cache;
          tasks = p.tasks;
        },
        h.replaced,
      )

unfoldable pub with_task : Task → Proxy → Proxy
with_task t p = record {
  forwards = p.forwards;
  syncs = p.syncs;
  container_id_cache = p.container_id_cache;
  tasks = p.tasks ++ t ∷ [];
}

unfoldable pub after_create : Request → Response → Proxy → Proxy
after_create req resp p =
    let ended = handle_container_create_response req.number resp (p.forwards, p.syncs) in
    if is_post req && is_container_create req.path
    then record {
      forwards = ended.0;
      syncs = ended.1;
      container_id_cache = p.container_id_cache;
      tasks = p.tasks;
    }
    else p

unfoldable pub after_start : Option Text → Proxy → Proxy
after_start none p = p
after_start (some id) p = with_task (setup_sessions id) p

-- A teardown with the response's `Api-Version`; the source panics when the header is missing.
unfoldable pub teardown_with : Text → Option Text → Proxy → Option Proxy
teardown_with id none p = none
teardown_with id (some version) p = some (with_task (teardown id version) p)

unfoldable pub after_stop : Option Text → Option Text → Proxy → Option Proxy
after_stop none version p = some p
after_stop (some id_or_name) version p = teardown_with id_or_name version p

-- A removed container is torn down by its cached id, or by the path's when that is a full one.
unfoldable pub after_remove : Option Text → Text → Option Text → Proxy → Option Proxy
after_remove (some cached) id_or_name version p = some (with_task (teardown cached []) p)
after_remove none id_or_name version p =
    if is_full_container_id id_or_name then teardown_with id_or_name version p else some p

unfoldable pub forget_cached : ℕ → Proxy → Proxy
forget_cached req p = record {
  forwards = p.forwards;
  syncs = p.syncs;
  container_id_cache = delete req p.container_id_cache;
  tasks = p.tasks;
}

unfoldable pub forget_option : ℕ → Option Proxy → Option Proxy
forget_option req none = none
forget_option req (some p) = some (forget_cached req p)

unfoldable pub when_removed : Request → Response → Option Text → Proxy → Option Proxy
when_removed req resp none p = some p
when_removed req resp (some id_or_name) p = forget_option req.number (
    if is_success resp
    then after_remove (lookup req.number p.container_id_cache) id_or_name resp.api_version p
    else some p)

unfoldable pub then_removed : Request → Response → Option Proxy → Option Proxy
then_removed req resp none = none
then_removed req resp (some p) = when_removed req resp (removes req) p

-- What a successful POST names by a pattern.
unfoldable pub posted : (Text → Option Text) → Request → Response → Option Text
posted pattern_of req resp = if is_post req && is_success resp then pattern_of req.path else none

-- After the response came; `none` is the panic.
unfoldable pub handle_container_operation_response : Request → Response → Proxy → Option Proxy
handle_container_operation_response req resp p =
    let started = after_start (posted container_start req resp) (after_create req resp p) in
    then_removed req resp (after_stop (posted container_stop req resp) resp.api_version started)

-- The managers with Mutagen's forwarding and synchronization sessions.
module _ {ℓ κ} {S : Type ℓ} {R : Type κ} (forwarding : SessionManager S)
    (synchronization : SessionManager R) (daemon : Daemon) where
  abbrev pub Managers : Type (ℓ ⊔ κ)
  Managers = (PortForwardManager × S) × (FileSyncManager × R)

  unfoldable pub then_syncs :
      Text → FileSyncManager × R → Option (PortForwardManager × S) → Option Managers
  then_syncs id syncs none = none
  then_syncs id syncs (some forwards) = elim (teardown_syncs synchronization id syncs) [
    | none ↦ none
    | some left ↦ some (forwards, left)
  ]

  -- `TeardownForwards`, then `TeardownSyncs`, of one id.
  unfoldable pub teardown_both : Text → Managers → Option Managers
  teardown_both id (forwards, syncs) =
      then_syncs id syncs (teardown_forwards forwarding id forwards)

  unfoldable pub teardown_resolved : Text → Managers → Option Managers
  teardown_resolved id managers = if is_empty id then some managers else teardown_both id managers

  unfoldable pub teardown_for_container : Text → Text → Managers → Option Managers
  teardown_for_container id_or_name api_version managers =
      if is_full_container_id id_or_name
      then teardown_both id_or_name managers
      else teardown_resolved (get_container_id daemon api_version id_or_name) managers

  -- What runs when the connection of a wait request closes.
  unfoldable pub after_wait : Text → Managers → Option Managers
  after_wait id managers =
      if is_container_stopped daemon id then teardown_both id managers else some managers

  -- `Close`: everything is taken down.
  unfoldable pub close : Managers → Option Managers
  close (forwards, syncs) = elim (teardown_all_forwards forwarding forwards) [
    | none ↦ none
    | some left ↦ some (left, teardown_all_syncs synchronization syncs)
  ]
