-- ===== src/DockerProxy/Sync.antt =====
-- pkg/docker-proxy/proxy.go: `syncWithRunningContainers`, which compares the sessions that exist
-- with the containers that run. The set-up of a container's sessions is a task.
pub mod Total
use remote_docker_agent.Prelude.{
  ◌≡◌, Bool, true, false, not, Option, none, some, List, [], ◌∷◌, ◌==◌, if◌then◌else◌, length, Text,
  eq_text, Map, lookup, insert, Result, ok, err,
}
use remote_docker_agent.Bridge.Sessions.{SessionManager, list_sessions}
use remote_docker_agent.Bridge.PortForward.{PortForwardManager, store_port_bindings_for_container}
use remote_docker_agent.Bridge.FileSync.{FileSyncManager, Files, store_bind_mounts_for_container}
use remote_docker_agent.DockerProxy.Remote.{ContainerInfo, Daemon}
use remote_docker_agent.DockerProxy.Operations.{Managers, teardown_both}

-- `ids, _ := ListSessions()`: no ids where it fails.
unfoldable pub ids_or_none : Result Text (Map Text Bool) → Map Text Bool
ids_or_none (ok ids) = ids
ids_or_none (err e) = []

-- The ids of a map's entries set in another map.
unfoldable pub mark_ids : Map Text Bool → Map Text Bool → Map Text Bool
mark_ids [] existing = existing
mark_ids ((id, listed) ∷ ids) existing = mark_ids ids (insert id true existing)

unfoldable pub unless_running : Option ContainerInfo → Text → List Text → List Text
unless_running none id rest = id ∷ rest
unless_running (some info) id rest = rest

-- The ids that have sessions and do not run any more.
unfoldable pub stale : Map Text Bool → Map Text ContainerInfo → List Text
stale [] running = []
stale ((id, listed) ∷ existing) running =
    unless_running (lookup id running) id (stale existing running)

unfoldable pub is_set : Option Bool → Bool
is_set none = false
is_set (some b) = b

-- The running containers without sessions.
unfoldable pub unsynced : Map Text ContainerInfo → Map Text Bool → Map Text ContainerInfo
unsynced [] existing = []
unsynced ((id, info) ∷ running) existing =
    let rest = unsynced running existing in
    if is_set (lookup id existing) then rest else (id, info) ∷ rest

-- The storing part of `storeContainerBindingsAndSetupSessions`.
unfoldable pub store_container_bindings :
    Files
    → Text
    → ContainerInfo
    → PortForwardManager × FileSyncManager
    → PortForwardManager × FileSyncManager
store_container_bindings files id info (forwards, syncs) = (
  (if length info.port_bindings == 0
      then forwards
      else store_port_bindings_for_container id info.port_bindings forwards),
  (if length info.mounts == 0
      then syncs
      else store_bind_mounts_for_container files id info.mounts syncs),
)

module _ {ℓ κ} {S : Type ℓ} {R : Type κ} (forwarding : SessionManager S)
    (synchronization : SessionManager R) (daemon : Daemon) where
  unfoldable pub teardown_each :
      List Text
      → Managers forwarding synchronization daemon
      → Option (Managers forwarding synchronization daemon)
  teardown_each [] managers = some managers
  teardown_each (id ∷ ids) managers =
      elim (teardown_both forwarding synchronization daemon id managers) [
        | none ↦ none
        | some left ↦ teardown_each ids left
      ]

  unfoldable pub existing_sessions : Managers forwarding synchronization daemon → Map Text Bool
  existing_sessions ((m, s), (fs, r)) =
      mark_ids (ids_or_none (list_sessions synchronization r))
        (mark_ids (ids_or_none (list_sessions forwarding s)) [])

  -- The managers that are left, and the containers whose sessions are set up; `none` is a panic.
  unfoldable pub sync_with_running_containers :
      Option (Map Text ContainerInfo)
      → Managers forwarding synchronization daemon
      → Option (Managers forwarding synchronization daemon × Map Text ContainerInfo)
  sync_with_running_containers none managers = some (managers, [])
  sync_with_running_containers (some running) managers =
      elim (teardown_each (stale (existing_sessions managers) running) managers) [
        | none ↦ none
        | some left ↦ some (left, unsynced running (existing_sessions managers))
      ]
