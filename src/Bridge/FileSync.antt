-- ===== src/Bridge/FileSync.antt =====
-- pkg/docker-proxy/mutagen-bridge/file-sync.go: the bookkeeping of file synchronizations. A request
-- is a number (the source's maps compare the pointers).
pub mod Mounts
pub mod Listing
pub mod Settings
pub mod Setup
pub mod Created
pub mod Refinement
use remote_docker_agent.Prelude.{
  ℕ, ◌≡◌, Bool, true, false, not, ◌&&◌, Option, none, some, List, [], ◌∷◌, ◌++◌, ◌==◌,
  if◌then◌else◌, length, Text, codes, text_eq, is_empty, split, eq_text, nat_eq, Map, lookup,
  insert, delete,
}
use remote_docker_agent.Bridge.Sessions.{
  Selection, all_sessions, SessionManager, container_selection,
}

-- `SyncBasePath`
unfoldable pub sync_base_path : Text
sync_base_path = codes "/opt/container-mount-sync"

pub record BindMount : Type 0 where
  pub host_path : Text
  pub container_path : Text
  pub read_only : Bool

pub record ContainerMounts : Type 0 where
  pub container_id : Text
  pub mounts : List BindMount

pub record FileSyncManager : Type 0 where
  pub containers : Map ℕ ContainerMounts
  pub container_mounts : Map Text ContainerMounts

-- The local file system: `filepath.Abs`, and whether `os.Stat` finds a path.
pub record Files : Type 0 where
  pub abs : Text → Option Text
  pub stat : Text → Bool

-- `/host/path:/container/path[:ro]` by its parts.
unfoldable pub bind_parts : List Text → Option BindMount
bind_parts [] = none
bind_parts (host ∷ []) = none
bind_parts (host ∷ container ∷ []) =
    some (record { host_path = host; container_path = container; read_only = false })
bind_parts (host ∷ container ∷ mode ∷ rest) =
    some (record {
      host_path = host;
      container_path = container;
      read_only = text_eq mode (codes "ro");
    })

unfoldable pub existing_mount : Files → BindMount → Option Text → Option BindMount
existing_mount files b none = none
existing_mount files b (some path) =
    if files.stat path
    then some
        (record { host_path = path; container_path = b.container_path; read_only = b.read_only })
    else none

-- The mount that a bind asks for, at its absolute host path, unless the bind is ignored.
unfoldable pub resolve_bind : Files → Text → Option BindMount
resolve_bind files bind = elim (bind_parts (split b':' bind)) [
  | none ↦ none
  | some b ↦ existing_mount files b (files.abs b.host_path)
]

-- For one host path there is at most one mount, read-only until a bind may write.
unfoldable pub add_mount : BindMount → List BindMount → List BindMount
add_mount b [] = b ∷ []
add_mount b (m ∷ mounts) =
    let rest = add_mount b mounts in
    if text_eq m.host_path b.host_path
    then record {
      host_path = m.host_path;
      container_path = m.container_path;
      read_only = if m.read_only && not b.read_only then false else m.read_only;
    }
      ∷ mounts
    else m ∷ rest

unfoldable pub add_resolved : Option BindMount → List BindMount → List BindMount
add_resolved none mounts = mounts
add_resolved (some b) mounts = add_mount b mounts

unfoldable pub add_binds : Files → List Text → List BindMount → List BindMount
add_binds files [] mounts = mounts
add_binds files (bind ∷ binds) mounts =
    add_binds files binds (add_resolved (resolve_bind files bind) mounts)

unfoldable pub bind_mounts : Files → List Text → List BindMount
bind_mounts files binds = add_binds files binds []

unfoldable pub store_bind_mounts_start : Files → ℕ → List Text → FileSyncManager → FileSyncManager
store_bind_mounts_start files req binds m =
    let mounts = bind_mounts files binds in
    if length mounts == 0 then m else record {
      containers = insert req (record { container_id = []; mounts = mounts }) m.containers;
      container_mounts = m.container_mounts;
    }

unfoldable pub named_mounts :
    Text → Option ContainerMounts → Map Text ContainerMounts → Map Text ContainerMounts
named_mounts container_id none held = held
named_mounts container_id (some pending) held =
    if is_empty container_id
    then held
    else insert container_id (record { container_id = container_id; mounts = pending.mounts }) held

unfoldable pub store_bind_mounts_end : ℕ → Text → FileSyncManager → FileSyncManager
store_bind_mounts_end req container_id m = record {
  containers = delete req m.containers;
  container_mounts = named_mounts container_id (lookup req m.containers) m.container_mounts;
}

unfoldable pub store_bind_mounts_for_container :
    Files → Text → List Text → FileSyncManager → FileSyncManager
store_bind_mounts_for_container files container_id binds m =
    let mounts = bind_mounts files binds in
    if length mounts == 0 then m else record {
      containers = m.containers;
      container_mounts =
          insert container_id (record { container_id = container_id; mounts = mounts })
            m.container_mounts;
    }

unfoldable pub get_mounts : ℕ → FileSyncManager → Option ContainerMounts
get_mounts key m = lookup key m.containers

module _ {ℓ} {S : Type ℓ} (mutagen : SessionManager S) where
  unfoldable pub teardown_syncs : Text → FileSyncManager × S → Option (FileSyncManager × S)
  teardown_syncs container_id (m, sessions) = elim (container_selection container_id) [
    | none ↦ none
    | some selected ↦ some (
      record {
        containers = m.containers;
        container_mounts = delete container_id m.container_mounts;
      },
      mutagen.terminate selected sessions,
    )
  ]

  unfoldable pub teardown_all_syncs : FileSyncManager × S → FileSyncManager × S
  teardown_all_syncs (m, sessions) = (
    record { containers = m.containers; container_mounts = [] },
    mutagen.terminate all_sessions sessions,
  )

  unfoldable pub terminate_all_sessions : S → S
  terminate_all_sessions sessions = mutagen.terminate all_sessions sessions
