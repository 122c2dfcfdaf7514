-- ===== src/DockerProxy/Setup.antt =====
-- pkg/docker-proxy/proxy.go: the set-up of a container's sessions by both managers, and the running of
-- the tasks. Mutagen's two session managers and their `Create` are parameters.
pub mod Undone
use remote_docker_agent.Prelude.{
  ℕ, Option, none, some, List, [], ◌∷◌, if◌then◌else◌, Text, Map, Result,
}
use remote_docker_agent.Bridge.Sessions.{SessionManager}
use remote_docker_agent.Bridge.Creation.{TransportConfig, Mutagen, Specification}
use remote_docker_agent.Bridge.PortForward.{PortForwardManager}
use remote_docker_agent.Bridge.PortForward.Setup.{ForwardSettings, setup_forwards}
use remote_docker_agent.Bridge.FileSync.{FileSyncManager, Files}
use remote_docker_agent.Bridge.FileSync.Settings.{SyncModes}
use remote_docker_agent.Bridge.FileSync.Setup.{setup_syncs}
use remote_docker_agent.DockerProxy.Remote.{ContainerInfo, Daemon, is_container_running}
use remote_docker_agent.DockerProxy.Operations.{
  Task, setup_sessions, teardown, teardown_for_container,
}
use remote_docker_agent.DockerProxy.Sync.{store_container_bindings}

-- What creates the sessions of both kinds, for the proxy's configuration.
pub record Creator {ℓ κ} (S : Type ℓ) (R : Type κ) (C D : Type 0) : Type (ℓ ⊔ κ) where
  pub config : TransportConfig
  pub prompter : Text
  pub forward_mutagen : Mutagen C
  pub of_settings : ForwardSettings → C
  pub create_forward : Specification C → S → Result Text Text × S
  pub sync_mutagen : Mutagen D
  pub modes : SyncModes D
  pub create_sync : Specification D → R → Result Text Text × R

module _ {ℓ κ} {S : Type ℓ} {R : Type κ} {C D : Type 0} (creator : Creator S R C D) where
  unfoldable pub then_setup_syncs :
      Text
      → PortForwardManager
      → FileSyncManager × R
      → Option (List Text × S)
      → Option ((PortForwardManager × S) × (FileSyncManager × R))
  then_setup_syncs id m syncs none = none
  then_setup_syncs id m syncs (some (ids, sessions)) =
      elim (setup_syncs creator.sync_mutagen creator.modes creator.create_sync creator.config id
        creator.prompter syncs) [
          | none ↦ none
          | some (sync_ids, sync_sessions) ↦ some ((m, sessions), (syncs.0, sync_sessions))
        ]

  -- `SetupForwards`, then `SetupSyncs`.
  unfoldable pub setup_both :
      Text
      → (PortForwardManager × S) × (FileSyncManager × R)
      → Option ((PortForwardManager × S) × (FileSyncManager × R))
  setup_both id (forwards, syncs) = then_setup_syncs id forwards.0 syncs (
      setup_forwards creator.forward_mutagen creator.of_settings creator.create_forward
        creator.config id creator.prompter forwards)

  unfoldable pub setup_sessions_if_running :
      Daemon
      → Text
      → (PortForwardManager × S) × (FileSyncManager × R)
      → Option ((PortForwardManager × S) × (FileSyncManager × R))
  setup_sessions_if_running daemon id managers =
      if is_container_running daemon id then setup_both id managers else some managers

  unfoldable pub store_container_bindings_and_setup_sessions :
      Files
      → Text
      → ContainerInfo
      → (PortForwardManager × S) × (FileSyncManager × R)
      → Option ((PortForwardManager × S) × (FileSyncManager × R))
  store_container_bindings_and_setup_sessions files id info ((m, sessions), (k, sync_sessions)) =
      let stored = store_container_bindings files id info (m, k) in
      setup_both id ((stored.0, sessions), (stored.1, sync_sessions))

  -- The body of a goroutine that the proxy started.
  unfoldable pub run_task :
      SessionManager S
      → SessionManager R
      → Daemon
      → Task
      → (PortForwardManager × S) × (FileSyncManager × R)
      → Option ((PortForwardManager × S) × (FileSyncManager × R))
  run_task forwarding synchronization daemon (setup_sessions id) managers =
      setup_sessions_if_running daemon id managers
  run_task forwarding synchronization daemon (teardown id version) managers =
      teardown_for_container forwarding synchronization daemon id version managers
