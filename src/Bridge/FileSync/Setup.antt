-- ===== src/Bridge/FileSync/Setup.antt =====
-- pkg/docker-proxy/mutagen-bridge/file-sync.go: creating a container's synchronization sessions.
use remote_docker_agent.Prelude.{
  Option, none, some, List, [], ◌++◌, Text, eq_text, lookup, Result, ok, ◌>>=◌, ◌>>◌, guard,
}
use remote_docker_agent.ContainerId.{compress_container_id}
use remote_docker_agent.Tunnel.{synchronization}
use remote_docker_agent.Bridge.FileSync.{
  BindMount, ContainerMounts, FileSyncManager, sync_base_path,
}
use remote_docker_agent.Bridge.Creation.{
  TransportConfig, SetupError, bad_destination, bad_source, bad_name, Failure, fails, Mutagen,
  Specification, short_id, compressed_or_panic, or_bad_url, remote_url, add_labels, setup_single,
  setup_each,
}
use remote_docker_agent.Bridge.FileSync.Settings.{
  SyncModes, create_configuration, sync_configurations,
}

unfoldable pub mounts_at : Option ContainerMounts → List BindMount
mounts_at none = []
mounts_at (some held) = held.mounts

module _ {C : Type 0} (mutagen : Mutagen C) (modes : SyncModes C) where
  -- What setupSingleSync gives to `Create`.
  unfoldable pub sync_specification :
      TransportConfig → Text → BindMount → Text → Result Failure (Specification C)
  sync_specification config container_id mount prompter = do
    short ← short_id container_id
    label ← compressed_or_panic (compress_container_id container_id)
    let c = create_configuration short label mount.host_path
    alpha ← or_bad_url bad_source (mutagen.parsers.parse_mutagen mount.host_path synchronization)
    beta ← or_bad_url bad_destination (
        remote_url mutagen config synchronization (sync_base_path ++ mount.host_path)
          (sync_base_path ++ mount.host_path))
    guard (mutagen.is_name c.name) (fails bad_name)
    labels ← add_labels mutagen [] c.labels
    configurations ← sync_configurations mutagen modes c
    ok (record {
      alpha = alpha;
      beta = beta;
      configurations = configurations;
      name = c.name;
      labels = labels;
      paused = c.paused;
      prompter = prompter;
    })

  module _ {ℓ} {S : Type ℓ} (create : Specification C → S → Result Text Text × S) where
    unfoldable pub setup_single_sync :
        TransportConfig → Text → BindMount → Text → S → Option (Result SetupError Text × S)
    setup_single_sync config container_id mount prompter sessions =
        setup_single create (sync_specification config container_id mount prompter) sessions

    -- A container without mounts needs no sessions.
    unfoldable pub setup_syncs :
        TransportConfig → Text → Text → FileSyncManager × S → Option (List Text × S)
    setup_syncs config container_id prompter (m, sessions) =
        setup_each (λ mount. setup_single_sync config container_id mount prompter)
          (mounts_at (lookup container_id m.container_mounts)) sessions
