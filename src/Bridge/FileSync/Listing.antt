-- ===== src/Bridge/FileSync/Listing.antt =====
-- pkg/docker-proxy/mutagen-bridge/file-sync.go: what `ListSessions` says after `TeardownSyncs`.
use remote_docker_agent.Prelude.{
  ◌≡◌, refl, Bool, none, some, List, ◌++◌, codes, if◌then◌else◌, All, Text, text_eq, eq_text, Map,
  lookup, delete, ok,
}
use remote_docker_agent.ContainerId.RoundTrip.{decompress-compress}
use remote_docker_agent.Bridge.Sessions.{
  Session, label_selector, SessionManager, container_ids, list_sessions, container_selection,
}
use remote_docker_agent.Bridge.Sessions.Teardown.{
  IsContainerId, IsLabelled, HonoursSelectors, without, lookup-container_ids,
}
use remote_docker_agent.Bridge.FileSync.{FileSyncManager, teardown_syncs}

module _ {ℓ} {S : Type ℓ} (mutagen : SessionManager S) (selects : HonoursSelectors mutagen) where
  -- Taking down the synchronizations of a Docker container id succeeds, forgets its mounts, and
  -- afterwards the listed sessions are those listed before, without that container's, provided
  -- that all sessions carry packed container ids or no label.
  pub teardown_syncs-list_sessions :
      (container_id : Text) (m : FileSyncManager) (sessions : S) (states : List Session)
      → IsContainerId container_id
      → mutagen.list sessions ≡ ok states
      → All IsLabelled states
      → (left : FileSyncManager × S) × (found : Map Text Bool) × (teardown_syncs mutagen
            container_id
            (m, sessions)
          ≡ some left)
        × (left.0.container_mounts ≡ delete container_id m.container_mounts)
        × (list_sessions mutagen left.1 ≡ ok found)
        × ((other : Text)
            → lookup other found
              ≡ (if text_eq container_id other then none else lookup other (container_ids states)))
  unfolding teardown_syncs container_selection list_sessions
  teardown_syncs-list_sessions container_id m sessions states h e labelled =
      let (label, c, back) = decompress-compress container_id h.0 h.1 in
      (
        (
          record {
            containers = m.containers;
            container_mounts = delete container_id m.container_mounts;
          },
          mutagen.terminate (label_selector (codes "container-id=" ++ label)) sessions,
        ),
        container_ids (without label states),
        rw (c, teardown_syncs, container_selection),
        refl,
        rw (selects label sessions states e, list_sessions),
        λ other. lookup-container_ids container_id label other states h c labelled,
      )
