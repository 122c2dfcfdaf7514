-- ===== src/DockerProxy/Setup/Undone.antt =====
-- pkg/docker-proxy/proxy.go: what is left of a container's sessions once they are taken down.
use remote_docker_agent.Prelude.{
  ◌≤◌, ◌≡◌, refl, ap, sym, subst, ◌∙◌, inl, inr, Bool, Bool-cases, none, some, List, [], ◌++◌,
  append-nil, length, All, if◌then◌else◌, Text, codes, text_eq, eq_text, Map, lookup, delete, ok,
}
use remote_docker_agent.ContainerId.{compress_container_id}
use remote_docker_agent.ContainerId.RoundTrip.{decompress-compress}
use remote_docker_agent.Bridge.Sessions.{
  Session, SessionManager, label_selector, container_ids, list_sessions, container_selection,
}
use remote_docker_agent.Bridge.Sessions.Teardown.{
  IsContainerId, IsLabelled, HonoursSelectors, without, lookup-container_ids,
}
use remote_docker_agent.Bridge.Creation.Added.{HonoursLabels, Adds, without-append}
use remote_docker_agent.Bridge.PortForward.{PortForwardManager, teardown_forwards}
use remote_docker_agent.Bridge.PortForward.Lifecycle.{
  Reachable, Reachable-OwnsChannels, close_forwards-total,
}
use remote_docker_agent.Bridge.PortForward.Created.{setup_forwards-Adds}
use remote_docker_agent.Bridge.FileSync.{FileSyncManager, teardown_syncs}
use remote_docker_agent.Bridge.FileSync.Created.{setup_syncs-added}
use remote_docker_agent.DockerProxy.Remote.{Daemon, is_container_running}
use remote_docker_agent.DockerProxy.Operations.{then_syncs, teardown_both}
use remote_docker_agent.DockerProxy.Setup.{
  Creator, setup_both, then_setup_syncs, setup_sessions_if_running,
}

-- The listed containers are those of `states` without one.
abbrev pub ListsWithout {ℓ} : {S : Type ℓ} → SessionManager S → Text → List Session → S → Type 0
ListsWithout mutagen id states left =
    (found : Map Text Bool) × (list_sessions mutagen left ≡ ok found)
    × ((other : Text)
        → lookup other found
          ≡ (if text_eq id other then none else lookup other (container_ids states)))

terminated-ListsWithout {ℓ} :
    {S : Type ℓ} (mutagen : SessionManager S) (id label : Text) (states : List Session) (after : S)
    → HonoursSelectors mutagen
    → IsContainerId id
    → compress_container_id id ≡ some label
    → All IsLabelled states
    → Adds mutagen label states after
    → ListsWithout mutagen id states
        (mutagen.terminate (label_selector (codes "container-id=" ++ label)) after)
unfolding list_sessions
terminated-ListsWithout mutagen id label states after selects h c labelled a = (
  container_ids (without label (states ++ a.added)),
  rw (selects label after (states ++ a.added) a.listed, list_sessions) refl,
  λ other.
      ap (λ ss. lookup other (container_ids ss)) (without-append label states a.added a.labelled)
      ∙ lookup-container_ids id label other states h c labelled,
)

teardown_syncs-goes {ℓ} :
    {S : Type ℓ} (mutagen : SessionManager S) (id label : Text) (m : FileSyncManager) (sessions : S)
    → compress_container_id id ≡ some label
    → (left : FileSyncManager) × (teardown_syncs mutagen id (m, sessions)
        ≡ some (left, mutagen.terminate (label_selector (codes "container-id=" ++ label)) sessions))
unfolding teardown_syncs container_selection
teardown_syncs-goes mutagen id label m sessions c = (
  record { containers = m.containers; container_mounts = delete id m.container_mounts },
  rw (c, teardown_syncs, container_selection) refl,
)

teardown_forwards-goes {ℓ} :
    {S : Type ℓ} (mutagen : SessionManager S) (id label : Text) (m : PortForwardManager)
    (sessions : S)
    → Reachable m
    → compress_container_id id ≡ some label
    → (left : PortForwardManager) × (teardown_forwards mutagen id (m, sessions)
        ≡ some (left, mutagen.terminate (label_selector (codes "container-id=" ++ label)) sessions))
unfolding teardown_forwards container_selection
teardown_forwards-goes mutagen id label m sessions r c =
    let t = close_forwards-total id m (Reachable-OwnsChannels r) in
    (t.0, rw (t.1, teardown_forwards, c, container_selection) refl)

no-Adds {ℓ} :
    {S : Type ℓ} (mutagen : SessionManager S) (label : Text) (states : List Session) (sessions : S)
    → mutagen.list sessions ≡ ok states
    → Adds mutagen label states sessions
no-Adds mutagen label states sessions l = record {
  added = [];
  listed = l ∙ ap ok (sym (append-nil states));
  labelled = tt;
}

module _ {ℓ κ} {S : Type ℓ} {R : Type κ} {C D : Type 0} (creator : Creator S R C D)
    (daemon : Daemon) (forwarding : SessionManager S) (synchronization : SessionManager R)
    (makes_forwards : HonoursLabels forwarding creator.create_forward)
    (makes_syncs : HonoursLabels synchronization creator.create_sync)
    (selects_forwards : HonoursSelectors forwarding)
    (selects_syncs : HonoursSelectors synchronization) where
  torn_down-ListsWithout :
      (id label : Text) (m : PortForwardManager) (k : FileSyncManager) (s : S) (r : R)
      (states sync_states : List Session)
      → Reachable m
      → IsContainerId id
      → compress_container_id id ≡ some label
      → All IsLabelled states
      → All IsLabelled sync_states
      → Adds forwarding label states s
      → Adds synchronization label sync_states r
      → (down : (PortForwardManager × S) × (FileSyncManager × R)) × (teardown_both forwarding
            synchronization daemon id
            ((m, s), (k, r))
          ≡ some down)
        × ListsWithout forwarding id states down.0.1
        × ListsWithout synchronization id sync_states down.1.1
  unfolding teardown_both then_syncs
  torn_down-ListsWithout id label m k s r states sync_states reached h c l l' a a' =
      let (left, f) = teardown_forwards-goes forwarding id label m s reached c in
      let (sync_left, g) = teardown_syncs-goes synchronization id label k r c in
      (
        (
          (left, forwarding.terminate (label_selector (codes "container-id=" ++ label)) s),
          (
            sync_left,
            synchronization.terminate (label_selector (codes "container-id=" ++ label)) r,
          ),
        ),
        rw (f, teardown_both, then_syncs, g) refl,
        terminated-ListsWithout forwarding id label states s selects_forwards h c l a,
        terminated-ListsWithout synchronization id label sync_states r selects_syncs h c l' a',
      )

  set_up-Adds :
      (id : Text) (m : PortForwardManager) (k : FileSyncManager) (s : S) (r : R)
      (states sync_states : List Session)
      → IsContainerId id
      → 8 ≤ length id
      → forwarding.list s ≡ ok states
      → synchronization.list r ≡ ok sync_states
      → (label : Text) × (s' : S) × (r' : R) × (compress_container_id id ≡ some label)
        × (setup_sessions_if_running creator daemon id ((m, s), (k, r)) ≡ some ((m, s'), (k, r')))
        × Adds forwarding label states s'
        × Adds synchronization label sync_states r'
  unfolding setup_sessions_if_running setup_both then_setup_syncs
  set_up-Adds id m k s r states sync_states h long l l' =
      elim (Bool-cases (is_container_running daemon id)) [
        | inl e ↦
            let (label, ids, s', c, f, n, a) =
              setup_forwards-Adds creator.forward_mutagen creator.of_settings forwarding
                creator.create_forward makes_forwards creator.config id creator.prompter m s states
                h long l in
            let (label', ids', r', c', g, a') =
              setup_syncs-added creator.sync_mutagen creator.modes synchronization
                creator.create_sync makes_syncs creator.config id creator.prompter k r sync_states h
                long l' in
            let same : label' ≡ label = cc in
            (
              label,
              s',
              r',
              c,
              rw (e, setup_sessions_if_running, setup_both, f, then_setup_syncs, g) refl,
              a,
              subst (λ x. Adds synchronization x sync_states r') same a',
            )
        | inr e ↦
            let (label, c, back) = decompress-compress id h.0 h.1 in
            (
              label,
              s,
              r,
              c,
              rw (e, setup_sessions_if_running) refl,
              no-Adds forwarding label states s l,
              no-Adds synchronization label sync_states r l',
            )
      ]

  -- Whether or not a container runs when its sessions are to be set up, taking it down afterwards
  -- succeeds, and both kinds of sessions are then listed for the containers for which they were
  -- listed before the set-up, without this one. The id is a Docker container id of at least eight
  -- digits, the port forwards came about by the manager's operations, and the sessions before carry
  -- packed container ids or no label.
  pub setup_sessions-teardown_both :
      (id : Text) (m : PortForwardManager) (k : FileSyncManager) (s : S) (r : R)
      (states sync_states : List Session)
      → Reachable m
      → IsContainerId id
      → 8 ≤ length id
      → forwarding.list s ≡ ok states
      → synchronization.list r ≡ ok sync_states
      → All IsLabelled states
      → All IsLabelled sync_states
      → (up down : (PortForwardManager × S) × (FileSyncManager × R)) × (setup_sessions_if_running
            creator daemon id
            ((m, s), (k, r))
          ≡ some up)
        × (teardown_both forwarding synchronization daemon id up ≡ some down)
        × ListsWithout forwarding id states down.0.1
        × ListsWithout synchronization id sync_states down.1.1
  setup_sessions-teardown_both id m k s r states sync_states reached h long l l' labelled
        labelled' =
      let (label, s', r', c, e, a, a') = set_up-Adds id m k s r states sync_states h long l l' in
      let (down, g, w, w') =
        torn_down-ListsWithout id label m k s' r' states sync_states reached h c labelled labelled'
          a a' in
      (((m, s'), (k, r')), down, e, g, w, w')
