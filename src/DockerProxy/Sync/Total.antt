-- ===== src/DockerProxy/Sync/Total.antt =====
-- pkg/docker-proxy/proxy.go: synchronizing with the running containers does not panic.
use remote_docker_agent.Prelude.{
  ◌≡◌, ◌≢◌, refl, inl, inr, Bool, true, false, Option, none, some, Option-cases, List, [], ◌∷◌,
  Bool-cases, All, Text, is_empty, eq_text, Map, lookup, insert, Result-cases,
}
use remote_docker_agent.ContainerId.{compress_container_id}
use remote_docker_agent.ContainerId.RoundTrip.{compress-decompress-ne-none}
use remote_docker_agent.Bridge.Sessions.{
  Session, SessionManager, container_id_label, session_container_id, container_ids, list_sessions,
  container_selection,
}
use remote_docker_agent.Bridge.PortForward.{PortForwardManager, teardown_forwards}
use remote_docker_agent.Bridge.PortForward.Lifecycle.{
  Reachable, teardown_forwards-none_iff, teardown_forwards-Reachable,
}
use remote_docker_agent.Bridge.FileSync.{FileSyncManager, teardown_syncs}
use remote_docker_agent.DockerProxy.Remote.{ContainerInfo, Daemon}
use remote_docker_agent.DockerProxy.Operations.{Managers, then_syncs, teardown_both}
use remote_docker_agent.DockerProxy.Sync.{
  ids_or_none, mark_ids, unless_running, stale, unsynced, teardown_each, existing_sessions,
  sync_with_running_containers,
}

-- The ids that can be packed into a label.
abbrev IsPackable : Text → Type 0
IsPackable id = compress_container_id id ≢ none

abbrev ArePackable : Map Text Bool → Type 0
ArePackable m = All (λ entry. IsPackable (entry.0)) m

insert-ArePackable :
    (id : Text) (b : Bool) (m : Map Text Bool)
    → IsPackable id
    → ArePackable m
    → ArePackable (insert id b m)
unfolding insert
insert-ArePackable id b [] p h = (p, tt)
insert-ArePackable id b ((j, c) ∷ m) p h = elim (Bool-cases (eq_text.beq j id)) [
  | inl e ↦ rw (e, insert) (p, h.1)
  | inr e ↦ rw (e, insert) (h.0, insert-ArePackable id b m p h.1)
]

session-IsPackable :
    (s : Session) → is_empty (session_container_id s) ≡ false → IsPackable (session_container_id s)
unfolding session_container_id is_empty
session-IsPackable s h = elim (Option-cases (lookup container_id_label s.labels)) [
  | inl e ↦ let k = rw (e, session_container_id) at h in cc
  | inr (label, e) ↦ rw (e, session_container_id) (compress-decompress-ne-none label)
]

container_ids-ArePackable : (states : List Session) → ArePackable (container_ids states)
unfolding container_ids
container_ids-ArePackable [] = tt
container_ids-ArePackable (s ∷ states) = elim (Bool-cases (is_empty (session_container_id s))) [
  | inl e ↦ rw (e, container_ids) (container_ids-ArePackable states)
  | inr e ↦
      rw (e, container_ids)
        (insert-ArePackable (session_container_id s) true (container_ids states)
          (session-IsPackable s e) (container_ids-ArePackable states))
]

listed-ArePackable {ℓ} :
    {S : Type ℓ} (mutagen : SessionManager S) (s : S)
    → ArePackable (ids_or_none (list_sessions mutagen s))
unfolding ids_or_none list_sessions
listed-ArePackable mutagen s = elim (Result-cases (mutagen.list s)) [
  | inl (states, e) ↦ rw (e, list_sessions) (container_ids-ArePackable states)
  | inr (failure, e) ↦ rw (e, list_sessions) tt
]

mark_ids-ArePackable :
    (ids existing : Map Text Bool)
    → ArePackable ids
    → ArePackable existing
    → ArePackable (mark_ids ids existing)
unfolding mark_ids
mark_ids-ArePackable [] existing h k = k
mark_ids-ArePackable ((id, b) ∷ ids) existing h k =
    mark_ids-ArePackable ids (insert id true existing) h.1
      (insert-ArePackable id true existing h.0 k)

stale-IsPackable :
    (existing : Map Text Bool) (running : Map Text ContainerInfo)
    → ArePackable existing
    → All IsPackable (stale existing running)
unfolding stale unless_running
stale-IsPackable [] running h = tt
stale-IsPackable ((id, b) ∷ existing) running h = elim (Option-cases (lookup id running)) [
  | inl e ↦ rw (e, stale, unless_running) (h.0, stale-IsPackable existing running h.1)
  | inr (info, e) ↦ rw (e, stale, unless_running) (stale-IsPackable existing running h.1)
]

module _ {ℓ κ} {S : Type ℓ} {R : Type κ} (forwarding : SessionManager S)
    (synchronization : SessionManager R) (daemon : Daemon) where
  teardown_syncs-total :
      (id : Text) (fs : FileSyncManager × R)
      → IsPackable id
      → (left : FileSyncManager × R) × (teardown_syncs synchronization id fs ≡ some left)
  unfolding teardown_syncs container_selection
  teardown_syncs-total id (n, r) packable =
      elim (Option-cases (teardown_syncs synchronization id (n, r))) [
        | inl e ↦ elim (Option-cases (compress_container_id id)) [
          | inl c ↦ absurd (packable c)
          | inr (label, c) ↦ let k = rw (c, teardown_syncs, container_selection) at e in absurd cc
        ]
        | inr found ↦ found
      ]

  -- A container whose id can be packed is taken down, and leaves a manager that can go on.
  teardown_both-total :
      (id : Text) (m : PortForwardManager) (s : S) (fs : FileSyncManager × R)
      → Reachable m
      → IsPackable id
      → (left : Managers forwarding synchronization daemon) × (teardown_both forwarding
            synchronization daemon id
            ((m, s), fs)
          ≡ some left)
        × Reachable left.0.0
  unfolding teardown_both then_syncs
  teardown_both-total id m s fs reached packable =
      let t = teardown_forwards-none_iff forwarding id m s reached in
      let u = teardown_syncs-total id fs packable in
      elim (Option-cases (teardown_forwards forwarding id (m, s))) [
        | inl f ↦ absurd (packable (t.0 f))
        | inr ((left, s'), f) ↦ (
          ((left, s'), u.0),
          rw (f, teardown_both, u.1, then_syncs),
          teardown_forwards-Reachable forwarding id m left s s' reached f,
        )
      ]

  teardown_each-total :
      (ids : List Text) (managers : Managers forwarding synchronization daemon)
      → Reachable managers.0.0
      → All IsPackable ids
      → (left : Managers forwarding synchronization daemon) × (teardown_each forwarding
            synchronization daemon ids managers
          ≡ some left)
        × Reachable left.0.0
  unfolding teardown_each
  teardown_each-total [] managers reached h = (managers, refl, reached)
  teardown_each-total (id ∷ ids) ((m, s), fs) reached h =
      let t = teardown_both-total id m s fs reached h.0 in
      let u = teardown_each-total ids t.0 t.2 h.1 in (u.0, (rw (t.1, teardown_each) (u.1)), u.2)

  -- Synchronizing with the running containers never panics, whatever labels the existing sessions
  -- have, when operations led to the port forward manager, and operations lead to the one it leaves.
  pub sync-total :
      (running : Option (Map Text ContainerInfo))
      (managers : Managers forwarding synchronization daemon)
      → Reachable managers.0.0
      → (left : Managers forwarding synchronization daemon × Map Text ContainerInfo)
        × (sync_with_running_containers forwarding synchronization daemon running managers
            ≡ some left)
        × Reachable left.0.0.0
  unfolding sync_with_running_containers existing_sessions
  sync-total none managers reached = ((managers, []), refl, reached)
  sync-total (some running) ((m, s), (n, r)) reached =
      let existing : Map Text Bool =
        existing_sessions forwarding synchronization daemon ((m, s), (n, r)) in
      let packable : ArePackable existing =
        mark_ids-ArePackable (ids_or_none (list_sessions synchronization r))
          (mark_ids (ids_or_none (list_sessions forwarding s)) [])
          (listed-ArePackable synchronization r)
          (mark_ids-ArePackable (ids_or_none (list_sessions forwarding s)) []
            (listed-ArePackable forwarding s) tt) in
      let t =
        teardown_each-total (stale existing running) ((m, s), (n, r)) reached
          (stale-IsPackable existing running packable) in
      ((t.0, unsynced running existing), rw (t.1, sync_with_running_containers), t.2)
