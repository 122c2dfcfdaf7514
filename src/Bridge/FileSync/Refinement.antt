-- ===== src/Bridge/FileSync/Refinement.antt =====
-- pkg/docker-proxy/mutagen-bridge/file-sync.go: the manager as a store of mounts.
use remote_docker_agent.Prelude.{
  ℕ, refl, subst, inl, inr, Bool-cases, Option, none, some, Option-cases, List, ◌==◌, length, Text,
  is_empty, eq_text, nat_eq, Map, lookup,
}
use remote_docker_agent.ContainerId.{compress_container_id}
use remote_docker_agent.Bridge.Sessions.{SessionManager, container_selection}
use remote_docker_agent.Bridge.Store.{
  Store, Operation, begin_request, end_request, store_container, teardown, teardown_all, is_packed,
  named_live, viewed, Shows, insert-Shows, delete-Shows, store_step, run, Agree, both_stop, both_go,
  run-Agree,
}
use remote_docker_agent.Bridge.FileSync.{
  BindMount, ContainerMounts, FileSyncManager, Files, bind_mounts, store_bind_mounts_start,
  named_mounts, store_bind_mounts_end, store_bind_mounts_for_container, teardown_syncs,
  teardown_all_syncs,
}

-- The manager's maps hold the store's mounts.
pub record HoldsMounts (m : FileSyncManager) (s : Store BindMount) : Type 0 where
  pub pending : Shows ContainerMounts.mounts m.containers s.pending
  pub live : Shows ContainerMounts.mounts m.container_mounts s.live

start-HoldsMounts :
    (files : Files) (req : ℕ) (binds : List Text) (m : FileSyncManager) (s : Store BindMount)
    → HoldsMounts m s
    → Agree HoldsMounts
        (some (store_bind_mounts_start files req binds m))
        (store_step (bind_mounts files) (begin_request req binds) s)
unfolding store_bind_mounts_start
start-HoldsMounts files req binds m s h =
    elim (Bool-cases (length (bind_mounts files binds) == 0)) [
      | inl e ↦ rw e (both_go h)
      | inr e ↦ rw e (
          both_go (record {
            pending = insert-Shows _ req _ m.containers s.pending h.pending;
            live = h.live;
          }))
    ]

stored-HoldsMounts :
    (files : Files) (id : Text) (binds : List Text) (m : FileSyncManager) (s : Store BindMount)
    → HoldsMounts m s
    → Agree HoldsMounts
        (some (store_bind_mounts_for_container files id binds m))
        (store_step (bind_mounts files) (store_container id binds) s)
unfolding store_bind_mounts_for_container
stored-HoldsMounts files id binds m s h =
    elim (Bool-cases (length (bind_mounts files binds) == 0)) [
      | inl e ↦ rw e (both_go h)
      | inr e ↦ rw e (
          both_go (record {
            pending = h.pending;
            live = insert-Shows _ id _ m.container_mounts s.live h.live;
          }))
    ]

named-Shows :
    (files : Files) (id : Text) (pending : Option ContainerMounts) (held : Map Text ContainerMounts)
    (live : Text → Option (List BindMount))
    → Shows ContainerMounts.mounts held live
    → Shows ContainerMounts.mounts
        (named_mounts id pending held)
        (named_live (bind_mounts files) id (viewed ContainerMounts.mounts pending) live)
unfolding named_mounts
named-Shows files id none held live h = h
named-Shows files id (some p) held live h = elim (Bool-cases (is_empty id)) [
  | inl e ↦ rw e h
  | inr e ↦ rw e (insert-Shows _ id _ held live h)
]

ended-HoldsMounts :
    (files : Files) (req : ℕ) (id : Text) (m : FileSyncManager) (s : Store BindMount)
    → HoldsMounts m s
    → Agree HoldsMounts
        (some (store_bind_mounts_end req id m))
        (store_step (bind_mounts files) (end_request req id) s)
unfolding store_bind_mounts_end
ended-HoldsMounts files req id m s h = both_go (record {
  pending = delete-Shows _ req m.containers s.pending h.pending;
  live =
      subst
        (λ p.
          Shows ContainerMounts.mounts
            (named_mounts id (lookup req m.containers) m.container_mounts)
            (named_live (bind_mounts files) id p s.live))
        (h.pending req)
        (named-Shows files id (lookup req m.containers) m.container_mounts s.live h.live);
})

module _ {ℓ} {S : Type ℓ} (mutagen : SessionManager S) (files : Files) where
  -- One operation of the manager.
  unfoldable pub sync_step :
      Operation (List Text) → FileSyncManager × S → Option (FileSyncManager × S)
  sync_step (begin_request req binds) (m, sessions) =
      some (store_bind_mounts_start files req binds m, sessions)
  sync_step (end_request req id) (m, sessions) = some (store_bind_mounts_end req id m, sessions)
  sync_step (store_container id binds) (m, sessions) =
      some (store_bind_mounts_for_container files id binds m, sessions)
  sync_step (teardown id) (m, sessions) = teardown_syncs mutagen id (m, sessions)
  sync_step teardown_all (m, sessions) = some (teardown_all_syncs mutagen (m, sessions))

  abbrev pub Holds : FileSyncManager × S → Store BindMount → Type 0
  Holds (m, sessions) s = HoldsMounts m s

  with_sessions :
      (m : FileSyncManager) (sessions : S) {n : Option (Store BindMount)}
      → Agree HoldsMounts (some m) n
      → Agree Holds (some (m, sessions)) n
  with_sessions m sessions (both_go h) = both_go h

  teardown-Holds :
      (id : Text) (m : FileSyncManager) (sessions : S) (s : Store BindMount)
      → HoldsMounts m s
      → Agree Holds
          (teardown_syncs mutagen id (m, sessions))
          (store_step (bind_mounts files) (teardown id) s)
  unfolding teardown_syncs container_selection is_packed
  teardown-Holds id m sessions s h = elim (Option-cases (compress_container_id id)) [
    | inl e ↦ rw (e, teardown_syncs, container_selection) both_stop
    | inr (label, e) ↦
        rw (e, teardown_syncs, container_selection)
          (both_go (record {
            pending = h.pending;
            live = delete-Shows _ id m.container_mounts s.live h.live;
          }))
  ]

  step-Holds :
      (op : Operation (List Text)) (m : FileSyncManager × S) (s : Store BindMount)
      → Holds m s
      → Agree Holds (sync_step op m) (store_step (bind_mounts files) op s)
  unfolding sync_step teardown_all_syncs lookup
  step-Holds (begin_request req binds) (m, sessions) s h =
      with_sessions _ sessions (start-HoldsMounts files req binds m s h)
  step-Holds (end_request req id) (m, sessions) s h =
      with_sessions _ sessions (ended-HoldsMounts files req id m s h)
  step-Holds (store_container id binds) (m, sessions) s h =
      with_sessions _ sessions (stored-HoldsMounts files id binds m s h)
  step-Holds (teardown id) (m, sessions) s h = teardown-Holds id m sessions s h
  step-Holds teardown_all (m, sessions) s h =
      both_go (record { pending = h.pending; live = λ id. refl })

  -- Whatever sequence of operations is run, the manager of file synchronizations does what a store
  -- does that has, for each request under way and for each container, the mounts of its binds: both
  -- stop, at an id that cannot be packed, or the manager holds the store's mounts in the end.
  pub sync_steps-Holds :
      (operations : List (Operation (List Text))) (m : FileSyncManager) (sessions : S)
      (s : Store BindMount)
      → HoldsMounts m s
      → Agree Holds
          (run sync_step operations (m, sessions))
          (run (store_step (bind_mounts files)) operations s)
  sync_steps-Holds operations m sessions s h =
      run-Agree Holds sync_step (store_step (bind_mounts files)) step-Holds operations (m, sessions)
        s h
