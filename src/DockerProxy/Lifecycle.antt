-- ===== src/DockerProxy/Lifecycle.antt =====
-- pkg/docker-proxy: a container from its creation to its removal.
use remote_docker_agent.Prelude.{
  ℕ, ◌≡◌, ◌≢◌, refl, ap, ◌∙◌, ◌⊎◌, ◌↔◌, inl, inr, true, false, Option, none, some, Option-cases,
  List, [], ◌∷◌, ◌==◌, ==_iff, length, Text, is_empty, text_eq_refl, eq_text, nat_eq, lookup,
  lookup-insert, lookup-delete, arith,
}
use remote_docker_agent.ContainerId.{compress_container_id}
use remote_docker_agent.Bridge.Sessions.{SessionManager, container_selection}
use remote_docker_agent.Bridge.PortForward.{PortForwardManager, teardown_forwards}
use remote_docker_agent.Bridge.PortForward.Lifecycle.{Reachable, teardown_forwards-none_iff}
use remote_docker_agent.Bridge.FileSync.{
  FileSyncManager, ContainerMounts, Files, bind_mounts, add_binds, store_bind_mounts_start,
  store_bind_mounts_end, named_mounts, teardown_syncs,
}
use remote_docker_agent.DockerProxy.Messages.{Response}
use remote_docker_agent.DockerProxy.Remote.{Daemon, is_container_stopped}
use remote_docker_agent.DockerProxy.Create.{
  Codec, HostConfig, handle_config, handle_container_create_request,
  handle_container_create_response, created_container, requested_mounts,
}
use remote_docker_agent.DockerProxy.Operations.{then_syncs, teardown_both, after_wait}

-- The mounts that a container has once its request's mounts are stored under its id.
end-lookup :
    (req : ℕ) (id : Text) (m : FileSyncManager) (pending : ContainerMounts)
    → is_empty id ≡ false
    → lookup req m.containers ≡ some pending
    → (lookup req (store_bind_mounts_end req id m).containers ≡ none)
      × (lookup id (store_bind_mounts_end req id m).container_mounts
          ≡ some (record { container_id = id; mounts = pending.mounts }))
unfolding store_bind_mounts_end named_mounts
end-lookup req id m pending ne e =
    let d = lookup-delete req req m.containers in
    let i =
      lookup-insert id id (record { container_id = id; mounts = pending.mounts })
        m.container_mounts in
    ((ground (arith, ==_iff req req)), rw (e, ne) (ground (arith, text_eq_refl id)))

length-nil : {A : Type 0} (xs : List A) → xs ≢ [] → (length xs == 0) ≡ false
length-nil [] h = absurd (h refl)
length-nil (x ∷ xs) h = ground arith

requested-cases : {A : Type 0} (xs : List A) → (xs ≡ []) ⊎ (xs ≢ [])
requested-cases [] = inl refl
requested-cases (x ∷ xs) = inr λ h. cc

no_binds : (files : Files) → bind_mounts files [] ≡ []
unfolding bind_mounts add_binds
no_binds files = refl

start-lookup :
    (files : Files) (req : ℕ) (binds : List Text) (m : FileSyncManager)
    → bind_mounts files binds ≢ []
    → lookup req (store_bind_mounts_start files req binds m).containers
      ≡ some (record { container_id = []; mounts = bind_mounts files binds })
unfolding store_bind_mounts_start
start-lookup files req binds m h =
    let v : ContainerMounts = record { container_id = []; mounts = bind_mounts files binds } in
    let i = lookup-insert req req v m.containers in
    rw (length-nil (bind_mounts files binds) h, store_bind_mounts_start)
      (ground (arith, ==_iff req req))

module _ {ℓ} {B : Type ℓ} (codec : Codec B) (files : Files) where
  -- The managers once a create request was handled, and then its response.
  abbrev pub answered :
      ℕ
      → Option B
      → Response
      → PortForwardManager
      → FileSyncManager
      → PortForwardManager × FileSyncManager
  answered req body resp forwards syncs =
      let h = handle_container_create_request codec files req body forwards syncs in
      handle_container_create_response req resp (h.forwards, h.syncs)

  handled-syncs :
      (req : ℕ) (body : B) (c : HostConfig) (forwards : PortForwardManager)
      (syncs : FileSyncManager)
      → codec.unmarshal body ≡ some c
      → bind_mounts files (requested_mounts c) ≢ []
      → (handle_container_create_request codec files req (some body) forwards syncs).syncs
        ≡ store_bind_mounts_start files req (requested_mounts c) syncs
  unfolding handle_container_create_request handle_config
  handled-syncs req body c forwards syncs e some_mount =
      elim (requested-cases (requested_mounts c)) [
        | inl n ↦ absurd (some_mount (ap (bind_mounts files) n ∙ no_binds files))
        | inr n ↦ rw (e, handle_config, length-nil (requested_mounts c) n)
      ]

  -- When a create request asks for mounts, of which at least one exists on the host, and the
  -- response names the new container, then the container has those mounts, and none are kept for
  -- the request.
  pub create-container_mounts :
      (req : ℕ) (body : B) (c : HostConfig) (resp : Response) (forwards : PortForwardManager)
      (syncs : FileSyncManager)
      → codec.unmarshal body ≡ some c
      → bind_mounts files (requested_mounts c) ≢ []
      → is_empty (created_container resp) ≡ false
      → (lookup req (answered req (some body) resp forwards syncs).1.containers ≡ none)
        × (lookup
              (created_container resp)
              (answered req (some body) resp forwards syncs).1.container_mounts
            ≡ some (record {
              container_id = created_container resp;
              mounts = bind_mounts files (requested_mounts c);
            }))
  unfolding handle_container_create_response
  create-container_mounts req body c resp forwards syncs e some_mount created =
      rw (handled-syncs req body c forwards syncs e some_mount) (
        end-lookup req (created_container resp)
          (store_bind_mounts_start files req (requested_mounts c) syncs)
          (record { container_id = []; mounts = bind_mounts files (requested_mounts c) }) created
          (start-lookup files req (requested_mounts c) syncs some_mount))

module _ {ℓ κ} {S : Type ℓ} {R : Type κ} (forwarding : SessionManager S)
    (synchronization : SessionManager R) (daemon : Daemon) where
  -- Taking the synchronizations down panics only on an id that cannot be packed.
  syncs-none :
      (id : Text) (syncs : FileSyncManager × R) (f : PortForwardManager × S)
      → then_syncs forwarding synchronization daemon id syncs (some f) ≡ none
      → compress_container_id id ≡ none
  unfolding then_syncs teardown_syncs container_selection
  syncs-none id (m, r) f h = elim (Option-cases (compress_container_id id)) [
    | inl n ↦ n
    | inr (label, n) ↦ let k = rw (n, then_syncs, teardown_syncs, container_selection) at h in cc
  ]

  -- When the connection of a wait request closes and the container has stopped, taking it down
  -- panics exactly when its id cannot be packed into a label.
  pub after_wait-none_iff :
      (id : Text) (m : PortForwardManager) (s : S) (syncs : FileSyncManager) (r : R)
      → Reachable m
      → is_container_stopped daemon id ≡ true
      → (after_wait forwarding synchronization daemon id ((m, s), (syncs, r)) ≡ none)
        ↔ (compress_container_id id ≡ none)
  unfolding after_wait teardown_both then_syncs
  after_wait-none_iff id m s syncs r reached stopped =
      let t = teardown_forwards-none_iff forwarding id m s reached in
      elim (Option-cases (teardown_forwards forwarding id (m, s))) [
        | inl n ↦ (λ h. t.0 n, λ h. rw (stopped, after_wait, n, teardown_both))
        | inr (f, n) ↦ (
          λ h.
              let k = rw (stopped, after_wait, n, teardown_both) at h in
              syncs-none id (syncs, r) f k,
          λ h. let k = t.1 h in cc,
        )
      ]
