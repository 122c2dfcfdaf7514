-- ===== src/DockerProxy/Connection/Stored.antt =====
-- pkg/docker-proxy/proxy-api-create.go: what a create request stores until its response.
use remote_docker_agent.Prelude.{
  ℕ, ◌==◌, ◌≡◌, refl, ◌∙◌, lookup, lookup-insert, lookup-delete, nat_eq, inl, inr, false,
  Bool-cases, Option, none, some, List, length, Text,
}
use remote_docker_agent.Bridge.FileSync.{
  Files, FileSyncManager, bind_mounts, store_bind_mounts_start, store_bind_mounts_end,
}
use remote_docker_agent.Bridge.PortForward.{
  PortForwardManager, port_bindings, store_port_bindings_start, store_port_bindings_end,
}
use remote_docker_agent.DockerProxy.Messages.{Response}
use remote_docker_agent.DockerProxy.Create.{
  Codec, HostConfig, port_bindings_set, requested_mounts, store_forwards, handle_config,
  handle_container_create_request, handle_container_create_response,
}

-- Neither manager keeps anything for the request.
abbrev pub NotStored : ℕ → PortForwardManager → FileSyncManager → Type 0
NotStored n m k = (lookup n m.containers ≡ none) × (lookup n k.containers ≡ none)

start-other :
    (n req : ℕ) (ports : List (Text × List Text)) (m : PortForwardManager)
    → (req == n) ≡ false
    → lookup n (store_port_bindings_start req ports m).containers ≡ lookup n m.containers
unfolding store_port_bindings_start
start-other n req ports m h = elim (Bool-cases (length (port_bindings m.made ports) == 0)) [
  | inl e ↦ rw (e, store_port_bindings_start) refl
  | inr e ↦ rw (e, store_port_bindings_start) (lookup-insert req n _ m.containers ∙ rw h refl)
]

mounts_start-other :
    (files : Files) (n req : ℕ) (binds : List Text) (k : FileSyncManager)
    → (req == n) ≡ false
    → lookup n (store_bind_mounts_start files req binds k).containers ≡ lookup n k.containers
unfolding store_bind_mounts_start
mounts_start-other files n req binds k h =
    elim (Bool-cases (length (bind_mounts files binds) == 0)) [
      | inl e ↦ rw (e, store_bind_mounts_start) refl
      | inr e ↦ rw (e, store_bind_mounts_start) (lookup-insert req n _ k.containers ∙ rw h refl)
    ]

-- A create response takes what its own request has stored, and nothing of another request.
pub response-NotStored :
    (n req : ℕ) (resp : Response) (m : PortForwardManager) (k : FileSyncManager)
    → ((req == n) ≡ false → NotStored n m k)
    → NotStored n
        (handle_container_create_response req resp (m, k)).0
        (handle_container_create_response req resp (m, k)).1
unfolding handle_container_create_response store_port_bindings_end store_bind_mounts_end
response-NotStored n req resp m k h =
    let d = lookup-delete req n m.containers in
    let e = lookup-delete req n k.containers in
    elim (Bool-cases (req == n)) [
      | inl q ↦ (d ∙ rw q refl, e ∙ rw q refl)
      | inr q ↦ (d ∙ rw q (h q).0, e ∙ rw q (h q).1)
    ]

module _ {ν} {B : Type ν} (codec : Codec B) (files : Files) where
  store_forwards-other :
      (n req : ℕ) (bindings : List (Text × List Text)) (m : PortForwardManager)
      → (req == n) ≡ false
      → lookup n (store_forwards codec files req bindings m).containers ≡ lookup n m.containers
  unfolding store_forwards
  store_forwards-other n req bindings m h = elim (Bool-cases (length bindings == 0)) [
    | inl e ↦ rw (e, store_forwards) refl
    | inr e ↦ rw (e, store_forwards) (start-other n req bindings m h)
  ]

  handle_config-NotStored :
      (n req : ℕ) (body : B) (m : PortForwardManager) (k : FileSyncManager) (c : Option HostConfig)
      → (req == n) ≡ false
      → NotStored n m k
      → NotStored n
          (handle_config codec files req body m k c).forwards
          (handle_config codec files req body m k c).syncs
  unfolding handle_config
  handle_config-NotStored n req body m k none h s = s
  handle_config-NotStored n req body m k (some c) h s =
      let stored = store_forwards-other n req (port_bindings_set c.port_bindings) m h ∙ s.0 in
      elim (Bool-cases (length (requested_mounts c) == 0)) [
        | inl e ↦ rw (e, handle_config) (stored, s.1)
        | inr e ↦
            rw (e, handle_config)
              (stored, mounts_start-other files n req (requested_mounts c) k h ∙ s.1)
      ]

  pub request-NotStored :
      (n req : ℕ) (body : Option B) (m : PortForwardManager) (k : FileSyncManager)
      → (req == n) ≡ false
      → NotStored n m k
      → NotStored n
          (handle_container_create_request codec files req body m k).forwards
          (handle_container_create_request codec files req body m k).syncs
  unfolding handle_container_create_request
  request-NotStored n req none m k h s = s
  request-NotStored n req (some body) m k h s =
      handle_config-NotStored n req body m k (codec.unmarshal body) h s
