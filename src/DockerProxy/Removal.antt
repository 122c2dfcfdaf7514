-- ===== src/DockerProxy/Removal.antt =====
-- pkg/docker-proxy: the removal of a container, from the request to the sessions' end.
use remote_docker_agent.Prelude.{
  ◌≡◌, ap, inl, inr, false, none, some, Bool-cases, Text, codes, text_eq, text_eq_iff, eq_text,
  nat_eq, lookup,
}
use remote_docker_agent.Bridge.Sessions.{Selection, SessionManager, container_selection}
use remote_docker_agent.Bridge.PortForward.{PortForwardManager}
use remote_docker_agent.Bridge.PortForward.Lifecycle.{TornDown}
use remote_docker_agent.Bridge.FileSync.{FileSyncManager}
use remote_docker_agent.DockerProxy.Messages.{Request, Response}
use remote_docker_agent.DockerProxy.Operations.{
  Proxy, removes, is_post, is_delete, handle_container_operation_response, after_create,
  after_start, after_stop, posted, when_removed, then_removed,
}

delete_not_post : (method : Text) → method ≡ codes "DELETE" → text_eq method (codes "POST") ≡ false
unfolding text_eq
delete_not_post method h = ap (λ m. text_eq m (codes "POST")) h

pub removes-is_post : (req : Request) {id : Text} → removes req ≡ some id → is_post req ≡ false
unfolding removes is_post is_delete
removes-is_post req h = elim (Bool-cases (text_eq req.method (codes "DELETE"))) [
  | inl d ↦ delete_not_post req.method ((text_eq_iff req.method (codes "DELETE")).0 d)
  | inr d ↦ let k = rw (d, removes, is_delete) at h in cc
]

-- The response to a request that is no POST only takes containers down.
pub response-not_post :
    (req : Request) (resp : Response) (p : Proxy)
    → is_post req ≡ false
    → handle_container_operation_response req resp p ≡ when_removed req resp (removes req) p
unfolding handle_container_operation_response after_create posted after_start after_stop
    then_removed
response-not_post req resp p h = rw (h, handle_container_operation_response, after_create, posted)

-- What taking a container down leaves of both managers and of Mutagen's sessions.
pub record IsTakenDown {ℓ κ} {S : Type ℓ} {R : Type κ} (forwarding : SessionManager S)
    (synchronization : SessionManager R) (id : Text)
    (before after : (PortForwardManager × S) × (FileSyncManager × R)) : Type (ℓ ⊔ κ) where
  pub selected : Selection
  pub selects : container_selection id ≡ some selected
  pub forwards : TornDown id before.0.0 after.0.0
  pub mounts : lookup id after.1.0.container_mounts ≡ none
  pub forward_sessions : after.0.1 ≡ forwarding.terminate selected before.0.1
  pub sync_sessions : after.1.1 ≡ synchronization.terminate selected before.1.1
