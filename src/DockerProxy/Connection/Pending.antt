-- ===== src/DockerProxy/Connection/Pending.antt =====
-- pkg/docker-proxy/proxy.go: what the proxy keeps under a request, from the request to its response.
use remote_docker_agent.Prelude.{
  ℕ, ◌==◌, ◌≡◌, refl, ap, sym, ◌∙◌, lookup, lookup-insert, lookup-delete, nat_eq, subst, inl, inr,
  false, Bool-cases, ◌&&◌, Option, none, some, Option-cases, Text, is_empty, Map,
}
use remote_docker_agent.Bridge.FileSync.{Files, FileSyncManager}
use remote_docker_agent.Bridge.PortForward.{PortForwardManager}
use remote_docker_agent.DockerProxy.Messages.{
  Request, Response, is_full_container_id, is_container_create,
}
use remote_docker_agent.DockerProxy.Remote.{Daemon}
use remote_docker_agent.DockerProxy.Create.{Codec}
use remote_docker_agent.DockerProxy.Operations.{
  Proxy, is_post, cache_id, resolve_id, handle_container_operation, with_task, after_create,
  after_start, after_stop, teardown_with, after_remove, forget_cached, forget_option, when_removed,
  removes, then_removed, is_success, handle_container_operation_response,
}
use remote_docker_agent.DockerProxy.Removal.{removes-is_post, response-not_post}
use remote_docker_agent.DockerProxy.Connection.Stored.{
  NotStored, response-NotStored, request-NotStored,
}

-- Neither manager keeps anything for the request, and its container's id is not kept.
abbrev pub NotPending : ℕ → Proxy → Type 0
NotPending n p = NotStored n p.forwards p.syncs × (lookup n p.container_id_cache ≡ none)

-- What the handlers that only start goroutines keep: any property of the proxy's maps.
module _ (Q : PortForwardManager → FileSyncManager → Map ℕ Text → Type 0) where
  abbrev Holds : Proxy → Type 0
  Holds p = Q p.forwards p.syncs p.container_id_cache

  abbrev IfLeft : Option Proxy → Type 0
  IfLeft none = Unit
  IfLeft (some p) = Holds p

  after_start-Holds : (id : Option Text) (p : Proxy) → Holds p → Holds (after_start id p)
  unfolding after_start with_task
  after_start-Holds none p h = h
  after_start-Holds (some id) p h = h

  teardown_with-IfLeft :
      (id : Text) (version : Option Text) (p : Proxy)
      → Holds p
      → IfLeft (teardown_with id version p)
  unfolding teardown_with with_task
  teardown_with-IfLeft id none p h = tt
  teardown_with-IfLeft id (some version) p h = h

  after_stop-IfLeft :
      (id version : Option Text) (p : Proxy) → Holds p → IfLeft (after_stop id version p)
  unfolding after_stop
  after_stop-IfLeft none version p h = h
  after_stop-IfLeft (some id) version p h = teardown_with-IfLeft id version p h

  after_remove-IfLeft :
      (cached : Option Text) (id : Text) (version : Option Text) (p : Proxy)
      → Holds p
      → IfLeft (after_remove cached id version p)
  unfolding after_remove with_task
  after_remove-IfLeft (some cached) id version p h = h
  after_remove-IfLeft none id version p h = elim (Bool-cases (is_full_container_id id)) [
    | inl e ↦ rw (e, after_remove) (teardown_with-IfLeft id version p h)
    | inr e ↦ rw (e, after_remove) h
  ]

-- Nothing is left under a number, except for an id that its own request has resolved.
abbrev OnlyId : ℕ → ℕ → PortForwardManager → FileSyncManager → Map ℕ Text → Type 0
OnlyId n req m k cache = NotStored n m k × ((req == n) ≡ false → lookup n cache ≡ none)

abbrev pub Settled : ℕ → Option Proxy → Type 0
Settled n none = Unit
Settled n (some p) = NotPending n p

forget-Settled :
    (n req : ℕ) (o : Option Proxy) → IfLeft (OnlyId n req) o → Settled n (forget_option req o)
unfolding forget_option forget_cached
forget-Settled n req none h = tt
forget-Settled n req (some p) (stored, id) =
    let d = lookup-delete req n p.container_id_cache in
    (stored, elim (Bool-cases (req == n)) [ inl q ↦ d ∙ rw q refl | inr q ↦ d ∙ rw q (id q) ])

when_removed-Settled :
    (n : ℕ) (req : Request) (resp : Response) (id : Text) (p : Proxy)
    → OnlyId n req.number p.forwards p.syncs p.container_id_cache
    → Settled n (when_removed req resp (some id) p)
unfolding when_removed
when_removed-Settled n req resp id p h =
    forget-Settled n req.number _ (elim (Bool-cases (is_success resp)) [
      | inl e ↦ rw e (
          after_remove-IfLeft (OnlyId n req.number) (lookup req.number p.container_id_cache) id
            resp.api_version p h)
      | inr e ↦ rw e h
    ])

then_removed-Settled :
    (n : ℕ) (req : Request) (resp : Response) (o : Option Proxy)
    → removes req ≡ none
    → Settled n o
    → Settled n (then_removed req resp o)
unfolding then_removed when_removed
then_removed-Settled n req resp none e h = tt
then_removed-Settled n req resp (some p) e h = rw (e, when_removed) h

-- A response to a request that removes nothing, once what a create request stored is taken.
unremoved-Settled :
    (n : ℕ) (req : Request) (resp : Response) (p : Proxy)
    → removes req ≡ none
    → NotPending n (after_create req resp p)
    → Settled n (handle_container_operation_response req resp p)
unfolding handle_container_operation_response
unremoved-Settled n req resp p e h =
    let Q = λ (m : PortForwardManager) (k : FileSyncManager) (cache : Map ℕ Text).
      NotStored n m k × (lookup n cache ≡ none) in
    then_removed-Settled n req resp _ e (after_stop-IfLeft Q _ _ _ (after_start-Holds Q _ _ h))

module _ {ν} {B : Type ν} (codec : Codec B) (files : Files) (daemon : Daemon) where
  cache_id-other :
      (n : ℕ) (req : Request) (id : Option Text) (cache : Map ℕ Text)
      → (req.number == n) ≡ false
      → lookup n cache ≡ none
      → lookup n (cache_id daemon req id cache) ≡ none
  unfolding cache_id
  cache_id-other n req none cache h e = e
  cache_id-other n req (some id) cache h e =
      elim (Bool-cases (is_empty (resolve_id daemon req.path id))) [
        | inl q ↦ rw (q, cache_id) e
        | inr q ↦
            rw (q, cache_id)
              (lookup-insert req.number n (resolve_id daemon req.path id) cache ∙ rw h e)
      ]

  removal-Settled :
      (n : ℕ) (req : Request) (body : Option B) (resp : Response) (p : Proxy) (id : Text)
      → removes req ≡ some id
      → NotPending n p
      → Settled n (
          handle_container_operation_response req resp
            (handle_container_operation codec files daemon req body p).0)
  unfolding handle_container_operation
  removal-Settled n req body resp p id e (stored, cached) =
      let post = removes-is_post req e in
      let q : Proxy = (handle_container_operation codec files daemon req body p).0 in
      let only : OnlyId n req.number q.forwards q.syncs q.container_id_cache = (
        rw (post, handle_container_operation) stored,
        λ h. cache_id-other n req (removes req) p.container_id_cache h cached,
      ) in
      subst (Settled n)
        (sym (response-not_post req resp q post ∙ ap (λ o. when_removed req resp o q) e))
        (when_removed-Settled n req resp id q only)

  answered-Settled :
      (n : ℕ) (req : Request) (body : Option B) (resp : Response) (p : Proxy)
      → removes req ≡ none
      → NotPending n p
      → Settled n (
          handle_container_operation_response req resp
            (handle_container_operation codec files daemon req body p).0)
  unfolding handle_container_operation after_create cache_id
  answered-Settled n req body resp p e (stored, cached) =
      unremoved-Settled n req resp _ e
        (elim (Bool-cases (is_post req && is_container_create req.path)) [
          | inl c ↦
              rw (c, e, handle_container_operation, after_create, cache_id)
                (
                  response-NotStored n req.number resp _ _ (λ h.
                      request-NotStored codec files n req.number body p.forwards p.syncs h stored),
                  cached,
                )
          | inr c ↦ rw (c, e, handle_container_operation, after_create, cache_id) (stored, cached)
        ])

  -- A request and its response leave nothing under any number under which nothing was kept.
  pub exchanged-Settled :
      (n : ℕ) (req : Request) (body : Option B) (resp : Response) (p : Proxy)
      → NotPending n p
      → Settled n (
          handle_container_operation_response req resp
            (handle_container_operation codec files daemon req body p).0)
  exchanged-Settled n req body resp p h = elim (Option-cases (removes req)) [
    | inl e ↦ answered-Settled n req body resp p e h
    | inr (id, e) ↦ removal-Settled n req body resp p id e h
  ]
