-- ===== src/DockerProxy/Connection/Ends.antt =====
-- pkg/docker-proxy/proxy.go: what a connection leaves when it ends.
use remote_docker_agent.Prelude.{
  ℕ, ◌≡◌, ◌≢◌, refl, ap, sym, ◌∙◌, ◌⊎◌, eq_text, lookup, nat_eq, subst, inl, inr, Bool, true, false,
  Bool-cases, Option, none, some, Option-cases, List, [], ◌∷◌, if◌then◌else◌, Text,
}
use remote_docker_agent.Bridge.Sessions.{SessionManager, container_selection}
use remote_docker_agent.Bridge.FileSync.{Files, FileSyncManager, teardown_syncs}
use remote_docker_agent.Bridge.PortForward.{
  PortForwardManager, teardown_forwards, close_forwards, close_all, bindings_at,
}
use remote_docker_agent.DockerProxy.Messages.{Response}
use remote_docker_agent.DockerProxy.Remote.{Daemon, is_container_stopped}
use remote_docker_agent.DockerProxy.Create.{Codec}
use remote_docker_agent.DockerProxy.Operations.{
  Proxy, handle_container_operation, after_wait, teardown_both, then_syncs,
}
use remote_docker_agent.DockerProxy.Connection.Pending.{NotPending, Settled, exchanged-Settled}
use remote_docker_agent.DockerProxy.Connection.{
  Exchange, Incoming, end_of_file, not_http, request, Ending, not_forwarded, no_response,
  after_response, exchange, serve, run_deferred, deferred_id, then_deferred, with_managers,
  handle_connection,
}

-- An ending at which a request was handled and had no response.
abbrev pub Unanswered : Ending → Type 0
Unanswered ending = (ending ≡ not_forwarded) ⊎ (ending ≡ no_response)

-- What a round or the whole loop leaves, unless a request had no response.
abbrev SettledRound : ℕ → Option (Proxy × Option Ending) → Type 0
SettledRound n none = Unit
SettledRound n (some (p, none)) = NotPending n p
SettledRound n (some (p, some ending)) = Unanswered ending ⊎ NotPending n p

abbrev SettledEnd : ℕ → Option (Proxy × Ending) → Type 0
SettledEnd n none = Unit
SettledEnd n (some (p, ending)) = Unanswered ending ⊎ NotPending n p

with_ending :
    (n : ℕ) (o : Option Proxy) (e : Option Ending)
    → Settled n o
    → SettledRound n (elim o [ none ↦ none | some after ↦ some (after, e) ])
with_ending n none e h = tt
with_ending n (some p) none h = h
with_ending n (some p) (some ending) h = inr h

then_rest :
    (n : ℕ) (o : Option (Proxy × Option Ending)) (rest : Proxy → Option (Proxy × Ending))
    → SettledRound n o
    → ((p : Proxy) → NotPending n p → SettledEnd n (rest p))
    → SettledEnd n (elim o [
      | none ↦ none
      | some (after, none) ↦ rest after
      | some (after, some ending) ↦ some (after, ending)
    ])
then_rest n none rest h k = tt
then_rest n (some (p, none)) rest h k = k p h
then_rest n (some (p, some ending)) rest h k = h

module _ {ν} {B : Type ν} (codec : Codec B) (files : Files) (daemon : Daemon) where
  after_response-Settled :
      (n : ℕ) (x : Exchange B) (resp : Option Response) (p : Proxy)
      → NotPending n p
      → SettledRound n (
          after_response codec files daemon x resp
            (handle_container_operation codec files daemon x.req x.body p).0)
  unfolding after_response
  after_response-Settled n x none p h = inl (inr refl)
  after_response-Settled n x (some resp) p h =
      with_ending n _ _ (exchanged-Settled codec files daemon n x.req x.body resp p h)

  forwarded-Settled :
      (n : ℕ) (is_forwarded : Bool) (x : Exchange B) (p : Proxy)
      → NotPending n p
      → SettledRound n (
          if is_forwarded
          then after_response codec files daemon x x.resp
              (handle_container_operation codec files daemon x.req x.body p).0
          else some (
            (handle_container_operation codec files daemon x.req x.body p).0,
            some not_forwarded,
          ))
  forwarded-Settled n true x p h = after_response-Settled n x x.resp p h
  forwarded-Settled n false x p h = inl (inl refl)

  exchange-Settled :
      (n : ℕ) (x : Exchange B) (p : Proxy)
      → NotPending n p
      → SettledRound n (exchange codec files daemon x p)
  unfolding exchange
  exchange-Settled n x p h = forwarded-Settled n x.is_forwarded x p h

  serve-Settled :
      (n : ℕ) (incoming : List (Incoming B)) (p : Proxy)
      → NotPending n p
      → SettledEnd n (serve codec files daemon incoming p)
  unfolding serve
  serve-Settled n [] p h = inr h
  serve-Settled n (end_of_file ∷ rest) p h = inr h
  serve-Settled n (not_http ∷ rest) p h = inr h
  serve-Settled n (request x ∷ rest) p h =
      then_rest n (exchange codec files daemon x p) (serve codec files daemon rest)
        (exchange-Settled n x p h) (λ q s. serve-Settled n rest q s)

module _ {ℓ κ} {S : Type ℓ} {R : Type κ} (forwarding : SessionManager S)
    (synchronization : SessionManager R) where
  -- Taking a container down leaves what is kept under requests.
  teardown_forwards-containers :
      (id : Text) (m left : PortForwardManager) (s t : S)
      → teardown_forwards forwarding id (m, s) ≡ some (left, t)
      → m.containers ≡ left.containers
  unfolding teardown_forwards close_forwards
  teardown_forwards-containers id m left s t e =
      elim (Option-cases (close_all (bindings_at (lookup id m.container_ports)) m.closed)) [
        | inl c ↦ let k = rw (c, teardown_forwards, close_forwards) at e in cc
        | inr (closed, c) ↦ elim (Option-cases (container_selection id)) [
          | inl d ↦ let k = rw (c, teardown_forwards, close_forwards, d) at e in cc
          | inr (selected, d) ↦ let k = rw (c, teardown_forwards, close_forwards, d) at e in cc
        ]
      ]

  teardown_syncs-containers :
      (id : Text) (k left : FileSyncManager) (r t : R)
      → teardown_syncs synchronization id (k, r) ≡ some (left, t)
      → k.containers ≡ left.containers
  unfolding teardown_syncs
  teardown_syncs-containers id k left r t e = elim (Option-cases (container_selection id)) [
    | inl d ↦ let j = rw (d, teardown_syncs) at e in cc
    | inr (selected, d) ↦ let j = rw (d, teardown_syncs) at e in cc
  ]

  run_deferred-NotPending :
      (n : ℕ) (later : Daemon) (id : Option Text) (p after : Proxy) (sessions left : S × R)
      → NotPending n p
      → run_deferred forwarding synchronization later id p sessions ≡ some (after, left)
      → NotPending n after
  unfolding run_deferred after_wait teardown_both then_syncs with_managers
  run_deferred-NotPending n later none p after sessions left h e =
      let same : p ≡ after = cc in subst (NotPending n) same h
  run_deferred-NotPending n later (some id) p after (s, r) left ((f, k), c) e =
      elim (Bool-cases (is_container_stopped later id)) [
        | inr q ↦
            let j = rw (q, run_deferred, after_wait) at e in
            let same : with_managers p p.forwards p.syncs ≡ after = cc in
            subst (NotPending n) same ((f, k), c)
        | inl q ↦ elim (Option-cases (teardown_forwards forwarding id (p.forwards, s))) [
          | inl d ↦
              let j = rw (q, run_deferred, after_wait, teardown_both, d, then_syncs) at e in cc
          | inr ((m, s'), d) ↦
              elim (Option-cases (teardown_syncs synchronization id (p.syncs, r))) [
                | inl g ↦
                    let j =
                      rw (q, run_deferred, after_wait, teardown_both, d, then_syncs, g) at e in
                    cc
                | inr ((l, r'), g) ↦
                    let j =
                      rw (q, run_deferred, after_wait, teardown_both, d, then_syncs, g) at e in
                    let same : with_managers p m l ≡ after = cc in
                    let kept = teardown_forwards-containers id p.forwards m s s' d in
                    let held = teardown_syncs-containers id p.syncs l r r' g in
                    subst (NotPending n) same
                      ((ap (lookup n) (sym kept) ∙ f, ap (lookup n) (sym held) ∙ k), c)
              ]
        ]
      ]

  then_deferred-NotPending :
      (n : ℕ) (later : Daemon) (sessions left : S × R) (o : Option (Proxy × Ending)) (after : Proxy)
      (ending : Ending)
      → SettledEnd n o
      → then_deferred forwarding synchronization later sessions o ≡ some ((after, left), ending)
      → Unanswered ending ⊎ NotPending n after
  unfolding then_deferred
  then_deferred-NotPending n later sessions left none after ending h e = cc
  then_deferred-NotPending n later sessions left (some (p, x)) after ending h e =
      elim (Option-cases
        (run_deferred forwarding synchronization later (deferred_id x) p sessions)) [
          | inl d ↦ let j = rw (d, then_deferred) at e in cc
          | inr ((q, t), d) ↦
              let j = rw (d, then_deferred) at e in
              let same : x ≡ ending = cc in
              let first : q ≡ after = cc in
              let second : t ≡ left = cc in
              let made : run_deferred forwarding synchronization later (deferred_id x) p sessions
                  ≡ some (after, left) =
                rw (first, second) at d in
              elim h [
                | inl u ↦ inl (subst Unanswered same u)
                | inr k ↦
                    inr
                      (run_deferred-NotPending n later (deferred_id x) p after sessions left k made)
              ]
        ]

module _ {ℓ κ ν} {B : Type ν} {S : Type ℓ} {R : Type κ} (codec : Codec B) (files : Files)
    (forwarding : SessionManager S) (synchronization : SessionManager R) where
  -- A connection that ends without a panic and whose requests have all had their responses, however
  -- else it ends and a deferred teardown included, keeps nothing: if nothing is kept under a request's number when it begins, no
  -- port bindings, no mounts and no container's id, then nothing is when it has ended.
  pub handle_connection-NotPending :
      (n : ℕ) (daemon later : Daemon) (is_dialed : Bool) (incoming : List (Incoming B))
      (p after : Proxy) (sessions left : S × R) (ending : Ending)
      → NotPending n p
      → handle_connection codec files forwarding synchronization daemon later is_dialed incoming
          (p, sessions)
        ≡ some ((after, left), ending)
      → ending ≢ not_forwarded
      → ending ≢ no_response
      → NotPending n after
  unfolding handle_connection
  handle_connection-NotPending n daemon later true incoming p after sessions left ending h e u v =
      elim (then_deferred-NotPending forwarding synchronization n later sessions left
        (serve codec files daemon incoming p) after ending
        (serve-Settled codec files daemon n incoming p h) e) [
          | inl (inl x) ↦ absurd (u x)
          | inl (inr x) ↦ absurd (v x)
          | inr k ↦ k
        ]
  handle_connection-NotPending n daemon later false incoming p after sessions left ending h e u v =
      let same : p ≡ after = cc in subst (NotPending n) same h
