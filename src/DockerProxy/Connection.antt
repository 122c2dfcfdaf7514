-- ===== src/DockerProxy/Connection.antt =====
-- pkg/docker-proxy/proxy.go: handleConnection, the loop over a connection's requests. What the client
-- and the daemon send, and whether writing succeeds, is given for each request.
pub mod Stored
pub mod Pending
pub mod Ends
use remote_docker_agent.Prelude.{
  ℕ, Bool, true, false, not, ◌&&◌, Option, none, some, List, [], ◌∷◌, ◌++◌, if◌then◌else◌, Text,
}
use remote_docker_agent.Bridge.FileSync.{Files, FileSyncManager}
use remote_docker_agent.Bridge.PortForward.{PortForwardManager}
use remote_docker_agent.Bridge.Sessions.{SessionManager}
use remote_docker_agent.DockerProxy.Messages.{
  Request, Response, is_connection_upgrade, should_close_connection, container_wait,
}
use remote_docker_agent.DockerProxy.Remote.{Daemon}
use remote_docker_agent.DockerProxy.Create.{Codec}
use remote_docker_agent.DockerProxy.Operations.{
  Proxy, is_post, handle_container_operation, handle_container_operation_response, after_wait,
}

-- A request, its body, whether it can be forwarded, the response, and whether that can be written.
pub record Exchange {ℓ} (B : Type ℓ) : Type ℓ where
  pub req : Request
  pub body : Option B
  pub is_forwarded : Bool
  pub resp : Option Response
  pub is_written : Bool

-- What is read from the client: its end, something that is no HTTP, or a request.
pub data Incoming {ℓ} (B : Type ℓ) : Type ℓ where
  end_of_file not_http : Incoming B
  request : Exchange B → Incoming B

-- How a connection ends. A wait request defers `after_wait` of its container until then.
pub data Ending : Type 0 where
  not_dialed client_closed transparent not_forwarded no_response not_written closed upgraded :
      Ending
  waited : Text → Ending

-- What follows a response: the next request, or the end.
unfoldable pub ending_of_wait : Bool → Text → Ending
ending_of_wait true id = waited id
ending_of_wait false id = not_written

unfoldable pub ending_of_response : Bool → Request → Response → Option Ending
ending_of_response is_written req resp =
    if not is_written
    then some not_written
    else if should_close_connection req resp
    then some closed
    else if is_connection_upgrade resp
    then some upgraded
    else none

unfoldable pub ending_of : Bool → Request → Response → Option Text → Option Ending
ending_of is_written req resp (some id) = some (ending_of_wait is_written id)
ending_of is_written req resp none = ending_of_response is_written req resp

unfoldable pub waits_for : Request → Option Text
waits_for req = if is_post req then container_wait req.path else none

module _ {ℓ} {B : Type ℓ} (codec : Codec B) (files : Files) (daemon : Daemon) where
  -- One request: the proxy's state and the ending, if any. `none` is a panic.
  unfoldable pub after_response :
      Exchange B → Option Response → Proxy → Option (Proxy × Option Ending)
  after_response x none p = some (p, some no_response)
  after_response x (some resp) p = elim (handle_container_operation_response x.req resp p) [
    | none ↦ none
    | some after ↦ some (after, ending_of x.is_written x.req resp (waits_for x.req))
  ]

  unfoldable pub exchange : Exchange B → Proxy → Option (Proxy × Option Ending)
  exchange x p =
      let handled = handle_container_operation codec files daemon x.req x.body p in
      if x.is_forwarded
      then after_response x x.resp handled.0
      else some (handled.0, some not_forwarded)

  -- The loop over the requests.
  unfoldable pub serve : List (Incoming B) → Proxy → Option (Proxy × Ending)
  serve [] p = some (p, client_closed)
  serve (end_of_file ∷ rest) p = some (p, client_closed)
  serve (not_http ∷ rest) p = some (p, transparent)
  serve (request x ∷ rest) p = elim (exchange x p) [
    | none ↦ none
    | some (after, none) ↦ serve rest after
    | some (after, some ending) ↦ some (after, ending)
  ]

unfoldable pub with_managers : Proxy → PortForwardManager → FileSyncManager → Proxy
with_managers p forwards syncs = record {
  forwards = forwards;
  syncs = syncs;
  container_id_cache = p.container_id_cache;
  tasks = p.tasks;
}

unfoldable pub deferred_id : Ending → Option Text
deferred_id (waited id) = some id
deferred_id _ = none

-- The proxy with Mutagen's sessions.
module _ {ℓ κ} {S : Type ℓ} {R : Type κ} (forwarding : SessionManager S)
    (synchronization : SessionManager R) where
  -- The deferred function, if any; `later` is the daemon when the connection ends.
  unfoldable pub run_deferred : Daemon → Option Text → Proxy → S × R → Option (Proxy × (S × R))
  run_deferred later none p sessions = some (p, sessions)
  run_deferred later (some id) p (s, r) =
      elim (after_wait forwarding synchronization later id ((p.forwards, s), (p.syncs, r))) [
        | none ↦ none
        | some ((m, s'), (k, r')) ↦ some (with_managers p m k, (s', r'))
      ]

  unfoldable pub then_deferred :
      Daemon → S × R → Option (Proxy × Ending) → Option ((Proxy × (S × R)) × Ending)
  then_deferred later sessions none = none
  then_deferred later sessions (some (p, ending)) =
      elim (run_deferred later (deferred_id ending) p sessions) [
        | none ↦ none
        | some left ↦ some (left, ending)
      ]

module _ {ℓ κ ν} {B : Type ν} {S : Type ℓ} {R : Type κ} (codec : Codec B) (files : Files)
    (forwarding : SessionManager S) (synchronization : SessionManager R) where
  unfoldable pub handle_connection :
      Daemon
      → Daemon
      → Bool
      → List (Incoming B)
      → Proxy × (S × R)
      → Option ((Proxy × (S × R)) × Ending)
  handle_connection daemon later is_dialed incoming (p, sessions) =
      if is_dialed
      then then_deferred forwarding synchronization later sessions
          (serve codec files daemon incoming p)
      else some ((p, sessions), not_dialed)
