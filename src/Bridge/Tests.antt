-- ===== src/Bridge/Tests.antt =====
-- pkg/docker-proxy/mutagen-bridge: runs of the managers, with Mutagen's sessions as a list.
mod Setup
mod Undone
mod Refinement
use remote_docker_agent.Prelude.{
  ◌≤◌, ◌≡◌, refl, ◌↔◌, inr, none, some, List, [], ◌∷◌, if◌then◌else◌, Bool, true, false, not,
  insert, Text, codes, text_eq, split, trim_prefix, trim_prefix-append, eq_text, Map, lookup,
  delete, ok, arith,
}
use remote_docker_agent.ContainerId.{compress_container_id, decompress_container_id}
use remote_docker_agent.Encoding.Hex.{hex_decode, hex_encode}
use remote_docker_agent.Encoding.Base64.{base64_encode, base64_decode}
use remote_docker_agent.Bridge.Sessions.{
  Selection, all_sessions, label_selector, Session, SessionManager, list_sessions, container_ids,
  session_container_id, container_id_label, container_selection,
}
use remote_docker_agent.Bridge.Sessions.Teardown.{HonoursSelectors, IsLabelled, without}
use remote_docker_agent.Bridge.PortForward.{
  PortForwardManager, new_port_forward_bridge, port_bindings, store_port_bindings_start,
  store_port_bindings_end, teardown_forwards, teardown_all_forwards, close_forwards, close_all,
  is_closed, bindings_at, named_ports, port_and_protocol, host_bindings,
}
use remote_docker_agent.Bridge.PortForward.Lifecycle.{
  Reachable, created, started, ended, TornDown, teardown_forwards-none_iff,
  teardown_forwards-TornDown, teardown_all_forwards-total,
}
use remote_docker_agent.Bridge.FileSync.{
  FileSyncManager, teardown_syncs, Files, bind_mounts, add_binds, add_resolved, add_mount,
  resolve_bind, bind_parts, existing_mount,
}
use remote_docker_agent.Bridge.FileSync.Mounts.{
  mounts_of, access, asks, asks_to_write, some_bind, bind_mounts-access,
}
use remote_docker_agent.Bridge.FileSync.Listing.{teardown_syncs-list_sessions}

-- A session manager that keeps its sessions in a list.
unfoldable pub remaining : Selection → List Session → List Session
remaining all_sessions sessions = []
remaining (label_selector selector) sessions =
    without (trim_prefix selector (codes "container-id=")) sessions

unfoldable pub memory : SessionManager (List Session)
memory = record { list = ok; terminate = remaining }

pub memory-HonoursSelectors : HonoursSelectors memory
unfolding memory remaining
memory-HonoursSelectors label sessions states e =
    let i : sessions ≡ states = cc in rw (trim_prefix-append (codes "container-id=") label, i)

abbrev pub web : Text
web = codes "0123456789ab"

abbrev request_ports : List (Text × List Text)
request_ports = (codes "80/tcp", codes "8080" ∷ [] ∷ []) ∷ (codes "53/udp", []) ∷ []

abbrev pending : PortForwardManager
pending = store_port_bindings_start 1 request_ports new_port_forward_bridge

abbrev named : PortForwardManager
named = store_port_bindings_end 1 web pending

named-Reachable : Reachable named
named-Reachable = ended 1 web (started 1 request_ports created)

two_ports :
    port_bindings 4 request_ports
    ≡ record {
      host_port = codes "8080";
      container_port = codes "80";
      protocol = codes "tcp";
      stop_ch = 4;
    }
      ∷ []
unfolding port_bindings host_bindings port_and_protocol split
two_ports = refl

-- The forwards of `web` taken down: the channel that its binding had is closed.
abbrev after_web : PortForwardManager
after_web = record { containers = []; container_ports = []; made = 1; closed = 0 ∷ [] }

web_torn_down : teardown_forwards memory web (named, []) ≡ some (after_web, [])
unfolding teardown_forwards close_forwards close_all is_closed bindings_at lookup delete
    container_selection compress_container_id hex_decode base64_encode store_port_bindings_start
    store_port_bindings_end named_ports insert port_bindings host_bindings port_and_protocol split
    new_port_forward_bridge memory remaining without text_eq
web_torn_down = refl

teardown_forwards-none_iff_example :
    (teardown_forwards memory web (named, []) ≡ none) ↔ (compress_container_id web ≡ none)
teardown_forwards-none_iff_example = teardown_forwards-none_iff memory web named [] named-Reachable

teardown_forwards-TornDown_example : TornDown web named after_web
teardown_forwards-TornDown_example =
    teardown_forwards-TornDown memory web named after_web [] [] named-Reachable web_torn_down

teardown_all_forwards-total_example :
    (left : PortForwardManager × List Session) × (teardown_all_forwards memory (named, [])
      ≡ some left)
    × (left.0.container_ports ≡ [])
teardown_all_forwards-total_example = teardown_all_forwards-total memory named [] named-Reachable

-- A host where every path is absolute and exists but "/gone".
host : Files
host = record { abs = some; stat = λ path. not (text_eq path (codes "/gone")) }

abbrev two_binds : List Text
two_binds = codes "/src:/app:ro" ∷ codes "/gone:/x" ∷ codes "/src:/work" ∷ []

src_mount :
    bind_mounts host two_binds
    ≡ record { host_path = codes "/src"; container_path = codes "/app"; read_only = false } ∷ []
unfolding bind_mounts add_binds add_resolved add_mount resolve_bind bind_parts existing_mount split
    host text_eq
src_mount = refl

bind_mounts-access_example :
    (mounts_of (codes "/src") (bind_mounts host two_binds) ≤ 1)
    × (access (codes "/src") (bind_mounts host two_binds) ≡ (
        if some_bind (asks (codes "/src")) host two_binds
        then some (not (some_bind (asks_to_write (codes "/src")) host two_binds))
        else none))
bind_mounts-access_example = bind_mounts-access (codes "/src") host two_binds

abbrev no_mounts : FileSyncManager
no_mounts = record { containers = []; container_mounts = [] }

abbrev db : Text
db = codes "0afbff"

abbrev pub db_session : Session
db_session = record {
  identifier = codes "s1";
  labels = (codes "container-id", codes "0Cvv.0") ∷ [];
}

pub db_session-IsLabelled : IsLabelled db_session
unfolding compress_container_id hex_decode base64_encode lookup container_id_label text_eq
db_session-IsLabelled = inr (db, codes "0Cvv.0", ((omega arith), refl), refl, refl)

db_listed : list_sessions memory (db_session ∷ []) ≡ ok ((db, true) ∷ [])
unfolding list_sessions memory container_ids session_container_id decompress_container_id
    base64_decode hex_encode lookup container_id_label text_eq insert
db_listed = refl

pub memory_lists : memory.list (db_session ∷ []) ≡ ok (db_session ∷ [])
unfolding memory
memory_lists = refl

teardown_syncs-list_sessions_example :
    (left : FileSyncManager × List Session) × (found : Map Text Bool) × (teardown_syncs memory db
        (no_mounts, db_session ∷ [])
      ≡ some left)
    × (left.0.container_mounts ≡ delete db [])
    × (list_sessions memory left.1 ≡ ok found)
    × ((other : Text)
        → lookup other found
          ≡ (if text_eq db other then none else lookup other (container_ids (db_session ∷ []))))
teardown_syncs-list_sessions_example =
    teardown_syncs-list_sessions memory memory-HonoursSelectors db no_mounts (db_session ∷ [])
      (db_session ∷ []) ((omega arith), refl) memory_lists (db_session-IsLabelled, tt)
