-- ===== src/DockerProxy/Remote.antt =====
-- pkg/docker-proxy/proxy-remote-requests.go: the questions that the proxy asks the remote daemon.
use remote_docker_agent.Bridge.FileSync.{sync_base_path}
use remote_docker_agent.Prelude.{
  ℕ, ◌++◌, Bool, true, false, not, Option, none, some, List, [], ◌∷◌, ◌==◌, ◌&&◌, ltb,
  if◌then◌else◌, Text, codes, text_eq, has_prefix, trim_prefix, decimal, eq_text, Map, lookup,
  insert,
}

-- An inspected container, as far as the body is read.
pub record Inspected : Type 0 where
  pub id : Text
  pub running : Bool

-- What comes of a request: no answer (dialing, sending or reading failed), or a status and a body
-- that parses, or does not.
pub data Reply {ℓ} (A : Type ℓ) : Type ℓ where
  no_answer : Reply A
  answer : ℕ → Option A → Reply A

-- The daemon, by the path that is asked for.
pub record Daemon : Type 0 where
  pub inspect : Text → Reply Inspected

unfoldable pub id_of : Reply Inspected → Text
id_of no_answer = []
id_of (answer status none) = []
id_of (answer status (some c)) = if status == 200 then c.id else []

unfoldable pub get_container_id : Daemon → Text → Text → Text
get_container_id daemon api_version id_or_name = id_of (
    daemon.inspect
      (codes "/v" ++ api_version ++ codes "/containers/" ++ id_or_name ++ codes "/json"))

unfoldable pub inspect_path : Text → Text
inspect_path container_id = codes "/containers/" ++ container_id ++ codes "/json"

unfoldable pub says_running : Reply Inspected → Bool
says_running no_answer = false
says_running (answer status none) = false
says_running (answer status (some c)) = if status == 200 then c.running else false

unfoldable pub is_container_running : Daemon → Text → Bool
is_container_running daemon container_id = says_running (daemon.inspect (inspect_path container_id))

-- A container that the daemon does not know counts as stopped.
unfoldable pub says_stopped : Reply Inspected → Bool
says_stopped no_answer = false
says_stopped (answer status none) = if status == 200 then false else true
says_stopped (answer status (some c)) = if status == 200 then not c.running else true

unfoldable pub is_container_stopped : Daemon → Text → Bool
is_container_stopped daemon container_id = says_stopped (daemon.inspect (inspect_path container_id))

pub record Port : Type 0 where
  pub private_port : ℕ
  pub public_port : ℕ
  pub type_ : Text

pub record Mount : Type 0 where
  pub type_ : Text
  pub source : Text
  pub destination : Text
  pub rw : Bool

pub record Container : Type 0 where
  pub id : Text
  pub ports : List Port
  pub mounts : List Mount

pub record ContainerInfo : Type 0 where
  pub id : Text
  pub port_bindings : Map Text (List Text)
  pub mounts : List Text

-- A missing entry of the map reads as no ports.
unfoldable pub present : Option (List Text) → List Text
present none = []
present (some ports) = ports

unfoldable pub add_port : Port → Map Text (List Text) → Map Text (List Text)
add_port p bindings =
    if ltb 0 p.public_port
    then (let key = decimal p.private_port ++ b'/' ∷ p.type_ in
        insert key (present (lookup key bindings) ++ decimal p.public_port ∷ []) bindings)
    else bindings

unfoldable pub add_ports : List Port → Map Text (List Text) → Map Text (List Text)
add_ports [] bindings = bindings
add_ports (p ∷ ports) bindings = add_ports ports (add_port p bindings)

unfoldable pub local_path : Text → Text
local_path source =
    if has_prefix source sync_base_path then trim_prefix source sync_base_path else source

unfoldable pub mount_text : Mount → Text
mount_text m =
    let mount_str = local_path m.source ++ b':' ∷ m.destination in
    if m.rw then mount_str else mount_str ++ codes ":ro"

-- `exists` is whether `os.Stat` finds a path on the local disk.
unfoldable pub bind_texts : (Text → Bool) → List Mount → List Text
bind_texts exists [] = []
bind_texts exists (m ∷ mounts) =
    let rest = bind_texts exists mounts in
    if text_eq m.type_ (codes "bind") && exists (local_path m.source)
    then mount_text m ∷ rest
    else rest

unfoldable pub container_info : (Text → Bool) → Container → ContainerInfo
container_info exists c = record {
  id = c.id;
  port_bindings = add_ports c.ports [];
  mounts = bind_texts exists c.mounts;
}

unfoldable pub running_containers :
    (Text → Bool) → List Container → Map Text ContainerInfo → Map Text ContainerInfo
running_containers exists [] running = running
running_containers exists (c ∷ containers) running =
    running_containers exists containers (insert c.id (container_info exists c) running)

unfoldable pub list_running_containers :
    (Text → Bool) → Reply (List Container) → Option (Map Text ContainerInfo)
list_running_containers exists no_answer = none
list_running_containers exists (answer status none) = none
list_running_containers exists (answer status (some containers)) =
    if status == 200 then some (running_containers exists containers []) else none
