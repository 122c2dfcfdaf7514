-- ===== src/Daemon.antt =====
-- pkg/daemon/lock.go, pkg/tsctl/start.go and pkg/tsctl/stop.go: the files by which `stop` ends the
-- daemon, and the configuration that `start` makes of its flags. The file locker is a parameter.
pub mod Handshake
mod Tests
use remote_docker_agent.Prelude.{
  ℕ, ◌≡◌, Bool, true, false, not, ◌&&◌, ◌||◌, Option, none, some, List, [], ◌∷◌, ◌++◌, ◌==◌,
  if◌then◌else◌, Text, codes, is_empty, Result, ok, err, ◌>>=◌, ℤ, pos, negsuc, atoi, decimal,
}
use remote_docker_agent.Bridge.Creation.{TransportConfig}

-- The contents of the pid file and of the terminate file, where they exist.
pub record Files : Type 0 where
  pub pid_file : Option Text
  pub terminate_file : Option Text

pub data StopError : Type 0 where
  no_pid_file invalid_pid : StopError

unfoldable pub content_or_empty : Option Text → Text
content_or_empty none = []
content_or_empty (some content) = content

-- `AcquireLock` by the process `pid`, once the lock is its own: `write` is `Locker.Write`, which gets
-- the content of the file and the text. `Release` leaves an empty file.
unfoldable pub acquire_lock : (Text → Text → Text) → ℕ → Files → Files
acquire_lock write pid files = record {
  pid_file = some (write (content_or_empty files.pid_file) (decimal pid));
  terminate_file = files.terminate_file;
}

unfoldable pub release : Files → Files
release files = record { pid_file = some []; terminate_file = files.terminate_file }

unfoldable pub read_pid_file : Option Text → Result StopError Text
read_pid_file none = err no_pid_file
read_pid_file (some content) = ok content

unfoldable pub parse_pid : Text → Result StopError Text
parse_pid pid_str = elim (atoi pid_str) [ none ↦ err invalid_pid | some pid ↦ ok pid_str ]

-- What the command `stop` writes to the terminate file.
unfoldable pub stop : Files → Result StopError Text
stop files = read_pid_file files.pid_file >>= parse_pid

-- `os.WriteFile`: the file is empty before the text is in it.
unfoldable pub with_terminate_file : Option Text → Files → Files
with_terminate_file content files = record { pid_file = files.pid_file; terminate_file = content }

-- A watcher's event: whether it is the creation or the writing of a file, and whether its name is
-- the terminate file's.
pub record Event : Type 0 where
  pub is_create : Bool
  pub is_write : Bool
  pub is_terminate_path : Bool

unfoldable pub is_pid : ℕ → Option ℤ → Bool
is_pid current_pid none = false
is_pid current_pid (some (pos n)) = n == current_pid
is_pid current_pid (some (negsuc n)) = false

unfoldable pub names_pid : ℕ → Option Text → Bool
names_pid current_pid none = false
names_pid current_pid (some content) = is_pid current_pid (atoi content)

-- One event at the daemon: whether it ends, and the files.
unfoldable pub on_event : ℕ → Event → Files → Bool × Files
on_event current_pid event files =
    if ((event.is_create || event.is_write) && event.is_terminate_path)
      && names_pid current_pid files.terminate_file
    then (true, with_terminate_file none files)
    else (false, files)

-- The flags of `start`.
pub record StartFlags : Type 0 where
  pub listen_addr : Text
  pub ssh_user : Text
  pub ssh_host : Text
  pub ssh_key_path : Text
  pub remote_docker : Text
  pub ts_tunnel_server : Text
  pub ts_tunnel_cert_file : Text
  pub ts_tunnel_key_file : Text
  pub ts_tunnel_ca_file : Text
  pub ts_tunnel_insecure : Bool

unfoldable pub ssh_config : StartFlags → TransportConfig
ssh_config f = record {
  listen_addr = f.listen_addr;
  transport_type = codes "ssh";
  ssh_user = f.ssh_user;
  ssh_host = f.ssh_host;
  ssh_key_path = f.ssh_key_path;
  remote_docker = f.remote_docker;
  ts_tunnel_server = [];
  ts_tunnel_cert_file = [];
  ts_tunnel_key_file = [];
  ts_tunnel_ca_file = [];
  ts_insecure = false;
}

unfoldable pub tunnel_config : StartFlags → TransportConfig
tunnel_config f = record {
  listen_addr = f.listen_addr;
  transport_type = codes "tinyscale";
  ssh_user = f.ssh_user;
  ssh_host = f.ssh_host;
  ssh_key_path = f.ssh_key_path;
  remote_docker = f.remote_docker;
  ts_tunnel_server = f.ts_tunnel_server;
  ts_tunnel_cert_file =
      if not (is_empty f.ts_tunnel_cert_file) && not (is_empty f.ts_tunnel_key_file)
      then f.ts_tunnel_cert_file
      else [];
  ts_tunnel_key_file =
      if not (is_empty f.ts_tunnel_cert_file) && not (is_empty f.ts_tunnel_key_file)
      then f.ts_tunnel_key_file
      else [];
  ts_tunnel_ca_file = f.ts_tunnel_ca_file;
  ts_insecure = f.ts_tunnel_insecure;
}

-- The configuration of `start`, SSH first; none without a host and without a server.
unfoldable pub start_config : StartFlags → Option TransportConfig
start_config f =
    if not (is_empty f.ssh_host)
    then some (ssh_config f)
    else if not (is_empty f.ts_tunnel_server)
    then some (tunnel_config f)
    else none
