-- ===== src/Tunnel/Exec.antt =====
-- pkg/ts-tunnel/agent-transport/transport.go and pkg/tsctl/host_exec.go: the process that runs a
-- command on the container host. The executable's path, flag parsing and the files of a TLS
-- configuration are parameters.
pub mod Transport
use remote_docker_agent.Prelude.{
  ℕ, ◌==◌, ◌≡◌, Bool, true, false, not, ◌&&◌, ◌||◌, Option, none, some, List, [], ◌∷◌, ◌++◌, map,
  if◌then◌else◌, Text, codes, is_empty, text_eq, has_prefix, Result, ok, err, ◌>>=◌,
}
use remote_docker_agent.Shelex.{LexError, SplitResult, split_words}
use remote_docker_agent.Guest.Command.{CommandRequest, to_lower}
use remote_docker_agent.Tunnel.{
  ServerOptions, TlsFiles, Connects, refuses, not_built, by_tls, plainly, build, built,
}

pub data TransportError : Type 0 where
  no_server_addr no_executable : TransportError
  not_split : LexError → TransportError

unfoldable pub new_transport : ServerOptions → Result TransportError ServerOptions
new_transport opts = if is_empty opts.server_addr then err no_server_addr else ok opts

-- `--name=value`, where there is a value.
unfoldable pub flag : Text → Text → List Text
flag name [] = []
flag name (c ∷ value) = (name ++ c ∷ value) ∷ []

unfoldable pub insecure_flag : Bool → List Text
insecure_flag true = codes "--insecure" ∷ []
insecure_flag false = []

unfoldable pub exec_args : ServerOptions → List Text → List Text
exec_args opts parts =
    codes "host-exec"
    ∷ (codes "--server-addr=" ++ opts.server_addr)
    ∷ (flag (codes "--cert=") opts.cert_file
        ++ (flag (codes "--key=") opts.key_file
            ++ (flag (codes "--ca=") opts.ca_file
                ++ (insecure_flag opts.insecure ++ codes "--" ∷ parts))))

unfoldable pub parts_of : SplitResult → Result TransportError (List Text)
parts_of r = elim r.error [ none ↦ ok r.sub_strings | some e ↦ err (not_split e) ]

unfoldable pub executed : Option Text → Result TransportError Text
executed none = err no_executable
executed (some path) = ok path

-- `Command`: the executable's path and its arguments.
unfoldable pub command_of :
    Option Text
    → ServerOptions
    → Result TransportError (List Text)
    → Result TransportError (Text × List Text)
command_of executable opts split =
    split >>= λ parts. executed executable >>= λ path. ok (path, exec_args opts parts)

unfoldable pub transport_command :
    Option Text → ServerOptions → Text → Option (Result TransportError (Text × List Text))
transport_command executable opts command = elim (split_words command) [
  | none ↦ none
  | some r ↦ some (command_of executable opts (parts_of r))
]

-- `strings.Contains`.
unfoldable pub mentions_text : Text → Text → Bool
mentions_text [] part = is_empty part
mentions_text (c ∷ s) part = has_prefix (c ∷ s) part || mentions_text s part

unfoldable pub mentions_any : Text → List Text → Bool
mentions_any s [] = false
mentions_any s (part ∷ parts) = mentions_text s part || mentions_any s parts

-- `ClassifyError`: an error, or whether to install the agent again and whether for Windows.
pub data Classified : Type 0 where
  connection_error unknown_error : Classified
  try_install : Bool → Classified

unfoldable pub classify_error : Text → Classified
classify_error output =
    if mentions_any output
      (codes "connection refused" ∷ codes "connection timeout" ∷ codes "TLS handshake" ∷ [])
    then connection_error
    else if mentions_any output
        (codes "agent not found" ∷ codes "command not found" ∷ codes "no such file" ∷ [])
    then try_install false
    else if mentions_any output (codes "is not recognized as an internal or external command" ∷ [])
    then try_install true
    else if mentions_any output (codes "version mismatch" ∷ codes "incompatible version" ∷ [])
    then try_install false
    else unknown_error

-- The flags of `host-exec`.
pub record ExecFlags : Type 0 where
  pub options : ServerOptions
  pub envs : List Text

-- The request that `executeCommand` writes, and the connection that it writes it to.
pub record ExecRequest : Type 0 where
  pub connects : Connects
  pub addr : Text
  pub url : Text
  pub upgrade : Text
  pub body : CommandRequest

pub data ExecResult : Type 0 where
  no_command no_tls_config : ExecResult
  sends : ExecRequest → ExecResult

-- How to connect: `not_built` when the TLS configuration cannot be built.
unfoldable pub tls_client_config : TlsFiles → ServerOptions → Connects
tls_client_config files opts =
    if not (is_empty opts.cert_file) && not (is_empty opts.key_file)
    then built (build files opts)
    else plainly

unfoldable pub scheme_of : Connects → Text
scheme_of refuses = codes "http"
scheme_of not_built = codes "http"
scheme_of (by_tls config) = codes "https"
scheme_of plainly = codes "http"

unfoldable pub execute_command : Text → Text → List Text → List Text → Connects → ExecRequest
execute_command server_addr command args envs connects = record {
  connects = connects;
  addr = server_addr;
  url =
      scheme_of connects
      ++ (codes "://" ++ (server_addr ++ codes "/tinyscale/v1/host-exec/command"));
  upgrade = codes "tcp";
  body = record { command = command; args = args; envs = envs };
}

unfoldable pub sent_by : ExecFlags → Text → List Text → Connects → ExecResult
sent_by flags command args refuses = no_tls_config
sent_by flags command args not_built = no_tls_config
sent_by flags command args plainly =
    sends (execute_command flags.options.server_addr command args flags.envs plainly)
sent_by flags command args (by_tls config) =
    sends (execute_command flags.options.server_addr command args flags.envs (by_tls config))

unfoldable pub host_exec : TlsFiles → ExecFlags → List Text → ExecResult
host_exec files flags [] = no_command
host_exec files flags (command ∷ args) =
    sent_by flags command args (tls_client_config files flags.options)

-- Whether the agent's answer lets the command's streams be copied.
unfoldable pub is_upgraded : ℕ → Text → Bool
is_upgraded status upgrade = (status == 101) && text_eq (to_lower upgrade) (codes "tcp")
