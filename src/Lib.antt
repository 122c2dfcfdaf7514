-- ===== src/Lib.antt =====
-- A model of the remote Docker agent: the connector that authenticates and routes users to their
-- hosts, and the local proxy that keeps port forwards and file synchronizations of containers.
--
-- Parts, by file, with paths from the repository's root:
--   Prelude        shared types, texts as lists of characters, maps, results, decimal numbers
--   Net, Encoding  what is used of Go's net, strings, encoding/hex and encoding/base64
--   ContainerId    pkg/docker-proxy/mutagen-bridge/container-id.go
--   Shelex         pkg/utils/shelex/shelex.go: the tokenizer, Lexer.Next and Split
--   Connector      pkg/connector: Config (config.go), Identity (identity.go), Database and
--                  Authorization (database.go), Router (http_router.go), Sni and Proxy (proxy.go)
--   Bridge         pkg/docker-proxy/mutagen-bridge: Sessions (ListSessions of both managers),
--                  Creation (what both set-ups share), PortForward (port-forward.go), FileSync
--                  (file-sync.go), each with a Setup that creates sessions; Store is what both
--                  keep, as a specification
--   DockerProxy    pkg/docker-proxy: Messages (helpers.go and the patterns of proxy.go), Remote
--                  (proxy-remote-requests.go), Create (proxy-api-create.go, proxy-file-sync.go),
--                  Directories (proxy-file-sync.go), Operations, Sync, Setup and Connection
--                  (proxy.go)
--   Tunnel         pkg/ts-tunnel: url.go, dial.go with pkg/utils/tlsconfig/tls.go, the options of
--                  the protocol handlers; Exec (agent-transport/transport.go and pkg/tsctl/host_exec.go)
--   Guest          pkg/guest: Command (command.go), Access (server.go), Directories (directories.go),
--                  over Paths, what is used of Go's path/filepath
--   Auth           pkg/tsctl/auth: token.go and types.go, Switch (command-switch-org.go, storage.go);
--                  Race interleaves the background refresh with the selection
--   Daemon         pkg/daemon/lock.go, pkg/tsctl/start.go and stop.go: the files of a handshake
--
-- The connector's handleConnection is Connector.Proxy.handle_connection: it takes the identity
-- from the certificate, the connect id from the server name, asks the database, and proxies.
-- DockerProxy.Operations calls the two managers of Bridge, whose session labels are packed by
-- ContainerId, before a request is forwarded and after its response came. The goroutines that the
-- proxy starts are tasks in its state.
--
-- A function's name is the source's in lower case with underscores. State is passed explicitly; an
-- error is a Result, a panic of the source is `none`. Requests have numbers where the source
-- compares pointers. The database answers each read by the read's number, so that it may change
-- between two reads. A stop channel is the number of channels made before it.
--
-- The set-ups give each session the label that the teardown selects and that ListSessions reads.
-- The transport of Tunnel.Exec starts host-exec, which sends the command to the handler of Guest.
--
-- Parameters stand for code outside of the repository: the certificate check, the database, the
-- network, the file systems, JSON, flag and URL parsing, the Docker daemon and Mutagen, whose
-- enumerations are numbers. A validated setting is parsed by the parameter unless it is empty.
--
-- Fuel: Shelex reads words with the length of the text and one more as fuel, and a theorem says
-- that Split never runs out of it.
--
-- Not modelled: the byte copying of proxied connections (the router's result says which bytes are
-- left to it), listening and shutting down, the parsing of certificates, running processes on the
-- guest, and most of the command line with its login. They are input and output, or calls of
-- libraries.
pub mod Auth
pub mod Bridge
pub mod Connector
pub mod ContainerId
pub mod Daemon
pub mod DockerProxy
pub mod Encoding
pub mod Guest
pub mod Net
pub mod Prelude
pub mod Shelex
pub mod Tunnel
