-- ===== src/Bridge/Tests/Undone.antt =====
-- pkg/docker-proxy/proxy.go: a running container's sessions, set up and taken down.
use remote_docker_agent.Prelude.{ℕ, ◌≡◌, refl, some, true, List, [], ◌∷◌, codes, arith}
use remote_docker_agent.Bridge.Sessions.{Session}
use remote_docker_agent.Bridge.PortForward.{
  PortForwardManager, new_port_forward_bridge, store_port_bindings_for_container,
}
use remote_docker_agent.Bridge.PortForward.Lifecycle.{created, stored}
use remote_docker_agent.Bridge.FileSync.{FileSyncManager}
use remote_docker_agent.DockerProxy.Remote.{Daemon, answer}
use remote_docker_agent.DockerProxy.Operations.{teardown_both}
use remote_docker_agent.DockerProxy.Setup.{Creator, setup_sessions_if_running}
use remote_docker_agent.DockerProxy.Setup.Undone.{ListsWithout, setup_sessions-teardown_both}
use remote_docker_agent.Bridge.Tests.{
  web, memory, memory-HonoursSelectors, memory_lists, db_session, db_session-IsLabelled,
}
use remote_docker_agent.Bridge.Tests.Setup.{
  easy, forward_config, sync_modes, remember, remember-HonoursLabels, ssh_config, one_mount,
}

abbrev creator : Creator (List Session) (List Session) ℕ ℕ
creator = record {
  config = ssh_config;
  prompter = [];
  forward_mutagen = easy;
  of_settings = forward_config;
  create_forward = remember;
  sync_mutagen = easy;
  modes = sync_modes;
  create_sync = remember;
}

abbrev running_web : Daemon
running_web = record { inspect = λ path. answer 200 (some (record { id = web; running = true })) }

abbrev web_ports : PortForwardManager
web_ports =
    store_port_bindings_for_container web ((codes "80/tcp", codes "8080" ∷ []) ∷ [])
      new_port_forward_bridge

setup_sessions-teardown_both_example :
    (up down : (PortForwardManager × List Session) × (FileSyncManager × List Session))
    × (setup_sessions_if_running creator running_web web
          ((web_ports, db_session ∷ []), (one_mount, db_session ∷ []))
        ≡ some up)
    × (teardown_both memory memory running_web web up ≡ some down)
    × ListsWithout memory web (db_session ∷ []) down.0.1
    × ListsWithout memory web (db_session ∷ []) down.1.1
setup_sessions-teardown_both_example =
    setup_sessions-teardown_both creator running_web memory memory remember-HonoursLabels
      remember-HonoursLabels memory-HonoursSelectors memory-HonoursSelectors web web_ports one_mount
      (db_session ∷ []) (db_session ∷ []) (db_session ∷ []) (db_session ∷ []) (stored web _ created)
      ((omega arith), refl) (omega arith) memory_lists memory_lists (db_session-IsLabelled, tt)
      (db_session-IsLabelled, tt)
