-- ===== src/Bridge/Tests/Refinement.antt =====
-- pkg/docker-proxy/mutagen-bridge: a sequence of operations on each manager, from an empty one.
use remote_docker_agent.Prelude.{
  ◌≡◌, refl, true, none, some, List, [], ◌∷◌, Text, codes, eq_text, nat_eq, lookup, split,
}
use remote_docker_agent.Bridge.Store.{
  Store, Operation, begin_request, end_request, store_container, teardown, teardown_all, store_step,
  run, Agree,
}
use remote_docker_agent.Bridge.PortForward.{new_port_forward_bridge, port_and_protocol}
use remote_docker_agent.Bridge.PortForward.Lifecycle.{created}
use remote_docker_agent.Bridge.PortForward.Targets.{Target, targets, host_targets}
use remote_docker_agent.Bridge.PortForward.Refinement.{
  HoldsPorts, forward_step, HoldsForwards, forward_steps-HoldsForwards,
}
use remote_docker_agent.Bridge.FileSync.{BindMount, FileSyncManager, Files, bind_mounts}
use remote_docker_agent.Bridge.FileSync.Refinement.{HoldsMounts, sync_step, Holds, sync_steps-Holds}
use remote_docker_agent.Bridge.Tests.{web, memory}

abbrev empty_store : Store Target
empty_store = record { pending = λ req. none; live = λ id. none }

abbrev no_mounts_store : Store BindMount
no_mounts_store = record { pending = λ req. none; live = λ id. none }

new-HoldsPorts : HoldsPorts new_port_forward_bridge empty_store
unfolding new_port_forward_bridge lookup
new-HoldsPorts = record { reachable = created; pending = λ req. refl; live = λ id. refl }

abbrev a_manager : FileSyncManager
a_manager = record { containers = []; container_mounts = [] }

new-HoldsMounts : HoldsMounts a_manager no_mounts_store
unfolding lookup
new-HoldsMounts = record { pending = λ req. refl; live = λ id. refl }

abbrev two_ports_asked : List (Text × List Text)
two_ports_asked = (codes "80/tcp", codes "8080" ∷ [] ∷ []) ∷ (codes "53/udp", codes "53" ∷ []) ∷ []

targets_run :
    targets two_ports_asked
    ≡ (codes "8080", (codes "80", codes "tcp")) ∷ (codes "53", (codes "53", codes "udp")) ∷ []
unfolding targets host_targets port_and_protocol split
targets_run = refl

abbrev a_life : List (Operation (List (Text × List Text)))
a_life =
    begin_request 1 two_ports_asked
    ∷ end_request 1 web
    ∷ teardown web
    ∷ teardown_all
    ∷ teardown (codes "x")
    ∷ []

forward_steps-HoldsForwards_example :
    Agree
      (HoldsForwards memory)
      (run (forward_step memory) a_life (new_port_forward_bridge, []))
      (run (store_step targets) a_life empty_store)
forward_steps-HoldsForwards_example =
    forward_steps-HoldsForwards memory a_life new_port_forward_bridge [] empty_store new-HoldsPorts

abbrev all_files : Files
all_files = record { abs = some; stat = λ path. true }

abbrev a_sync_life : List (Operation (List Text))
a_sync_life =
    begin_request 1 (codes "/src:/app" ∷ [])
    ∷ end_request 1 web
    ∷ store_container (codes "0a") []
    ∷ teardown web
    ∷ []

sync_steps-Holds_example :
    Agree
      (Holds memory all_files)
      (run (sync_step memory all_files) a_sync_life (a_manager, []))
      (run (store_step (bind_mounts all_files)) a_sync_life no_mounts_store)
sync_steps-Holds_example =
    sync_steps-Holds memory all_files a_sync_life a_manager [] no_mounts_store new-HoldsMounts
