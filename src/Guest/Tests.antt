-- ===== src/Guest/Tests.antt =====
-- pkg/guest: paths, requests and certificates at concrete inputs.
use remote_docker_agent.Prelude.{
  if◌then◌else◌, ◌≡◌, ◌≢◌, refl, ◌⊎◌, ◌↔◌, Bool, true, not, none, some, List, [], ◌∷◌, ◌++◌, Text,
  codes, text_eq, split, join, has_prefix,
}
use remote_docker_agent.Net.{cut_last, contains}
use remote_docker_agent.Guest.Paths.{
  is_abs, segments, parts, go_up, clean_parts, reversed, or_dot, clean, join_path, dir_of, dir,
  base_parts, climb, rel_parts, same_root, is_rooted, rel,
}
use remote_docker_agent.Guest.Command.{
  info, Host, dir_option, resolved_dir, get_executable_dir, or_else, command_path,
  real_command_path, unless_outside, allowed_under, is_command_allowed, started_file, is_executable,
  stat_status, path_status, command_exists, to_lower, HttpRequest, runs, handle_decoded,
  handle_command,
}
use remote_docker_agent.Guest.Command.Admission.{IsAdmitted, handle_command-IsAdmitted}
use remote_docker_agent.Guest.Access.{
  Chain, IsOneOf, verify_peer_certificate, verify_peer_certificate_iff,
}
use remote_docker_agent.Guest.Directories.{
  DirectoriesRequest, MakesUpTo, handle_create_directories, handle_create_directories-MakesUpTo,
}

clean_runs :
    (clean (codes "/a/../../b//./c/") ≡ codes "/b/c")
    × (clean (codes "a/../..") ≡ codes "..")
    × (clean [] ≡ codes ".")
    × (clean (codes "/..") ≡ codes "/")
    × (dir (codes "/opt/agent/tsctl") ≡ codes "/opt/agent")
    × (dir (codes "/x") ≡ codes "/")
unfolding clean dir dir_of cut_last is_abs parts segments split clean_parts go_up reversed or_dot
    join has_prefix text_eq
clean_runs = (refl, refl, refl, refl, refl, refl)

rel_runs :
    (rel (codes "/opt") (codes "/opt/a/b") ≡ some (codes "a/b"))
    × (rel (codes "/opt/a/b") (codes "/opt/c") ≡ some (codes "../../c"))
    × (rel (codes "/opt") (codes "/opt/") ≡ some (codes "."))
    × (rel (codes "/") (codes "/usr") ≡ some (codes "usr"))
    × (rel (codes "a") (codes "/b") ≡ none)
unfolding rel same_root is_rooted base_parts rel_parts climb clean is_abs parts segments split
    clean_parts go_up reversed or_dot join has_prefix text_eq
rel_runs = (refl, refl, refl, refl, refl)

-- A host whose agent is /opt/agent/tsctl and works there; every file is executable.
abbrev agent_host : Host
agent_host = record {
  executable = some (codes "/opt/agent/tsctl");
  eval_symlinks = some;
  getwd = some (codes "/opt/agent");
  stat = λ path. info 0o755;
  look_path = λ name. some (codes "/usr/bin/" ++ name);
}

abbrev run_tool : HttpRequest
run_tool = record {
  method = codes "POST";
  upgrade = codes "TCP";
  body = some (record { command = codes "tool"; args = []; envs = [] });
}

tool_runs :
    handle_command agent_host run_tool
    ≡ runs (record { command = codes "tool"; args = []; envs = [] }) (some (codes "/usr/bin/tool"))
unfolding handle_command started_file contains handle_decoded to_lower command_exists path_status
    stat_status is_executable is_command_allowed allowed_under unless_outside real_command_path
    command_path or_else get_executable_dir resolved_dir dir_option join_path rel same_root
    is_rooted base_parts rel_parts climb clean dir dir_of cut_last is_abs parts segments split
    clean_parts go_up reversed or_dot join has_prefix text_eq
tool_runs = refl

-- The file that is checked is /opt/agent/tool, and the one that is started is /usr/bin/tool.
tool_checked :
    (is_command_allowed agent_host (codes "tool") ≡ some (codes "/opt/agent/tool"))
    × (started_file agent_host (codes "tool") ≡ some (codes "/usr/bin/tool"))
unfolding started_file contains is_command_allowed allowed_under unless_outside real_command_path
    command_path or_else get_executable_dir resolved_dir dir_option join_path rel same_root
    is_rooted base_parts rel_parts climb clean dir dir_of cut_last is_abs parts segments split
    clean_parts go_up reversed or_dot join has_prefix text_eq
tool_checked = (refl, refl)

handle_command-IsAdmitted_example :
    (run_tool.method ≡ codes "POST")
    × (to_lower run_tool.upgrade ≡ codes "tcp")
    × (run_tool.body ≡ some (record { command = codes "tool"; args = []; envs = [] }))
    × (codes "tool" ≢ [])
    × IsAdmitted agent_host (codes "tool")
    × (some (codes "/usr/bin/tool") ≡ (
        if contains b'/' (codes "tool")
        then some (codes "tool")
        else agent_host.look_path (codes "tool")))
handle_command-IsAdmitted_example =
    handle_command-IsAdmitted agent_host run_tool
      (record { command = codes "tool"; args = []; envs = [] }) (some (codes "/usr/bin/tool"))
      tool_runs

verify_peer_certificate_iff_example :
    (verify_peer_certificate (codes "ops" ∷ []) ((codes "ops" ∷ []) ∷ []) ≡ true) ↔ (
      (codes "ops" ∷ [] ≡ [])
      ⊎ ((client_cn : Text) × (chain : Chain) × (others : List Chain) × ((codes "ops" ∷ []) ∷ []
            ≡ (client_cn ∷ chain) ∷ others)
          × IsOneOf client_cn (codes "ops" ∷ [])))
verify_peer_certificate_iff_example =
    verify_peer_certificate_iff (codes "ops" ∷ []) ((codes "ops" ∷ []) ∷ [])

abbrev not_x : Text → Bool
not_x path = not (text_eq path (codes "/x"))

abbrev two_paths : DirectoriesRequest
two_paths = record {
  method = codes "POST";
  content_type = codes "application/json";
  body = some (some (codes "/a" ∷ codes "/x" ∷ []));
}

handle_create_directories-MakesUpTo_example :
    MakesUpTo not_x 500 (codes "/a" ∷ codes "/x" ∷ []) (handle_create_directories not_x two_paths)
handle_create_directories-MakesUpTo_example =
    handle_create_directories-MakesUpTo not_x two_paths (codes "/a" ∷ codes "/x" ∷ []) refl refl
      refl
