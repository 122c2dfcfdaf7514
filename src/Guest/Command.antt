-- ===== src/Guest/Command.antt =====
-- pkg/guest/command.go: which commands the agent runs. The host's file system is a parameter; a
-- request body is given as it decodes.
pub mod Admission
use remote_docker_agent.Prelude.{
  ℕ, ◌+◌, ◌/◌, ◌%◌, ◌≡◌, Bool, true, false, not, ◌&&◌, ◌||◌, Option, none, some, List, [], ◌∷◌,
  ◌++◌, map, ◌==◌, leb, if◌then◌else◌, Text, codes, is_empty, text_eq, has_prefix,
}
use remote_docker_agent.Net.{contains}
use remote_docker_agent.Guest.Paths.{is_abs, clean, join_path, dir, rel}

-- What `os.Stat` gives: the mode, or an error, which may say that the file does not exist.
pub data Stat : Type 0 where
  not_exist : Stat
  stat_failed : Stat
  info : ℕ → Stat

pub record Host : Type 0 where
  pub executable : Option Text
  pub eval_symlinks : Text → Option Text
  pub getwd : Option Text
  pub stat : Text → Stat
  pub look_path : Text → Option Text

pub record CommandRequest : Type 0 where
  pub command : Text
  pub args : List Text
  pub envs : List Text

unfoldable pub dir_option : Option Text → Option Text
dir_option none = none
dir_option (some path) = some (dir path)

unfoldable pub resolved_dir : Host → Option Text → Option Text
resolved_dir host none = none
resolved_dir host (some path) = dir_option (host.eval_symlinks path)

unfoldable pub get_executable_dir : Host → Option Text
get_executable_dir host = resolved_dir host host.executable

unfoldable pub or_else : Option Text → Text → Text
or_else none fallback = fallback
or_else (some s) fallback = s

-- The path of a command, cleaned: a relative one is taken from the working directory.
unfoldable pub command_path : Host → Text → Text → Text
command_path host exec_dir cmd =
    if is_abs cmd then clean cmd else clean (join_path (or_else host.getwd exec_dir) cmd)

-- The same with its symbolic links resolved, or as it is where that fails.
unfoldable pub real_command_path : Host → Text → Text → Text
real_command_path host exec_dir cmd =
    let path = command_path host exec_dir cmd in or_else (host.eval_symlinks path) path

unfoldable pub unless_outside : Text → Option Text → Option Text
unless_outside real none = none
unless_outside real (some rel_path) =
    if has_prefix rel_path (codes "..") || has_prefix rel_path (codes "/..")
    then none
    else some real

unfoldable pub allowed_under : Host → Text → Option Text → Option Text
allowed_under host cmd none = none
allowed_under host cmd (some exec_dir) =
    let real = real_command_path host exec_dir cmd in unless_outside real (rel exec_dir real)

-- The real path of a command that is allowed.
unfoldable pub is_command_allowed : Host → Text → Option Text
is_command_allowed host cmd = allowed_under host cmd (get_executable_dir host)

-- The file that `exec.Command` starts: a name without a slash is looked up in the search path.
unfoldable pub started_file : Host → Text → Option Text
started_file host name = if contains b'/' name then some name else host.look_path name

-- `mode & 0111 != 0`
unfoldable pub is_executable : ℕ → Bool
is_executable mode = mode % 2 == 1 || ((mode / 8) % 2 == 1 || (mode / 64) % 2 == 1)

unfoldable pub stat_status : Stat → ℕ
stat_status not_exist = 404
stat_status stat_failed = 403
stat_status (info mode) = if is_executable mode then 200 else 403

unfoldable pub path_status : Host → Option Text → ℕ
path_status host none = 403
path_status host (some path) = stat_status (host.stat path)

unfoldable pub command_exists : Host → Text → ℕ
command_exists host cmd = path_status host (is_command_allowed host cmd)

-- `strings.ToLower`, on the letters A to Z: no other has t, c or p as its lower case.
unfoldable pub to_lower : Text → Text
to_lower = map λ c. if leb b'A' c && leb c b'Z' then c + 32 else c

pub record HttpRequest : Type 0 where
  pub method : Text
  pub upgrade : Text
  pub body : Option CommandRequest

-- A status that refuses the request, or the command that is run and the file that is started for it:
-- `none` where there is none in the search path, and starting it fails.
pub data Handled : Type 0 where
  refused : ℕ → Handled
  runs : CommandRequest → Option Text → Handled

unfoldable pub handle_decoded : Host → Option CommandRequest → Handled
handle_decoded host none = refused 400
handle_decoded host (some c) =
    if is_empty c.command
    then refused 400
    else if command_exists host c.command == 200
    then runs c (started_file host c.command)
    else refused (command_exists host c.command)

unfoldable pub handle_command : Host → HttpRequest → Handled
handle_command host r =
    if not (text_eq r.method (codes "POST"))
    then refused 405
    else if not (text_eq (to_lower r.upgrade) (codes "tcp"))
    then refused 400
    else handle_decoded host r.body
