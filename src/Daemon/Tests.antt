-- ===== src/Daemon/Tests.antt =====
-- pkg/daemon, pkg/tsctl: the pid files and the flags at concrete inputs.
use remote_docker_agent.Prelude.{
  ◌≡◌, ◌==◌, refl, ap, append-nil, true, false, none, some, [], ◌∷◌, ◌++◌, drop, length,
  if◌then◌else◌, Text, codes, ok, err, atoi, int_of, decimal, arith,
}
use remote_docker_agent.Daemon.{
  Files, acquire_lock, release, content_or_empty, stop, read_pid_file, parse_pid, invalid_pid,
  with_terminate_file, on_event,
}
use remote_docker_agent.Daemon.Handshake.{created_event, written_event, stop-on_event}

-- Writing at the start of the file.
abbrev overwrite : Text → Text → Text
overwrite content text = text ++ drop (length text) content

overwrite_empty : (text : Text) → overwrite [] text ≡ text
overwrite_empty [] = refl
overwrite_empty (c ∷ text) = ap (◌∷◌ c) (append-nil text)

abbrev no_files : Files
no_files = record { pid_file = none; terminate_file = none }

abbrev stale_files : Files
stale_files = record { pid_file = some (codes "12345"); terminate_file = none }

stop_runs :
    (stop (acquire_lock overwrite 99 (release stale_files)) ≡ ok (codes "99"))
    × (stop (acquire_lock overwrite 99 stale_files) ≡ ok (codes "99345"))
    × (stop (release stale_files) ≡ err invalid_pid)
unfolding stop acquire_lock release content_or_empty read_pid_file parse_pid decimal atoi int_of
stop_runs = (refl, refl, refl)

stop-on_event_example :
    (content : Text) × (stop (acquire_lock overwrite 99 (release stale_files)) ≡ ok content)
    × ((on_event 99 created_event (with_terminate_file (some []) stale_files)).0 ≡ false)
    × (on_event 99 written_event (with_terminate_file (some content) stale_files) ≡ (
        if 99 == 99
        then (true, with_terminate_file none stale_files)
        else (false, with_terminate_file (some content) stale_files)))
stop-on_event_example = stop-on_event overwrite 99 99 stale_files overwrite_empty (omega arith)
