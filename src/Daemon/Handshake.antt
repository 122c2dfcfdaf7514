-- ===== src/Daemon/Handshake.antt =====
-- pkg/tsctl/start.go and pkg/tsctl/stop.go: the daemon that `stop` ends.
use remote_docker_agent.Prelude.{
  ℕ, ◌<◌, ◌≡◌, refl, ap, ◌∙◌, true, false, none, some, [], ◌==◌, if◌then◌else◌, Text, ok, atoi,
  int_of, decimal, atoi-decimal,
}
use remote_docker_agent.Daemon.{
  Files, acquire_lock, release, content_or_empty, read_pid_file, parse_pid, stop,
  with_terminate_file, Event, is_pid, names_pid, on_event,
}

-- `Locker.Write` in an empty file: the file holds the text.
abbrev pub WritesEmpty : (Text → Text → Text) → Type 0
WritesEmpty write = (text : Text) → write [] text ≡ text

-- The events of `os.WriteFile` on the terminate file.
abbrev pub created_event : Event
created_event = record { is_create = true; is_write = false; is_terminate_path = true }

abbrev pub written_event : Event
written_event = record { is_create = false; is_write = true; is_terminate_path = true }

stop-acquire_lock :
    (write : Text → Text → Text) (pid : ℕ) (files : Files)
    → WritesEmpty write
    → pid < 9223372036854775808
    → stop (acquire_lock write pid (release files)) ≡ ok (decimal pid)
unfolding stop acquire_lock release content_or_empty read_pid_file parse_pid
stop-acquire_lock write pid files h b =
    ap parse_pid (h (decimal pid)) ∙ rw (atoi-decimal pid b, parse_pid) refl

-- The command `stop` ends the daemon that holds the lock and no other process that watches: for a
-- lock file that was released before, and a process id below 2^63, `stop` succeeds, the creation of
-- its file, which is still empty, ends nobody, and the writing ends exactly the process whose id
-- the daemon wrote, which also removes the terminate file.
pub stop-on_event :
    (write : Text → Text → Text) (pid current_pid : ℕ) (files : Files)
    → WritesEmpty write
    → pid < 9223372036854775808
    → (content : Text) × (stop (acquire_lock write pid (release files)) ≡ ok content)
      × ((on_event current_pid created_event (with_terminate_file (some []) files)).0 ≡ false)
      × (on_event current_pid written_event (with_terminate_file (some content) files) ≡ (
          if pid == current_pid
          then (true, with_terminate_file none files)
          else (false, with_terminate_file (some content) files)))
unfolding on_event names_pid with_terminate_file is_pid atoi int_of
stop-on_event write pid current_pid files h b = (
  decimal pid,
  stop-acquire_lock write pid files h b,
  refl,
  rw (atoi-decimal pid b, names_pid, on_event) refl,
)
