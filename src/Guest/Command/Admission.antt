-- ===== src/Guest/Command/Admission.antt =====
-- pkg/guest/command.go: the commands that a request can start.
use remote_docker_agent.Prelude.{
  ℕ, sym, ◌≡◌, ◌≢◌, refl, ap, subst, ◌∙◌, ◌⊎◌, inl, inr, true, false, Option, none, some,
  Option-cases, [], ◌==◌, if◌then◌else◌, Bool-cases, Text, codes, is_empty, text_eq, text_eq_iff,
  has_prefix,
}
use remote_docker_agent.Net.{contains}
use remote_docker_agent.Guest.Paths.{clean, rel, IsUnder, rel-IsUnder}
use remote_docker_agent.Guest.Command.{
  Stat, not_exist, stat_failed, info, Host, CommandRequest, get_executable_dir, real_command_path,
  unless_outside, allowed_under, is_command_allowed, is_executable, stat_status, path_status,
  command_exists, started_file, to_lower, HttpRequest, runs, handle_decoded, handle_command,
}

-- A command at whose real path there is a file or a directory that someone may execute, and whose
-- real path is the agent's own directory or lies under it.
pub record IsAdmitted (host : Host) (cmd : Text) : Type 0 where
  pub exec_dir : Text
  pub mode : ℕ
  pub found_dir : get_executable_dir host ≡ some exec_dir
  pub under :
      (clean (real_command_path host exec_dir cmd) ≡ clean exec_dir)
      ⊎ IsUnder exec_dir (real_command_path host exec_dir cmd)
  pub found : host.stat (real_command_path host exec_dir cmd) ≡ info mode
  pub executable : is_executable mode ≡ true

unless_outside-eq-some :
    (real : Text) (r : Option Text) {path : Text}
    → unless_outside real r ≡ some path
    → (real ≡ path)
      × ((rel_path : Text) × (r ≡ some rel_path) × (has_prefix rel_path (codes "..") ≡ false))
unfolding unless_outside
unless_outside-eq-some real none e = absurd cc
unless_outside-eq-some real (some r) e = elim (Bool-cases (has_prefix r (codes ".."))) [
  | inl q ↦ let k = rw (q, unless_outside) at e in absurd cc
  | inr q ↦ elim (Bool-cases (has_prefix r (codes "/.."))) [
    | inl m ↦ let k = rw (q, m, unless_outside) at e in absurd cc
    | inr m ↦ let k = rw (q, m, unless_outside) at e in (cc, (r, refl, q))
  ]
]

stat_status-eq-ok :
    (s : Stat)
    → (stat_status s == 200) ≡ true
    → (mode : ℕ) × (s ≡ info mode) × (is_executable mode ≡ true)
unfolding stat_status
stat_status-eq-ok not_exist h = absurd cc
stat_status-eq-ok stat_failed h = absurd cc
stat_status-eq-ok (info mode) h = elim (Bool-cases (is_executable mode)) [
  | inl q ↦ (mode, refl, q)
  | inr q ↦ let k = rw (q, stat_status) at h in absurd cc
]

command_exists-IsAdmitted :
    (host : Host) (cmd : Text) → (command_exists host cmd == 200) ≡ true → IsAdmitted host cmd
unfolding command_exists is_command_allowed allowed_under path_status
command_exists-IsAdmitted host cmd h = elim (Option-cases (get_executable_dir host)) [
  | inl e ↦ let k = rw (e, allowed_under, path_status) at h in absurd cc
  | inr (d, e) ↦
      let real = real_command_path host d cmd in
      elim (Option-cases (unless_outside real (rel d real))) [
        | inl o ↦ let k = rw (e, allowed_under, o, path_status) at h in absurd cc
        | inr (path, o) ↦
            let (same, (r, i, p)) = unless_outside-eq-some real (rel d real) o in
            let k : (stat_status (host.stat path) == 200) ≡ true =
              rw (e, allowed_under, o, path_status) at h in
            let (mode, s, x) = stat_status-eq-ok (host.stat path) k in
            record {
              exec_dir = d;
              mode = mode;
              found_dir = e;
              under = rel-IsUnder d real i p;
              found = rw same s;
              executable = x;
            }
      ]
]

decoded-IsAdmitted :
    (host : Host) (body : Option CommandRequest) (c : CommandRequest) (file : Option Text)
    → handle_decoded host body ≡ runs c file
    → (body ≡ some c)
      × (c.command ≢ [])
      × IsAdmitted host c.command
      × (file ≡ started_file host c.command)
unfolding handle_decoded
decoded-IsAdmitted host none c file h = absurd cc
decoded-IsAdmitted host (some d) c file h = elim (Bool-cases (is_empty d.command)) [
  | inl p ↦ let k = rw (p, handle_decoded) at h in absurd cc
  | inr p ↦ elim (Bool-cases (command_exists host d.command == 200)) [
    | inl q ↦
        let k : runs d (started_file host d.command) ≡ runs c file =
          rw (p, q, handle_decoded) at h in
        let i : d ≡ c = cc in
        (
          ap some i,
          (λ e. let j : d.command ≡ [] = ap (λ x. x.command) i ∙ e in let m = rw j at p in cc),
          subst (λ x. IsAdmitted host x.command) i (command_exists-IsAdmitted host d.command q),
          (let j : started_file host d.command ≡ file = cc in
              sym j ∙ ap (λ x. started_file host x.command) i),
        )
    | inr q ↦ let k = rw (p, q, handle_decoded) at h in absurd cc
  ]
]

-- The agent starts a file only for a POST request that asks for the upgrade to tcp, whose body names
-- a command, when the command's real path, which for a relative one is found from the working
-- directory, is the agent's own directory or lies under it, and something is there that someone may
-- execute. The file that it starts is the command itself when that has a slash; a command without a
-- slash is started from the search path, wherever that finds it.
pub handle_command-IsAdmitted :
    (host : Host) (r : HttpRequest) (c : CommandRequest) (file : Option Text)
    → handle_command host r ≡ runs c file
    → (r.method ≡ codes "POST")
      × (to_lower r.upgrade ≡ codes "tcp")
      × (r.body ≡ some c)
      × (c.command ≢ [])
      × IsAdmitted host c.command
      × (file ≡ (if contains b'/' c.command then some c.command else host.look_path c.command))
unfolding handle_command started_file
handle_command-IsAdmitted host r c file h = elim (Bool-cases (text_eq r.method (codes "POST"))) [
  | inr p ↦ let k = rw (p, handle_command) at h in absurd cc
  | inl p ↦ elim (Bool-cases (text_eq (to_lower r.upgrade) (codes "tcp"))) [
    | inr q ↦ let k = rw (p, q, handle_command) at h in absurd cc
    | inl q ↦
        let k : handle_decoded host r.body ≡ runs c file = rw (p, q, handle_command) at h in
        let d = decoded-IsAdmitted host r.body c file k in
        (
          (text_eq_iff r.method (codes "POST")).0 p,
          (text_eq_iff (to_lower r.upgrade) (codes "tcp")).0 q,
          d.0,
          d.1,
          d.2,
          d.3,
        )
  ]
]
