-- ===== src/DockerProxy/Directories.antt =====
-- pkg/docker-proxy/proxy-file-sync.go: making the directories of a container's mounts on the remote
-- host, by SSH commands or by a request to the guest. What the local paths are and the request are
-- parameters.
use remote_docker_agent.Prelude.{
  ℕ, ◌≡◌, refl, ap, ◌∙◌, inl, inr, Bool, true, false, not, Bool-cases, Option, none, some, List, [],
  ◌∷◌, ◌++◌, map, leb, if◌then◌else◌, Text, codes, text_eq,
}
use remote_docker_agent.Bridge.FileSync.{BindMount, sync_base_path}
use remote_docker_agent.Guest.Paths.{dir}
use remote_docker_agent.Guest.Directories.{
  handle_create_directories, create_decoded, create_each, with_created, error_status,
}

-- What is done: the commands on the remote host, the list that is sent, and whether there is no error.
pub record Outcome : Type 0 where
  pub commands : List Text
  pub sent : List Text
  pub is_ok : Bool

unfoldable pub dir_to_create : Text → Bool → Text
dir_to_create remote_path is_dir = if is_dir then remote_path else dir remote_path

-- The directories for the mounts whose local path can be looked at; `stat` says whether a path is a
-- directory.
unfoldable pub remote_paths : (Text → Option Bool) → List BindMount → List Text
remote_paths stat [] = []
remote_paths stat (mount ∷ mounts) =
    let rest = remote_paths stat mounts in
    elim (stat mount.host_path) [
      | none ↦ rest
      | some is_dir ↦ dir_to_create (sync_base_path ++ mount.host_path) is_dir ∷ rest
    ]

unfoldable pub mkdir_command : Text → Text
mkdir_command path = codes "mkdir -p '" ++ (path ++ codes "'")

unfoldable pub is_accepted : Option ℕ → Bool
is_accepted none = false
is_accepted (some status) = not (leb 400 status)

-- `post` sends the list and gives the status, if an answer comes and can be read.
unfoldable pub create_dirs_by_ts_tunnel : (List Text → Option ℕ) → List Text → Bool
create_dirs_by_ts_tunnel post paths = is_accepted (post paths)

unfoldable pub sent_paths : (List Text → Option ℕ) → List Text → Outcome
sent_paths post [] = record { commands = []; sent = []; is_ok = true }
sent_paths post (path ∷ paths) = record {
  commands = [];
  sent = path ∷ paths;
  is_ok = create_dirs_by_ts_tunnel post (path ∷ paths);
}

-- A failing SSH command is only logged.
unfoldable pub create_remote_mount_directories :
    Text → (List Text → Option ℕ) → (Text → Option Bool) → List BindMount → Outcome
create_remote_mount_directories transport_type post stat mounts =
    if text_eq transport_type (codes "ssh")
    then record { commands = map mkdir_command (remote_paths stat mounts); sent = []; is_ok = true }
    else if text_eq transport_type (codes "tinyscale")
    then sent_paths post (remote_paths stat mounts)
    else record { commands = []; sent = []; is_ok = true }

-- A request that reaches the guest's handler.
abbrev pub guest_post : (Text → Bool) → List Text → Option ℕ
guest_post mkdir paths =
    some
      (handle_create_directories mkdir (record {
        method = codes "POST";
        content_type = codes "application/json";
        body = some (some paths);
      })).status

abbrev pub first_is_made : (Text → Bool) → List Text → Bool
first_is_made mkdir [] = true
first_is_made mkdir (path ∷ paths) = mkdir path

status_written :
    (mkdir : Text → Bool) (paths : List Text) → (create_each mkdir true paths).status ≡ 200
unfolding create_each with_created error_status
status_written mkdir [] = refl
status_written mkdir (path ∷ paths) = elim (Bool-cases (mkdir path)) [
  | inl e ↦ rw (e, create_each) (status_written mkdir paths)
  | inr e ↦ rw (e, create_each) refl
]

first_status :
    (mkdir : Text → Bool) (path : Text) (paths : List Text)
    → (create_each mkdir false (path ∷ paths)).status ≡ (if mkdir path then 200 else 500)
unfolding create_each with_created error_status
first_status mkdir path paths = elim (Bool-cases (mkdir path)) [
  | inl e ↦ rw (e, create_each) (status_written mkdir paths)
  | inr e ↦ rw (e, create_each) refl
]

accepts : (b : Bool) → is_accepted (some (if b then 200 else 500)) ≡ b
unfolding is_accepted
accepts true = refl
accepts false = refl

sent-first_is_made :
    (mkdir : Text → Bool) (paths : List Text)
    → (sent_paths (guest_post mkdir) paths).is_ok ≡ first_is_made mkdir paths
unfolding sent_paths create_dirs_by_ts_tunnel handle_create_directories create_decoded text_eq
sent-first_is_made mkdir [] = refl
sent-first_is_made mkdir (path ∷ paths) =
    ap (λ status. is_accepted (some status)) (first_status mkdir path paths) ∙ accepts (mkdir path)

-- Over the tunnel, with the guest answering, making the directories of the mounts is reported as
-- done exactly when there are none to make or the first can be made: no failure behind the first is
-- noticed.
pub create_remote_mount_directories-first_is_made :
    (mkdir : Text → Bool) (stat : Text → Option Bool) (mounts : List BindMount)
    → (create_remote_mount_directories (codes "tinyscale") (guest_post mkdir) stat mounts).is_ok
      ≡ first_is_made mkdir (remote_paths stat mounts)
unfolding create_remote_mount_directories text_eq
create_remote_mount_directories-first_is_made mkdir stat mounts =
    sent-first_is_made mkdir (remote_paths stat mounts)
