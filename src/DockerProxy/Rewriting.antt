-- ===== src/DockerProxy/Rewriting.antt =====
-- pkg/docker-proxy: the bind mounts that are rewritten to the remote sync path when a container is
-- created, and read back when running containers are listed.
use remote_docker_agent.Prelude.{
  ◌≡◌, refl, Bool, true, false, [], ◌∷◌, ◌++◌, append_assoc, Text, codes, split, join, Lacks,
  split-append, split-Lacks, has_prefix-append, trim_prefix-append,
}
use remote_docker_agent.Bridge.FileSync.{sync_base_path}
use remote_docker_agent.DockerProxy.Remote.{local_path, mount_text}
use remote_docker_agent.DockerProxy.Create.{bind_of, rewritten, rewrite_bind_mount}

-- `source:target`, with `:ro` unless it may be written.
unfoldable pub bind_text : Bool → Text → Text → Text
bind_text true source target = source ++ b':' ∷ target
bind_text false source target = source ++ b':' ∷ (target ++ codes ":ro")

local_path-base : (source : Text) → local_path (sync_base_path ++ source) ≡ source
unfolding local_path
local_path-base source =
    rw (has_prefix-append sync_base_path source, trim_prefix-append sync_base_path source)

split-ro : split b':' (codes "ro") ≡ codes "ro" ∷ []
unfolding split
split-ro = refl

-- Creating a container puts the sync path in front of the bind's source and keeps the rest; a
-- running container's mount whose source is that path is listed as the bind it was created with.
pub rewrite-mount_text :
    (rw_ : Bool) (source target : Text)
    → Lacks b':' source
    → Lacks b':' target
    → (rewrite_bind_mount (bind_text rw_ source target) sync_base_path
        ≡ bind_text rw_ (sync_base_path ++ source) target)
      × (mount_text (record {
        type_ = codes "bind";
        source = sync_base_path ++ source;
        destination = target;
        rw = rw_;
      })
          ≡ bind_text rw_ source target)
unfolding rewrite_bind_mount rewritten bind_of bind_text mount_text join
rewrite-mount_text true source target ls lt = (
  rw (split-append b':' source target ls, split-Lacks b':' target lt),
  rw (local_path-base source),
)
rewrite-mount_text false source target ls lt = (
  rw (
    split-append b':' source (target ++ codes ":ro") ls,
    split-append b':' target (codes "ro") lt,
    split-ro,
  ),
  rw (local_path-base source) (append_assoc source (b':' ∷ target) (codes ":ro")),
)
