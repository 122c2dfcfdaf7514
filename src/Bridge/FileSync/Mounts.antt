-- ===== src/Bridge/FileSync/Mounts.antt =====
-- pkg/docker-proxy/mutagen-bridge/file-sync.go: which mounts the binds of a container become.
use remote_docker_agent.Prelude.{
  ℕ, ◌+◌, ◌≤◌, ◌≡◌, refl, sym, ◌∙◌, Bool, true, false, not, ◌&&◌, ◌||◌, Option, none, some, List,
  [], ◌∷◌, ◌==◌, if◌then◌else◌, Text, text_eq, text_eq_iff, arith,
}
use remote_docker_agent.Bridge.FileSync.{
  BindMount, Files, resolve_bind, add_mount, add_resolved, add_binds, bind_mounts,
}

-- How many mounts there are for a host path, and whether the first is read-only.
unfoldable pub mounts_of : Text → List BindMount → ℕ
mounts_of path [] = 0
mounts_of path (m ∷ mounts) = (if text_eq m.host_path path then 1 else 0) + mounts_of path mounts

unfoldable pub access : Text → List BindMount → Option Bool
access path [] = none
access path (m ∷ mounts) =
    let rest = access path mounts in if text_eq m.host_path path then some m.read_only else rest

-- Whether a bind asks for the path, and whether it asks to write.
unfoldable pub asks : Text → Option BindMount → Bool
asks path none = false
asks path (some b) = text_eq b.host_path path

unfoldable pub asks_to_write : Text → Option BindMount → Bool
asks_to_write path none = false
asks_to_write path (some b) = text_eq b.host_path path && not b.read_only

unfoldable pub some_bind : (Option BindMount → Bool) → Files → List Text → Bool
some_bind test files [] = false
some_bind test files (bind ∷ binds) = test (resolve_bind files bind) || some_bind test files binds

-- The access to a path, had it some before, when binds ask for it, or ask to write.
merged : Option Bool → Bool → Bool → Option Bool
merged none asked written = if asked then some (not written) else none
merged (some read_only) asked written = some (read_only && not written)

merged-|| :
    (before : Option Bool) (a b read_only : Bool) (w : Bool)
    → merged (merged before a (a && not read_only)) b w
      ≡ merged before (a || b) ((a && not read_only) || w)
unfolding merged
merged-|| none false b read_only w = refl
merged-|| none true b true w = refl
merged-|| none true b false w = refl
merged-|| (some false) a b read_only w = refl
merged-|| (some true) false b read_only w = refl
merged-|| (some true) true b true w = refl
merged-|| (some true) true b false w = refl

merged-unasked : (before : Option Bool) → merged before false false ≡ before
unfolding merged
merged-unasked none = refl
merged-unasked (some true) = refl
merged-unasked (some false) = refl

access-add_mount :
    (path : Text) (b : BindMount) (mounts : List BindMount)
    → access path (add_mount b mounts)
      ≡ merged
          (access path mounts)
          (text_eq b.host_path path)
          (text_eq b.host_path path && not b.read_only)
unfolding access add_mount merged
access-add_mount path b [] = ground arith
access-add_mount path b (m ∷ mounts) =
    let h = access-add_mount path b mounts in
    let u = merged-unasked (access path mounts) in
    ground (
      arith,
      text_eq_iff m.host_path b.host_path,
      text_eq_iff m.host_path path,
      text_eq_iff b.host_path path,
    )

mounts_of-add_mount :
    (path : Text) (b : BindMount) (mounts : List BindMount)
    → mounts_of path (add_mount b mounts) ≡ (
        if text_eq b.host_path path && (mounts_of path mounts == 0)
        then 1
        else mounts_of path mounts)
unfolding mounts_of add_mount
mounts_of-add_mount path b [] = ground arith
mounts_of-add_mount path b (m ∷ mounts) =
    let i = mounts_of-add_mount path b mounts in
    ground (
      arith,
      text_eq_iff m.host_path b.host_path,
      text_eq_iff m.host_path path,
      text_eq_iff b.host_path path,
    )

mounts_of-add_resolved :
    (path : Text) (o : Option BindMount) (mounts : List BindMount)
    → mounts_of path mounts ≤ 1
    → mounts_of path (add_resolved o mounts) ≤ 1
unfolding add_resolved
mounts_of-add_resolved path none mounts h = h
mounts_of-add_resolved path (some b) mounts h =
    let i = mounts_of-add_mount path b mounts in ground arith

mounts_of-add_binds :
    (path : Text) (files : Files) (binds : List Text) (mounts : List BindMount)
    → mounts_of path mounts ≤ 1
    → mounts_of path (add_binds files binds mounts) ≤ 1
unfolding add_binds
mounts_of-add_binds path files [] mounts h = h
mounts_of-add_binds path files (bind ∷ binds) mounts h =
    mounts_of-add_binds path files binds (add_resolved (resolve_bind files bind) mounts)
      (mounts_of-add_resolved path (resolve_bind files bind) mounts h)

merged_resolved :
    (path : Text) (o : Option BindMount) (mounts : List BindMount) (b w : Bool)
    → merged (access path (add_resolved o mounts)) b w
      ≡ merged (access path mounts) (asks path o || b) (asks_to_write path o || w)
unfolding add_resolved asks asks_to_write
merged_resolved path none mounts b w = refl
merged_resolved path (some m) mounts b w = rw (
  access-add_mount path m mounts,
  merged-|| (access path mounts) (text_eq m.host_path path) b m.read_only w,
)

access-add_binds :
    (path : Text) (files : Files) (binds : List Text) (mounts : List BindMount)
    → access path (add_binds files binds mounts)
      ≡ merged
          (access path mounts)
          (some_bind (asks path) files binds)
          (some_bind (asks_to_write path) files binds)
unfolding add_binds some_bind
access-add_binds path files [] mounts = sym (merged-unasked (access path mounts))
access-add_binds path files (bind ∷ binds) mounts =
    access-add_binds path files binds (add_resolved (resolve_bind files bind) mounts)
    ∙ merged_resolved path (resolve_bind files bind) mounts (some_bind (asks path) files binds)
        (some_bind (asks_to_write path) files binds)

-- A container has at most one mount for each path of the host. There is one exactly when a bind
-- that is not ignored asks for the path, and it is read-only exactly when no such bind may write.
pub bind_mounts-access :
    (path : Text) (files : Files) (binds : List Text)
    → (mounts_of path (bind_mounts files binds) ≤ 1)
      × (access path (bind_mounts files binds) ≡ (
          if some_bind (asks path) files binds
          then some (not (some_bind (asks_to_write path) files binds))
          else none))
unfolding bind_mounts mounts_of access merged
bind_mounts-access path files binds =
    (mounts_of-add_binds path files binds [] (omega arith), access-add_binds path files binds [])
