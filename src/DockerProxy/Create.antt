-- ===== src/DockerProxy/Create.antt =====
-- pkg/docker-proxy/proxy-api-create.go and proxy-file-sync.go: creating a container. The source
-- reads the body twice, into a struct and as a generic map; a field of the generic map is `none`
-- where it has another type than the code asks for.
use remote_docker_agent.Prelude.{
  ℕ, ◌++◌, Bool, false, not, ◌&&◌, ◌||◌, Option, none, some, List, [], ◌∷◌, ◌==◌, if◌then◌else◌,
  length, Text, codes, is_empty, text_eq, split, join,
}
use remote_docker_agent.Bridge.PortForward.{
  PortForwardManager, store_port_bindings_start, store_port_bindings_end,
}
use remote_docker_agent.Bridge.FileSync.{
  FileSyncManager, Files, store_bind_mounts_start, store_bind_mounts_end,
}
use remote_docker_agent.DockerProxy.Messages.{Response}
use remote_docker_agent.Bridge.FileSync.{sync_base_path}

pub record MountRequest : Type 0 where
  pub type_ : Text
  pub source : Text
  pub target : Text
  pub read_only : Bool

-- The struct's HostConfig; a port binding is given by its `HostPort`.
pub record HostConfig : Type 0 where
  pub port_bindings : List (Text × List Text)
  pub binds : List Text
  pub mounts : List MountRequest

pub record GenericMount : Type 0 where
  pub type_ : Option Text
  pub source : Option Text
  pub target : Option Text

pub record GenericConfig : Type 0 where
  pub binds : Option (List (Option Text))
  pub mounts : Option (List (Option GenericMount))

-- `encoding/json` on bodies: the struct, the map's `HostConfig` object, and the body with that
-- object's `Binds` and the sources of its `Mounts` replaced.
pub record Codec {ℓ} (B : Type ℓ) : Type ℓ where
  pub unmarshal : B → Option HostConfig
  pub unmarshal_map : B → Option (Option GenericConfig)
  pub marshal_with : GenericConfig → B → Option B

unfoldable pub bind_of : Text → Text → Text → List Text → Text
bind_of base_path source target [] = base_path ++ source ++ b':' ∷ target
bind_of base_path source target (flag ∷ flags) =
    base_path ++ source ++ b':' ∷ (target ++ b':' ∷ join b':' (flag ∷ flags))

unfoldable pub rewritten : Text → Text → List Text → Text
rewritten bind base_path [] = bind
rewritten bind base_path (source ∷ []) = bind
rewritten bind base_path (source ∷ target ∷ flags) = bind_of base_path source target flags

unfoldable pub rewrite_bind_mount : Text → Text → Text
rewrite_bind_mount bind base_path = rewritten bind base_path (split b':' bind)

-- The binds that are texts, each rewritten; the others are dropped.
unfoldable pub rewrite_binds : List (Option Text) → List (Option Text)
rewrite_binds [] = []
rewrite_binds (none ∷ binds) = rewrite_binds binds
rewrite_binds (some bind ∷ binds) =
    some (rewrite_bind_mount bind sync_base_path) ∷ rewrite_binds binds

-- Whether rewriting changes one of the binds.
unfoldable pub binds_change : List (Option Text) → Bool
binds_change [] = false
binds_change (none ∷ binds) = binds_change binds
binds_change (some bind ∷ binds) =
    not (text_eq (rewrite_bind_mount bind sync_base_path) bind) || binds_change binds

-- `x, _ := v.(string)`
unfoldable pub text_or_empty : Option Text → Text
text_or_empty none = []
text_or_empty (some s) = s

unfoldable pub is_rewritten_mount : GenericMount → Bool
is_rewritten_mount m =
    text_eq (text_or_empty m.type_) (codes "bind")
    && (not (is_empty (text_or_empty m.source)) && not (is_empty (text_or_empty m.target)))

unfoldable pub rewrite_mount : GenericMount → GenericMount
rewrite_mount m =
    if is_rewritten_mount m
    then record {
      type_ = m.type_;
      source = some (sync_base_path ++ text_or_empty m.source);
      target = m.target;
    }
    else m

unfoldable pub rewrite_mounts : List (Option GenericMount) → List (Option GenericMount)
rewrite_mounts [] = []
rewrite_mounts (none ∷ mounts) = none ∷ rewrite_mounts mounts
rewrite_mounts (some m ∷ mounts) = some (rewrite_mount m) ∷ rewrite_mounts mounts

unfoldable pub mounts_change : List (Option GenericMount) → Bool
mounts_change [] = false
mounts_change (none ∷ mounts) = mounts_change mounts
mounts_change (some m ∷ mounts) = is_rewritten_mount m || mounts_change mounts

unfoldable pub rewrite_if_binds : Option (List (Option Text)) → Option (List (Option Text))
rewrite_if_binds none = none
rewrite_if_binds (some binds) = some (rewrite_binds binds)

unfoldable pub rewrite_if_mounts :
    Option (List (Option GenericMount)) → Option (List (Option GenericMount))
rewrite_if_mounts none = none
rewrite_if_mounts (some mounts) = some (rewrite_mounts mounts)

unfoldable pub rewrite_config : GenericConfig → GenericConfig
rewrite_config c = record { binds = rewrite_if_binds c.binds; mounts = rewrite_if_mounts c.mounts }

unfoldable pub if_present {ℓ} : {A : Type ℓ} → (A → Bool) → Option A → Bool
if_present test none = false
if_present test (some a) = test a

unfoldable pub needs_rewrite : GenericConfig → Bool
needs_rewrite c = if_present binds_change c.binds || if_present mounts_change c.mounts

-- The body to send instead of the original one, if any.
unfoldable pub replaced_body {ℓ} :
    {B : Type ℓ} → Codec B → B → Option (Option GenericConfig) → Option B
replaced_body codec body none = none
replaced_body codec body (some none) = none
replaced_body codec body (some (some c)) =
    if needs_rewrite c then codec.marshal_with (rewrite_config c) body else none

unfoldable pub host_ports_set : List Text → List Text
host_ports_set [] = []
host_ports_set (p ∷ ports) =
    let rest = host_ports_set ports in if is_empty p then rest else p ∷ rest

unfoldable pub port_bindings_set : List (Text × List Text) → List (Text × List Text)
port_bindings_set [] = []
port_bindings_set ((container_port, ports) ∷ bindings) =
    let rest = port_bindings_set bindings in
    if length (host_ports_set ports) == 0
    then rest
    else (container_port, host_ports_set ports) ∷ rest

unfoldable pub mount_requests : List MountRequest → List Text
mount_requests [] = []
mount_requests (m ∷ mounts) =
    let rest = mount_requests mounts in
    if text_eq m.type_ (codes "bind")
    then (m.source ++ b':' ∷ (if m.read_only then m.target ++ codes ":ro" else m.target)) ∷ rest
    else rest

unfoldable pub requested_mounts : HostConfig → List Text
requested_mounts c = c.binds ++ mount_requests c.mounts

-- What handling a request leaves: the managers, and the body that is sent instead.
pub record Handled {ℓ} (B : Type ℓ) : Type ℓ where
  pub forwards : PortForwardManager
  pub syncs : FileSyncManager
  pub replaced : Option B

module _ {ℓ} {B : Type ℓ} (codec : Codec B) (files : Files) where
  unfoldable pub store_forwards :
      ℕ → List (Text × List Text) → PortForwardManager → PortForwardManager
  store_forwards req bindings forwards =
      if length bindings == 0 then forwards else store_port_bindings_start req bindings forwards

  unfoldable pub handle_config :
      ℕ → B → PortForwardManager → FileSyncManager → Option HostConfig → Handled B
  handle_config req body forwards syncs none = record {
    forwards = forwards;
    syncs = syncs;
    replaced = none;
  }
  handle_config req body forwards syncs (some c) =
      let stored = store_forwards req (port_bindings_set c.port_bindings) forwards in
      let mounts = requested_mounts c in
      if length mounts == 0
      then record { forwards = stored; syncs = syncs; replaced = none }
      else record {
        forwards = stored;
        syncs = store_bind_mounts_start files req mounts syncs;
        replaced = replaced_body codec body (codec.unmarshal_map body);
      }

  -- A body that is missing or cannot be read changes nothing.
  unfoldable pub handle_container_create_request :
      ℕ → Option B → PortForwardManager → FileSyncManager → Handled B
  handle_container_create_request req none forwards syncs = record {
    forwards = forwards;
    syncs = syncs;
    replaced = none;
  }
  handle_container_create_request req (some body) forwards syncs =
      handle_config req body forwards syncs (codec.unmarshal body)

-- The id that a response to a create request names; the empty text where it fails.
unfoldable pub created_container : Response → Text
created_container resp = if resp.status_code == 201 then text_or_empty resp.created_id else []

unfoldable pub handle_container_create_response :
    ℕ → Response → PortForwardManager × FileSyncManager → PortForwardManager × FileSyncManager
handle_container_create_response req resp (forwards, syncs) = (
  store_port_bindings_end req (created_container resp) forwards,
  store_bind_mounts_end req (created_container resp) syncs,
)
