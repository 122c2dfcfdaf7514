-- ===== src/Bridge/FileSync/Settings.antt =====
-- pkg/docker-proxy/mutagen-bridge/file-sync.go: the configuration of a container's
-- synchronization sessions.
use remote_docker_agent.Prelude.{
  ℕ, ◌%◌, Bool, true, false, List, [], ◌∷◌, ◌++◌, if◌then◌else◌, Text, codes, is_empty, split,
  eq_text, Result, ok, err, ◌>>=◌, ◌>>◌, guard,
}
use remote_docker_agent.Bridge.Creation.{
  PerEndpoint, synchronization_mode, hash, byte_size, probe_mode, scan_mode, stage_mode,
  symbolic_link_mode, watch_mode, ignore_syntax, permissions_mode, file_mode, compression,
  bad_setting, Failure, fails, Mutagen, with_global, with_files, parse_setting, parse_settings,
  ensure_ownerships,
}

-- `fsCreateConfiguration`; a setting, alpha's and beta's are one field.
pub record CreateConfiguration : Type 0 where
  pub help : Bool
  pub name : Text
  pub labels : List Text
  pub paused : Bool
  pub no_global_configuration : Bool
  pub configuration_files : List Text
  pub synchronization_mode : Text
  pub hash : Text
  pub maximum_entry_count : ℕ
  pub maximum_staging_file_size : Text
  pub probe_mode : PerEndpoint Text
  pub scan_mode : PerEndpoint Text
  pub stage_mode : PerEndpoint Text
  pub symbolic_link_mode : Text
  pub watch_mode : PerEndpoint Text
  pub watch_polling_interval : PerEndpoint ℕ
  pub ignore_syntax : Text
  pub ignores : List Text
  pub ignore_vcs : Bool
  pub no_ignore_vcs : Bool
  pub permissions_mode : Text
  pub default_file_mode : PerEndpoint Text
  pub default_directory_mode : PerEndpoint Text
  pub default_owner : PerEndpoint Text
  pub default_group : PerEndpoint Text
  pub compression : PerEndpoint Text

abbrev unset : PerEndpoint Text
unset = record { whole = []; alpha = []; beta = [] }

-- `filepath.Base`: the last element of a path.
unfoldable pub last_element : Text → List Text → Text
last_element last [] = last
last_element last (s ∷ ss) = last_element (if is_empty s then last else s) ss

unfoldable pub base : Text → Text
base [] = codes "."
base (c ∷ path) = last_element (codes "/") (split b'/' (c ∷ path))

unfoldable pub create_configuration : Text → Text → Text → CreateConfiguration
create_configuration short label host_path = record {
  help = false;
  name = codes "sync-" ++ (short ++ (codes "-" ++ base host_path));
  labels = (codes "container-id=" ++ label) ∷ [];
  paused = false;
  no_global_configuration = false;
  configuration_files = [];
  synchronization_mode = codes "two-way-resolved";
  hash = [];
  maximum_entry_count = 0;
  maximum_staging_file_size = [];
  probe_mode = unset;
  scan_mode = unset;
  stage_mode = unset;
  symbolic_link_mode = [];
  watch_mode = unset;
  watch_polling_interval = record { whole = 0; alpha = 0; beta = 0 };
  ignore_syntax = [];
  ignores = [];
  ignore_vcs = false;
  no_ignore_vcs = false;
  permissions_mode = [];
  default_file_mode = record { whole = []; alpha = []; beta = codes "666" };
  default_directory_mode = record { whole = []; alpha = []; beta = codes "777" };
  default_owner = unset;
  default_group = unset;
  compression = unset;
}

-- The fields that the literals of `synchronization.Configuration` set for the session alone.
pub record SessionSettings : Type 0 where
  pub synchronization_mode : ℕ
  pub hashing_algorithm : ℕ
  pub maximum_entry_count : ℕ
  pub maximum_staging_file_size : ℕ
  pub symbolic_link_mode : ℕ
  pub ignore_syntax : ℕ
  pub ignores : List Text
  pub ignore_vcs_mode : ℕ
  pub permissions_mode : ℕ

-- The fields that they set for an endpoint as well.
pub record EndpointSettings : Type 0 where
  pub probe_mode : ℕ
  pub scan_mode : ℕ
  pub stage_mode : ℕ
  pub watch_mode : ℕ
  pub watch_polling_interval : ℕ
  pub default_file_mode : ℕ
  pub default_directory_mode : ℕ
  pub default_owner : Text
  pub default_group : Text
  pub compression_algorithm : ℕ

-- What Mutagen says of the modes of permissions, and its numbers for the handling of VCS directories.
pub record SyncModes (C : Type 0) : Type 0 where
  pub is_default_permissions : ℕ → Bool
  pub default_permissions : ℕ
  pub is_file_mode : ℕ → ℕ → Bool
  pub is_directory_mode : ℕ → ℕ → Bool
  pub vcs_ignore : ℕ
  pub vcs_propagate : ℕ
  pub of_session : SessionSettings → EndpointSettings → C
  pub of_endpoint : EndpointSettings → C

module _ {C : Type 0} (mutagen : Mutagen C) (modes : SyncModes C) where
  unfoldable pub parse_vcs_mode : Bool → Bool → Result Failure ℕ
  parse_vcs_mode true true = err (fails (bad_setting []))
  parse_vcs_mode true false = ok modes.vcs_ignore
  parse_vcs_mode false true = ok modes.vcs_propagate
  parse_vcs_mode false false = ok 0

  unfoldable pub effective_permissions : ℕ → ℕ
  effective_permissions mode =
      if modes.is_default_permissions mode then modes.default_permissions else mode

  -- A mode of files or directories, 0 where its text is empty.
  unfoldable pub parse_mode : (ℕ → Bool) → Text → Result Failure ℕ
  parse_mode is_mode [] = ok 0
  parse_mode is_mode (c ∷ text) = do
    mode ← parse_setting mutagen file_mode (c ∷ text)
    guard (is_mode mode) (fails (bad_setting (c ∷ text)))
    ok mode

  unfoldable pub parse_modes : (ℕ → Bool) → PerEndpoint Text → Result Failure (PerEndpoint ℕ)
  parse_modes is_mode texts = do
    whole ← parse_mode is_mode texts.whole
    alpha ← parse_mode is_mode texts.alpha
    beta ← parse_mode is_mode texts.beta
    ok (record { whole = whole; alpha = alpha; beta = beta })

  unfoldable pub ensure_owners : CreateConfiguration → Result Failure (Unit {0})
  ensure_owners c = do
    ensure_ownerships mutagen c.default_owner
    ensure_ownerships mutagen c.default_group

  unfoldable pub parse_compression : CreateConfiguration → Result Failure (PerEndpoint ℕ)
  parse_compression c = parse_settings mutagen compression c.compression

  unfoldable pub parse_sync_settings :
      CreateConfiguration → Result Failure (SessionSettings × PerEndpoint EndpointSettings)
  parse_sync_settings c = do
    sync ← parse_setting mutagen synchronization_mode c.synchronization_mode
    hashing ← parse_setting mutagen hash c.hash
    staging ← parse_setting mutagen byte_size c.maximum_staging_file_size
    probe ← parse_settings mutagen probe_mode c.probe_mode
    scan ← parse_settings mutagen scan_mode c.scan_mode
    stage ← parse_settings mutagen stage_mode c.stage_mode
    symlinks ← parse_setting mutagen symbolic_link_mode c.symbolic_link_mode
    watch ← parse_settings mutagen watch_mode c.watch_mode
    syntax ← parse_setting mutagen ignore_syntax c.ignore_syntax
    vcs ← parse_vcs_mode c.ignore_vcs c.no_ignore_vcs
    permissions ← parse_setting mutagen permissions_mode c.permissions_mode
    files ← parse_modes (modes.is_file_mode (effective_permissions permissions)) c.default_file_mode
    directories ←
        parse_modes (modes.is_directory_mode (effective_permissions permissions))
          c.default_directory_mode
    ensure_owners c
    compressed ← parse_compression c
    ok (
      record {
        synchronization_mode = sync;
        hashing_algorithm = hashing;
        maximum_entry_count = c.maximum_entry_count;
        maximum_staging_file_size = staging;
        symbolic_link_mode = symlinks;
        ignore_syntax = syntax;
        ignores = c.ignores;
        ignore_vcs_mode = vcs;
        permissions_mode = permissions;
      },
      record {
        whole = record {
          probe_mode = probe.whole;
          scan_mode = scan.whole;
          stage_mode = stage.whole;
          watch_mode = watch.whole;
          watch_polling_interval = c.watch_polling_interval.whole;
          default_file_mode = files.whole % 4294967296;
          default_directory_mode = directories.whole % 4294967296;
          default_owner = c.default_owner.whole;
          default_group = c.default_group.whole;
          compression_algorithm = compressed.whole;
        };
        alpha = record {
          probe_mode = probe.alpha;
          scan_mode = scan.alpha;
          stage_mode = stage.alpha;
          watch_mode = watch.alpha;
          watch_polling_interval = c.watch_polling_interval.alpha;
          default_file_mode = files.alpha % 4294967296;
          default_directory_mode = directories.alpha % 4294967296;
          default_owner = c.default_owner.alpha;
          default_group = c.default_group.alpha;
          compression_algorithm = compressed.alpha;
        };
        beta = record {
          probe_mode = probe.beta;
          scan_mode = scan.beta;
          stage_mode = stage.beta;
          watch_mode = watch.beta;
          watch_polling_interval = c.watch_polling_interval.beta;
          default_file_mode = files.beta % 4294967296;
          default_directory_mode = directories.beta % 4294967296;
          default_owner = c.default_owner.beta;
          default_group = c.default_group.beta;
          compression_algorithm = compressed.beta;
        };
      },
    )

  unfoldable pub sync_configurations : CreateConfiguration → Result Failure (PerEndpoint C)
  sync_configurations c = do
    global ← with_global mutagen c.no_global_configuration mutagen.no_configuration
    defaults ← with_files mutagen global c.configuration_files
    parsed ← parse_sync_settings c
    ok (record {
      whole = mutagen.merge defaults (modes.of_session parsed.0 parsed.1.whole);
      alpha = modes.of_endpoint parsed.1.alpha;
      beta = modes.of_endpoint parsed.1.beta;
    })
