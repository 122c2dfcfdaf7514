-- ===== src/Bridge/Creation.antt =====
-- pkg/docker-proxy/mutagen-bridge: what setupSingleForward and setupSingleSync share: the URL of the
-- other endpoint, the labels, the configuration files, the parsing of settings, and the loops of
-- SetupForwards and SetupSyncs. Mutagen is a parameter: its enumerations are their numbers, of which
-- 0 is the default.
pub mod Returns
pub mod Added
use remote_docker_agent.Prelude.{
  ℕ, ◌≡◌, Bool, true, false, not, ◌&&◌, ◌||◌, Option, none, some, List, [], ◌∷◌, ◌++◌,
  if◌then◌else◌, Text, codes, is_empty, text_eq, eq_text, Map, insert, Result, ok, err, ◌>>=◌, ◌>>◌,
  guard,
}
use remote_docker_agent.Net.{cut}
use remote_docker_agent.Tunnel.{Kind, Url, UrlError, Parsers, parse_ts_tunnel_url}

-- `types.Config`
pub record TransportConfig : Type 0 where
  pub listen_addr : Text
  pub transport_type : Text
  pub ssh_user : Text
  pub ssh_host : Text
  pub ssh_key_path : Text
  pub remote_docker : Text
  pub ts_tunnel_server : Text
  pub ts_tunnel_cert_file : Text
  pub ts_tunnel_key_file : Text
  pub ts_tunnel_ca_file : Text
  pub ts_insecure : Bool

-- A setting for the session, and one for each endpoint (of a forward: source and destination).
pub record PerEndpoint {ℓ} (A : Type ℓ) : Type ℓ where
  pub whole : A
  pub alpha : A
  pub beta : A

-- What a text is parsed as.
pub data Setting : Type 0 where
  socket_overwrite_mode synchronization_mode hash byte_size probe_mode scan_mode : Setting
  stage_mode symbolic_link_mode watch_mode ignore_syntax permissions_mode : Setting
  file_mode compression : Setting

pub data SetupError : Type 0 where
  bad_destination bad_source : UrlError → SetupError
  bad_name bad_label_key bad_label_value no_configuration_path bad_configuration : SetupError
  bad_setting : Text → SetupError
  not_created : Text → SetupError

-- A panic, or an error that the caller logs.
pub data Failure : Type 0 where
  panics : Failure
  fails : SetupError → Failure

-- `global.LoadConfiguration` and `ToInternal`.
pub data Loaded (C : Type 0) : Type 0 where
  no_file load_failed : Loaded C
  loaded : C → Loaded C

pub record Mutagen (C : Type 0) : Type 0 where
  pub parsers : Parsers
  pub query_escape : Text → Text
  pub is_name : Text → Bool
  pub is_label_key : Text → Bool
  pub is_label_value : Text → Bool
  pub configuration_path : Option Text
  pub load_configuration : Text → Loaded C
  pub is_valid : C → Bool
  pub no_configuration : C
  pub merge : C → C → C
  pub unmarshal : Setting → Text → Option ℕ
  pub is_ownership : Text → Bool

-- The arguments of a session manager's `Create`.
pub record Specification (C : Type 0) : Type 0 where
  pub alpha : Url
  pub beta : Url
  pub configurations : PerEndpoint C
  pub name : Text
  pub labels : Map Text Text
  pub paused : Bool
  pub prompter : Text

-- `containerID[:8]`
unfoldable pub short_id : Text → Result Failure Text
short_id (a ∷ b ∷ c ∷ d ∷ e ∷ f ∷ g ∷ h ∷ rest) = ok (a ∷ b ∷ c ∷ d ∷ e ∷ f ∷ g ∷ h ∷ [])
short_id _ = err panics

unfoldable pub compressed_or_panic : Option Text → Result Failure Text
compressed_or_panic none = err panics
compressed_or_panic (some label) = ok label

unfoldable pub or_bad_url {ℓ} :
    {A : Type ℓ} → (UrlError → SetupError) → Result UrlError A → Result Failure A
or_bad_url failure (ok a) = ok a
or_bad_url failure (err e) = err (fails (failure e))

module _ {C : Type 0} (mutagen : Mutagen C) where
  -- The parameters behind the path of a tunnel URL.
  unfoldable pub tunnel_query : TransportConfig → Text
  tunnel_query config =
      codes "?a=a"
      ++ ((if not (is_empty config.ts_tunnel_cert_file) && not (is_empty config.ts_tunnel_key_file)
            then codes "&cert="
              ++ (mutagen.query_escape config.ts_tunnel_cert_file
                  ++ (codes "&key=" ++ mutagen.query_escape config.ts_tunnel_key_file))
            else [])
          ++ ((if is_empty config.ts_tunnel_ca_file
                then []
                else codes "&ca=" ++ mutagen.query_escape config.ts_tunnel_ca_file)
              ++ (if config.ts_insecure then codes "&insecure=true" else [])))

  -- The URL of the remote endpoint, by the tunnel or by SSH.
  unfoldable pub remote_url : TransportConfig → Kind → Text → Text → Result UrlError Url
  remote_url config kind tunnel_path ssh_path =
      if text_eq config.transport_type (codes "tinyscale")
      then parse_ts_tunnel_url mutagen.parsers
          (codes "ts://" ++ (config.ts_tunnel_server ++ (tunnel_path ++ tunnel_query config))) kind
      else mutagen.parsers.parse_mutagen
          (config.ssh_user ++ b'@' ∷ (config.ssh_host ++ b':' ∷ ssh_path)) kind

  unfoldable pub label_parts : Text → Option (Text × Text) → Text × Text
  label_parts label none = (label, [])
  label_parts label (some parts) = parts

  -- The labels `key=value`; later ones replace earlier ones.
  unfoldable pub add_labels : Map Text Text → List Text → Result Failure (Map Text Text)
  add_labels labels [] = ok labels
  add_labels labels (label ∷ rest) =
      let (key, value) = label_parts label (cut b'=' label) in
      guard (mutagen.is_label_key key) (fails bad_label_key)
      >> (guard (mutagen.is_label_value value) (fails bad_label_value)
          >> add_labels (insert key value labels) rest)

  -- loadAndValidateGlobal…Configuration
  unfoldable pub validated : Loaded C → Loaded C
  validated no_file = no_file
  validated load_failed = load_failed
  validated (loaded c) = if mutagen.is_valid c then loaded c else load_failed

  unfoldable pub load_and_validate : Text → Loaded C
  load_and_validate path = validated (mutagen.load_configuration path)

  -- The global file may be missing.
  unfoldable pub merge_global : C → Loaded C → Result Failure C
  merge_global configuration no_file = ok configuration
  merge_global configuration load_failed = err (fails bad_configuration)
  merge_global configuration (loaded c) = ok (mutagen.merge configuration c)

  unfoldable pub with_global : Bool → C → Result Failure C
  with_global no_global configuration =
      if no_global then ok configuration else elim mutagen.configuration_path [
        | none ↦ err (fails no_configuration_path)
        | some path ↦ merge_global configuration (load_and_validate path)
      ]

  unfoldable pub merge_file : C → Loaded C → Result Failure C
  merge_file configuration no_file = err (fails bad_configuration)
  merge_file configuration load_failed = err (fails bad_configuration)
  merge_file configuration (loaded c) = ok (mutagen.merge configuration c)

  unfoldable pub with_files : C → List Text → Result Failure C
  with_files configuration [] = ok configuration
  with_files configuration (path ∷ paths) =
      merge_file configuration (load_and_validate path) >>= λ merged. with_files merged paths

  -- A setting keeps its default where its text is empty.
  unfoldable pub parse_setting : Setting → Text → Result Failure ℕ
  parse_setting setting [] = ok 0
  parse_setting setting (c ∷ text) = elim (mutagen.unmarshal setting (c ∷ text)) [
    | none ↦ err (fails (bad_setting (c ∷ text)))
    | some n ↦ ok n
  ]

  unfoldable pub parse_settings : Setting → PerEndpoint Text → Result Failure (PerEndpoint ℕ)
  parse_settings setting texts = do
    whole ← parse_setting setting texts.whole
    alpha ← parse_setting setting texts.alpha
    beta ← parse_setting setting texts.beta
    ok (record { whole = whole; alpha = alpha; beta = beta })

  unfoldable pub ensure_ownership : Text → Result Failure (Unit {0})
  ensure_ownership text =
      guard (is_empty text || mutagen.is_ownership text) (fails (bad_setting text))

  unfoldable pub ensure_ownerships : PerEndpoint Text → Result Failure (Unit {0})
  ensure_ownerships texts = do
    ensure_ownership texts.whole
    ensure_ownership texts.alpha
    ensure_ownership texts.beta

module _ {ℓ} {C : Type 0} {S : Type ℓ} (create : Specification C → S → Result Text Text × S) where
  unfoldable pub created : Result Text Text × S → Option (Result SetupError Text × S)
  created (ok session, sessions) = some (ok session, sessions)
  created (err e, sessions) = some (err (not_created e), sessions)

  -- A panic is `none`; what fails before `Create` leaves the sessions as they are.
  unfoldable pub setup_single :
      Result Failure (Specification C) → S → Option (Result SetupError Text × S)
  setup_single (ok specification) sessions = created (create specification sessions)
  setup_single (err panics) sessions = none
  setup_single (err (fails e)) sessions = some (err e, sessions)

-- The session's id, which is empty after an error.
unfoldable pub session_id : Result SetupError Text → Text
session_id (ok id) = id
session_id (err e) = []

module _ {ℓ κ} {B : Type κ} {S : Type ℓ}
    (single : B → S → Option (Result SetupError Text × S)) where
  -- The ids that are stored in the bindings, in their order, which nothing reads.
  unfoldable pub setup_each : List B → S → Option (List Text × S)
  setup_each [] sessions = some ([], sessions)
  setup_each (binding ∷ bindings) sessions = elim (single binding sessions) [
    | none ↦ none
    | some (r, after) ↦ elim (setup_each bindings after) [
      | none ↦ none
      | some (ids, left) ↦ some (session_id r ∷ ids, left)
    ]
  ]
