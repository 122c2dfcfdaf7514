-- ===== src/DockerProxy/Messages.antt =====
-- pkg/docker-proxy/proxy.go and helpers.go: the messages, and what the proxy reads off them. A
-- request has a number, its identity where the source compares pointers.
use remote_docker_agent.Prelude.{
  ℕ, Bool, true, false, not, ◌&&◌, ◌||◌, Option, none, some, List, [], ◌∷◌, ◌==◌, leb,
  if◌then◌else◌, length, Text, codes, is_empty, text_eq, split, has_prefix,
}

pub record Request : Type 0 where
  pub number : ℕ
  pub method : Text
  pub path : Text
  pub proto_major : ℕ
  pub proto_minor : ℕ
  pub connection : Text

-- `api_version` is the first value of the header `Api-Version`; `created_id` the `Id` of a body
-- that parses as the answer to a create request.
pub record Response : Type 0 where
  pub status_code : ℕ
  pub connection : Text
  pub upgrade : Text
  pub api_version : Option Text
  pub created_id : Option Text

unfoldable pub is_connection_upgrade : Response → Bool
is_connection_upgrade resp = (resp.status_code == 101) || not (is_empty resp.upgrade)

unfoldable pub should_close_connection : Request → Response → Bool
should_close_connection req resp =
    if text_eq resp.connection (codes "close")
    then true
    else if text_eq req.connection (codes "close")
    then true
    else if (req.proto_major == 1) && (req.proto_minor == 0)
    then not (text_eq req.connection (codes "Keep-Alive"))
    else false

unfoldable pub every : (ℕ → Bool) → Text → Bool
every test [] = true
every test (c ∷ s) = test c && every test s

unfoldable pub is_digit : ℕ → Bool
is_digit c = leb b'0' c && leb c b'9'

unfoldable pub is_hex_letter : ℕ → Bool
is_hex_letter c = is_digit c || (leb b'a' c && leb c b'f')

unfoldable pub is_alphanumeric : ℕ → Bool
is_alphanumeric c = is_digit c || ((leb b'a' c && leb c b'z') || (leb b'A' c && leb c b'Z'))

-- `v[\d.]+`
unfoldable pub is_version : Text → Bool
is_version [] = false
is_version (c ∷ s) = (c == b'v') && (not (is_empty s) && every (λ d. is_digit d || (d == b'.')) s)

-- `[a-f0-9]+`
unfoldable pub is_hex_id : Text → Bool
is_hex_id s = not (is_empty s) && every is_hex_letter s

-- `[a-zA-Z0-9][a-zA-Z0-9_.-]+`
unfoldable pub is_id_or_name : Text → Bool
is_id_or_name [] = false
is_id_or_name (c ∷ s) =
    is_alphanumeric c
    && (not (is_empty s)
        && every (λ d. is_alphanumeric d || ((d == b'_') || ((d == b'.') || (d == b'-')))) s)

-- `^([a-f0-9]{64})$`
unfoldable pub is_full_container_id : Text → Bool
is_full_container_id s = (length s == 64) && every is_hex_letter s

-- The segments of `/v[\d.]+/containers/...` behind `containers`.
unfoldable pub behind_containers : List Text → Option (List Text)
behind_containers [] = none
behind_containers (a ∷ []) = none
behind_containers (a ∷ v ∷ []) = none
behind_containers (a ∷ v ∷ c ∷ rest) =
    if is_empty a && (is_version v && text_eq c (codes "containers")) then some rest else none

unfoldable pub container_segments : Text → Option (List Text)
container_segments path = behind_containers (split b'/' path)

unfoldable pub only_create : Option (List Text) → Bool
only_create none = false
only_create (some []) = false
only_create (some (s ∷ [])) = text_eq s (codes "create")
only_create (some (s ∷ t ∷ rest)) = false

unfoldable pub is_container_create : Text → Bool
is_container_create path = only_create (container_segments path)

-- An id that the test admits, followed by exactly the action.
unfoldable pub id_before : (Text → Bool) → Text → Option (List Text) → Option Text
id_before test action none = none
id_before test action (some []) = none
id_before test action (some (s ∷ [])) = none
id_before test action (some (s ∷ t ∷ [])) = if test s && text_eq t action then some s else none
id_before test action (some (s ∷ t ∷ u ∷ rest)) = none

unfoldable pub container_start : Text → Option Text
container_start path = id_before is_hex_id (codes "start") (container_segments path)

unfoldable pub container_stop : Text → Option Text
container_stop path = id_before is_id_or_name (codes "stop") (container_segments path)

unfoldable pub last_id : Option (List Text) → Option Text
last_id none = none
last_id (some []) = none
last_id (some (s ∷ [])) = if is_id_or_name s then some s else none
last_id (some (s ∷ t ∷ rest)) = none

unfoldable pub container_remove : Text → Option Text
container_remove path = last_id (container_segments path)

-- The wait pattern has no end: anything may follow `/wait`.
unfoldable pub id_before_wait : Option (List Text) → Option Text
id_before_wait none = none
id_before_wait (some []) = none
id_before_wait (some (s ∷ [])) = none
id_before_wait (some (s ∷ t ∷ rest)) =
    if is_hex_id s && has_prefix t (codes "wait") then some s else none

unfoldable pub container_wait : Text → Option Text
container_wait path = id_before_wait (container_segments path)

-- `^/v([\d.]+)/`, and 1.45 where it does not match.
unfoldable pub version_of : List Text → Text
version_of [] = codes "1.45"
version_of (a ∷ []) = codes "1.45"
version_of (a ∷ v ∷ []) = codes "1.45"
version_of (a ∷ [] ∷ c ∷ rest) = codes "1.45"
version_of (a ∷ (v ∷ version) ∷ c ∷ rest) =
    if is_empty a && is_version (v ∷ version) then version else codes "1.45"

unfoldable pub extract_api_version : Text → Text
extract_api_version path = version_of (split b'/' path)
