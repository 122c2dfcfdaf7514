-- ===== src/Tunnel.antt =====
-- pkg/ts-tunnel/url.go and dial.go: addresses of the tunnel. `url.Parse` is a parameter, given by
-- what the code reads of its result.
pub mod Address
pub mod Exec
mod Tests
use remote_docker_agent.Prelude.{
  ℕ, ◌+◌, ◌-◌, ◌%◌, ◌≡◌, Bool, true, false, not, ◌&&◌, ◌||◌, Option, none, some, List, [], ◌∷◌,
  ◌++◌, ◌==◌, leb, if◌then◌else◌, Text, codes, is_empty, text_eq, has_prefix, drop, eq_text, Map,
  lookup, insert, Result, ok, err, ◌>>=◌, ◌>>◌, guard, ℤ, pos, negsuc, atoi, decimal,
}
use remote_docker_agent.Net.{cut_last, split_host_port}

pub record ParsedUrl : Type 0 where
  pub host : Text
  pub path : Text
  pub query : Map Text (List Text)

pub data Kind : Type 0 where
  synchronization forwarding : Kind

pub data Protocol : Type 0 where
  local ssh tinyscale : Protocol

-- Mutagen's URL.
pub record Url : Type 0 where
  pub kind : Kind
  pub protocol : Protocol
  pub host : Text
  pub port : ℕ
  pub path : Text
  pub parameters : Map Text Text

pub data UrlError : Type 0 where
  not_parsed no_server_addr half_certificate : UrlError

-- `url.Parse`, and Mutagen's own parsing of URLs that are not the tunnel's.
pub record Parsers : Type 0 where
  pub parse : Text → Option ParsedUrl
  pub parse_mutagen : Text → Kind → Result UrlError Url

unfoldable pub use_tls : Text → Text → Text → Bool → Bool
use_tls client_cert client_key ca_cert insecure =
    (not (is_empty client_cert) && not (is_empty client_key))
    || (not (is_empty ca_cert) || insecure)

-- The first values of the query's keys.
unfoldable pub first_values : Map Text (List Text) → Map Text Text
first_values [] = []
first_values ((key, []) ∷ query) = first_values query
first_values ((key, value ∷ values) ∷ query) = insert key value (first_values query)

-- `params[key]`, empty where it is missing.
unfoldable pub value_or_empty : Option Text → Text
value_or_empty none = []
value_or_empty (some s) = s

unfoldable pub param : Text → Map Text Text → Text
param key params = value_or_empty (lookup key params)

unfoldable pub all_digits : Text → Bool
all_digits [] = true
all_digits (c ∷ s) = (leb b'0' c && leb c b'9') && all_digits s

unfoldable pub without_last_bracket : Text → Option Text
without_last_bracket [] = none
without_last_bracket (c ∷ []) = if c == b']' then some [] else none
without_last_bracket (c ∷ d ∷ s) = elim (without_last_bracket (d ∷ s)) [
  | none ↦ none
  | some inner ↦ some (c ∷ inner)
]

unfoldable pub or_whole : Text → Option Text → Text
or_whole whole none = whole
or_whole whole (some inner) = inner

unfoldable pub without_brackets : Text → Text
without_brackets [] = []
without_brackets (c ∷ s) = if c == b'[' then or_whole (c ∷ s) (without_last_bracket s) else c ∷ s

-- `Hostname` and `Port` of a parsed URL: a port is digits behind the last colon.
unfoldable pub host_and_port : Text → Option (Text × Text) → Text × Text
host_and_port whole none = (without_brackets whole, [])
host_and_port whole (some (front, port)) =
    if all_digits port then (without_brackets front, port) else (without_brackets whole, [])

unfoldable pub url_host_port : Text → Text × Text
url_host_port host = host_and_port host (cut_last b':' host)

unfoldable pub default_port : Map Text Text → Text
default_port params =
    if use_tls (param (codes "cert") params) (param (codes "key") params)
      (param (codes "ca") params) (not (is_empty (param (codes "insecure") params)))
    then codes "443"
    else codes "80"

unfoldable pub or_default : Text → Text → Text
or_default [] fallback = fallback
or_default (c ∷ s) fallback = c ∷ s

-- `(uint32)(n)`, and port 80 where there is no number.
unfoldable pub port_number : Option ℤ → ℕ
port_number none = 80
port_number (some (pos n)) = n % 4294967296
port_number (some (negsuc n)) = 4294967295 - n % 4294967296

unfoldable pub has_half_certificate : Text → Text → Bool
has_half_certificate cert key =
    (not (is_empty cert) && is_empty key) || (is_empty cert && not (is_empty key))

unfoldable pub tunnel_url : Kind → ParsedUrl → Result UrlError Url
tunnel_url kind u = do
  guard (not (is_empty u.host)) no_server_addr
  guard
      (not (
        has_half_certificate (param (codes "cert") (first_values u.query))
          (param (codes "key") (first_values u.query))))
      half_certificate
  ok (record {
    kind = kind;
    protocol = tinyscale;
    host = (url_host_port u.host).0;
    port =
        port_number
          (atoi (or_default (url_host_port u.host).1 (default_port (first_values u.query))));
    path = u.path;
    parameters = first_values u.query;
  })

unfoldable pub parsed_tunnel_url : Kind → Option ParsedUrl → Result UrlError Url
parsed_tunnel_url kind none = err not_parsed
parsed_tunnel_url kind (some u) = tunnel_url kind u

unfoldable pub parse_ts_tunnel_url : Parsers → Text → Kind → Result UrlError Url
parse_ts_tunnel_url parsers raw_url kind =
    if has_prefix raw_url (codes "ts://")
    then parsed_tunnel_url kind (parsers.parse raw_url)
    else parsers.parse_mutagen raw_url kind

unfoldable pub is_port_443 : Option (Text × Text) → Bool
is_port_443 none = false
is_port_443 (some (h, p)) = text_eq p (codes "443")

unfoldable pub is_tls_port : Text → Bool
is_tls_port server_addr = is_port_443 (split_host_port server_addr)

unfoldable pub host_part : Option (Text × Text) → Text
host_part none = []
host_part (some (h, p)) = h

unfoldable pub url_host_name : Text → Text
url_host_name server_addr = host_part (split_host_port server_addr)

unfoldable pub int_or_zero : Option ℤ → ℤ
int_or_zero none = pos 0
int_or_zero (some n) = n

unfoldable pub port_part : Option (Text × Text) → ℤ
port_part none = pos 0
port_part (some (h, p)) = int_or_zero (atoi p)

unfoldable pub url_port : Text → ℤ
url_port server_addr = port_part (split_host_port server_addr)

-- `ServerOptions`
pub record ServerOptions : Type 0 where
  pub server_addr : Text
  pub cert_file : Text
  pub key_file : Text
  pub ca_file : Text
  pub insecure : Bool

-- The files of a TLS configuration: whether `tls.LoadX509KeyPair` loads a certificate with its key,
-- and whether a file can be read and has a CA certificate.
pub record TlsFiles : Type 0 where
  pub loads_pair : Text → Text → Bool
  pub parses_ca : Text → Bool

-- A TLS configuration, with the files that its certificates are from.
pub record TlsConfig : Type 0 where
  pub server_name : Text
  pub certificate : Option (Text × Text)
  pub root_ca : Option Text
  pub skips_verify : Bool

-- The certificate of a configuration, if any; `none` is an error.
unfoldable pub built_pair : TlsFiles → Text → Text → Option (Option (Text × Text))
built_pair files cert key =
    if not (is_empty cert) && not (is_empty key)
    then if files.loads_pair cert key then some (some (cert, key)) else none
    else if not (is_empty cert) || not (is_empty key)
    then none
    else some none

unfoldable pub built_ca : TlsFiles → Text → Option (Option Text)
built_ca files ca =
    if is_empty ca then some none else if files.parses_ca ca then some (some ca) else none

unfoldable pub config_of :
    Text → Bool → Option (Option (Text × Text)) → Option (Option Text) → Option TlsConfig
config_of name insecure none ca = none
config_of name insecure (some pair) none = none
config_of name insecure (some pair) (some ca) =
    some (record { server_name = name; certificate = pair; root_ca = ca; skips_verify = insecure })

-- `Build`, for a server's address and the files of its options.
unfoldable pub build : TlsFiles → ServerOptions → Option TlsConfig
build files opts =
    config_of (url_host_name opts.server_addr) opts.insecure
      (built_pair files opts.cert_file opts.key_file) (built_ca files opts.ca_file)

-- How `Dial` connects, where it is not refused for an empty address or a configuration that cannot be
-- built: by TLS or plainly.
pub data Connects : Type 0 where
  refuses not_built plainly : Connects
  by_tls : TlsConfig → Connects

unfoldable pub built : Option TlsConfig → Connects
built none = not_built
built (some config) = by_tls config

-- The configuration that was built before, if any, and else one that is built now.
unfoldable pub dial_config : TlsFiles → ServerOptions → Option TlsConfig → Connects
dial_config files opts none = built (build files opts)
dial_config files opts (some config) = by_tls config

unfoldable pub dial : TlsFiles → ServerOptions → Option TlsConfig → Connects
dial files opts tls_cfg =
    if is_empty opts.server_addr
    then refuses
    else if use_tls opts.cert_file opts.key_file opts.ca_file opts.insecure
    then dial_config files opts tls_cfg
    else plainly

-- The options that the protocol handlers take from a URL.
unfoldable pub options_of : Url → ServerOptions
options_of u = record {
  server_addr = u.host ++ b':' ∷ decimal u.port;
  cert_file = param (codes "cert") u.parameters;
  key_file = param (codes "key") u.parameters;
  ca_file = param (codes "ca") u.parameters;
  insecure = not (is_empty (param (codes "insecure") u.parameters));
}
