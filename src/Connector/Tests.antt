-- ===== src/Connector/Tests.antt =====
-- The connector at concrete inputs: a configuration, a certificate, a table of hosts, a connection.
use remote_docker_agent.Prelude.{
  ℕ, ◌≡◌, take, drop, refl, subst, ◌↔◌, inl, inr, Bool, true, false, not, some, List, [], ◌∷◌, ◌++◌,
  if◌then◌else◌, Bool-cases, Text, codes, is_empty, text_eq, has_prefix, trim_prefix, split, nat_eq,
  eq_text, ok, err, pos, decimal_int,
}
use remote_docker_agent.Net.{contains, cut, fields}
use remote_docker_agent.Connector.Config.{
  Config, validate, default_config, connection_string, IsUsable, validate_iff, ca_cert_required,
}
use remote_docker_agent.Connector.Identity.{
  Uri, UserIdentity, extract_user_identity, parse_spiffe_uri, Names, parse_spiffe_uri_iff,
  FirstNamed, extract_user_identity_iff,
}
use remote_docker_agent.Connector.Sni.{parse_connect_id_from_sni, IsLabelOf, parse_connect_id_iff}
use remote_docker_agent.Connector.Database.{
  BackendHost, Database, Row, row, no_rows, RouteTarget, is_user_authorized, route_connection,
  get_backend_host, authorize_on, route_to,
}
use remote_docker_agent.Connector.Authorization.{
  AnswersTeams, InTeam, MayAccess, RoutesTo, is_user_authorized_iff, route_connection_iff,
}
use remote_docker_agent.Connector.Router.{
  backend_addr_of, HttpRouter, Backend, Proxied, extract_path_from_request_line, determine_port,
  route_and_proxy, route_and_proxy_sound, AsksFor, host_exec_prefix,
}
use remote_docker_agent.Connector.Proxy.{
  Certificate, Connection, handle_connection, upstream_host, IsAdmitted, IsBare,
  handle_connection-IsAdmitted, handle_connection-IsBare,
}

abbrev filled : Config
filled = record {
  listen_addr = codes ":8443";
  ca_cert_paths = codes "/ca.pem" ∷ [];
  server_cert_path = codes "/s.pem";
  server_key_path = codes "/s.key";
  client_cert_path = codes "/c.pem";
  client_key_path = codes "/c.key";
  database = record {
    host = codes "db";
    port = pos 5432;
    user = codes "u";
    password = codes "p";
    db_name = codes "d";
    connection_timeout = pos 5;
    max_open_conns = pos 50;
    max_idle_conns = pos 50;
    conn_max_lifetime = pos 3600;
    conn_max_idle_time = pos 1800;
  };
  docker_port = pos 2375;
  host_exec_port = pos 2376;
}

abbrev on_disk : Text → Bool
on_disk path = not (is_empty path)

default_refused : validate on_disk default_config ≡ err ca_cert_required
unfolding validate default_config
default_refused = refl

connection_string_runs :
    connection_string filled.database
    ≡ codes "host=db port=5432 user=u password=p dbname=d connect_timeout=5 sslmode=disable"
unfolding connection_string decimal_int
connection_string_runs = refl

validate_iff_example : (validate on_disk filled ≡ ok tt) ↔ IsUsable on_disk filled
validate_iff_example = validate_iff on_disk filled

abbrev ann : UserIdentity
ann = record { user_id = codes "ann"; org_id = codes "acme" }

abbrev ann_uri : Uri
ann_uri = record {
  scheme = codes "spiffe";
  host = codes "elsewhere.example";
  path = codes "/orgs/acme/users/ann";
}

abbrev other_uri : Uri
other_uri = record {
  scheme = codes "spiffe";
  host = codes "tinyscale.com";
  path = codes "/orgs/acme";
}

-- The trust domain of the URI is not looked at.
extract_runs : extract_user_identity (some (other_uri ∷ ann_uri ∷ [])) ≡ ok ann
unfolding extract_user_identity has_prefix split text_eq trim_prefix
extract_runs = refl

parse_spiffe_uri_iff_example : (parse_spiffe_uri ann_uri ≡ ok ann) ↔ Names ann_uri ann
parse_spiffe_uri_iff_example = parse_spiffe_uri_iff ann_uri ann

extract_user_identity_iff_example :
    (extract_user_identity (some (other_uri ∷ ann_uri ∷ [])) ≡ ok ann)
    ↔ FirstNamed ann (other_uri ∷ ann_uri ∷ [])
extract_user_identity_iff_example = extract_user_identity_iff (other_uri ∷ ann_uri ∷ []) ann

parse_connect_id_iff_example :
    (parse_connect_id_from_sni (codes "h1.connect.tinyscale.com") ≡ ok (codes "h1"))
    ↔ IsLabelOf (codes "h1") (codes "h1.connect.tinyscale.com")
parse_connect_id_iff_example = parse_connect_id_iff (codes "h1.connect.tinyscale.com") (codes "h1")

-- One host that stores its address without a port, and no team.
abbrev host_one : BackendHost
host_one = record {
  connect_id = codes "h1";
  internal_ip_addr = codes "10.0.0.7";
  org_id = codes "acme";
  user_ids = codes "bob" ∷ codes "ann" ∷ [];
  team_ids = [];
}

abbrev one_host_row : Text → Row BackendHost
one_host_row connect_id = if text_eq connect_id (codes "h1") then row host_one else no_rows

abbrev one_host : Database
one_host = record {
  backend_host_row = λ n. one_host_row;
  exists_row = λ n statement args. row false;
}

no_team : AnswersTeams one_host []
no_team = record { answer = λ n org user ids. (λ h. cc, λ i. nobody i) }
  where
    nobody : {org user : Text} {ids : List Text} → InTeam org user ids [] → row false ≡ row true
    nobody i = elim i [ ]

is_user_authorized_iff_example :
    ((is_user_authorized one_host (codes "ann") (codes "acme") (codes "h1") 0).0 ≡ ok true) ↔ (
      (host : BackendHost) × (one_host.backend_host_row 0 (codes "h1") ≡ row host)
      × MayAccess [] host (codes "ann") (codes "acme"))
is_user_authorized_iff_example =
    is_user_authorized_iff one_host [] no_team (codes "ann") (codes "acme") (codes "h1") 0

abbrev target_one : RouteTarget
target_one = record { backend_addr = codes "10.0.0.7"; connect_id = codes "h1" }

route_connection_iff_example :
    ((route_connection one_host (codes "ann") (codes "acme") (codes "h1") 0).0 ≡ ok target_one) ↔ (
      ((host : BackendHost) × (one_host.backend_host_row 0 (codes "h1") ≡ row host)
        × MayAccess [] host (codes "ann") (codes "acme"))
      × RoutesTo one_host
          (is_user_authorized one_host (codes "ann") (codes "acme") (codes "h1") 0).1
          (codes "h1")
          target_one)
route_connection_iff_example =
    route_connection_iff one_host [] no_team (codes "ann") (codes "acme") (codes "h1") 0 target_one

abbrev open_net : Backend
open_net = record { dials = λ addr. true; accepts = λ bytes. true }

abbrev request : Text
request = codes "POST /tinyscale/v1/host-exec/command?x=1 HTTP/1.1\r\nHost: h\r\n\r\nbody"

abbrev router_one : HttpRouter
router_one = record {
  backend_host = codes "10.0.0.7";
  docker_port = pos 2375;
  host_exec_port = pos 2376;
}

abbrev proxied_one : Proxied
proxied_one = record {
  backend_addr = codes "10.0.0.7:2376";
  written = take 60 request;
  left = drop 60 request;
}

route_runs : route_and_proxy router_one open_net request 9 ≡ ok proxied_one
unfolding route_and_proxy extract_path_from_request_line fields determine_port has_prefix
    decimal_int cut backend_addr_of
route_runs = refl

route_and_proxy_sound_example :
    (path : Text) × AsksFor path request
    × (proxied_one.backend_addr
        ≡ codes "10.0.0.7"
          ++ b':' ∷ decimal_int (if has_prefix path host_exec_prefix then pos 2376 else pos 2375))
    × (open_net.dials proxied_one.backend_addr ≡ true)
    × (proxied_one.written ++ proxied_one.left ≡ request)
route_and_proxy_sound_example = route_and_proxy_sound router_one open_net request 9 route_runs

abbrev conn_one : Connection
conn_one = record {
  is_tls = true;
  handshakes = true;
  peer_certificates = (ann_uri ∷ []) ∷ [];
  server_name = codes "h1.connect.tinyscale.com";
  stream = request;
  buffered = 9;
}

abbrev accepts_all : Certificate → Bool
accepts_all cert = true

abbrev proxied_self : Proxied
proxied_self = record {
  backend_addr = codes ":2376";
  written = take 60 request;
  left = drop 60 request;
}

-- The host's address has no port, and the connection goes to the proxy's own port.
handle_runs :
    handle_connection accepts_all one_host open_net (pos 2375) (pos 2376) conn_one 0
    ≡ ok proxied_self
unfolding handle_connection extract_user_identity parse_connect_id_from_sni route_connection
    is_user_authorized get_backend_host authorize_on route_to has_prefix split text_eq trim_prefix
    route_and_proxy extract_path_from_request_line fields determine_port decimal_int upstream_host
    backend_addr_of cut
handle_runs = refl

abbrev DialsByPath : Proxied → Text → Type 0
DialsByPath p host =
    (path : Text) × AsksFor path request
    × (p.backend_addr
        ≡ host
          ++ b':' ∷ decimal_int (if has_prefix path host_exec_prefix then pos 2376 else pos 2375))

handle_connection-IsAdmitted_example :
    (addr : Text) × IsAdmitted accepts_all one_host [] conn_one 0 addr
    × DialsByPath proxied_self (upstream_host addr)
    × (open_net.dials proxied_self.backend_addr ≡ true)
    × (proxied_self.written ++ proxied_self.left ≡ request)
handle_connection-IsAdmitted_example =
    handle_connection-IsAdmitted accepts_all one_host [] no_team open_net (pos 2375) (pos 2376)
      conn_one 0 handle_runs

one_host-IsBare :
    (m : ℕ) (connect_id : Text) (host : BackendHost)
    → one_host.backend_host_row m connect_id ≡ row host
    → IsBare host.internal_ip_addr
one_host-IsBare m connect_id host e = elim (Bool-cases (text_eq connect_id (codes "h1"))) [
  | inl h ↦
      let k : row host_one ≡ row host = rw h at e in
      let same : host_one ≡ host = cc in subst (λ h. IsBare h.internal_ip_addr) same host_one_bare
  | inr h ↦ let k : no_rows ≡ row host = rw h at e in cc
]
  where
    host_one_bare : IsBare host_one.internal_ip_addr
    host_one_bare = (unfold contains in refl, unfold contains in refl)

handle_connection-IsBare_example : DialsByPath proxied_self []
handle_connection-IsBare_example =
    handle_connection-IsBare accepts_all one_host [] no_team open_net (pos 2375) (pos 2376) conn_one
      0 one_host-IsBare handle_runs
