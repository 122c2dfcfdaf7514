-- ===== src/Connector/Proxy.antt =====
-- pkg/connector/proxy.go: `handleConnection`, from the handshake to the backend. Certificates are
-- verified by a parameter.
use remote_docker_agent.Prelude.{
  ℕ, ◌≡◌, refl, subst, ◌∙◌, Bool, true, false, none, some, List, [], ◌∷◌, ◌++◌, if◌then◌else◌, Text,
  has_prefix, nat_eq, eq_text, Result, ok, err, ◌>>=◌, ◌>>◌, guard, >>-eq-ok, >>=-eq-ok,
  guard-eq-ok, ℤ, decimal_int,
}
use remote_docker_agent.Net.{contains, split_host_port, split_host_port_no_colon}
use remote_docker_agent.Connector.Identity.{
  Uri, UserIdentity, IdentityError, extract_user_identity, extract_user_identity_iff, FirstNamed,
}
use remote_docker_agent.Connector.Sni.{
  SniError, parse_connect_id_from_sni, parse_connect_id_iff, IsLabelOf,
}
use remote_docker_agent.Connector.Database.{
  BackendHost, Database, row, DbError, RouteTarget, is_user_authorized, route_connection,
}
use remote_docker_agent.Connector.Authorization.{
  Team, AnswersTeams, MayAccess, RoutesTo, route_connection_iff,
}
use remote_docker_agent.Connector.Router.{
  HttpRouter, Backend, Proxied, RouterError, route_and_proxy, route_and_proxy_sound, AsksFor,
  host_exec_prefix,
}

-- A client certificate, as far as the proxy reads it.
abbrev pub Certificate : Type 0
Certificate = List Uri

pub record Connection : Type 0 where
  pub is_tls : Bool
  pub handshakes : Bool
  pub peer_certificates : List Certificate
  pub server_name : Text
  pub stream : Text
  pub buffered : ℕ

pub data ConnError : Type 0 where
  not_tls handshake_failed no_client_certificate invalid_certificate : ConnError
  no_identity : IdentityError → ConnError
  bad_sni : SniError → ConnError
  routing_failed : DbError → ConnError
  proxy_failed : RouterError → ConnError

-- `if err != nil { log; return }`
abbrev or_return {ℓ κ} :
    {E : Type κ} {A : Type ℓ} → Result E A → (E → ConnError) → Result ConnError A
or_return (ok a) f = ok a
or_return (err e) f = err (f e)

first_certificate : List Certificate → Result ConnError Certificate
first_certificate [] = err no_client_certificate
first_certificate (cert ∷ _) = ok cert

-- `upstreamHost, _, err := net.SplitHostPort(...)`: on an error the host is empty, and the handler
-- logs the error and goes on.
unfoldable pub upstream_host : Text → Text
unfolding split_host_port
upstream_host addr = elim (split_host_port addr) [ none ↦ [] | some (host, _) ↦ host ]

module _ (verify : Certificate → Bool) (db : Database) (net : Backend)
    (docker_port host_exec_port : ℤ) where
  router_to : Text → HttpRouter
  unfolding upstream_host
  router_to addr = record {
    backend_host = upstream_host addr;
    docker_port = docker_port;
    host_exec_port = host_exec_port;
  }

  unfoldable pub handle_connection : Connection → ℕ → Result ConnError Proxied
  unfolding first_certificate router_to
  handle_connection conn n = do
    guard conn.is_tls not_tls
    guard conn.handshakes handshake_failed
    client_cert ← first_certificate conn.peer_certificates
    guard (verify client_cert) invalid_certificate
    identity ← or_return (extract_user_identity (some client_cert)) no_identity
    connect_id ← or_return (parse_connect_id_from_sni conn.server_name) bad_sni
    target ←
        or_return (route_connection db identity.user_id identity.org_id connect_id n).0
          routing_failed
    or_return (route_and_proxy (router_to target.backend_addr) net conn.stream conn.buffered)
        proxy_failed

or_return-eq-ok {ℓ κ} :
    {E : Type κ} {A : Type ℓ} (r : Result E A) (f : E → ConnError) {a : A}
    → or_return r f ≡ ok a
    → r ≡ ok a
or_return-eq-ok (ok b) f e = cc
or_return-eq-ok (err x) f e = cc

first_certificate-eq-ok :
    (certs : List Certificate) {c : Certificate}
    → first_certificate certs ≡ ok c
    → (rest : List Certificate) × (certs ≡ c ∷ rest)
unfolding first_certificate
first_certificate-eq-ok [] e = cc
first_certificate-eq-ok (c ∷ rest) e = (rest, cc)

-- All that stands behind a proxied connection.
pub record IsAdmitted (verify : Certificate → Bool) (db : Database) (teams : List Team)
    (conn : Connection) (n : ℕ) (addr : Text) : Type 0 where
  pub cert : Certificate
  pub others : List Certificate
  pub identity : UserIdentity
  pub connect_id : Text
  pub host : BackendHost
  pub target : RouteTarget
  pub tls : conn.is_tls ≡ true
  pub handshakes : conn.handshakes ≡ true
  pub presented : conn.peer_certificates ≡ cert ∷ others
  pub verified : verify cert ≡ true
  pub named : FirstNamed identity cert
  pub label : IsLabelOf connect_id conn.server_name
  pub read : db.backend_host_row n connect_id ≡ row host
  pub access : MayAccess teams host identity.user_id identity.org_id
  pub routes :
      RoutesTo db
        (is_user_authorized db identity.user_id identity.org_id connect_id n).1
        connect_id
        target
  pub addr_is : target.backend_addr ≡ addr

module _ (verify : Certificate → Bool) (db : Database) (teams : List Team)
    (answers : AnswersTeams db teams) (net : Backend) (docker_port host_exec_port : ℤ) where
  -- The proxy opens a backend connection only for a client whose TLS handshake is done, whose first
  -- certificate is verified and names an identity, and whose identity may access the host that the
  -- server name's first label stands for. The backend is at the host part of that host's address, and
  -- at the port that the path of the client's first line asks for; what is written there, with what
  -- is left to the copying, is exactly what the client sent.
  pub handle_connection-IsAdmitted :
      (conn : Connection) (n : ℕ) {p : Proxied}
      → handle_connection verify db net docker_port host_exec_port conn n ≡ ok p
      → (addr : Text) × IsAdmitted verify db teams conn n addr
        × ((path : Text) × AsksFor path conn.stream
            × (p.backend_addr
                ≡ upstream_host addr
                  ++ b':'
                    ∷ decimal_int
                        (if has_prefix path host_exec_prefix then host_exec_port else docker_port)))
        × (net.dials p.backend_addr ≡ true)
        × (p.written ++ p.left ≡ conn.stream)
  handle_connection-IsAdmitted conn n {p} e =
      unfold handle_connection in
      let (a, e1) = >>-eq-ok (guard conn.is_tls not_tls) _ e in
      let (b, e2) = >>-eq-ok (guard conn.handshakes handshake_failed) _ e1 in
      let (cert, c, e3) = >>=-eq-ok (first_certificate conn.peer_certificates) _ e2 in
      let (d, e4) = >>-eq-ok (guard (verify cert) invalid_certificate) _ e3 in
      let (i, f, e5) = >>=-eq-ok (or_return (extract_user_identity (some cert)) no_identity) _ e4 in
      let (id, g, e6) =
        >>=-eq-ok (or_return (parse_connect_id_from_sni conn.server_name) bad_sni) _ e5 in
      let (t, h, e7) =
        >>=-eq-ok (or_return (route_connection db i.user_id i.org_id id n).0 routing_failed) _ e6 in
      let (others, presented) = first_certificate-eq-ok conn.peer_certificates c in
      let ((host, read, access), routes) =
        (route_connection_iff db teams answers i.user_id i.org_id id n t).0
          (or_return-eq-ok _ _ h) in
      let (path, asked, addr, dials, sent) =
        route_and_proxy_sound _ net conn.stream conn.buffered (or_return-eq-ok _ _ e7) in
      (
        t.backend_addr,
        record {
          cert = cert;
          others = others;
          identity = i;
          connect_id = id;
          host = host;
          target = t;
          tls = guard-eq-ok _ _ a;
          handshakes = guard-eq-ok _ _ b;
          presented = presented;
          verified = guard-eq-ok _ _ d;
          named = (extract_user_identity_iff cert i).0 (or_return-eq-ok _ _ f);
          label = (parse_connect_id_iff conn.server_name id).0 (or_return-eq-ok _ _ g);
          read = read;
          access = access;
          routes = routes;
          addr_is = refl;
        },
        (path, asked, addr),
        dials,
        sent,
      )

-- An address with no port: an IP address alone.
abbrev pub IsBare : Text → Type 0
IsBare addr = (contains b':' addr ≡ false) × (contains b'[' addr ≡ false)

upstream_host_of_bare : (addr : Text) → IsBare addr → upstream_host addr ≡ []
upstream_host_of_bare addr (h, k) =
    unfold upstream_host in rw (split_host_port_no_colon addr h k, upstream_host)

module _ (verify : Certificate → Bool) (db : Database) (teams : List Team)
    (answers : AnswersTeams db teams) (net : Backend) (docker_port host_exec_port : ℤ) where
  -- Where the table stores addresses without a port, the error of `net.SplitHostPort` does not stop
  -- the handler: every connection that is proxied goes to an empty host, which is the proxy's own, at the port that its path asks for.
  pub handle_connection-IsBare :
      (conn : Connection) (n : ℕ) {p : Proxied}
      → ((m : ℕ) (connect_id : Text) (host : BackendHost)
          → db.backend_host_row m connect_id ≡ row host
          → IsBare host.internal_ip_addr)
      → handle_connection verify db net docker_port host_exec_port conn n ≡ ok p
      → (path : Text) × AsksFor path conn.stream
        × (p.backend_addr
            ≡ b':'
              ∷ decimal_int
                  (if has_prefix path host_exec_prefix then host_exec_port else docker_port))
  handle_connection-IsBare conn n bare e =
      let (addr, admitted, (path, asked, dialled), _, _) =
        handle_connection-IsAdmitted verify db teams answers net docker_port host_exec_port conn n
          e in
      let r = admitted.routes in
      let no_port = bare _ _ r.host r.read in
      let is_bare = subst IsBare (r.addr ∙ admitted.addr_is) no_port in
      (path, asked, dialled ∙ rw (upstream_host_of_bare addr is_bare))
