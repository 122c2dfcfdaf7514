-- ===== src/Connector/Config.antt =====
-- pkg/connector/config.go: `Config.Validate` and `DatabaseConfig.Validate`. `os.Stat` is a parameter.
use remote_docker_agent.Prelude.{
  ℕ, ◌≤◌, ◌≡◌, ◌≢◌, refl, ◌↔◌, Bool, true, not, List, [], ◌∷◌, ◌++◌, ltb, length, Text, codes,
  is_empty, nat_eq, eq_text, Result, ok, ◌>>◌, guard, >>-eq-ok, guard-eq-ok, ℤ, pos, negsuc, within,
  decimal_int, All, arith,
}

pub record DatabaseConfig : Type 0 where
  pub host : Text
  pub port : ℤ
  pub user : Text
  pub password : Text
  pub db_name : Text
  pub connection_timeout : ℤ
  pub max_open_conns : ℤ
  pub max_idle_conns : ℤ
  pub conn_max_lifetime : ℤ
  pub conn_max_idle_time : ℤ

pub record Config : Type 0 where
  pub listen_addr : Text
  pub ca_cert_paths : List Text
  pub server_cert_path : Text
  pub server_key_path : Text
  pub client_cert_path : Text
  pub client_key_path : Text
  pub database : DatabaseConfig
  pub docker_port : ℤ
  pub host_exec_port : ℤ

pub data ConfigError : Type 0 where
  listen_addr_required ca_cert_required server_cert_required server_key_required : ConfigError
  client_cert_required client_key_required client_cert_not_found client_key_not_found : ConfigError
  database_host_required database_port_range database_user_required : ConfigError
  database_password_required database_name_required : ConfigError
  ca_cert_not_found : Text → ConfigError

abbrev pub Checked : Type 0
Checked = Result ConfigError (Unit {0})

-- `if s == "" { return e }`
abbrev pub required : Text → ConfigError → Checked
required s e = guard (not (is_empty s)) e

-- `DatabaseConfig.Validate`
pub validate_database : DatabaseConfig → Checked
validate_database d = do
  required d.host database_host_required
  guard (within 1 65535 d.port) database_port_range
  required d.user database_user_required
  required d.password database_password_required
  required d.db_name database_name_required

module _ (stat : Text → Bool) where
  ca_certs_exist : List Text → Checked
  ca_certs_exist [] = ok tt
  ca_certs_exist (path ∷ paths) = do
    guard (stat path) (ca_cert_not_found path)
    ca_certs_exist paths

  unfoldable pub validate : Config → Checked
  unfolding ca_certs_exist validate_database
  validate c = do
    required c.listen_addr listen_addr_required
    guard (ltb 0 (length c.ca_cert_paths)) ca_cert_required
    ca_certs_exist c.ca_cert_paths
    required c.server_cert_path server_cert_required
    required c.server_key_path server_key_required
    required c.client_cert_path client_cert_required
    required c.client_key_path client_key_required
    guard (stat c.client_cert_path) client_cert_not_found
    guard (stat c.client_key_path) client_key_not_found
    validate_database c.database

-- `DatabaseConfig.ConnectionString`
unfoldable pub connection_string : DatabaseConfig → Text
connection_string d =
    codes "host="
    ++ d.host
    ++ codes " port="
    ++ decimal_int d.port
    ++ codes " user="
    ++ d.user
    ++ codes " password="
    ++ d.password
    ++ codes " dbname="
    ++ d.db_name
    ++ codes " connect_timeout="
    ++ decimal_int d.connection_timeout
    ++ codes " sslmode=disable"

-- `DefaultConfig`; durations in seconds.
unfoldable pub default_config : Config
default_config = record {
  listen_addr = codes ":8443";
  ca_cert_paths = [];
  server_cert_path = [];
  server_key_path = [];
  client_cert_path = [];
  client_key_path = [];
  database = record {
    host = codes "127.0.0.1";
    port = pos 5432;
    user = codes "tinyscale";
    password = codes "tinyscale";
    db_name = codes "tinyscale-ssh";
    connection_timeout = pos 5;
    max_open_conns = pos 50;
    max_idle_conns = pos 50;
    conn_max_lifetime = pos 3600;
    conn_max_idle_time = pos 1800;
  };
  docker_port = pos 0;
  host_exec_port = pos 0;
}

-- What a configuration must satisfy, in no order.
abbrev pub InRange : ℤ → Type 0
InRange p = (n : ℕ) × (p ≡ pos n) × (1 ≤ n) × (n ≤ 65535)

pub record IsUsableDatabase (d : DatabaseConfig) : Type 0 where
  pub host : d.host ≢ []
  pub port : InRange d.port
  pub user : d.user ≢ []
  pub password : d.password ≢ []
  pub db_name : d.db_name ≢ []

pub record IsUsable (stat : Text → Bool) (c : Config) : Type 0 where
  pub listen_addr : c.listen_addr ≢ []
  pub some_ca : c.ca_cert_paths ≢ []
  pub cas_exist : All (λ p. stat p ≡ true) c.ca_cert_paths
  pub server_cert : c.server_cert_path ≢ []
  pub server_key : c.server_key_path ≢ []
  pub client_cert : c.client_cert_path ≢ []
  pub client_key : c.client_key_path ≢ []
  pub client_cert_exists : stat c.client_cert_path ≡ true
  pub client_key_exists : stat c.client_key_path ≡ true
  pub database : IsUsableDatabase c.database

required-eq-ok : (s : Text) (e : ConfigError) → required s e ≡ ok tt → s ≢ []
required-eq-ok s e h = ground arith

required_of_ne : (s : Text) (e : ConfigError) → s ≢ [] → required s e ≡ ok tt
required_of_ne s e h = ground arith

InRange-iff : (p : ℤ) → (within 1 65535 p ≡ true) ↔ InRange p
unfolding within
InRange-iff (pos n) =
    (λ h. (n, refl, ground arith, ground arith), λ h. let (m, e, lo, hi) = h in ground arith)
InRange-iff (negsuc n) = (λ h. cc, λ h. let (m, e, lo, hi) = h in cc)

-- The database part passes exactly when every field is usable.
pub validate_database_iff :
    (d : DatabaseConfig) → (validate_database d ≡ ok tt) ↔ IsUsableDatabase d
validate_database_iff d = (
  λ e.
      unfold validate_database in
      let (a, e1) = >>-eq-ok (required d.host database_host_required) _ e in
      let (b, e2) = >>-eq-ok (guard (within 1 65535 d.port) database_port_range) _ e1 in
      let (c, e3) = >>-eq-ok (required d.user database_user_required) _ e2 in
      let (p, n) = >>-eq-ok (required d.password database_password_required) _ e3 in
      record {
        host = required-eq-ok d.host _ a;
        port = (InRange-iff d.port).0 (guard-eq-ok _ _ b);
        user = required-eq-ok d.user _ c;
        password = required-eq-ok d.password _ p;
        db_name = required-eq-ok d.db_name _ n;
      },
  λ v.
      unfold validate_database in
      rw
        (
          required_of_ne d.host database_host_required v.host,
          (InRange-iff d.port).1 v.port,
          required_of_ne d.user database_user_required v.user,
          required_of_ne d.password database_password_required v.password,
        )
        (required_of_ne d.db_name database_name_required v.db_name),
)

ca_certs_exist_iff :
    (stat : Text → Bool) (ps : List Text)
    → (ca_certs_exist stat ps ≡ ok tt) ↔ All (λ p. stat p ≡ true) ps
unfolding ca_certs_exist
ca_certs_exist_iff stat [] = (λ _. tt, λ _. refl)
ca_certs_exist_iff stat (p ∷ ps) = ground (arith, ca_certs_exist_iff stat ps)

ne_of_length : (ps : List Text) → ltb 0 (length ps) ≡ true → ps ≢ []
ne_of_length ps h = ground arith

length_of_ne : (ps : List Text) → ps ≢ [] → ltb 0 (length ps) ≡ true
length_of_ne [] h = absurd (h refl)
length_of_ne (p ∷ ps) h = ground arith

-- `Validate` accepts a configuration exactly when every required setting is there, the port of the
-- database is between 1 and 65535, and the authorities' certificates and the client's certificate
-- and key are there on disk.
pub validate_iff : (stat : Text → Bool) (c : Config) → (validate stat c ≡ ok tt) ↔ IsUsable stat c
validate_iff stat c = (
  λ e.
      unfold validate in
      let (a, e1) = >>-eq-ok (required c.listen_addr listen_addr_required) _ e in
      let (b, e2) = >>-eq-ok (guard (ltb 0 (length c.ca_cert_paths)) ca_cert_required) _ e1 in
      let (d, e3) = >>-eq-ok (ca_certs_exist stat c.ca_cert_paths) _ e2 in
      let (f, e4) = >>-eq-ok (required c.server_cert_path server_cert_required) _ e3 in
      let (g, e5) = >>-eq-ok (required c.server_key_path server_key_required) _ e4 in
      let (h, e6) = >>-eq-ok (required c.client_cert_path client_cert_required) _ e5 in
      let (i, e7) = >>-eq-ok (required c.client_key_path client_key_required) _ e6 in
      let (j, e8) = >>-eq-ok (guard (stat c.client_cert_path) client_cert_not_found) _ e7 in
      let (k, l) = >>-eq-ok (guard (stat c.client_key_path) client_key_not_found) _ e8 in
      record {
        listen_addr = required-eq-ok c.listen_addr _ a;
        some_ca = ne_of_length c.ca_cert_paths (guard-eq-ok _ _ b);
        cas_exist = (ca_certs_exist_iff stat c.ca_cert_paths).0 d;
        server_cert = required-eq-ok c.server_cert_path _ f;
        server_key = required-eq-ok c.server_key_path _ g;
        client_cert = required-eq-ok c.client_cert_path _ h;
        client_key = required-eq-ok c.client_key_path _ i;
        client_cert_exists = guard-eq-ok _ _ j;
        client_key_exists = guard-eq-ok _ _ k;
        database = (validate_database_iff c.database).0 l;
      },
  λ v.
      unfold validate in
      rw
        (
          required_of_ne c.listen_addr listen_addr_required v.listen_addr,
          length_of_ne c.ca_cert_paths v.some_ca,
          (ca_certs_exist_iff stat c.ca_cert_paths).1 v.cas_exist,
          required_of_ne c.server_cert_path server_cert_required v.server_cert,
          required_of_ne c.server_key_path server_key_required v.server_key,
          required_of_ne c.client_cert_path client_cert_required v.client_cert,
          required_of_ne c.client_key_path client_key_required v.client_key,
          v.client_cert_exists,
          v.client_key_exists,
        )
        ((validate_database_iff c.database).1 v.database),
)
