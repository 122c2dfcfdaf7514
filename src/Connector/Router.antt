-- ===== src/Connector/Router.antt =====
-- pkg/connector/http_router.go: the backend port by the path of the first request, and the bytes that
-- reach the backend.
use remote_docker_agent.Prelude.{
  ℕ, ◌≡◌, ap, subst, ◌∙◌, sym, inl, inr, Bool, true, ◌||◌, none, some, List, [], ◌∷◌, ◌++◌,
  append_assoc, if◌then◌else◌, Option-cases, take, drop, take-append-drop, Text, codes, is_empty,
  has_prefix, nat_eq, eq_text, Result, ok, err, ◌>>=◌, ◌>>◌, guard, >>-eq-ok, >>=-eq-ok,
  guard-eq-ok, ℤ, decimal_int, arith, refl, ◌⊎◌, false,
}
use mathlib.Core.Path.{ap₂}
use remote_docker_agent.Net.{cut, cut-eq-some, cut-eq-none, cut-contains, contains, fields}

pub record HttpRouter : Type 0 where
  pub backend_host : Text
  pub docker_port : ℤ
  pub host_exec_port : ℤ

pub data RouterError : Type 0 where
  request_line_unread invalid_request_line backend_unreachable write_failed : RouterError

-- The network: whether a backend accepts a connection, and a write on it.
pub record Backend : Type 0 where
  pub dials : Text → Bool
  pub accepts : Text → Bool

-- `path[:idx]` at the first question mark.
without_query : Text → Text
without_query path = elim (cut b'?' path) [ none ↦ path | some (before, _) ↦ before ]

path_of : List Text → Result RouterError Text
unfolding without_query
path_of (method ∷ path ∷ version ∷ _) = ok (without_query path)
path_of _ = err invalid_request_line

-- Trimming the line first changes none of its fields.
unfoldable pub extract_path_from_request_line : Text → Result RouterError Text
unfolding path_of
extract_path_from_request_line request_line = path_of (fields request_line)

abbrev pub host_exec_prefix : Text
host_exec_prefix = codes "/tinyscale/v1/host-exec/"

unfoldable pub determine_port : HttpRouter → Text → ℤ
determine_port r path =
    if has_prefix path host_exec_prefix
    then r.host_exec_port
    else if has_prefix path (codes "/v1/")
    then r.docker_port
    else r.docker_port

-- A proxied connection: where to, what the router has written there, and what it leaves of the
-- client's bytes to `utils.CopyBiDirectional`.
pub record Proxied : Type 0 where
  pub backend_addr : Text
  pub written : Text
  pub left : Text

unfoldable pub backend_addr_of : HttpRouter → Text → Text
backend_addr_of r path = r.backend_host ++ b':' ∷ decimal_int (determine_port r path)

-- `ReadString('\n')`: the line with its end, and the rest.
read_line : Text → Result RouterError (Text × Text)
read_line stream = elim (cut b'\n' stream) [
  | none ↦ err request_line_unread
  | some (line, rest) ↦ ok (line ++ b'\n' ∷ [], rest)
]

-- `stream` is what the client sends; behind the first line, the reader has buffered so many bytes.
unfoldable pub route_and_proxy : HttpRouter → Backend → Text → ℕ → Result RouterError Proxied
unfolding read_line
route_and_proxy r net stream buffered = do
  (request_line, rest) ← read_line stream
  path ← extract_path_from_request_line request_line
  let addr = backend_addr_of r path
  guard (net.dials addr) backend_unreachable
  guard (net.accepts request_line) write_failed
  guard (is_empty (take buffered rest) || net.accepts (take buffered rest)) write_failed
  ok (record {
    backend_addr = addr;
    written = request_line ++ take buffered rest;
    left = drop buffered rest;
  })

read_line-eq-ok :
    (stream line rest : Text) → read_line stream ≡ ok (line, rest) → stream ≡ line ++ rest
unfolding read_line
read_line-eq-ok stream line rest e = elim (Option-cases (cut b'\n' stream)) [
  | inl m ↦ let k = rw (m, read_line) at e in cc
  | inr ((a, b), m) ↦
      let k : ok (a ++ b'\n' ∷ [], b) ≡ ok (line, rest) = rw (m, read_line) at e in
      let first : a ++ b'\n' ∷ [] ≡ line = cc in
      let second : b ≡ rest = cc in
      cut-eq-some b'\n' stream m ∙ sym (append_assoc a (b'\n' ∷ []) b) ∙ ap₂ ◌++◌ first second
]

port_choice :
    (r : HttpRouter) (path : Text)
    → backend_addr_of r path
      ≡ r.backend_host
        ++ b':'
          ∷ decimal_int
              (if has_prefix path host_exec_prefix then r.host_exec_port else r.docker_port)
unfolding backend_addr_of determine_port
port_choice r path = ground arith

-- The path that a stream's first line asks for: its second word, up to the first question mark.
pub record AsksFor (path stream : Text) : Type 0 where
  pub line : Text
  pub behind : Text
  pub method : Text
  pub uri : Text
  pub version : Text
  pub others : List Text
  pub stream_is : stream ≡ line ++ b'\n' ∷ behind
  pub first_line : contains b'\n' line ≡ false
  pub words : fields (line ++ b'\n' ∷ []) ≡ method ∷ uri ∷ version ∷ others
  pub no_query : contains b'?' path ≡ false
  pub uri_is : (uri ≡ path) ⊎ ((query : Text) × (uri ≡ path ++ b'?' ∷ query))

without_query_lem :
    (uri : Text)
    → (contains b'?' (without_query uri) ≡ false)
      × ((uri ≡ without_query uri) ⊎ ((query : Text) × (uri ≡ without_query uri ++ b'?' ∷ query)))
unfolding without_query
without_query_lem uri = elim (Option-cases (cut b'?' uri)) [
  | inl e ↦ rw (e, without_query) (cut-eq-none b'?' uri e, inl refl)
  | inr ((path, query), e) ↦
      rw (e, without_query) (cut-contains b'?' uri e, inr (query, cut-eq-some b'?' uri e))
]

path_of-eq-ok :
    (words : List Text) {path : Text}
    → path_of words ≡ ok path
    → (method : Text) × (uri : Text) × (version : Text) × (others : List Text) × (words
        ≡ method ∷ uri ∷ version ∷ others)
      × (without_query uri ≡ path)
unfolding path_of
path_of-eq-ok [] e = cc
path_of-eq-ok (method ∷ []) e = cc
path_of-eq-ok (method ∷ uri ∷ []) e = cc
path_of-eq-ok (method ∷ uri ∷ version ∷ others) e = (method, uri, version, others, refl, cc)

read_line-cut :
    (stream line rest : Text)
    → read_line stream ≡ ok (line, rest)
    → (front : Text) × (cut b'\n' stream ≡ some (front, rest)) × (front ++ b'\n' ∷ [] ≡ line)
unfolding read_line
read_line-cut stream line rest e = elim (Option-cases (cut b'\n' stream)) [
  | inl m ↦ let k = rw (m, read_line) at e in cc
  | inr ((a, b), m) ↦
      let k : ok (a ++ b'\n' ∷ [], b) ≡ ok (line, rest) = rw (m, read_line) at e in
      let second : b ≡ rest = cc in (a, m ∙ ap (λ s. some (a, s)) second, cc)
]

path-AsksFor :
    (stream line rest path : Text)
    → read_line stream ≡ ok (line, rest)
    → extract_path_from_request_line line ≡ ok path
    → AsksFor path stream
unfolding extract_path_from_request_line
path-AsksFor stream line rest path l e =
    let (front, c, joined) = read_line-cut stream line rest l in
    let (method, uri, version, others, words, same) = path_of-eq-ok (fields line) e in
    let (no_query, uri_is) = without_query_lem uri in
    record {
      line = front;
      behind = rest;
      method = method;
      uri = uri;
      version = version;
      others = others;
      stream_is = cut-eq-some b'\n' stream c;
      first_line = cut-contains b'\n' stream c;
      words = ap fields joined ∙ words;
      no_query = subst (λ p. contains b'?' p ≡ false) same no_query;
      uri_is = subst (λ p. (uri ≡ p) ⊎ ((query : Text) × (uri ≡ p ++ b'?' ∷ query))) same uri_is;
    }

-- A connection is proxied only when its first line has three words, of which the second, up to a
-- question mark, is the path. It goes to the host-exec port when that path has the host-exec prefix
-- and to the Docker port else, and what the router writes there, the line and the bytes that are
-- buffered behind it, is with what it leaves to the copying all that the client sent, in order.
pub route_and_proxy_sound :
    (r : HttpRouter) (net : Backend) (stream : Text) (buffered : ℕ) {p : Proxied}
    → route_and_proxy r net stream buffered ≡ ok p
    → (path : Text) × AsksFor path stream
      × (p.backend_addr
          ≡ r.backend_host
            ++ b':'
              ∷ decimal_int
                  (if has_prefix path host_exec_prefix then r.host_exec_port else r.docker_port))
      × (net.dials p.backend_addr ≡ true)
      × (p.written ++ p.left ≡ stream)
unfolding route_and_proxy
route_and_proxy_sound r net stream buffered {p} e =
    let ((line, rest), l, e1) = >>=-eq-ok (read_line stream) _ e in
    let (path, asked, e2) = >>=-eq-ok (extract_path_from_request_line line) _ e1 in
    let (d, e3) = >>-eq-ok (guard (net.dials (backend_addr_of r path)) backend_unreachable) _ e2 in
    let (_, e4) = >>-eq-ok (guard (net.accepts line) write_failed) _ e3 in
    let (_, e5) =
      >>-eq-ok
        (guard (is_empty (take buffered rest) || net.accepts (take buffered rest)) write_failed) _
        e4 in
    let addr : backend_addr_of r path ≡ p.backend_addr = cc in
    let written : line ++ take buffered rest ≡ p.written = cc in
    let left : drop buffered rest ≡ p.left = cc in
    (
      path,
      path-AsksFor stream line rest path l asked,
      sym addr ∙ port_choice r path,
      subst (λ a. net.dials a ≡ true) addr (guard-eq-ok _ _ d),
      sym (ap₂ ◌++◌ written left)
          ∙ append_assoc line (take buffered rest) (drop buffered rest)
          ∙ ap (◌++◌ line) (take-append-drop buffered rest)
          ∙ sym (read_line-eq-ok stream line rest l),
    )
