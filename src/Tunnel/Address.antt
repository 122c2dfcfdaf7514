-- ===== src/Tunnel/Address.antt =====
-- pkg/ts-tunnel: the address and the port that a parsed URL leads to, and the connection made there.
use remote_docker_agent.Prelude.{
  ℕ, ◌<◌, ◌≡◌, refl, Bool, false, not, none, some, [], ◌∷◌, ◌==◌, if◌then◌else◌, All, Text, codes,
  is_empty, Map, decimal, decimal-All-IsDigit, IsDigit, arith,
}
use remote_docker_agent.Net.{contains, split_host_port, split_host_port-append}
use remote_docker_agent.Tunnel.{Url, use_tls, param, options_of}

-- Digits hold none of the characters of an address.
digits-contains :
    (c : ℕ) (s : Text)
    → All IsDigit s
    → ((d : ℕ) → IsDigit d → (d == c) ≡ false)
    → contains c s ≡ false
unfolding contains
digits-contains c [] h n = refl
digits-contains c (d ∷ s) h n = rw (n d h.0) (digits-contains c s h.1 n)

decimal-contains : (c n : ℕ) → (b'9' < c) → contains c (decimal n) ≡ false
decimal-contains c n h =
    digits-contains c (decimal n) (decimal-All-IsDigit n) (λ d i. ground (arith, i.1))

-- The address that a protocol handler connects to, for a host without brackets, splits into the
-- URL's host and port when the host has no colon, and is no address at all when it has one, as an
-- IPv6 host does, whose brackets are gone.
pub options_of-server_addr :
    (u : Url)
    → contains b'[' u.host ≡ false
    → contains b']' u.host ≡ false
    → split_host_port (options_of u).server_addr
      ≡ (if contains b':' u.host then none else some (u.host, decimal u.port))
unfolding options_of
options_of-server_addr u h1 h2 =
    split_host_port-append u.host (decimal u.port) h1 h2
      (decimal-contains b':' u.port (omega arith)) (decimal-contains b'[' u.port (omega arith))
      (decimal-contains b']' u.port (omega arith))

-- A URL's own TLS parameters.
unfoldable pub is_secure : Map Text Text → Bool
is_secure params =
    use_tls (param (codes "cert") params) (param (codes "key") params) (param (codes "ca") params)
      (not (is_empty (param (codes "insecure") params)))
