-- ===== src/Tunnel/Tests.antt =====
-- pkg/ts-tunnel: addresses, arguments and connections at concrete inputs.
use remote_docker_agent.Prelude.{
  ℕ, ◌≡◌, ◌↔◌, refl, true, false, Option, none, some, List, [], ◌∷◌, if◌then◌else◌, Text, codes,
  text_eq, strip_prefix?, ok, err, insert, lookup, has_prefix, atoi, int_of, pos,
}
use remote_docker_agent.Net.{contains, cut_last, split_host_port}
use remote_docker_agent.Shelex.RoundTrip.{command_line}
use remote_docker_agent.Tunnel.{
  forwarding, tinyscale, ParsedUrl, Url, no_server_addr, ServerOptions, TlsFiles, TlsConfig, by_tls,
  plainly, not_built, use_tls, build, built, dial_config, built_pair, built_ca, config_of,
  first_values, param, url_host_port, default_port, or_default, port_number, has_half_certificate,
  tunnel_url, dial, options_of, url_host_name, url_port, is_tls_port, value_or_empty, host_and_port,
  without_brackets, all_digits, or_whole, without_last_bracket, host_part, port_part, int_or_zero,
  is_port_443,
}
use remote_docker_agent.Tunnel.Address.{options_of-server_addr}
use remote_docker_agent.Tunnel.Exec.{
  transport_command, ExecFlags, ExecRequest, sends, host_exec, classify_error, try_install,
  connection_error, unknown_error, mentions_any, mentions_text,
}
use remote_docker_agent.Tunnel.Exec.Transport.{
  with_server_addr, with_cert, with_key, with_ca, with_insecure, IsFlagParser, no_options,
  transport_command-parse, builds_without_pair, host_exec-plainly_iff,
}

abbrev parsed : Text → ParsedUrl
parsed host = record {
  host = host;
  path = codes "tcp:127.0.0.1:80";
  query = (codes "insecure", codes "true" ∷ []) ∷ [];
}

abbrev url_at : Text → ℕ → Url
url_at host port = record {
  kind = forwarding;
  protocol = tinyscale;
  host = host;
  port = port;
  path = codes "tcp:127.0.0.1:80";
  parameters = (codes "insecure", codes "true") ∷ [];
}

tunnel_url_runs :
    (tunnel_url forwarding (parsed (codes "host.example")) ≡ ok (url_at (codes "host.example") 443))
    × (tunnel_url forwarding (parsed (codes "[::1]:8443")) ≡ ok (url_at (codes "::1") 8443))
    × (tunnel_url forwarding (parsed []) ≡ err no_server_addr)
unfolding tunnel_url first_values param url_host_port cut_last default_port use_tls or_default
    port_number atoi int_of has_half_certificate insert text_eq value_or_empty lookup host_and_port
    without_brackets all_digits or_whole without_last_bracket
tunnel_url_runs = (refl, refl, refl)

helper_runs :
    (url_host_name (codes "host.example:443") ≡ codes "host.example")
    × (url_port (codes "host.example:443") ≡ pos 443)
    × (is_tls_port (codes "host.example:80") ≡ false)
    × (classify_error (codes "sh: x: command not found") ≡ try_install false)
    × (classify_error (codes "TLS handshake failed") ≡ connection_error)
    × (classify_error [] ≡ unknown_error)
unfolding url_host_name url_port is_tls_port split_host_port cut_last contains atoi int_of text_eq
    classify_error host_part port_part int_or_zero is_port_443 mentions_any mentions_text has_prefix
helper_runs = (refl, refl, refl, refl, refl, refl)

options_of-server_addr_example :
    split_host_port (options_of (url_at (codes "::1") 443)).server_addr ≡ none
unfolding contains
options_of-server_addr_example = options_of-server_addr (url_at (codes "::1") 443) refl refl

-- Every pair of files loads, and every CA certificate is read.
abbrev files_found : TlsFiles
files_found = record { loads_pair = λ cert key. true; parses_ca = λ ca. true }

abbrev insecure_flags : ExecFlags
insecure_flags = record { options = options_of (url_at (codes "host.example") 443); envs = [] }

-- A flag parser.
unfoldable set_value :
    (Text → ServerOptions → ServerOptions)
    → Option Text
    → ServerOptions
    → ServerOptions
    → ServerOptions
set_value set none opts fallback = fallback
set_value set (some value) opts fallback = set value opts

unfoldable set_flag : ServerOptions → Text → ServerOptions
set_flag opts arg = set_value with_server_addr (strip_prefix? (codes "--server-addr=") arg) opts (
    set_value with_cert (strip_prefix? (codes "--cert=") arg) opts (
      set_value with_key (strip_prefix? (codes "--key=") arg) opts (
        set_value with_ca (strip_prefix? (codes "--ca=") arg) opts
          (if text_eq arg (codes "--insecure") then with_insecure opts else opts))))

unfoldable parse_flags : ServerOptions → List Text → Option (ServerOptions × List Text)
parse_flags opts [] = none
parse_flags opts (arg ∷ args) =
    let rest = parse_flags (set_flag opts arg) args in
    if text_eq arg (codes "--") then some (opts, args) else rest

parse_flags-IsFlagParser : IsFlagParser parse_flags
unfolding parse_flags set_flag set_value text_eq with_server_addr with_cert with_key with_ca
    with_insecure strip_prefix?
parse_flags-IsFlagParser = record {
  server_addr_flag = λ opts value args. refl;
  cert_flag = λ opts value args. refl;
  key_flag = λ opts value args. refl;
  ca_flag = λ opts value args. refl;
  insecure_flag = λ opts args. refl;
  at_end = λ opts args. refl;
}

abbrev ca_only : ServerOptions
ca_only = record {
  server_addr = codes "host.example:443";
  cert_file = [];
  key_file = [];
  ca_file = codes "/etc/ca.pem";
  insecure = false;
}

transport_command-parse_example :
    (args : List Text) × (transport_command
        (some (codes "/bin/tsctl"))
        ca_only
        (command_line (codes "agent" ∷ codes "a b" ∷ []))
      ≡ some (ok (codes "/bin/tsctl", codes "host-exec" ∷ args)))
    × (parse_flags no_options args ≡ some (ca_only, codes "agent" ∷ codes "a b" ∷ []))
transport_command-parse_example =
    transport_command-parse parse_flags parse_flags-IsFlagParser (codes "/bin/tsctl") ca_only
      (codes "agent" ∷ codes "a b" ∷ [])

abbrev ca_flags : ExecFlags
ca_flags = record { options = ca_only; envs = [] }

host_exec-plainly_iff_example :
    (((sent : ExecRequest) × (host_exec files_found ca_flags (codes "agent" ∷ []) ≡ sends sent)
        × (sent.connects ≡ plainly))
      × ((config : TlsConfig) × (dial files_found ca_only none ≡ by_tls config)))
    ↔ ((ca_only.cert_file ≡ [])
        × (ca_only.key_file ≡ [])
        × (builds_without_pair files_found ca_only.ca_file ca_only.insecure ≡ true))
host_exec-plainly_iff_example = host_exec-plainly_iff files_found ca_flags (codes "agent") [] refl

-- Half a certificate pair is refused where there is also a CA certificate, and not asked for else.
abbrev half_pair : Text → ServerOptions
half_pair ca = record {
  server_addr = codes "host.example:443";
  cert_file = codes "/etc/c.pem";
  key_file = [];
  ca_file = ca;
  insecure = false;
}

dial_runs :
    (dial files_found (half_pair (codes "/etc/ca.pem")) none ≡ not_built)
    × (dial files_found (half_pair []) none ≡ plainly)
unfolding dial use_tls dial_config build built built_pair built_ca config_of
dial_runs = (refl, refl)
