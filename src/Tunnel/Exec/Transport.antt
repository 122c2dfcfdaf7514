-- ===== src/Tunnel/Exec/Transport.antt =====
-- pkg/ts-tunnel/agent-transport/transport.go and pkg/tsctl/host_exec.go: what reaches the host.
use remote_docker_agent.Prelude.{
  ◌≡◌, refl, ap, sym, ◌∙◌, ◌↔◌, Bool, true, false, not, ◌&&◌, Option, none, some, List, [], ◌∷◌,
  ◌++◌, if◌then◌else◌, Bool-cases, Option-cases, inl, inr, Text, codes, is_empty, ok,
}
use remote_docker_agent.Shelex.RoundTrip.{command_line, split_words-command_line}
use remote_docker_agent.Tunnel.{
  ServerOptions, TlsFiles, TlsConfig, by_tls, plainly, use_tls, dial, build, built, dial_config,
  built_pair, built_ca, config_of,
}
use remote_docker_agent.Tunnel.Exec.{
  flag, insecure_flag, exec_args, parts_of, executed, command_of, transport_command, ExecFlags,
  ExecRequest, sends, sent_by, tls_client_config, execute_command, host_exec,
}

-- The flags with one of them set.
unfoldable pub with_server_addr : Text → ServerOptions → ServerOptions
with_server_addr value opts = record {
  server_addr = value;
  cert_file = opts.cert_file;
  key_file = opts.key_file;
  ca_file = opts.ca_file;
  insecure = opts.insecure;
}

unfoldable pub with_cert : Text → ServerOptions → ServerOptions
with_cert value opts = record {
  server_addr = opts.server_addr;
  cert_file = value;
  key_file = opts.key_file;
  ca_file = opts.ca_file;
  insecure = opts.insecure;
}

unfoldable pub with_key : Text → ServerOptions → ServerOptions
with_key value opts = record {
  server_addr = opts.server_addr;
  cert_file = opts.cert_file;
  key_file = value;
  ca_file = opts.ca_file;
  insecure = opts.insecure;
}

unfoldable pub with_ca : Text → ServerOptions → ServerOptions
with_ca value opts = record {
  server_addr = opts.server_addr;
  cert_file = opts.cert_file;
  key_file = opts.key_file;
  ca_file = value;
  insecure = opts.insecure;
}

unfoldable pub with_insecure : ServerOptions → ServerOptions
with_insecure opts = record {
  server_addr = opts.server_addr;
  cert_file = opts.cert_file;
  key_file = opts.key_file;
  ca_file = opts.ca_file;
  insecure = true;
}

-- `spf13/pflag`: flags are set in their order, up to `--`, behind which the arguments stand. The
-- first argument has the values of the flags so far.
pub record IsFlagParser (parse : ServerOptions → List Text → Option (ServerOptions × List Text))
    : Type 0 where
  pub server_addr_flag :
      (opts : ServerOptions) (value : Text) (args : List Text)
      → parse opts ((codes "--server-addr=" ++ value) ∷ args)
        ≡ parse (with_server_addr value opts) args
  pub cert_flag :
      (opts : ServerOptions) (value : Text) (args : List Text)
      → parse opts ((codes "--cert=" ++ value) ∷ args) ≡ parse (with_cert value opts) args
  pub key_flag :
      (opts : ServerOptions) (value : Text) (args : List Text)
      → parse opts ((codes "--key=" ++ value) ∷ args) ≡ parse (with_key value opts) args
  pub ca_flag :
      (opts : ServerOptions) (value : Text) (args : List Text)
      → parse opts ((codes "--ca=" ++ value) ∷ args) ≡ parse (with_ca value opts) args
  pub insecure_flag :
      (opts : ServerOptions) (args : List Text)
      → parse opts (codes "--insecure" ∷ args) ≡ parse (with_insecure opts) args
  pub at_end :
      (opts : ServerOptions) (args : List Text) → parse opts (codes "--" ∷ args) ≡ some (opts, args)

-- The flags' defaults.
unfoldable pub no_options : ServerOptions
no_options = record {
  server_addr = [];
  cert_file = [];
  key_file = [];
  ca_file = [];
  insecure = false;
}

-- Setting a flag only where there is a value is setting it.
parse-flag :
    (parse : ServerOptions → List Text → Option (ServerOptions × List Text)) (name : Text)
    (set : Text → ServerOptions → ServerOptions)
    → ((opts : ServerOptions) (value : Text) (args : List Text)
        → parse opts ((name ++ value) ∷ args) ≡ parse (set value opts) args)
    → (value : Text) (opts : ServerOptions) (args : List Text) → set [] opts ≡ opts
    → parse opts (flag name value ++ args) ≡ parse (set value opts) args
unfolding flag
parse-flag parse name set h [] opts args e = ap (λ o. parse o args) (sym e)
parse-flag parse name set h (c ∷ value) opts args e = h opts (c ∷ value) args

parse-insecure :
    (parse : ServerOptions → List Text → Option (ServerOptions × List Text))
    → IsFlagParser parse
    → (opts : ServerOptions) (args : List Text) (b : Bool) → opts.insecure ≡ false
    → parse opts (insecure_flag b ++ args)
      ≡ parse
          (record {
            server_addr = opts.server_addr;
            cert_file = opts.cert_file;
            key_file = opts.key_file;
            ca_file = opts.ca_file;
            insecure = b;
          })
          args
unfolding insecure_flag with_insecure
parse-insecure parse p opts args true e = p.insecure_flag opts args
parse-insecure parse p opts args false e =
    ap
      (λ b.
        parse
          (record {
            server_addr = opts.server_addr;
            cert_file = opts.cert_file;
            key_file = opts.key_file;
            ca_file = opts.ca_file;
            insecure = b;
          })
          args)
      e

-- `Command` succeeds on the words of a command, quoted, and the arguments it gives to the
-- executable are read there as the options of the transport and exactly the words.
pub transport_command-parse :
    (parse : ServerOptions → List Text → Option (ServerOptions × List Text))
    → IsFlagParser parse
    → (path : Text) (opts : ServerOptions) (words : List Text)
    → (args : List Text) × (transport_command (some path) opts (command_line words)
        ≡ some (ok (path, codes "host-exec" ∷ args)))
      × (parse no_options args ≡ some (opts, words))
unfolding transport_command command_of parts_of executed exec_args no_options with_server_addr
    with_cert with_key with_ca
transport_command-parse parse p path opts words = (
  _,
  ap (λ r. elim r [ none ↦ none | some s ↦ some (command_of (some path) opts (parts_of s)) ])
      (split_words-command_line words),
  p.server_addr_flag _ _ _
      ∙ parse-flag parse _ with_cert p.cert_flag opts.cert_file _ _ refl
      ∙ parse-flag parse _ with_key p.key_flag opts.key_file _ _ refl
      ∙ parse-flag parse _ with_ca p.ca_flag opts.ca_file _ _ refl
      ∙ parse-insecure parse p _ _ opts.insecure refl
      ∙ p.at_end _ _,
)

-- `host-exec` sends its request in plain text exactly when not both the certificate and its key are
-- given.
pub host_exec-plainly :
    (files : TlsFiles) (flags : ExecFlags) (command : Text) (args : List Text)
    → ((sent : ExecRequest) × (host_exec files flags (command ∷ args) ≡ sends sent)
        × (sent.connects ≡ plainly))
      ↔ ((not (is_empty flags.options.cert_file) && not (is_empty flags.options.key_file)) ≡ false)
unfolding host_exec tls_client_config sent_by execute_command built
host_exec-plainly files flags command args =
    elim (Bool-cases
      (not (is_empty flags.options.cert_file) && not (is_empty flags.options.key_file))) [
        | inr e ↦ (
          λ h. e,
          λ h. (
            execute_command flags.options.server_addr command args flags.envs plainly,
            rw (e, tls_client_config, sent_by) refl,
            refl,
          ),
        )
        | inl e ↦ elim (Option-cases (build files flags.options)) [
          | inl n ↦
              (λ (sent, m, p). let k = rw (e, tls_client_config, n, sent_by) at m in cc, λ h. cc)
          | inr (config, n) ↦ (
            λ (sent, m, p).
                let k : sends (
                      execute_command flags.options.server_addr command args flags.envs
                        (by_tls config))
                    ≡ sends sent =
                  rw (e, tls_client_config, n, sent_by) at m in
                cc,
            λ h. cc,
          )
        ]
      ]

-- Whether a CA certificate or the insecure mode lets a configuration without a client certificate
-- be built.
abbrev pub builds_without_pair : TlsFiles → Text → Bool → Bool
builds_without_pair files ca insecure = if is_empty ca then insecure else files.parses_ca ca

dial_iff :
    (files : TlsFiles) (addr cert key ca : Text) (ins : Bool)
    → is_empty addr ≡ false
    → (((not (is_empty cert) && not (is_empty key)) ≡ false)
        × ((config : TlsConfig) × (dial files
                (record {
                  server_addr = addr;
                  cert_file = cert;
                  key_file = key;
                  ca_file = ca;
                  insecure = ins;
                })
                none
              ≡ by_tls config)))
      ↔ ((cert ≡ []) × (key ≡ []) × (builds_without_pair files ca ins ≡ true))
unfolding dial use_tls dial_config build built built_pair built_ca config_of
dial_iff files addr [] [] [] true h = rw h ((λ x. (refl, refl, refl), λ x. (refl, (_, refl))))
dial_iff files addr [] [] [] false h = rw h ((λ x. absurd cc, λ x. absurd cc))
dial_iff files addr [] [] (c ∷ ca) ins h = elim (Bool-cases (files.parses_ca (c ∷ ca))) [
  | inl e ↦ rw (h, e) ((λ x. (refl, refl, refl), λ x. (refl, (_, refl))))
  | inr e ↦ rw (h, e) ((λ x. absurd cc, λ x. absurd cc))
]
dial_iff files addr [] (k ∷ key) [] true h = rw h ((λ x. absurd cc, λ x. absurd cc))
dial_iff files addr [] (k ∷ key) [] false h = rw h ((λ x. absurd cc, λ x. absurd cc))
dial_iff files addr [] (k ∷ key) (c ∷ ca) ins h = rw h ((λ x. absurd cc, λ x. absurd cc))
dial_iff files addr (d ∷ cert) [] [] true h = rw h ((λ x. absurd cc, λ x. absurd cc))
dial_iff files addr (d ∷ cert) [] [] false h = rw h ((λ x. absurd cc, λ x. absurd cc))
dial_iff files addr (d ∷ cert) [] (c ∷ ca) ins h = rw h ((λ x. absurd cc, λ x. absurd cc))
dial_iff files addr (d ∷ cert) (k ∷ key) ca ins h = (λ x. absurd cc, λ x. absurd cc)

-- For a server address that is not empty, `host-exec` connects in plain text with the very options
-- with which a `Dial` that has no configuration yet connects by TLS, exactly when neither a certificate nor a key is given and there
-- is a CA certificate that can be used, or there is none and the mode is insecure.
pub host_exec-plainly_iff :
    (files : TlsFiles) (flags : ExecFlags) (command : Text) (args : List Text)
    → is_empty flags.options.server_addr ≡ false
    → (((sent : ExecRequest) × (host_exec files flags (command ∷ args) ≡ sends sent)
          × (sent.connects ≡ plainly))
        × ((config : TlsConfig) × (dial files flags.options none ≡ by_tls config)))
      ↔ ((flags.options.cert_file ≡ [])
          × (flags.options.key_file ≡ [])
          × (builds_without_pair files flags.options.ca_file flags.options.insecure ≡ true))
host_exec-plainly_iff files flags command args h =
    let o = flags.options in
    let p = host_exec-plainly files flags command args in
    let d = dial_iff files o.server_addr o.cert_file o.key_file o.ca_file o.insecure h in
    (λ (s, t). d.0 (p.0 s, t), λ b. let (half, t) = d.1 b in (p.1 half, t))
