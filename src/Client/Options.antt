-- ===== src/Client/Options.antt =====
-- internal/client/client.go (`Client`, `New`, `buildDialOpts`) and internal/client/option.go. The files,
-- certificates and balancers that options look up are the interface `Env`; interceptors, keepalive
-- parameters and raw dial options are known by their identity. Options run before any connection
-- exists, so the mutable part of the client is in `Client/Connection`.
pub mod Transport
pub mod Tests
use grpc_template.Common.{
  ℕ, ℤ, Bool, true, false, Option, none, some, List, [], ◌∷◌, ◌++◌, String, Bytes, ◌⊎◌, inl, inr,
  str_eq, if◌then◌else◌, is_empty,
}
use grpc_template.World.{World, Level, Value, emit}
use grpc_template.Logging.{resolve, default_handler}
use grpc_template.Rpc.{Rpc, Context}
use grpc_template.Client.Interceptor.Config as Interceptor

module _ (G : Rpc) where
  -- crypto/tls, crypto/x509, os and google.golang.org/grpc/balancer as the options use them, and
  -- `fmt.Errorf` with an error to wrap, with a text and an error, and with a text.
  pub record Env : Type 1 where
    pub Cert : Type 0
    pub Pool : Type 0
    pub read_file : String → Bytes ⊎ Rpc.Err G
    pub append_certs : Bytes → Option Pool
    pub load_key_pair : String → String → Cert ⊎ Rpc.Err G
    pub balancer_registered : String → Bool
    pub wrap_error : String → Rpc.Err G → Rpc.Err G
    pub wrap_error_at : String → String → Rpc.Err G → Rpc.Err G
    pub text_error : String → String → Rpc.Err G

  module _ (E : Env) where
    -- `tls.Config`; the minimal version is always TLS 1.3.
    pub record TlsConfig : Type 0 where
      pub certificates : List (Env.Cert E)
      pub root_cas : Env.Pool E

    pub data DialOption : Type 0 where
      tls_transport : TlsConfig → DialOption
      insecure_transport : DialOption
      chain_unary : List ℕ → DialOption
      chain_stream : List ℕ → DialOption
      keepalive : ℕ → DialOption
      max_msg_size : ℤ → DialOption
      service_config : String → DialOption
      -- any option but these, known by its identity
      raw : ℕ → DialOption

    pub record Client : Type 0 where
      pub target : String
      pub insecure_creds : Bool
      pub tls_config : Option TlsConfig
      pub logger : ℕ
      pub unary_interceptors : List ℕ
      pub stream_interceptors : List ℕ
      pub dial_opts : List DialOption
      pub health_watch : Bool
      pub config_err : Option (Rpc.Err G)

    -- The client under construction and the configuration of its interceptors.
    pub record Build : Type 0 where
      pub client : Client
      pub shared : Interceptor.Config G

    abbrev pub ClientOption : Type 0
    ClientOption = World → Build → Build

    abbrev pub on_client : (Client → Client) → ClientOption
    on_client f w b = record b { client = f b.client }

    abbrev pub on_shared : Interceptor.ConfigOption G → ClientOption
    on_shared o w b = record b { shared = Interceptor.configure G (o ∷ []) b.shared }

    abbrev pub fail : Rpc.Err G → Client → Client
    fail e c = record c { config_err = some e; tls_config = none }

    abbrev pub secure : TlsConfig → Client → Client
    secure t c = record c { config_err = none; tls_config = some t }

    abbrev pub add_dial_opts : List DialOption → ClientOption
    add_dial_opts os = on_client (λ c. record c { dial_opts = c.dial_opts ++ os })

    unfoldable pub with_insecure : ClientOption
    with_insecure =
        on_client (λ c. record c { insecure_creds = true; tls_config = none; config_err = none })

    -- The CA pool, or the error of the option.
    pub ca_pool : String → Env.Pool E ⊎ Rpc.Err G
    ca_pool file = elim (Env.read_file E file) [
      | inr e ↦ inr (Env.wrap_error E "failed to read CA certificate: %w" e)
      | inl pem ↦ elim (Env.append_certs E pem) [
        | none ↦ inr (Env.text_error E "failed to parse CA certificate from %s" file)
        | some pool ↦ inl pool
      ]
    ]

    unfoldable pub with_tls : String → ClientOption
    unfolding ca_pool
    with_tls file = elim (ca_pool file) [
      | inr e ↦ on_client (fail e)
      | inl pool ↦ on_client (secure (record { certificates = []; root_cas = pool }))
    ]

    unfoldable pub with_mutual_tls : String → String → String → ClientOption
    unfolding ca_pool
    with_mutual_tls cert_file key_file ca_file = elim (Env.load_key_pair E cert_file key_file) [
      | inr e ↦ on_client (fail (Env.wrap_error E "failed to load client TLS certificate: %w" e))
      | inl cert ↦ elim (ca_pool ca_file) [
        | inr e ↦ on_client (fail e)
        | inl pool ↦ on_client (secure (record { certificates = cert ∷ []; root_cas = pool }))
      ]
    ]

    unfoldable pub with_logger : Option ℕ → ClientOption
    unfolding resolve
    with_logger l w b =
        on_shared (Interceptor.with_logger G l) w
          (on_client (λ c. record c { logger = resolve l w }) w b)

    unfoldable pub with_unary_interceptors : List ℕ → ClientOption
    with_unary_interceptors is =
        on_client (λ c. record c { unary_interceptors = c.unary_interceptors ++ is })

    unfoldable pub with_stream_interceptors : List ℕ → ClientOption
    with_stream_interceptors is =
        on_client (λ c. record c { stream_interceptors = c.stream_interceptors ++ is })

    unfoldable pub with_keepalive : ℕ → ClientOption
    with_keepalive params = add_dial_opts (keepalive params ∷ [])

    unfoldable pub with_max_msg_size : ℤ → ClientOption
    with_max_msg_size n = add_dial_opts (max_msg_size n ∷ [])

    unfoldable pub with_dial_options : List DialOption → ClientOption
    with_dial_options os = add_dial_opts os

    unfoldable pub with_health_watch : ClientOption
    with_health_watch = on_client (λ c. record c { health_watch = true })

    unfoldable pub with_default_timeout : ℤ → ClientOption
    with_default_timeout d = on_shared (Interceptor.with_default_timeout G d)

    unfoldable pub with_retry : ℤ → ℤ → ClientOption
    with_retry n backoff = on_shared (Interceptor.with_retry G n backoff)

    unfoldable pub with_retry_codes : List ℕ → ClientOption
    with_retry_codes cs = on_shared (Interceptor.with_retry_codes G cs)

    unfoldable pub with_token_source : Option (Interceptor.TokenSource G) → ClientOption
    with_token_source fn = on_shared (Interceptor.with_token_source G fn)

    -- The client behind `WithLoadBalancing` with a policy that has a name.
    abbrev pub balanced : Bool → String → Client → Client
    balanced false policy c = record c {
      config_err = some (Env.text_error E "unknown load balancing policy %q" policy);
    }
    balanced true policy c = record c {
      config_err = none;
      dial_opts = c.dial_opts ++ service_config policy ∷ [];
    }

    unfoldable pub with_load_balancing : String → ClientOption
    with_load_balancing policy =
        if str_eq policy ""
        then (λ w b. b)
        else on_client (balanced (Env.balancer_registered E policy) policy)

    unfoldable pub apply_options : List ClientOption → ClientOption
    apply_options [] w b = b
    apply_options (opt ∷ opts) w b = apply_options opts w (opt w b)

    -- `New`
    unfoldable pub new_client : String → List ClientOption → World → Interceptor.Config G → Build
    unfolding apply_options default_handler
    new_client target opts w shared = apply_options opts w (record {
      client = record {
        target = target;
        insecure_creds = false;
        tls_config = none;
        logger = default_handler w;
        unary_interceptors = [];
        stream_interceptors = [];
        dial_opts = [];
        health_watch = false;
        config_err = none;
      };
      shared = shared;
    })

    -- The transport credentials of `buildDialOpts`, with its warning.
    unfoldable pub transport : Client → World → DialOption × World
    transport c w = elim c.tls_config [
      | some t ↦ (tls_transport t, w)
      | none ↦ if c.insecure_creds then (insecure_transport, w) else (
        insecure_transport,
        emit c.logger Level.warn
            "no TLS configured, using insecure credentials — do not use in production"
            (("target", Value.text c.target) ∷ []) w,
      )
    ]

    abbrev pub chained : (List ℕ → DialOption) → List ℕ → List DialOption
    chained f [] = []
    chained f (i ∷ is) = f (i ∷ is) ∷ []

    unfoldable pub build_dial_opts : Client → World → List DialOption × World
    unfolding transport
    build_dial_opts c w =
        let (t, w') = transport c w in
        (
          t
              ∷ (chained chain_unary c.unary_interceptors
                  ++ (chained chain_stream c.stream_interceptors ++ c.dial_opts)),
          w',
        )
