-- ===== src/Server/Options.antt =====
-- internal/server/option.go, and of internal/server/server.go `Server`, `New`, `RegisterService` and
-- `buildOptions`. Certificates and files are the interface `Env`; listeners, registrars, interceptors,
-- keepalive parameters and raw options are known by their identity.
pub mod Credentials
pub mod Tests
use grpc_template.Common.{
  ℕ, ℤ, Bool, true, false, Option, none, some, List, [], ◌∷◌, ◌++◌, String, Bytes, ◌⊎◌, inl, inr,
  str_eq, if◌then◌else◌,
}
use grpc_template.World.{World, Level, emit}
use grpc_template.Logging.{resolve, default_handler}
use grpc_template.Rpc.{Rpc}
use grpc_template.Server.Interceptor.RateLimit.{Rate}
use grpc_template.Server.Interceptor.Config as Interceptor

module _ (G : Rpc) where
  -- crypto/tls, crypto/x509, os and encoding/json as the options use them, and `fmt.Errorf` with an
  -- error to wrap and with a text.
  pub record Env : Type 1 where
    pub Cert : Type 0
    pub Pool : Type 0
    pub read_file : String → Bytes ⊎ Rpc.Err G
    pub append_certs : Bytes → Option Pool
    pub load_key_pair : String → String → Cert ⊎ Rpc.Err G
    pub json_valid : String → Bool
    pub wrap_error : String → Option (Rpc.Err G) → Rpc.Err G
    pub text_error : String → String → Rpc.Err G

  module _ (E : Env) where
    -- `tls.Config`, at least TLS 1.3. With `client_cas`, `ClientAuth` is
    -- `RequireAndVerifyClientCert`.
    pub record TlsConfig : Type 0 where
      pub certificates : List (Env.Cert E)
      pub client_cas : Option (Env.Pool E)

    pub data GrpcOption : Type 0 where
      creds : TlsConfig → GrpcOption
      chain_unary : List ℕ → GrpcOption
      chain_stream : List ℕ → GrpcOption
      keepalive_params : ℕ → GrpcOption
      keepalive_policy : ℕ → GrpcOption
      max_recv_msg_size : ℤ → GrpcOption
      max_send_msg_size : ℤ → GrpcOption
      max_concurrent_streams : ℕ → GrpcOption
      -- any option but these
      -- any option but these, known by its identity
      raw : ℕ → GrpcOption

    -- `serving` is the status of the health server, if there is one.
    pub record Server : Type 0 where
      pub port : String
      pub reflection : Bool
      pub tls_config : Option TlsConfig
      pub logger : ℕ
      pub unary_interceptors : List ℕ
      pub stream_interceptors : List ℕ
      pub registrars : List ℕ
      pub grpc_opts : List GrpcOption
      pub listener : Option ℕ
      pub serving : Option Bool
      pub service_config : String
      pub config_err : Option (Rpc.Err G)

    unfoldable pub register_service : List ℕ → Server → Server
    register_service rs s = record s { registrars = s.registrars ++ rs }

    -- `Logger`, `Health` and `ServiceConfig`. The health server is known by its status.
    pub logger_of : Server → ℕ
    logger_of s = s.logger

    pub health_of : Server → Option Bool
    health_of s = s.serving

    pub service_config_of : Server → String
    service_config_of s = s.service_config

    abbrev pub fail : Rpc.Err G → Server → Server
    fail e s = record s { config_err = some e; tls_config = none }

    abbrev pub secure : TlsConfig → Server → Server
    secure t s = record s { config_err = none; tls_config = some t }

    abbrev pub chained : (List ℕ → GrpcOption) → List ℕ → List GrpcOption
    chained f [] = []
    chained f (i ∷ is) = f (i ∷ is) ∷ []

    -- The options behind the credentials.
    abbrev pub other_options : Server → List GrpcOption
    other_options s =
        chained chain_unary s.unary_interceptors
        ++ (chained chain_stream s.stream_interceptors ++ s.grpc_opts)

    unfoldable pub build_options : Server → World → List GrpcOption × World
    build_options s w = elim s.tls_config [
      | none ↦ (other_options s, w)
      | some t ↦ (creds t ∷ other_options s, emit s.logger Level.info "gRPC TLS enabled" [] w)
    ]

    module _ (R : Rate) where
      -- The server under construction and the configuration of its interceptors.
      pub record Build : Type 0 where
        pub server : Server
        pub shared : Interceptor.Setup G R

      abbrev pub ServerOption : Type 0
      ServerOption = World → Build → Build

      abbrev pub on_server : (Server → Server) → ServerOption
      on_server f w b = record b { server = f b.server }

      abbrev pub on_shared : Interceptor.SetupOption G R → ServerOption
      on_shared o w b = record b { shared = Interceptor.configure G R (o ∷ []) b.shared }

      abbrev pub add_grpc_opts : List GrpcOption → ServerOption
      add_grpc_opts os = on_server (λ s. record s { grpc_opts = s.grpc_opts ++ os })

      unfoldable pub with_port : String → ServerOption
      with_port p = on_server (λ s. record s { port = p })

      unfoldable pub with_reflection : ServerOption
      with_reflection = on_server (λ s. record s { reflection = true })

      unfoldable pub with_tls : String → String → ServerOption
      with_tls cert_file key_file = elim (Env.load_key_pair E cert_file key_file) [
        | inr e ↦ on_server (fail (Env.wrap_error E "failed to load TLS certificate: %w" (some e)))
        | inl cert ↦ on_server (secure (record { certificates = cert ∷ []; client_cas = none }))
      ]

      -- The pool of the clients' CA file, or the error of the option.
      pub ca_pool : String → Env.Pool E ⊎ Rpc.Err G
      ca_pool file = elim (Env.read_file E file) [
        | inr e ↦ inr (Env.wrap_error E "failed to read CA certificate: %w" (some e))
        | inl pem ↦ elim (Env.append_certs E pem) [
          | none ↦ inr (Env.text_error E "failed to parse CA certificate from %s" file)
          | some pool ↦ inl pool
        ]
      ]

      unfoldable pub with_mutual_tls : String → String → String → ServerOption
      unfolding ca_pool
      with_mutual_tls cert_file key_file ca_file = elim (Env.load_key_pair E cert_file key_file) [
        | inr e ↦ on_server (fail (Env.wrap_error E "failed to load TLS certificate: %w" (some e)))
        | inl cert ↦ elim (ca_pool ca_file) [
          | inr e ↦ on_server (fail e)
          | inl pool ↦
              on_server (secure (record { certificates = cert ∷ []; client_cas = some pool }))
        ]
      ]

      unfoldable pub with_unary_interceptors : List ℕ → ServerOption
      with_unary_interceptors is =
          on_server (λ s. record s { unary_interceptors = s.unary_interceptors ++ is })

      unfoldable pub with_stream_interceptors : List ℕ → ServerOption
      with_stream_interceptors is =
          on_server (λ s. record s { stream_interceptors = s.stream_interceptors ++ is })

      unfoldable pub with_keepalive : ℕ → ℕ → ServerOption
      with_keepalive params policy =
          add_grpc_opts (keepalive_params params ∷ keepalive_policy policy ∷ [])

      unfoldable pub with_max_msg_size : ℤ → ServerOption
      with_max_msg_size n = add_grpc_opts (max_recv_msg_size n ∷ max_send_msg_size n ∷ [])

      unfoldable pub with_max_concurrent_streams : ℕ → ServerOption
      with_max_concurrent_streams n = add_grpc_opts (max_concurrent_streams n ∷ [])

      unfoldable pub with_grpc_options : List GrpcOption → ServerOption
      with_grpc_options os = add_grpc_opts os

      unfoldable pub with_listener : Option ℕ → ServerOption
      with_listener l = on_server (λ s. record s { listener = l })

      unfoldable pub with_logger : Option ℕ → ServerOption
      unfolding resolve
      with_logger l w b =
          on_shared (Interceptor.with_logger G R l) w
            (on_server (λ s. record s { logger = resolve l w }) w b)

      unfoldable pub with_auth_func : Option (Interceptor.AuthFunc G) → ServerOption
      with_auth_func fn = on_shared (Interceptor.with_auth_func G R fn)

      unfoldable pub with_excluded_methods : List String → ServerOption
      with_excluded_methods ms = on_shared (Interceptor.with_excluded_methods G R ms)

      unfoldable pub with_demoted_methods : List String → ServerOption
      with_demoted_methods ms = on_shared (Interceptor.with_demoted_methods G R ms)

      unfoldable pub with_rate_limit : (ℕ → Rate.Limiter R) → Rate.Limit R → ℤ → ServerOption
      with_rate_limit heap rps burst = on_shared (Interceptor.with_rate_limit G R heap rps burst)

      unfoldable pub with_rate_limiter : Option Interceptor.Limiter → ServerOption
      with_rate_limiter l = on_shared (Interceptor.with_rate_limiter G R l)

      unfoldable pub with_trust_proxy : Bool → ServerOption
      with_trust_proxy t = on_shared (Interceptor.with_trust_proxy G R t)

      abbrev pub configured : Bool → String → Server → Server
      configured false json s = record s {
        config_err = some (Env.text_error E "invalid service config JSON: %s" json);
      }
      configured true json s = record s { config_err = none; service_config = json }

      unfoldable pub with_default_service_config : String → ServerOption
      with_default_service_config json =
          if str_eq json "" then (λ w b. b) else on_server (configured (Env.json_valid E json) json)

      unfoldable pub apply_options : List ServerOption → ServerOption
      apply_options [] w b = b
      apply_options (opt ∷ opts) w b = apply_options opts w (opt w b)

      -- `New`
      unfoldable pub new_server : List ServerOption → World → Interceptor.Setup G R → Build
      unfolding apply_options default_handler
      new_server opts w shared = apply_options opts w (record {
        server = record {
          port = "50051";
          reflection = false;
          tls_config = none;
          logger = default_handler w;
          unary_interceptors = [];
          stream_interceptors = [];
          registrars = [];
          grpc_opts = [];
          listener = none;
          serving = none;
          service_config = "";
          config_err = none;
        };
        shared = shared;
      })
