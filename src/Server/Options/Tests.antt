-- ===== src/Server/Options/Tests.antt =====
-- Servers with TLS files that can and cannot be loaded.
use grpc_template.Common.{
  ◌≡◌, refl, inl, inr, false, none, some, [], ◌∷◌, String, Bytes, str_eq, if◌then◌else◌,
}
use grpc_template.Rpc.Demo.{demo, start, unavailable}
use grpc_template.Server.Interceptor.Config.{Setup, default_config}
use grpc_template.Server.Interceptor.RateLimit.Tests.{counting, fresh}
use grpc_template.Server.Options.{
  Env, Server, Build, build_options, with_default_service_config, ca_pool, with_tls, apply_options,
}
use grpc_template.Server.Options.Credentials.{
  effective, OneSided, Mutual, with_tls-Serves, with_default_service_config-build_options,
}

-- Only "cert.pem" and "ca.pem" can be read.
abbrev pub disk : Env demo
disk = record {
  Cert = String;
  Pool = Bytes;
  read_file = λ f. if str_eq f "ca.pem" then inl [] else inr unavailable;
  append_certs = λ pem. some pem;
  load_key_pair = λ f k. if str_eq f "cert.pem" then inl f else inr unavailable;
  json_valid = λ j. str_eq j "{}";
  wrap_error = λ m e. unavailable;
  text_error = λ m t. unavailable;
}

abbrev pub plain_server : Server demo disk
plain_server = record {
  port = "50051";
  reflection = false;
  tls_config = none;
  logger = 1;
  unary_interceptors = [];
  stream_interceptors = [];
  registrars = [];
  grpc_opts = [];
  listener = none;
  serving = none;
  service_config = "";
  config_err = none;
}

abbrev pub shared : Setup demo counting
shared = record { config = default_config demo; limiters = λ i. fresh; next = 0; custom_stops = [] }

abbrev built : Build demo disk counting
built = record { server = plain_server; shared = shared }

with_tls-Serves_example :
    OneSided {G = demo} {E = disk} {R = counting} "cert.pem" "key.pem" "none" [] start built tt refl
      (Env.load_key_pair disk "cert.pem" "key.pem")
    × Mutual {G = demo} {E = disk} {R = counting} "cert.pem" "key.pem" "none" [] start built tt refl
        (Env.load_key_pair disk "cert.pem" "key.pem")
        (ca_pool demo disk counting "none")
with_tls-Serves_example =
    with_tls-Serves {G = demo} {E = disk} {R = counting} "cert.pem" "key.pem" "none" [] start built
      tt refl

abbrev recovered : Server demo disk
recovered =
    (apply_options demo disk counting
      (with_tls demo disk counting "gone.pem" "key.pem"
        ∷ with_default_service_config demo disk counting "{}"
        ∷ [])
      start built).server

with_default_service_config-build_options_example :
    ((apply_options demo disk counting
        (with_tls demo disk counting "gone.pem" "key.pem" ∷ [])
        start
        built).server.config_err
      ≡ some unavailable)
    × (recovered.config_err ≡ none)
    × (effective {G = demo} {E = disk} (build_options demo disk recovered start).0 ≡ none)
with_default_service_config-build_options_example =
    with_default_service_config-build_options {G = demo} {E = disk} {R = counting} "gone.pem"
      "key.pem" "{}" start start built unavailable refl refl refl refl
