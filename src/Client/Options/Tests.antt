-- ===== src/Client/Options/Tests.antt =====
-- Clients with CA files that can and cannot be read.
use grpc_template.Common.{
  ◌≡◌, refl, inl, inr, true, false, none, some, [], ◌∷◌, String, Bytes, str_eq, if◌then◌else◌,
}
use grpc_template.Rpc.Demo.{demo, start, unavailable}
use grpc_template.Client.Interceptor.Config.{default_config}
use grpc_template.Client.Options.{
  Env, Client, Build, insecure_transport, ca_pool, build_dial_opts, with_tls, apply_options,
  with_load_balancing,
}
use grpc_template.Client.Options.Transport.{
  effective, Loaded, with_tls-transport, with_load_balancing-transport,
}

-- Only "ca.pem" can be read; "round_robin" is registered.
abbrev pub disk : Env demo
disk = record {
  Cert = String;
  Pool = Bytes;
  read_file = λ f. if str_eq f "ca.pem" then inl [] else inr unavailable;
  append_certs = λ pem. some pem;
  load_key_pair = λ f k. inr unavailable;
  balancer_registered = λ p. str_eq p "round_robin";
  wrap_error = λ m e. unavailable;
  wrap_error_at = λ m t e. unavailable;
  text_error = λ m t. unavailable;
}

abbrev pub plain_client : Client demo disk
plain_client = record {
  target = "localhost:50051";
  insecure_creds = false;
  tls_config = none;
  logger = 1;
  unary_interceptors = [];
  stream_interceptors = [];
  dial_opts = [];
  health_watch = true;
  config_err = none;
}

abbrev built : Build demo disk
built = record { client = plain_client; shared = default_config demo }

with_tls-transport_example :
    Loaded {G = demo} {E = disk} "gone.pem" [] start start built tt refl
      (ca_pool demo disk "gone.pem")
with_tls-transport_example =
    with_tls-transport {G = demo} {E = disk} "gone.pem" [] start start built tt refl

abbrev recovered : Client demo disk
recovered =
    (apply_options demo disk
      (with_tls demo disk "gone.pem" ∷ with_load_balancing demo disk "round_robin" ∷ []) start
      built).client

with_load_balancing-transport_example :
    ((apply_options demo disk (with_tls demo disk "gone.pem" ∷ []) start built).client.config_err
      ≡ some unavailable)
    × (recovered.config_err ≡ none)
    × (effective {G = demo} {E = disk} (build_dial_opts demo disk recovered start).0
        ≡ some insecure_transport)
unfolding ca_pool
with_load_balancing-transport_example =
    with_load_balancing-transport {G = demo} {E = disk} "gone.pem" "round_robin" start start built
      unavailable refl refl refl refl
