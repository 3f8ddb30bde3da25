-- ===== src/Cmd/Server.antt =====
-- cmd/server/main.go: the options of its server, and the calls that its interceptors carry. gRPC runs
-- the interceptors of a server from the first to the last, each around the next.
mod Tests
use grpc_template.Common.{
  ℕ, zero, suc, ◌≡◌, refl, subst, Option, none, some, List, [], ◌∷◌, String, Bytes, arith, length,
  Bool-cases, inl, inr, true,
}
use grpc_template.World.{World, set_header}
use grpc_template.Logging.{resolve}
use grpc_template.Rpc.{Rpc, Context}
use grpc_template.Server.Interceptor.RateLimit.{Rate}
use grpc_template.Server.Interceptor.Calls.{UnaryHandler}
use grpc_template.Server.Interceptor.Config as Shared
use grpc_template.Server.Interceptor.Config.{Config, Setup, configure}
use grpc_template.Server.Interceptor.Uuid.{match_uuid}
use grpc_template.Server.Interceptor.Uuid.Format.{AreBytes}
use grpc_template.Server.Interceptor.RequestId.{request_id}
use grpc_template.Server.Interceptor.Recovery.{recovery}
use grpc_template.Server.Interceptor.CallLogging.{logging}
use grpc_template.Server.Interceptor.Chain.Whole.{Ended, chain-Ended}
use grpc_template.Greeter.{Service, new_service}
use grpc_template.Server.Lifecycle.{Ending, GrpcServer, Net, run}
use grpc_template.Server.Options.{
  Env, Server, Build, ServerOption, with_port, with_reflection, with_logger,
  with_unary_interceptors, with_stream_interceptors, with_default_service_config, new_server,
  apply_options, logger_of, register_service,
}

-- The interceptors that the program asks for.
abbrev pub request_id_id : ℕ
request_id_id = 0

abbrev pub recovery_id : ℕ
recovery_id = 1

abbrev pub logging_id : ℕ
logging_id = 2

abbrev pub stream_request_id_id : ℕ
stream_request_id_id = 3

abbrev pub stream_recovery_id : ℕ
stream_recovery_id = 4

abbrev pub stream_logging_id : ℕ
stream_logging_id = 5

module _ (G : Rpc) where
  -- `l` is `logging.Default()`.
  pub server_options : (E : Env G) (R : Rate) → ℕ → List (ServerOption G E R)
  server_options E R l =
      with_port G E R "50051"
      ∷ with_reflection G E R
      ∷ with_logger G E R (some l)
      ∷ with_unary_interceptors G E R (request_id_id ∷ recovery_id ∷ logging_id ∷ [])
      ∷ with_stream_interceptors G E R
          (stream_request_id_id ∷ stream_recovery_id ∷ stream_logging_id ∷ [])
      ∷ with_default_service_config G E R "{\"loadBalancingConfig\":[{\"round_robin\":{}}]}"
      ∷ []

  pub main_server : (E : Env G) (R : Rate) → ℕ → World → Setup G R → Build G E R
  unfolding server_options new_server
  main_server E R l w shared = new_server G E R (server_options E R l) w shared

  -- The greeter service, and the server that it is registered on, by the number `n`.
  pub main_service : (E : Env G) (R : Rate) → Build G E R → Service
  main_service E R b = new_service (logger_of G E b.server)

  pub main_registered : (E : Env G) (R : Rate) → ℕ → Build G E R → Build G E R
  main_registered E R n b = record b { server = register_service G E (n ∷ []) b.server }

  -- The rest of `main`: an error of `Run` is fatal.
  pub main :
      (E : Env G) (R : Rate) (net : Net G E)
      → (GrpcServer G E → ℕ → Ending (Rpc.Err G))
      → (n l : ℕ) → World
      → Setup G R
      → Option (Rpc.Err G) × (World × Server G E)
  unfolding main_server main_registered
  main E R net ending n l w shared =
      let b = main_registered E R n (main_server E R l w shared) in run G E net ending b.server w

  module _ (random : Bytes) (stack : World → String) (cfg : Config G) (method : String) where
    -- One interceptor around the rest of the chain.
    pub intercept : {A : Type 0} → ℕ → UnaryHandler G A → UnaryHandler G A
    intercept zero handler ctx w = request_id G random handler ctx w
    intercept (suc zero) handler ctx w = recovery G stack cfg method handler ctx w
    intercept (suc (suc zero)) handler ctx w = logging G cfg method handler ctx w
    intercept (suc (suc (suc n))) handler ctx w = handler ctx w

    pub chain_unary : {A : Type 0} → List ℕ → UnaryHandler G A → UnaryHandler G A
    unfolding intercept
    chain_unary [] handler = handler
    chain_unary (i ∷ is) handler = intercept i (chain_unary is handler)

module _ {G : Rpc} (E : Env G) (R : Rate) (l : ℕ) (started : World) (shared : Setup G R) where
  abbrev built : Build G E R
  built = main_server G E R l started shared

  logs_to : built.shared.config.logger ≡ some l
  unfolding main_server server_options new_server apply_options configure with_port with_reflection
      with_logger with_unary_interceptors with_stream_interceptors with_default_service_config
      Shared.with_logger
  logs_to = refl

  logs_by : (w : World) → resolve built.shared.config.logger w ≡ l
  unfolding resolve
  logs_by w = rw logs_to refl

  chained_ids : built.server.unary_interceptors ≡ request_id_id ∷ recovery_id ∷ logging_id ∷ []
  unfolding main_server server_options new_server apply_options configure with_port with_reflection
      with_logger with_unary_interceptors with_stream_interceptors with_default_service_config
  chained_ids =
      elim (Bool-cases (Env.json_valid E "{\"loadBalancingConfig\":[{\"round_robin\":{}}]}")) [
        | inl e ↦ rw e refl
        | inr e ↦ rw e refl
      ]

  -- A unary call of the command line server returns, whatever its handler does, panics included. The
  -- handler runs with a UUID as the request identifier in its context, and the same UUID is set as the
  -- response header "x-request-id". Behind what the handler does there is one more log entry, of
  -- `l`: with that identifier, at the level of the result, if the handler returned, whose result is
  -- then the call's; or at level Error with the panic's value, if it panicked, and the call then
  -- returns the generic Internal error. The condition: 16 random bytes can be read.
  pub main_server-Ended :
      {A : Type 0} (random : Bytes) (stack : World → String) (method : String)
      (handler : UnaryHandler G A) (ctx : Context G) (w : World)
      → length random ≡ 16
      → AreBytes random
      → (id : Bytes) × (match_uuid id ≡ true)
        × Ended {G = G} stack built.shared.config method l id
            (handler (record ctx { request_id = some id }) (set_header "x-request-id" id w))
            (chain_unary G random stack built.shared.config method built.server.unary_interceptors
              handler ctx w)
  unfolding chain_unary intercept
  main_server-Ended random stack method handler ctx w len small =
      let cfg = built.shared.config in
      let (id, valid, ended) =
        chain-Ended {G = G} stack cfg method l random handler ctx w (logs_by w) len small in
      (id, valid, rw chained_ids ended)
