-- ===== src/LoadBalancing/Servers.antt =====
-- examples/loadbalancing/server.go. `net.Listen` is a function of the loop's index; a server is known
-- by its listener, the address of which its tagging interceptors hold. What `Run` does behind its
-- start is Server/Lifecycle.
mod Begun
mod Tagged
mod Tests
use grpc_template.Common.{
  ℕ, zero, suc, pos, ◌⊎◌, inl, inr, Option, none, some, List, [], ◌∷◌, String, Bytes, codes, map,
}
use grpc_template.World.{World, Level, Value, emit, Exit}
use grpc_template.Rpc.{Rpc, Context}
use grpc_template.Greeter.{Service, new_service}
use grpc_template.Server.Interceptor.RateLimit.{Rate}
use grpc_template.Server.Interceptor.Calls.{UnaryHandler, StreamHandler}
use grpc_template.Server.Interceptor.Config.{Config, Setup}
use grpc_template.Server.Interceptor.RequestId.{request_id, stream_request_id}
use grpc_template.Server.Interceptor.CallLogging.{logging, stream_logging}
use grpc_template.Server.Options.{
  Env, Server, Build, ServerOption, with_listener, with_reflection, with_logger,
  with_unary_interceptors, with_stream_interceptors, new_server, register_service,
}
use grpc_template.Server.Lifecycle.{Ending, GrpcServer, Net, run}
use grpc_template.LoadBalancing.{num_servers, server_tag, stream_server_tag}

-- The interceptors that the program asks for.
abbrev pub request_id_id : ℕ
request_id_id = 0

abbrev pub server_tag_id : ℕ
server_tag_id = 1

abbrev pub logging_id : ℕ
logging_id = 2

abbrev pub stream_request_id_id : ℕ
stream_request_id_id = 3

abbrev pub stream_server_tag_id : ℕ
stream_server_tag_id = 4

abbrev pub stream_logging_id : ℕ
stream_logging_id = 5

module _ (G : Rpc) (E : Env G) where
  -- A server that has been started, with the address that its tags hold.
  pub record Started : Type 0 where
    pub index : ℕ
    pub listener : ℕ
    pub addr : Bytes
    pub server : Server G E
    pub service : Service

module _ (G : Rpc) (E : Env G) (R : Rate) where
  pub server_options : ℕ → ℕ → List (ServerOption G E R)
  server_options l lis =
      with_listener G E R (some lis)
      ∷ with_reflection G E R
      ∷ with_logger G E R (some l)
      ∷ with_unary_interceptors G E R (request_id_id ∷ server_tag_id ∷ logging_id ∷ [])
      ∷ with_stream_interceptors G E R
          (stream_request_id_id ∷ stream_server_tag_id ∷ stream_logging_id ∷ [])
      ∷ []

  module _ (net : Net G E) (listen : ℕ → ℕ ⊎ Rpc.Err G) (l : ℕ) where
    -- The body of the loop, behind `net.Listen`.
    pub start_server : ℕ → ℕ → World → Setup G R → Started G E × (World × Setup G R)
    unfolding server_options new_server register_service
    start_server i lis w shared =
        let b = new_server G E R (server_options l lis) w shared in
        (
          record {
            index = i;
            listener = lis;
            addr = codes (Net.address net lis);
            server = register_service G E (i ∷ []) b.server;
            service = new_service l;
          },
          (
            emit l Level.info "server started"
                (("index", Value.number (pos i))
                  ∷ ("address", Value.text (Net.address net lis))
                  ∷ [])
                w,
            b.shared,
          ),
        )

    -- The loop, for `n` servers from the index `i`: the servers, or the error of `log.Fatalf`.
    pub start_from :
        ℕ → ℕ → World → Setup G R → (List (Started G E) ⊎ Rpc.Err G) × (World × Setup G R)
    unfolding start_server
    start_from zero i w shared = (inl [], (w, shared))
    start_from (suc n) i w shared = elim (listen i) [
      | inr e ↦ (inr e, (w, shared))
      | inl lis ↦
          let (started, (w', shared')) = start_server i lis w shared in
          let (rest, out) = start_from n (suc i) w' shared' in
          elim rest [ inr e ↦ (inr e, out) | inl more ↦ (inl (started ∷ more), out) ]
    ]

    pub start_servers : World → Setup G R → (List (Started G E) ⊎ Rpc.Err G) × (World × Setup G R)
    unfolding start_from
    start_servers w shared = start_from num_servers 0 w shared

    -- The goroutine of a server: `Run`, and an entry about its error.
    pub run_started :
        (GrpcServer G E → ℕ → Ending (Rpc.Err G)) → Started G E → World → World × Server G E
    run_started ending s w =
        let (r, (w', server)) = run G E net ending s.server w in
        elim r [
          | none ↦ (w', server)
          | some e ↦ (
            emit l Level.error "server stopped"
                (("index", Value.number (pos s.index))
                  ∷ ("error", Value.text (Rpc.error_text G e))
                  ∷ [])
                w',
            server,
          )
        ]

module _ (G : Rpc) (random : Bytes) (cfg : Config G) (method : String) (addr : Bytes) where
  -- One interceptor of the server on `addr` around the rest of the chain.
  pub intercept : {A : Type 0} → ℕ → UnaryHandler G A → UnaryHandler G A
  intercept zero handler ctx w = request_id G random handler ctx w
  intercept (suc zero) handler ctx w = server_tag G addr handler ctx w
  intercept (suc (suc zero)) handler ctx w = logging G cfg method handler ctx w
  intercept (suc (suc (suc n))) handler ctx w = handler ctx w

  -- No interceptor recovers: a panic is passed on, and ends the process.
  pub chain_unary : {A : Type 0} → List ℕ → UnaryHandler G A → UnaryHandler G A
  unfolding intercept
  chain_unary [] handler = handler
  chain_unary (i ∷ is) handler = intercept i (chain_unary is handler)

  pub intercept_stream : ℕ → StreamHandler G → StreamHandler G
  intercept_stream (suc (suc (suc zero))) handler ss w = stream_request_id G random handler ss w
  intercept_stream (suc (suc (suc (suc zero)))) handler ss w = stream_server_tag G addr handler ss w
  intercept_stream (suc (suc (suc (suc (suc zero))))) handler ss w =
      stream_logging G cfg method handler ss w
  intercept_stream (suc (suc (suc (suc (suc (suc n)))))) handler ss w = handler ss w
  intercept_stream zero handler ss w = handler ss w
  intercept_stream (suc zero) handler ss w = handler ss w
  intercept_stream (suc (suc zero)) handler ss w = handler ss w

  pub chain_stream : List ℕ → StreamHandler G → StreamHandler G
  unfolding intercept_stream
  chain_stream [] handler = handler
  chain_stream (i ∷ is) handler = intercept_stream i (chain_stream is handler)
