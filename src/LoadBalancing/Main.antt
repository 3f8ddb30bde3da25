-- ===== src/LoadBalancing/Main.antt =====
-- examples/loadbalancing/main.go. `log.Fatalf` ends the program without the deferred `Close`; a panic
-- runs it. The resolver hands the addresses to the connection, what that answers with them being an
-- argument. `WaitReady` has fuel, which may run out.
use grpc_template.Common.{
  ℕ, ◌+◌, ◌⊎◌, inl, inr, Option, none, some, List, [], ◌∷◌, String, Bytes, map,
}
use grpc_template.World.{World, Exit, done, panicked}
use grpc_template.Rpc.{Rpc, Context}
use grpc_template.Client.Interceptor.Config.{default_config}
use grpc_template.Client.Options as Dialling
use grpc_template.Client.Options.{
  Client, Build, ClientOption, with_insecure, with_logger, with_unary_interceptors,
  with_stream_interceptors, with_load_balancing, new_client,
}
use grpc_template.Client.Connection.{Lifecycle, unconnected, Dial, conn_of, connect, close_client}
use grpc_template.Client.Ready.{Link, wait_ready}
use grpc_template.Greeter.{Stub, Caller, new_caller}
use grpc_template.Server.Interceptor.RateLimit.{Rate}
use grpc_template.Server.Interceptor.Config.{Setup}
use grpc_template.Server.Options as Serving
use grpc_template.Server.Lifecycle.{Net}
use grpc_template.LoadBalancing.{Replies, Env, run_unary_demo, run_stream_demo}
use grpc_template.LoadBalancing.Servers.{Started, start_servers}

-- The interceptors that the program asks for.
abbrev logging_id : ℕ
logging_id = 0

abbrev stream_logging_id : ℕ
stream_logging_id = 1

abbrev warm_up : ℕ
warm_up = 200000000

-- How the program ends: `main` returns, `log.Fatalf` exits with a format and an error, or a panic
-- unwinds it; or it still waits.
pub data Stop (G : Rpc) : Type 0 where
  finished : Stop G
  exited : String → Rpc.Err G → Stop G
  unwound : String → Stop G
  waiting : Stop G

module _ (G : Rpc) (E : Dialling.Env G) where
  pub client_options : ℕ → List (ClientOption G E)
  client_options l =
      with_insecure G E
      ∷ with_logger G E (some l)
      ∷ with_unary_interceptors G E (logging_id ∷ [])
      ∷ with_stream_interceptors G E (stream_logging_id ∷ [])
      ∷ with_load_balancing G E "round_robin"
      ∷ []

  pub example_client : ℕ → World → Build G E
  unfolding client_options new_client default_config
  example_client l w = new_client G E "lb-demo:///greeter" (client_options l) w (default_config G)

module _ (G : Rpc) (EC : Dialling.Env G) (ES : Serving.Env G) (R : Rate) (env : Env G)
    (net : Net G ES) (listen : ℕ → ℕ ⊎ Rpc.Err G) (l : ℕ) (ctx : Context G) (dial : Dial G EC)
    (ended : Rpc.Err G) (link : List Bytes → ℕ → Link) (fuel : ℕ)
    (stub : List Bytes → ℕ → Stub G ℕ Replies) (closing : ℕ → Option (Rpc.Err G)) where
  pub stop_of : Exit Unit → Stop G
  stop_of (done u) = finished
  stop_of (panicked v) = unwound v

  -- The two demos.
  pub demos : Caller G ℕ Replies → World → Stop G × World
  unfolding stop_of
  demos caller w =
      let (r, w') = run_unary_demo G env caller ctx l w in
      elim r [
        | panicked v ↦ (unwound v, w')
        | done u ↦ let (r', w'') = run_stream_demo G env caller ctx l w' in (stop_of r', w'')
      ]

  -- `main` behind `UpdateState`.
  pub resolved : List Bytes → Lifecycle → World → Stop G × World
  unfolding demos
  resolved addrs s w = elim (wait_ready G EC ended (link addrs) fuel s) [
    | panicked v ↦ (unwound v, w)
    | done none ↦ (waiting, w)
    | done (some (some e)) ↦ (exited "wait ready: %v" e, w)
    | done (some none) ↦ elim (conn_of s) [
      | panicked v ↦ (unwound v, w)
      | done n ↦ demos (new_caller G (stub addrs n) l) w
    ]
  ]

  -- The deferred `Close`.
  pub deferred : Client G EC → Lifecycle → Stop G × World → Stop G × (World × Lifecycle)
  deferred c s (exited m e, w) = (exited m e, (w, s))
  deferred c s (waiting, w) = (waiting, (w, s))
  deferred c s (finished, w) = (finished, (close_client G EC closing c w s).1)
  deferred c s (unwound v, w) = (unwound v, (close_client G EC closing c w s).1)

  pub behind_connect :
      Client G EC
      → List Bytes
      → Option (Rpc.Err G) × (World × Lifecycle)
      → Stop G × (World × Lifecycle)
  unfolding resolved deferred
  behind_connect c addrs (some e, (w, s)) = (exited "connect: %v" e, (w, s))
  behind_connect c addrs (none, (w, s)) = deferred c s (resolved addrs s w)

  -- `main` behind `startServers`.
  pub with_servers : List (Started G ES) → World → Stop G × (World × Lifecycle)
  unfolding example_client behind_connect
  with_servers servers w =
      let w' = record w { now = w.now + warm_up } in
      let c = (example_client G EC l w').client in
      behind_connect c (map (λ s. s.addr) servers) (connect G EC dial c w' unconnected)

  pub main : World → Setup G R → Stop G × (World × Lifecycle)
  unfolding with_servers
  main w shared =
      let (r, (w', shared')) = start_servers G ES R net listen l w shared in
      elim r [
        | inr e ↦ (exited "listen: %v" e, (w', unconnected))
        | inl servers ↦ with_servers servers w'
      ]
