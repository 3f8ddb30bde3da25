-- ===== src/Server/Lifecycle.antt =====
-- internal/server/server.go: `setupServer` and `Run`. A listener is known by its identity; what
-- happens to the server while it serves is an argument. The goroutine's log entry is taken to come
-- before what ends the call.
pub mod Goroutines
pub mod Run
pub mod Tests
use grpc_template.Common.{
  ℕ, Bool, true, false, Option, none, some, List, [], ◌∷◌, ◌++◌, map, String, ◌⊎◌, inl, inr,
  if◌then◌else◌,
}
use grpc_template.World.{World, Level, Value, emit}
use grpc_template.Rpc.{Rpc}
use grpc_template.Server.Options.{Env, GrpcOption, Server, build_options}

-- What is registered on a `grpc.Server`.
pub data Registration : Type 0 where
  service : ℕ → Registration
  health : Registration
  reflection : Registration

-- How serving ends: the context is cancelled or a signal comes, or `Serve` returns.
pub data Ending (E : Type 0) : Type 0 where
  cancelled : Ending E
  serve_ended : Option E → Ending E

module _ (G : Rpc) (E : Env G) where
  -- A `grpc.Server` by its options and its registrations.
  pub record GrpcServer : Type 0 where
    pub options : List (GrpcOption G E)
    pub registered : List Registration

  -- package net: a listener on a port or an error, and a listener's address.
  pub record Net : Type 0 where
    pub listen : String → ℕ ⊎ Rpc.Err G
    pub address : ℕ → String

  abbrev extra : Bool → List Registration
  extra false = []
  extra true = reflection ∷ []

  pub setup_server : Server G E → World → GrpcServer × (World × Server G E)
  unfolding build_options
  setup_server s w =
      let (opts, w') = build_options G E s w in
      (
        record {
          options = opts;
          registered = map service s.registrars ++ (health ∷ extra s.reflection);
        },
        (
          if s.reflection
              then emit s.logger Level.info "gRPC server reflection enabled" [] w'
              else w',
          record s { serving = some true },
        ),
      )

  -- The injected listener, or a new one on the port.
  pub take_listener : Net → Server G E → ℕ ⊎ Rpc.Err G
  take_listener net s = elim s.listener [ some l ↦ inl l | none ↦ Net.listen net s.port ]

  -- `Run` from the listener on. The log entries of the shutdown are written one by one.
  pub serve :
      Net
      → (GrpcServer → ℕ → Ending (Rpc.Err G))
      → GrpcServer
      → ℕ
      → Server G E
      → World
      → Option (Rpc.Err G) × (World × Server G E)
  serve net ending g l s w =
      let w' =
        emit s.logger Level.info "gRPC server listening"
          (("address", Value.text (Net.address net l)) ∷ []) w in
      elim (ending g l) [
        | cancelled ↦ (
          none,
          (
            emit s.logger Level.info "gRPC server stopped gracefully" [] (
                emit s.logger Level.info "shutdown signal received, draining connections..." [] w'),
            record s { serving = some false },
          ),
        )
        | serve_ended e ↦ (
          some (Env.wrap_error E "failed to serve: %w" e),
          (w', record s { serving = some false }),
        )
      ]

  pub run :
      Net
      → (GrpcServer → ℕ → Ending (Rpc.Err G))
      → Server G E
      → World
      → Option (Rpc.Err G) × (World × Server G E)
  unfolding setup_server take_listener serve
  run net ending s w = elim s.config_err [
    | some e ↦ (some (Env.wrap_error E "server: configuration error: %w" (some e)), (w, s))
    | none ↦
        let (g, (w', s')) = setup_server s w in
        let consumed = record s' { listener = none } in
        elim (take_listener net s') [
          | inr e ↦
              (some (Env.wrap_error E "failed to listen on port %s: %w" (some e)), (w', consumed))
          | inl l ↦ serve net ending g l consumed w'
        ]
  ]
