-- ===== src/Server/Interceptor/Recovery.antt =====
-- internal/server/interceptor/recovery.go: `Recovery` and `StreamRecovery`. The response is the named
-- result, nil when the handler has panicked. `debug.Stack` is an argument.
pub mod Laws
use grpc_template.Common.{ℕ, Option, none, some, List, [], ◌∷◌, String}
use grpc_template.World.{World, Level, Value, emit, Exit, done, panicked}
use grpc_template.Logging.{resolve}
use grpc_template.Rpc.{Rpc, Context, code_internal}
use grpc_template.Server.Interceptor.Calls.{UnaryHandler, ServerStream, StreamHandler}
use grpc_template.Server.Interceptor.Config.{Config}

module _ (G : Rpc) where
  abbrev pub internal_error : Rpc.Err G
  internal_error = Rpc.status_error G code_internal "internal server error"

  -- The log entry of the deferred function.
  pub report : (World → String) → ℕ → String → String → String → World → World
  report stack l msg method value w =
      emit l Level.error msg
        (("method", Value.text method)
          ∷ ("panic", Value.text value)
          ∷ ("stack", Value.text (stack w))
          ∷ [])
        w

  pub recovery :
      {A : Type 0} → (World → String) → Config G → String → UnaryHandler G A → UnaryHandler G A
  unfolding report resolve
  recovery stack cfg method handler ctx w =
      let (r, w') = handler ctx w in
      elim r [
        | done a ↦ (done a, w')
        | panicked v ↦ (
          done (none, some internal_error),
          report stack (resolve cfg.logger w) "panic recovered in gRPC handler" method v w',
        )
      ]

  pub stream_recovery : (World → String) → Config G → String → StreamHandler G → StreamHandler G
  unfolding report resolve
  stream_recovery stack cfg method handler ss w =
      let (r, w') = handler ss w in
      elim r [
        | done err ↦ (done err, w')
        | panicked v ↦ (
          done (some internal_error),
          report stack (resolve cfg.logger w) "panic recovered in gRPC stream handler" method v w',
        )
      ]
