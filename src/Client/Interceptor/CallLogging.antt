-- ===== src/Client/Interceptor/CallLogging.antt =====
-- internal/client/interceptor/logging.go: `Logging` and `StreamLogging`. `time.Since` is the
-- difference of two readings of the world's clock.
pub mod Laws
mod Tests
use grpc_template.Common.{ℕ, ◌-◌, Option, none, some, List, [], ◌∷◌, String}
use grpc_template.World.{World, Level, Value, emit}
use grpc_template.Logging.{resolve}
use grpc_template.Rpc.{Rpc, Context}
use grpc_template.Client.Interceptor.Config.{Config}

module _ (G : Rpc) where
  -- The entry about a call that has ended; `started` is the clock before it.
  pub log_result : ℕ → String → ℕ → Option (Rpc.Err G) → World → World
  log_result l method started none w =
      emit l Level.info "RPC completed"
        (("method", Value.text method)
          ∷ ("code", Value.code (Rpc.from_error G none).0.code)
          ∷ ("duration", Value.elapsed (w.now - started))
          ∷ [])
        w
  log_result l method started (some e) w =
      emit l Level.error "RPC failed"
        (("method", Value.text method)
          ∷ ("code", Value.code (Rpc.from_error G (some e)).0.code)
          ∷ ("duration", Value.elapsed (w.now - started))
          ∷ ("error", Value.text (Rpc.from_error G (some e)).0.message)
          ∷ [])
        w

  -- The handler is resolved and the clock read before the call.
  pub logging :
      Config G
      → String
      → (Context G → World → Option (Rpc.Err G) × World)
      → Context G
      → World
      → Option (Rpc.Err G) × World
  unfolding log_result resolve
  logging cfg method invoker ctx w =
      let (err, w') = invoker ctx w in (err, log_result (resolve cfg.logger w) method w.now err w')

  -- What `StreamLogging` does with the streamer's result.
  pub stream_opened :
      {S : Type 0}
      → ℕ
      → String
      → ℕ
      → Option S
      → Option (Rpc.Err G)
      → World
      → (Option S × Option (Rpc.Err G)) × World
  stream_opened l method started cs none w = ((cs, none), w)
  stream_opened l method started cs (some e) w = (
    (none, some e),
    emit l Level.error "stream failed to open"
        (("method", Value.text method)
          ∷ ("code", Value.code (Rpc.from_error G (some e)).0.code)
          ∷ ("duration", Value.elapsed (w.now - started))
          ∷ ("error", Value.text (Rpc.from_error G (some e)).0.message)
          ∷ [])
        w,
  )

  pub stream_logging :
      {S : Type 0}
      → Config G
      → String
      → (Context G → World → (Option S × Option (Rpc.Err G)) × World)
      → Context G
      → World
      → (Option S × Option (Rpc.Err G)) × World
  unfolding stream_opened resolve
  stream_logging cfg method streamer ctx w =
      let l = resolve cfg.logger w in
      let ((cs, err), w') =
        streamer ctx (emit l Level.info "stream opening" (("method", Value.text method) ∷ []) w) in
      stream_opened l method w.now cs err w'
