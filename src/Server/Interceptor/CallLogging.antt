-- ===== src/Server/Interceptor/CallLogging.antt =====
-- internal/server/interceptor/logging.go: `Logging`, `StreamLogging` and `buildLogArgs`. A handler that
-- panics unwinds the interceptor before it logs.
pub mod Laws
mod Tests
use grpc_template.Common.{
  ℕ, ◌-◌, Bool, true, false, ◌&&◌, ◌==◌, Option, none, some, List, [], ◌∷◌, ◌++◌, String, Bytes,
  codes, bytes_eq, is_empty, if◌then◌else◌,
}
use grpc_template.World.{World, Level, Value, emit, Exit, done, panicked}
use grpc_template.Logging.{resolve}
use grpc_template.Rpc.{Rpc, Context, code_canceled}
use grpc_template.Server.Interceptor.Calls.{UnaryHandler, ServerStream, StreamHandler}
use grpc_template.Server.Interceptor.Config.{Config, is_demoted}
use grpc_template.Server.Interceptor.PeerKey.{peer_key}
use grpc_template.Server.Interceptor.RequestId.{request_id_from_context}

module _ (G : Rpc) where
  abbrev pub error_args : Option (Rpc.Err G) → List (String × Value)
  error_args none = []
  error_args (some e) = ("error", Value.text (Rpc.error_text G e)) ∷ []

  unfoldable pub build_log_args :
      Context G → String → ℕ → Option (Rpc.Err G) → Bool → List (String × Value)
  unfolding peer_key request_id_from_context
  build_log_args ctx method duration err trust_proxy =
      let key = peer_key G ctx trust_proxy in
      let id = request_id_from_context G ctx in
      ("method", Value.text method)
      ∷ ("duration", Value.elapsed duration)
      ∷ ("code", Value.code (Rpc.from_error G err).0.code)
      ∷ ((if bytes_eq key (codes "unknown") then [] else ("peer", Value.bytes key) ∷ [])
          ++ ((if is_empty id then [] else ("request_id", Value.bytes id) ∷ []) ++ error_args err))

  -- The level and the message behind the word that both interceptors begin with.
  pub outcome : Config G → String → Option (Rpc.Err G) → Level × Bool
  unfolding is_demoted
  outcome cfg method none = (Level.info, true)
  outcome cfg method (some e) =
      if (Rpc.status_code G (some e) == code_canceled) && is_demoted G cfg method
      then (Level.debug, true)
      else (Level.error, false)

  abbrev pub message : Bool → Bool → String
  message false true = "rpc completed"
  message false false = "rpc failed"
  message true true = "stream rpc completed"
  message true false = "stream rpc failed"

  pub log_call : Config G → Bool → String → ℕ → ℕ → Context G → Option (Rpc.Err G) → World → World
  unfolding build_log_args outcome
  log_call cfg streaming method l started ctx err w =
      let (level, completed) = outcome cfg method err in
      emit l level (message streaming completed)
        (build_log_args ctx method (w.now - started) err cfg.trust_proxy) w

  pub logging : {A : Type 0} → Config G → String → UnaryHandler G A → UnaryHandler G A
  unfolding log_call resolve
  logging cfg method handler ctx w =
      let (r, w') = handler ctx w in
      elim r [
        | panicked v ↦ (panicked v, w')
        | done a ↦ (done a, log_call cfg false method (resolve cfg.logger w) w.now ctx a.1 w')
      ]

  pub stream_logging : Config G → String → StreamHandler G → StreamHandler G
  unfolding log_call resolve
  stream_logging cfg method handler ss w =
      let (r, w') = handler ss w in
      elim r [
        | panicked v ↦ (panicked v, w')
        | done err ↦
            (done err, log_call cfg true method (resolve cfg.logger w) w.now ss.context err w')
      ]
