-- ===== src/Server/Interceptor/Recovery/Laws.antt =====
-- Recovery and StreamRecovery (recovery.go): results and panics of handlers.
use grpc_template.Common.{
  ℕ, ◌≡◌, refl, ◌⊎◌, inl, inr, Option, none, some, [], ◌∷◌, ◌++◌, String, arith,
}
use grpc_template.World.{World, Level, Value, Entry, Exit, done, panicked}
use grpc_template.Logging.{resolve}
use grpc_template.Rpc.{Rpc, Context}
use grpc_template.Server.Interceptor.Calls.{UnaryHandler, ServerStream, StreamHandler}
use grpc_template.Server.Interceptor.Config.{Config}
use grpc_template.Server.Interceptor.Recovery.{internal_error, report, recovery, stream_recovery}

-- One more entry at level Error for a log handler, about a panic with the value `v`.
abbrev pub Reported : ℕ → String → String → World → World → Type 0
Reported l method v w w' =
    (e : Entry) × (st : String) × (w' ≡ record w { log = w.log ++ e ∷ [] })
    × (e.handler ≡ l)
    × (e.level ≡ Level.error)
    × (e.args
        ≡ ("method", Value.text method) ∷ ("panic", Value.text v) ∷ ("stack", Value.text st) ∷ [])

module _ {G : Rpc} (stack : World → String) (cfg : Config G) (method : String) where
  -- What becomes of a unary handler's result and of a stream handler's.
  abbrev pub Recovers :
      {A : Type 0}
      → UnaryHandler G A
      → Context G
      → World
      → World
      → Exit (Option A × Option (Rpc.Err G))
      → Type 0
  Recovers {A = A} handler ctx w w' r =
      ((a : Option A × Option (Rpc.Err G)) × (r ≡ done a)
        × (recovery G stack cfg method handler ctx w ≡ (done a, w')))
      ⊎ ((v : String) × (v' : World) × (r ≡ panicked v)
          × (recovery G stack cfg method handler ctx w ≡ (done (none, some (internal_error G)), v'))
          × Reported (resolve cfg.logger w) method v w' v')

  abbrev pub StreamRecovers :
      StreamHandler G → ServerStream G → World → World → Exit (Option (Rpc.Err G)) → Type 0
  StreamRecovers handler ss w w' r =
      ((a : Option (Rpc.Err G)) × (r ≡ done a)
        × (stream_recovery G stack cfg method handler ss w ≡ (done a, w')))
      ⊎ ((v : String) × (v' : World) × (r ≡ panicked v)
          × (stream_recovery G stack cfg method handler ss w ≡ (done (some (internal_error G)), v'))
          × Reported (resolve cfg.logger w) method v w' v')

  pub recovered :
      {A : Type 0} (handler : UnaryHandler G A) (ctx : Context G) (w w' : World)
      (r : Exit (Option A × Option (Rpc.Err G)))
      → handler ctx w ≡ (r, w')
      → Recovers handler ctx w w' r
  unfolding recovery report
  recovered handler ctx w w' (done a) e = inl (a, refl, ground arith)
  recovered handler ctx w w' (panicked v) e = inr (
    v,
    report G stack (resolve cfg.logger w) "panic recovered in gRPC handler" method v w',
    refl,
    ground arith,
    (_, stack w', refl, refl, refl, refl),
  )

  stream_recovered :
      (handler : StreamHandler G) (ss : ServerStream G) (w w' : World)
      (r : Exit (Option (Rpc.Err G)))
      → handler ss w ≡ (r, w')
      → StreamRecovers handler ss w w' r
  unfolding stream_recovery report
  stream_recovered handler ss w w' (done a) e = inl (a, refl, ground arith)
  stream_recovered handler ss w w' (panicked v) e = inr (
    v,
    report G stack (resolve cfg.logger w) "panic recovered in gRPC stream handler" method v w',
    refl,
    ground arith,
    (_, stack w', refl, refl, refl, refl),
  )

  -- Whatever the handlers do, `Recovery` and `StreamRecovery` return. A result passes unchanged, with
  -- the world; a panic becomes a nil response and the generic Internal error, which does not depend
  -- on the panic's value, and one entry at level Error with that value, to the log handler that was
  -- current before the call.
  pub recovery_returns :
      {A : Type 0} (handler : UnaryHandler G A) (stream_handler : StreamHandler G) (ctx : Context G)
      (ss : ServerStream G) (w w1 w2 : World) (r1 : Exit (Option A × Option (Rpc.Err G)))
      (r2 : Exit (Option (Rpc.Err G)))
      → handler ctx w ≡ (r1, w1)
      → stream_handler ss w ≡ (r2, w2)
      → Recovers handler ctx w w1 r1 × StreamRecovers stream_handler ss w w2 r2
  recovery_returns handler stream_handler ctx ss w w1 w2 r1 r2 e1 e2 =
      (recovered handler ctx w w1 r1 e1, stream_recovered stream_handler ss w w2 r2 e2)
