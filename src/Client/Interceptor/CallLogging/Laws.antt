-- ===== src/Client/Interceptor/CallLogging/Laws.antt =====
-- Logging and StreamLogging (client logging.go): the results and the entries of a call.
use grpc_template.Common.{ℕ, ◌≡◌, refl, ◌-◌, Option, none, some, [], ◌∷◌, ◌++◌, String, arith}
use grpc_template.World.{World, Level, Value, Entry, emit}
use grpc_template.Logging.{resolve}
use grpc_template.Rpc.{Rpc, Context}
use grpc_template.Client.Interceptor.Config.{Config}
use grpc_template.Client.Interceptor.CallLogging.{
  log_result, logging, stream_opened, stream_logging,
}

-- `v` is `w` with one more log entry, `e`.
abbrev pub Logs : Entry → World → World → Type 0
Logs e w v = v ≡ record w { log = w.log ++ e ∷ [] }

-- The entry of a handler with a level that tells whether the call has failed.
abbrev pub Reports {ℓ} : {E : Type ℓ} → ℕ → Option E → Entry → Type 0
Reports l none e = (e.handler ≡ l) × (e.level ≡ Level.info)
Reports l (some err) e = (e.handler ≡ l) × (e.level ≡ Level.error)

module _ (G : Rpc) where
  log_result-Logs :
      (l : ℕ) (method : String) (started : ℕ) (r : Option (Rpc.Err G)) (w : World)
      → (e : Entry) × Logs e w (log_result G l method started r w) × Reports l r e
  unfolding log_result
  log_result-Logs l method started none w = (_, refl, (refl, refl))
  log_result-Logs l method started (some err) w = (_, refl, (refl, refl))

  -- `Logging` returns what the call returns, and behind what the call itself does to the world it
  -- writes exactly one entry, to the handler that was current before the call: at level Error if the
  -- call returns an error, at level Info if it does not.
  pub logging-Logs :
      (cfg : Config G) (method : String) (invoker : Context G → World → Option (Rpc.Err G) × World)
      (ctx : Context G) (w : World)
      → let (r, v) = logging G cfg method invoker ctx w in
        (r ≡ (invoker ctx w).0)
        × ((e : Entry) × Logs e (invoker ctx w).1 v × Reports (resolve cfg.logger w) r e)
  unfolding logging
  logging-Logs cfg method invoker ctx w = (refl, log_result-Logs _ method w.now _ _)

  abbrev failure : ℕ → String → ℕ → Rpc.Err G → World → Entry
  failure l method started e w = record {
    handler = l;
    level = Level.error;
    message = "stream failed to open";
    args =
        ("method", Value.text method)
        ∷ ("code", Value.code (Rpc.from_error G (some e)).0.code)
        ∷ ("duration", Value.elapsed (w.now - started))
        ∷ ("error", Value.text (Rpc.from_error G (some e)).0.message)
        ∷ [];
  }

  -- `StreamLogging` writes "stream opening" before it opens the stream. If that succeeds it returns
  -- the stream and writes no more; if it fails it returns no stream and the same error, and writes
  -- one entry at level Error to the same handler.
  pub stream_logging-Logs :
      {S : Type 0} (cfg : Config G) (method : String)
      (streamer : Context G → World → (Option S × Option (Rpc.Err G)) × World) (ctx : Context G)
      (w w' : World) (cs : Option S) (r : Option (Rpc.Err G))
      → let l = resolve cfg.logger w in
        streamer ctx (emit l Level.info "stream opening" (("method", Value.text method) ∷ []) w)
          ≡ ((cs, r), w')
        → (r ≡ none → stream_logging G cfg method streamer ctx w ≡ ((cs, none), w'))
          × ((x : Rpc.Err G)
              → r ≡ some x
              → (e : Entry) × (stream_logging G cfg method streamer ctx w
                  ≡ ((none, some x), record w' { log = w'.log ++ e ∷ [] }))
                × Reports l r e)
  unfolding stream_logging stream_opened
  stream_logging-Logs cfg method streamer ctx w w' cs none h = ((λ n. ground arith), λ x e. cc)
  stream_logging-Logs cfg method streamer ctx w w' cs (some y) h = (
    (λ n. cc),
    λ x e. (failure (resolve cfg.logger w) method w.now y w', ground arith, (refl, refl)),
  )
