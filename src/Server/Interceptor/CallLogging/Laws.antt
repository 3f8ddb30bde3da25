-- ===== src/Server/Interceptor/CallLogging/Laws.antt =====
-- What the server writes about a call, and at which level.
use grpc_template.Common.{
  ℕ, ◌-◌, ◌≡◌, refl, ◌⊎◌, inl, inr, Bool, true, false, Option, none, some, [], ◌∷◌, ◌++◌, String,
  arith,
}
use grpc_template.World.{World, Level, Entry, Exit, done, panicked}
use grpc_template.Logging.{resolve}
use grpc_template.Rpc.{Rpc, Context, code_canceled}
use grpc_template.Server.Interceptor.Calls.{UnaryHandler, ServerStream, StreamHandler}
use grpc_template.Server.Interceptor.Config.{Config, is_member, is_demoted}
use grpc_template.Server.Interceptor.CallLogging.{
  build_log_args, outcome, log_call, logging, stream_logging,
}

module _ {G : Rpc} (cfg : Config G) (method : String) where
  -- The error has the code Canceled and the method is demoted.
  abbrev pub Expected : Rpc.Err G → Type 0
  Expected e =
      (Rpc.status_code G (some e) ≡ code_canceled) × (is_member method cfg.demoted_methods ≡ true)

  -- Info without an error, Debug for an expected error, Error for any other.
  abbrev pub Ranks : Option (Rpc.Err G) → Level → Type 0
  Ranks none level = level ≡ Level.info
  Ranks (some e) level =
      (Expected e × (level ≡ Level.debug)) ⊎ (¬ (Expected e) × (level ≡ Level.error))

  outcome-Ranks : (err : Option (Rpc.Err G)) → Ranks err (outcome G cfg method err).0
  unfolding outcome is_demoted
  outcome-Ranks none = refl
  outcome-Ranks (some e) = ground arith

  -- The entry that a call leaves.
  abbrev pub Written : ℕ → ℕ → Context G → Option (Rpc.Err G) → World → World → Type 0
  Written l started ctx err w v =
      (e : Entry) × (v ≡ record w { log = w.log ++ e ∷ [] })
      × (e.handler ≡ l)
      × Ranks err e.level
      × (e.args ≡ build_log_args G ctx method (w.now - started) err cfg.trust_proxy)

  log_call-Written :
      (streaming : Bool) (l started : ℕ) (ctx : Context G) (err : Option (Rpc.Err G)) (w : World)
      → Written l started ctx err w (log_call G cfg streaming method l started ctx err w)
  unfolding log_call
  log_call-Written streaming l started ctx err w = (_, refl, refl, outcome-Ranks err, refl)

  -- What a unary handler's result leads to, and a stream handler's.
  abbrev pub Logs :
      {A : Type 0}
      → UnaryHandler G A
      → Context G
      → World
      → World
      → Exit (Option A × Option (Rpc.Err G))
      → Type 0
  Logs {A = A} handler ctx w w' r =
      ((v : String) × (r ≡ panicked v) × (logging G cfg method handler ctx w ≡ (r, w')))
      ⊎ ((resp : Option A) × (err : Option (Rpc.Err G)) × (v : World) × (r ≡ done (resp, err))
          × (logging G cfg method handler ctx w ≡ (r, v))
          × Written (resolve cfg.logger w) w.now ctx err w' v)

  abbrev pub StreamLogs :
      StreamHandler G → ServerStream G → World → World → Exit (Option (Rpc.Err G)) → Type 0
  StreamLogs handler ss w w' r =
      ((v : String) × (r ≡ panicked v) × (stream_logging G cfg method handler ss w ≡ (r, w')))
      ⊎ ((err : Option (Rpc.Err G)) × (v : World) × (r ≡ done err)
          × (stream_logging G cfg method handler ss w ≡ (r, v))
          × Written (resolve cfg.logger w) w.now ss.context err w' v)

  pub logged :
      {A : Type 0} (handler : UnaryHandler G A) (ctx : Context G) (w w' : World)
      (r : Exit (Option A × Option (Rpc.Err G)))
      → handler ctx w ≡ (r, w')
      → Logs handler ctx w w' r
  unfolding logging
  logged handler ctx w w' (panicked v) e = inl (v, refl, ground arith)
  logged handler ctx w w' (done (resp, err)) e = inr (
    resp,
    err,
    log_call G cfg false method (resolve cfg.logger w) w.now ctx err w',
    refl,
    ground arith,
    log_call-Written false (resolve cfg.logger w) w.now ctx err w',
  )

  stream_logged :
      (handler : StreamHandler G) (ss : ServerStream G) (w w' : World)
      (r : Exit (Option (Rpc.Err G)))
      → handler ss w ≡ (r, w')
      → StreamLogs handler ss w w' r
  unfolding stream_logging
  stream_logged handler ss w w' (panicked v) e = inl (v, refl, ground arith)
  stream_logged handler ss w w' (done err) e = inr (
    err,
    log_call G cfg true method (resolve cfg.logger w) w.now ss.context err w',
    refl,
    ground arith,
    log_call-Written true (resolve cfg.logger w) w.now ss.context err w',
  )

  -- `Logging` and `StreamLogging` return what the handler returns. Behind it they write one entry,
  -- to the log handler that was current before the call: at level Info without an error, at level
  -- Debug for the code Canceled of a demoted method, at level Error otherwise. A panic passes
  -- through them and leaves no entry.
  pub logging-Written :
      {A : Type 0} (handler : UnaryHandler G A) (stream_handler : StreamHandler G) (ctx : Context G)
      (ss : ServerStream G) (w w1 w2 : World) (r1 : Exit (Option A × Option (Rpc.Err G)))
      (r2 : Exit (Option (Rpc.Err G)))
      → handler ctx w ≡ (r1, w1)
      → stream_handler ss w ≡ (r2, w2)
      → Logs handler ctx w w1 r1 × StreamLogs stream_handler ss w w2 r2
  logging-Written handler stream_handler ctx ss w w1 w2 r1 r2 e1 e2 =
      (logged handler ctx w w1 r1 e1, stream_logged stream_handler ss w w2 r2 e2)
