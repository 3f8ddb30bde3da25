-- ===== src/Cmd/Client.antt =====
-- cmd/client/main.go: the options of its client, and the calls that go through it. gRPC runs the
-- interceptors of a client from the first to the last, each around the next.
pub mod Session
mod Tests
use grpc_template.Common.{
  ℕ, zero, suc, ◌+◌, ◌≤◌, ◌<◌, ◌≡◌, refl, subst, pos, pos_part, Option, none, some, List, [], ◌∷◌,
  ◌++◌, String, arith, ℤ, true, false, Bool-cases, inl, inr,
}
use grpc_template.World.{World, Entry}
use grpc_template.Logging.{resolve}
use grpc_template.Rpc.{Rpc, Context}
use grpc_template.Client.Interceptor.Config as Shared
use grpc_template.Client.Interceptor.Config.{Config, default_config, configure}
use grpc_template.Client.Interceptor.Retry as Retrying
use grpc_template.Client.Interceptor.Retry.{retry}
use grpc_template.Client.Interceptor.Retry.Loop.{Attempts, retry-Outcome}
use grpc_template.Client.Interceptor.Timeout.{timeout}
use grpc_template.Client.Interceptor.Timeout.Laws.{due, timeout-due}
use grpc_template.Client.Interceptor.CallLogging.{logging}
use grpc_template.Client.Interceptor.CallLogging.Laws.{Logs, Reports, logging-Logs}
use grpc_template.Client.Options.{
  Env, Client, Build, ClientOption, with_insecure, with_logger, with_default_timeout, with_retry,
  with_unary_interceptors, with_stream_interceptors, with_load_balancing, new_client, apply_options,
}

-- The interceptors that the program asks for.
abbrev pub logging_id : ℕ
logging_id = 0

abbrev pub timeout_id : ℕ
timeout_id = 1

abbrev pub retry_id : ℕ
retry_id = 2

abbrev pub stream_logging_id : ℕ
stream_logging_id = 3

abbrev pub five_seconds : ℕ
five_seconds = 5000000000

abbrev pub second : ℕ
second = 1000000000

module _ (G : Rpc) where
  abbrev pub Call : Type 0
  Call = Context G → World → Option (Rpc.Err G) × World

  -- `l` is `logging.Default()`.
  pub client_options : (E : Env G) → ℕ → List (ClientOption G E)
  client_options E l =
      with_insecure G E
      ∷ with_logger G E (some l)
      ∷ with_default_timeout G E (pos five_seconds)
      ∷ with_retry G E (pos 3) (pos second)
      ∷ with_unary_interceptors G E (logging_id ∷ timeout_id ∷ retry_id ∷ [])
      ∷ with_stream_interceptors G E (stream_logging_id ∷ [])
      ∷ with_load_balancing G E "round_robin"
      ∷ []

  pub main_client : (E : Env G) → ℕ → World → Build G E
  unfolding client_options new_client default_config
  main_client E l w =
      new_client G E "dns:///localhost:50051" (client_options E l) w (default_config G)

  module _ (sleep : Context G → ℤ → World → Option (Rpc.Err G) × World) (int64_n : World → ℕ → ℕ)
      (cfg : Config G) (method : String) where
    abbrev pub retrying : Call → Retrying.Env G
    retrying call = record { invoker = call; sleep = sleep; int64_n = int64_n }

    -- One interceptor around the rest of the chain.
    pub intercept : ℕ → Call → Call
    intercept zero call ctx w = logging G cfg method call ctx w
    intercept (suc zero) call ctx w = timeout G cfg call ctx w
    intercept (suc (suc zero)) call ctx w = retry G (retrying call) cfg ctx method w
    intercept (suc (suc (suc n))) call ctx w = call ctx w

    pub chain_unary : List ℕ → Call → Call
    unfolding intercept
    chain_unary [] call = call
    chain_unary (i ∷ is) call = intercept i (chain_unary is call)

  module _ (sleep : Context G → ℤ → World → Option (Rpc.Err G) × World) (int64_n : World → ℕ → ℕ)
      (cfg : Config G) (method : String) where
    abbrev pub attempting : Call → Retrying.Env G
    attempting call = retrying sleep int64_n cfg method call

    -- The outcome of a call: between one and four attempts, all under one deadline, and one entry of
    -- `l` behind them.
    abbrev pub Finished : ℕ → Call → Context G → World → Option (Rpc.Err G) × World → Type 0
    Finished l call ctx w out =
        (n : ℕ) × (0 < n)
        × (n ≤ 4)
        × (v : World) × Attempts {G = G} (attempting call) cfg
            (record ctx { deadline = due (pos five_seconds) ctx.deadline w.now }) method n 0 w out.0
            v
        × (e : Entry) × Logs e v out.1
        × Reports l out.0 e

    chain_unary-Finished :
        (l : ℕ) (call : Call) (ctx : Context G) (w : World)
        → cfg.logger ≡ some l
        → cfg.default_timeout ≡ pos five_seconds
        → cfg.retry_max ≡ pos 3
        → Finished l call ctx w (
            chain_unary sleep int64_n cfg method
              (logging_id ∷ timeout_id ∷ retry_id ∷ [])
              call
              ctx
              w)
    unfolding chain_unary intercept resolve
    chain_unary-Finished l call ctx w by limit most =
        let retried : Call = λ c u. retry G (attempting call) cfg c method u in
        let inner : Call = λ c u. timeout G cfg retried c u in
        let ctx1 : Context G = record ctx {
          deadline = due (pos five_seconds) ctx.deadline w.now;
        } in
        let once : inner ctx w ≡ retried ctx1 w =
          rw (← limit) (timeout-due {G = G} cfg retried ctx w) in
        let three : pos_part cfg.retry_max ≡ 3 = rw most refl in
        let (n, some_call, few, attempts) =
          retry-Outcome (attempting call) cfg ctx1 method w (omega arith) in
        let (r, (e, wrote, by_l)) = logging-Logs G cfg method inner ctx w in
        (
          n,
          some_call,
          omega arith,
          (inner ctx w).1,
          rw r (rw once attempts),
          e,
          wrote,
          subst (λ m. Reports m (logging G cfg method inner ctx w).0 e) (rw by refl) by_l,
        )

module _ {G : Rpc} (E : Env G) (l : ℕ) (started : World) where
  abbrev built : Build G E
  built = main_client G E l started

  shared_settings :
      (built.shared.logger ≡ some l)
      × (built.shared.default_timeout ≡ pos five_seconds)
      × (built.shared.retry_max ≡ pos 3)
  unfolding main_client client_options new_client default_config apply_options configure
      with_insecure with_logger with_default_timeout with_retry with_unary_interceptors
      with_stream_interceptors with_load_balancing Shared.with_logger Shared.with_default_timeout
      Shared.with_retry
  shared_settings = (refl, refl, refl)

  chained_ids : built.client.unary_interceptors ≡ logging_id ∷ timeout_id ∷ retry_id ∷ []
  unfolding main_client client_options new_client default_config apply_options configure
      with_insecure with_logger with_default_timeout with_retry with_unary_interceptors
      with_stream_interceptors with_load_balancing
  chained_ids = elim (Bool-cases (Env.balancer_registered E "round_robin")) [
    | inl e ↦ rw e refl
    | inr e ↦ rw e refl
  ]

  -- A unary call of the command line client: whatever the call does, the client makes between one and
  -- four attempts, all of them under one deadline, which is the caller's or five seconds after the
  -- call began; it returns the last attempt's result, or the error of the context that ended during
  -- a wait; and it writes one entry to `l` behind all attempts, at level Error if the result is an
  -- error and at level Info if not.
  pub main_client-Finished :
      (sleep : Context G → ℤ → World → Option (Rpc.Err G) × World) (int64_n : World → ℕ → ℕ)
      (method : String) (call : Call G) (ctx : Context G) (w : World)
      → Finished G sleep int64_n built.shared method l call ctx w (
          chain_unary G sleep int64_n built.shared method built.client.unary_interceptors call ctx
            w)
  main_client-Finished sleep int64_n method call ctx w =
      let (by, limit, most) = shared_settings in
      rw chained_ids
        (chain_unary-Finished G sleep int64_n built.shared method l call ctx w by limit most)
