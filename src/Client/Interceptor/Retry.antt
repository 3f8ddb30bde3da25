-- ===== src/Client/Interceptor/Retry.antt =====
-- internal/client/interceptor/retry.go: `Retry` and `isRetryable`. The call itself, the timer and
-- the random numbers are arguments that may depend on the world and change it.
pub mod Loop
mod Tests
use grpc_template.Common.{
  ℕ, zero, suc, ◌+◌, ◌-◌, ◌%◌, ◌^◌, ℤ, pos, is_pos, pos_part, signed64, Bool, true, false, not,
  ◌||◌, Option, none, some, List, [], ◌∷◌, String, ◌==◌, leb, if◌then◌else◌,
}
use grpc_template.World.{World, Level, Value, emit}
use grpc_template.Logging.{resolve}
use grpc_template.Rpc.{Rpc, Context, StatusInfo}
use grpc_template.Client.Interceptor.Config.{Config}
use grpc_template.Client.Interceptor.Backoff.{backoff_duration}

-- `slices.Contains`
pub is_retryable : ℕ → List ℕ → Bool
is_retryable c [] = false
is_retryable c (d ∷ ds) = c == d || is_retryable c ds

module _ (G : Rpc) where
  -- What `Retry` waits on and draws from: the rest of the call chain, the wait (`none` if the
  -- timer fires first, `ctx.Err()` if the context ends first) and `rand.Int64N`.
  pub record Env : Type 0 where
    pub invoker : Context G → World → Option (Rpc.Err G) × World
    pub sleep : Context G → ℤ → World → Option (Rpc.Err G) × World
    pub int64_n : World → ℕ → ℕ

  -- Whether the loop returns this result of an attempt at once: nil, an error without a status,
  -- or one whose code is not retryable.
  pub is_final : Config G → Option (Rpc.Err G) → Bool
  unfolding is_retryable
  is_final cfg none = true
  is_final cfg (some e) =
      let (st, has_status) = Rpc.from_error G (some e) in
      not has_status || not (is_retryable st.code cfg.retry_codes)

  -- The warning before the wait; attempts are counted from 1 in the log.
  warn_retry : Config G → String → ℕ → ℤ → Option (Rpc.Err G) → World → World
  unfolding resolve
  warn_retry cfg method attempt wait e w =
      emit (resolve cfg.logger w) Level.warn "retrying RPC"
        (("method", Value.text method)
          ∷ ("attempt", Value.number (pos (attempt + 1)))
          ∷ ("max_retries", Value.number cfg.retry_max)
          ∷ ("backoff", Value.number wait)
          ∷ ("error", Value.text (Rpc.from_error G e).0.message)
          ∷ [])
        w

  module _ (env : Env) (cfg : Config G) (ctx : Context G) (method : String) where
    -- The wait before the next attempt, with its warning.
    pub pause : ℕ → Option (Rpc.Err G) → World → Option (Rpc.Err G) × World
    unfolding warn_retry
    pause attempt e w =
        let wait = backoff_duration (env.int64_n w) attempt cfg.retry_backoff in
        env.sleep ctx wait (warn_retry cfg method attempt wait e w)

    -- The loop `for attempt := range rounds`, with the rounds left, the attempt and `lastErr`.
    pub retry_loop : ℕ → ℕ → Option (Rpc.Err G) → World → Option (Rpc.Err G) × World
    retry_loop zero attempt last w = (last, w)
    retry_loop (suc rounds) attempt last w =
        let (result, w') = env.invoker ctx w in
        elim (is_final cfg result || leb (pos_part cfg.retry_max) attempt) [
          | true ↦ (result, w')
          | false ↦
              let (ended, w'') = pause attempt result w' in
              elim ended [
                | some e ↦ (some e, w'')
                | none ↦ retry_loop rounds (attempt + 1) result w''
              ]
        ]

    -- `range cfg.retryMax + 1`: the sum wraps around in an int, and a range over a negative number
    -- runs no round.
    pub retry : World → Option (Rpc.Err G) × World
    unfolding retry_loop
    retry w =
        if is_pos cfg.retry_max
        then retry_loop (pos_part (signed64 ((pos_part cfg.retry_max + 1) % 2 ^ 64))) 0 none w
        else env.invoker ctx w
