-- ===== src/Client/Interceptor/Timeout.antt =====
-- internal/client/interceptor/timeout.go: `Timeout`. The deferred `cancel` only frees the timer.
pub mod Laws
mod Tests
use grpc_template.Common.{ℕ, ◌+◌, ℤ, is_pos, pos_part, Option, none, some, if◌then◌else◌}
use grpc_template.World.{World}
use grpc_template.Rpc.{Rpc, Context}
use grpc_template.Client.Interceptor.Config.{Config}

module _ (G : Rpc) where
  -- The context that the call runs on: `context.WithTimeout` where the timeout is positive and no
  -- deadline is set.
  pub timeout_context : ℤ → Context G → World → Context G
  timeout_context timeout ctx w =
      if is_pos timeout
      then elim ctx.deadline [
        | some d ↦ ctx
        | none ↦ record ctx { deadline = some (w.now + pos_part timeout) }
      ]
      else ctx

  pub timeout :
      Config G
      → (Context G → World → Option (Rpc.Err G) × World)
      → Context G
      → World
      → Option (Rpc.Err G) × World
  unfolding timeout_context
  timeout cfg invoker ctx w = invoker (timeout_context cfg.default_timeout ctx w) w
